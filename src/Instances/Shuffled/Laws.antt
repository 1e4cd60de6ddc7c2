-- ===== src/Instances/Shuffled/Laws.antt =====
-- shuffled_instance_reader.cc: what the reader delivers, window by window.
use mathlib.Core.List.Perm
use ml_io.Base.{
  ℕ, zero, suc, ◌+◌, ◌-◌, ◌≤◌, ◌<◌, ◌^◌, ◌≡◌, ◌≢◌, ◌⊎◌, inl, inr, ap, subst, ◌∙◌, Bool, true, false,
  Option, none, some, List, [], ◌∷◌, ◌++◌, Perm, append-nil, append_assoc, length, length-append,
  length-drop, length-take, take, drop, take-append-drop, get_elem?, arith,
}
use ml_io.Base.Perms.{Perm-length}
use ml_io.Action.{ok, Action}
use ml_io.Instances.Yields.{Yields, done, more, Yields-step}
use ml_io.Instances.Shuffled.Removal.{back_view, back-perm, get_elem?-some, remove_at-perm}
use ml_io.Instances.Shuffled.{
  size_max, Random, Shuffle, window, dist_max, State, back, pop_back, remove_at, fill,
  read_instance_core, start,
}

module _ {S A : Type 0} (rnd : Random A) (inner : Action S (Option A)) (p : Shuffle) where
  abbrev at : List A → Bool → rnd.Engine → S → State S A rnd.Engine
  at b h r i = record { buffer = b; inner_has_instance = h; mt = r; inner = i }

  data Filled (room : ℕ) (b : List A) (r : rnd.Engine) (i : S) (xs : List A) : Type 0 where
    full :
        (t : S)
        → fill rnd.shuffle inner room (at b true r i) ≡ (ok tt, at (b ++ take room xs) true r t)
        → room ≤ length xs
        → Yields inner t (drop room xs)
        → Filled room b r i xs
    ended :
        (t : S)
        → fill rnd.shuffle inner room (at b true r i)
          ≡ (ok tt, at (rnd.shuffle (b ++ xs) r).0 false (rnd.shuffle (b ++ xs) r).1 t)
        → length xs < room
        → Filled room b r i xs

  Filled-cons :
      (room : ℕ) (b : List A) (r : rnd.Engine) {i t : S} (x : A) {xs : List A}
      → inner i ≡ (ok (some x), t)
      → Filled room (b ++ x ∷ []) r t xs
      → Filled (suc room) b r i (x ∷ xs)
  unfolding fill
  Filled-cons room b r x {xs = xs} e (full u f h y) =
      full u (rw e (f ∙ rw append_assoc)) (omega arith) y
  Filled-cons room b r x {xs = xs} e (ended u f h) =
      ended u (rw e (f ∙ rw (append_assoc b (x ∷ []) xs))) (omega arith)

  Yields-Filled :
      (room : ℕ) (b : List A) (r : rnd.Engine) {i : S} {xs : List A}
      → Yields inner i xs
      → Filled room b r i xs
  unfolding fill
  Yields-Filled zero b r {i} y = full i (rw append-nil) (omega arith) y
  Yields-Filled (suc room) b r (done {t = t} e f) = ended t (rw (e, append-nil)) (omega arith)
  Yields-Filled (suc room) b r (more {x = x} e y) =
      Filled-cons room b r x e (Yields-Filled room (b ++ x ∷ []) r y)

  abbrev Shuffles : State S A rnd.Engine → List A → Type 0
  Shuffles s xs = (ys : List A) × Yields (read_instance_core rnd inner p) s ys × Perm ys xs

  -- Behind the end of the inner reader the buffer is emptied from its back.
  core-last :
      (b : List A) (r : rnd.Engine) (t : S) (z : A)
      → p.shuffle_window ≢ 1
      → back b ≡ some z
      → read_instance_core rnd inner p (at b false r t) ≡ (ok (some z), at (pop_back b) false r t)
  unfolding read_instance_core
  core-last [] r t z w e = cc
  core-last (x ∷ b) r t z w e = ground (arith, e)

  core-none :
      (r : rnd.Engine) (t : S)
      → p.shuffle_window ≢ 1
      → read_instance_core rnd inner p (at [] false r t) ≡ (ok none, at [] false r t)
  unfolding read_instance_core
  core-none r t w = ground arith

  drain :
      (n : ℕ) (b : List A) (r : rnd.Engine) (t : S)
      → p.shuffle_window ≢ 1
      → length b < n
      → Shuffles (at b false r t) b
  drain zero b r t w h = absurd (omega arith)
  drain (suc n) [] r t w h = ([], done (core-none r t w) (core-none r t w), Perm.nil)
  drain (suc n) (x ∷ b) r t w h =
      let (z, e, f) = back_view (x ∷ b) (omega arith) in
      let last = back-perm (x ∷ b) z f in
      let (ys, y, q) = drain n (pop_back (x ∷ b)) r t w (omega (arith, Perm-length last)) in
      (z ∷ ys, more (core-last (x ∷ b) r t z w e) y, Perm.trans (Perm.cons z q) last)

  -- A call with a full window.
  core-full :
      (b c : List A) (r : rnd.Engine) (i t : S) (x : A)
      → p.shuffle_window ≢ 1
      → fill rnd.shuffle inner (window p - length b) (at b true r i) ≡ (ok tt, at c true r t)
      → get_elem? c (rnd.draw (dist_max p) r).0 ≡ some x
      → read_instance_core rnd inner p (at b true r i) ≡ (
        ok (some x),
        at (remove_at (rnd.draw (dist_max p) r).0 c) true (rnd.draw (dist_max p) r).1 t,
      )
  unfolding read_instance_core
  core-full b [] r i t x w e g = cc
  core-full b (y ∷ c) r i t x w e g = ground (arith, e, g)

  core-ended :
      (b c : List A) (r r' : rnd.Engine) (i t : S)
      → p.shuffle_window ≢ 1
      → fill rnd.shuffle inner (window p - length b) (at b true r i) ≡ (ok tt, at c false r' t)
      → read_instance_core rnd inner p (at b true r i)
        ≡ read_instance_core rnd inner p (at c false r' t)
  unfolding read_instance_core
  core-ended b c r r' i t w e = ground (arith, e)

  regroup : (room : ℕ) (b xs : List A) → (b ++ take room xs) ++ drop room xs ≡ b ++ xs
  regroup room b xs = append_assoc b _ _ ∙ ap (λ c. b ++ c) (take-append-drop room xs)

  -- One random pop from a full window, and then the rest.
  pop_full :
      (n : ℕ) (b : List A) (r : rnd.Engine) (i t : S) (xs : List A)
      → p.shuffle_window ≢ 1
      → length b + length xs < suc n
      → length b ≤ window p
      → (rnd.draw (dist_max p) r).0 < window p
      → fill rnd.shuffle inner (window p - length b) (at b true r i)
        ≡ (ok tt, at (b ++ take (window p - length b) xs) true r t)
      → window p - length b ≤ length xs
      → ((c : List A) (r' : rnd.Engine)
          → length c + length (drop (window p - length b) xs) < n
          → length c ≤ window p
          → Shuffles (at c true r' t) (c ++ drop (window p - length b) xs))
      → Shuffles (at b true r i) (b ++ xs)
  pop_full n b r i t xs w h l d e m ih =
      let room = window p - length b in
      let idx = (rnd.draw (dist_max p) r).0 in
      let size : length (b ++ take room xs) ≡ window p =
        omega (arith, length-append b (take room xs), length-take room xs) in
      let (x, g) = get_elem?-some (b ++ take room xs) idx (rw size d) in
      let removed = remove_at-perm idx (b ++ take room xs) x g in
      let (ys, z, q) =
        ih (remove_at idx (b ++ take room xs)) (rnd.draw (dist_max p) r).1
          (omega (arith, Perm-length removed, length-drop room xs))
          (omega (arith, Perm-length removed)) in
      (
        x ∷ ys,
        more (core-full b (b ++ take room xs) r i t x w e g) z,
        subst (λ c. Perm (x ∷ ys) c) (regroup room b xs)
            (Perm.trans (Perm.cons x q) (Perm.append_right (drop room xs) removed)),
      )

  module _ (draws : (r : rnd.Engine) → (rnd.draw (dist_max p) r).0 ≤ dist_max p)
      (shuffles : (c : List A) (r : rnd.Engine) → Perm (rnd.shuffle c r).0 c) where
    by_filled :
        (n : ℕ) (b : List A) (r : rnd.Engine) (i : S) (xs : List A)
        → p.shuffle_window ≢ 1
        → length b + length xs < suc n
        → length b ≤ window p
        → (length b + length xs < window p) ⊎ (dist_max p < window p)
        → Filled (window p - length b) b r i xs
        → ((c : List A) (r' : rnd.Engine) (t : S)
            → length c + length (drop (window p - length b) xs) < n
            → length c ≤ window p
            → dist_max p < window p
            → Yields inner t (drop (window p - length b) xs)
            → Shuffles (at c true r' t) (c ++ drop (window p - length b) xs))
        → Shuffles (at b true r i) (b ++ xs)
    by_filled n b r i xs w h l (inl k) (full t e m z) ih = absurd (omega arith)
    by_filled n b r i xs w h l (inr k) (full t e m z) ih =
        pop_full n b r i t xs w h l (omega (arith, draws r)) e m (λ c r' a a'. ih c r' t a a' k z)
    by_filled n b r i xs w h l k (ended t e m) ih =
        let (ys, z, q) = drain (length (rnd.shuffle (b ++ xs) r).0 + 1) _ _ t w (omega arith) in
        (ys, Yields-step _ (core-ended b _ r _ i t w e) z, Perm.trans q (shuffles (b ++ xs) r))

    by_steps :
        (n : ℕ) (b : List A) (r : rnd.Engine) (i : S) (xs : List A)
        → p.shuffle_window ≢ 1
        → length b + length xs < n
        → length b ≤ window p
        → (length b + length xs < window p) ⊎ (dist_max p < window p)
        → Yields inner i xs
        → Shuffles (at b true r i) (b ++ xs)
    by_steps zero b r i xs w h l k y = absurd (omega arith)
    by_steps (suc n) b r i xs w h l k y =
        by_filled n b r i xs w h l k (Yields-Filled (window p - length b) b r y)
          (λ c r' t l' m k' z. by_steps n c r' t (drop (window p - length b) xs) w l' m (inr k') z)

    single :
        (r : rnd.Engine) {i : S} {xs : List A}
        → p.shuffle_window ≡ 1
        → Yields inner i xs
        → Yields (read_instance_core rnd inner p) (at [] true r i) xs
    unfolding read_instance_core
    single r w (done {t = t} e f) = done {t = at [] true r t} (ground arith) (ground arith)
    single r w (more {t = t} e y) = more {t = at [] true r t} (ground arith) (single r w y)

    window_cases :
        p.shuffle_window < 2 ^ 64
        → (p.shuffle_window ≡ 0)
          ⊎ ((p.shuffle_window ≡ 1) ⊎ ((p.shuffle_window ≢ 1) × (dist_max p < window p)))
    unfolding dist_max window
    window_cases h = ground arith

    -- Where draws keep to their maximum, `std::shuffle` permutes, and the window and the number of
    -- instances fit in 64 bits, the reader delivers a permutation of what the inner one does.
    pub shuffled-Yields :
        {i : S} {xs : List A}
        → p.shuffle_window < 2 ^ 64
        → length xs < size_max
        → Yields inner i xs
        → (ys : List A) × Yields (read_instance_core rnd inner p) (start rnd p i) ys × Perm ys xs
    unfolding window
    shuffled-Yields {i} {xs} h l y = elim (window_cases h) [
      | inl zero_window ↦
          by_steps (length xs + 1) [] (rnd.seed p.seed) i xs (omega arith) (omega arith)
            (omega arith) (inl (ground arith)) y
      | inr (inl one) ↦ (xs, single (rnd.seed p.seed) one y, Perm.refl xs)
      | inr (inr (w, k)) ↦
          by_steps (length xs + 1) [] (rnd.seed p.seed) i xs w (omega arith) (omega arith) (inr k) y
    ]
