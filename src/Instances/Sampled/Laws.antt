-- ===== src/Instances/Sampled/Laws.antt =====
-- What the sampled reader delivers: of each hundred instances the first `num_keep`.
use ml_io.Base.{
  take-nil, take-map, length-set, drop-suc-set, get_elem?-of_drop, ℕ, zero, suc, ◌+◌, ◌≤◌, ◌<◌, ◌⊎◌,
  inl, inr, Option, none, some, List, [], ◌∷◌, ◌++◌, ◌≡◌, refl, map, length, take, drop, set,
  length-drop, length-take, length-map, ==_refl, arith, append-nil, append_assoc, ap, ◌∙◌,
}
use native.Mathlib.Numerals.{add-one}
use ml_io.Action.{ok, Action}
use ml_io.Instances.Yields.{Yields, done, more, Yields-step}
use ml_io.Instances.Sampled.{
  num_instances_to_read, Sample, State, fill, fill_buffer_from_inner, read_instance_core, start,
}

-- The sampled list, by rounds of a hundred.
unfoldable pub sample_rounds {ℓ} : {A : Type ℓ} → ℕ → (ℕ → ℕ) → List A → List A
sample_rounds zero keep xs = []
sample_rounds (suc n) keep xs =
    let batch = take num_instances_to_read xs in
    take (keep (length batch)) batch ++ sample_rounds n keep (drop num_instances_to_read xs)

abbrev pub sample_of {ℓ} : {A : Type ℓ} → Sample → List A → List A
sample_of p xs = sample_rounds (length xs + 1) p.num_keep xs

module _ {S A : Type 0} (inner : Action S (Option A)) (p : Sample) where
  abbrev at : List (Option A) → ℕ → S → State S A
  at b n i = record { buffer = b; buffer_pos = n; inner = i }

  -- Where the loop stops before its last round, the inner reader is at its end.
  data Filled (n : ℕ) (b : List (Option A)) (pos : ℕ) (i : S) (xs : List A) : Type 0 where
    filled :
        (t : S)
        → fill inner n (at b pos i) ≡ (ok tt, at (b ++ map some (take n xs)) pos t)
        → Yields inner t (drop n xs)
        → (n ≤ length xs) ⊎ (inner t ≡ (ok none, t))
        → Filled n b pos i xs

  Filled-cons :
      (n : ℕ) (b : List (Option A)) (pos : ℕ) {i t : S} (x : A) {xs : List A}
      → inner i ≡ (ok (some x), t)
      → Filled n (b ++ some x ∷ []) pos t xs
      → Filled (suc n) b pos i (x ∷ xs)
  unfolding fill
  Filled-cons n b pos x e (filled u f y (inl h)) =
      filled u (rw e (f ∙ rw append_assoc)) y (inl (omega arith))
  Filled-cons n b pos x e (filled u f y (inr h)) = filled u (rw e (f ∙ rw append_assoc)) y (inr h)

  Yields-Filled :
      (n : ℕ) (b : List (Option A)) (pos : ℕ) {i : S} {xs : List A}
      → Yields inner i xs
      → Filled n b pos i xs
  unfolding fill
  Yields-Filled zero b pos {i} y = filled i (rw append-nil) y (inl (omega arith))
  Yields-Filled (suc n) b pos (done {t = t} e f) = filled t (rw (e, append-nil)) (done f f) (inr f)
  Yields-Filled (suc n) b pos (more {x = x} e y) =
      Filled-cons n b pos x e (Yields-Filled n (b ++ some x ∷ []) pos y)

  -- A buffer of which `ys` is left is handed out, and then the reader goes on from its end.
  drain :
      (ys : List A) (b : List (Option A)) (n : ℕ) (i : S) (zs : List A)
      → drop n b ≡ map some ys
      → n + length ys ≡ length b
      → ((c : List (Option A))
          → length c ≡ length b
          → Yields (read_instance_core inner p) (at c (length c) i) zs)
      → Yields (read_instance_core inner p) (at b n i) (ys ++ zs)
  unfolding read_instance_core
  drain [] b n i zs e h k = let at_end : n ≡ length b = omega arith in rw at_end (k b refl)
  drain (y ∷ ys) b n i zs e h k = more {t = at (set b n none) (n + 1) i} (step_read b refl) (
      drain ys (set b n none) (n + 1) i zs
        (rw add-one (drop-suc-set n b none (some y) (map some ys) e))
        (omega (arith, length-set b n none)) (λ c l. k c (l ∙ length-set b n none)))
    where
      step_read :
          (c : List (Option A))
          → b ≡ c
          → read_instance_core inner p (at b n i) ≡ (ok (some y), at (set b n none) (n + 1) i)
      step_read [] q = absurd (omega (arith, ap length q))
      step_read (x ∷ c) q =
          ground (arith, get_elem?-of_drop n b (some y) (map some ys) e, ap length q)

  fill-end :
      (n pos : ℕ) {t : S}
      → inner t ≡ (ok none, t)
      → fill inner n (at [] pos t) ≡ (ok tt, at [] pos t)
  unfolding fill
  fill-end zero pos f = refl
  fill-end (suc n) pos f = rw f

  -- After a refill the buffer holds the first `num_keep` of what was read.
  refill :
      (c : List (Option A)) (pos : ℕ) (i t : S) (batch : List A)
      → fill inner num_instances_to_read (at [] pos i) ≡ (ok tt, at (map some batch) pos t)
      → fill_buffer_from_inner inner p (at c pos i)
        ≡ (ok tt, at (map some (take (p.num_keep (length batch)) batch)) 0 t)
  unfolding fill_buffer_from_inner
  refill c pos i t [] e = rw (e, take-nil)
  refill c pos i t (x ∷ batch) e = rw (
    e,
    take-map some (p.num_keep (suc (length (map some batch)))) (x ∷ batch),
    length-map some batch,
  )

  sample_rounds-nil : (n : ℕ) → sample_rounds {A = A} n p.num_keep [] ≡ []
  unfolding sample_rounds
  sample_rounds-nil zero = refl
  sample_rounds-nil (suc n) = rw (take-nil, sample_rounds-nil n)

  nil-of_end : {t : S} {xs : List A} → inner t ≡ (ok none, t) → Yields inner t xs → xs ≡ []
  nil-of_end e (done f g) = refl
  nil-of_end e (more f y) = cc

  -- A refilled buffer with something in it.
  core-refilled :
      (c : List (Option A)) (i t : S) (y : A) (ys : List A)
      → fill_buffer_from_inner inner p (at c (length c) i) ≡ (ok tt, at (map some (y ∷ ys)) 0 t)
      → read_instance_core inner p (at c (length c) i)
        ≡ read_instance_core inner p (at (map some (y ∷ ys)) 0 t)
  unfolding read_instance_core
  core-refilled c i t y ys e = ground (arith, e)

  core-empty :
      (c : List (Option A)) (i t : S)
      → fill_buffer_from_inner inner p (at c (length c) i) ≡ (ok tt, at [] 0 t)
      → read_instance_core inner p (at c (length c) i) ≡ (ok none, at [] 0 t)
  unfolding read_instance_core
  core-empty c i t e = rw (==_refl (length c), e)

  by_kept :
      (fuel : ℕ) (c : List (Option A)) (i t : S) (xs kept : List A)
      → take (p.num_keep (length (take num_instances_to_read xs))) (take num_instances_to_read xs)
        ≡ kept
      → 0 < p.num_keep num_instances_to_read
      → fill_buffer_from_inner inner p (at c (length c) i) ≡ (ok tt, at (map some kept) 0 t)
      → (num_instances_to_read ≤ length xs) ⊎ (inner t ≡ (ok none, t))
      → Yields inner t (drop num_instances_to_read xs)
      → (0 < length kept
          → (c : List (Option A))
          → Yields
              (read_instance_core inner p)
              (at c (length c) t)
              (sample_rounds fuel p.num_keep (drop num_instances_to_read xs)))
      → Yields
          (read_instance_core inner p)
          (at c (length c) i)
          (kept ++ sample_rounds fuel p.num_keep (drop num_instances_to_read xs))
  by_kept fuel c i t xs (y ∷ ys) k pos e h z ih = Yields-step _ (core-refilled c i t y ys e) (
      drain (y ∷ ys) (map some (y ∷ ys)) 0 t _ refl (omega (arith, length-map some ys))
        (λ c' l. ih (omega arith) c'))
  by_kept fuel c i t xs [] k pos e (inl full) z ih = absurd (
      omega (
        arith,
        ap length k,
        length-take (p.num_keep (length (take num_instances_to_read xs)))
            (take num_instances_to_read xs),
        length-take num_instances_to_read xs,
        ap p.num_keep (
            let l : length (take num_instances_to_read xs) ≡ num_instances_to_read =
              omega (arith, length-take num_instances_to_read xs) in
            l),
      ))
  by_kept fuel c i t xs [] k pos e (inr f) z ih =
      rw (nil-of_end f z, sample_rounds-nil fuel)
        (done {t = at [] 0 t} (core-empty c i t e) (
          core-empty [] t t
            (refill [] 0 t t [] (fill-end num_instances_to_read 0 f) ∙ rw take-nil)))

  by_rounds :
      (fuel : ℕ) (c : List (Option A)) (i : S) (xs : List A)
      → length xs < fuel
      → 0 < p.num_keep num_instances_to_read
      → Yields inner i xs
      → Yields (read_instance_core inner p) (at c (length c) i) (sample_rounds fuel p.num_keep xs)
  unfolding sample_rounds
  by_rounds zero c i xs h pos y = absurd (omega arith)
  by_rounds (suc fuel) c i xs h pos y =
      go (Yields-Filled num_instances_to_read [] (length c) y)
        (λ c' t l z. by_rounds fuel c' t (drop num_instances_to_read xs) l pos z)
    where
      go :
          Filled num_instances_to_read [] (length c) i xs
          → ((c' : List (Option A)) (t : S)
              → length (drop num_instances_to_read xs) < fuel
              → Yields inner t (drop num_instances_to_read xs)
              → Yields
                  (read_instance_core inner p)
                  (at c' (length c') t)
                  (sample_rounds fuel p.num_keep (drop num_instances_to_read xs)))
          → Yields
              (read_instance_core inner p)
              (at c (length c) i)
              (sample_rounds (suc fuel) p.num_keep xs)
      go (filled t f z g) ih =
          by_kept fuel c i t xs _ refl pos
            (refill c (length c) i t (take num_instances_to_read xs) f) g z
            (λ l c'. ih c' t (shorter l) z)
        where
          shorter :
              0
                < length (
                    take
                      (p.num_keep (length (take num_instances_to_read xs)))
                      (take num_instances_to_read xs))
              → length (drop num_instances_to_read xs) < fuel
          shorter l = omega (
            arith,
            length-take (p.num_keep (length (take num_instances_to_read xs)))
                (take num_instances_to_read xs),
            length-take num_instances_to_read xs,
            length-drop num_instances_to_read xs,
          )

  -- Where a full round keeps something, the reader delivers the sample of what the inner one does:
  -- of every hundred instances the first ones, as many as the ratio gives.
  pub sample_of-Yields :
      {i : S} {xs : List A}
      → 0 < p.num_keep num_instances_to_read
      → Yields inner i xs
      → Yields (read_instance_core inner p) (start i) (sample_of p xs)
  sample_of-Yields {i} {xs} h y = by_rounds (length xs + 1) [] i xs (omega arith) h y

  -- Where a full round keeps nothing and the inner reader has at least a hundred instances, the
  -- first call returns `none`, and the inner reader still delivers those behind the hundred.
  pub read_instance_core_empty :
      {i : S} {xs : List A}
      → p.num_keep num_instances_to_read ≡ 0
      → num_instances_to_read ≤ length xs
      → Yields inner i xs
      → (t : S) × (read_instance_core inner p (start i) ≡ (ok none, start t))
        × Yields inner t (drop num_instances_to_read xs)
  read_instance_core_empty {i} {xs} k l y = go (Yields-Filled num_instances_to_read [] 0 y)
    where
      full : p.num_keep (length (take num_instances_to_read xs)) ≡ 0
      full =
          ap p.num_keep (
            let e : length (take num_instances_to_read xs) ≡ num_instances_to_read =
              omega (arith, length-take num_instances_to_read xs) in
            e)
          ∙ k

      go :
          Filled num_instances_to_read [] 0 i xs
          → (t : S) × (read_instance_core inner p (start i) ≡ (ok none, start t))
            × Yields inner t (drop num_instances_to_read xs)
      go (filled t f z g) =
          (t, core-empty [] i t (refill [] 0 i t (take num_instances_to_read xs) f ∙ rw full), z)
