-- ===== src/Instances/Shuffled/Removal.antt =====
-- The vector's back, and the removal that moves it into a gap.
use mathlib.Core.List.{perm_append_singleton}
use mathlib.Core.List.Perm
use ml_io.Base.{
  ℕ, zero, suc, ◌-◌, ◌<◌, some, List, [], ◌∷◌, ◌++◌, ◌≡◌, refl, sym, ap, subst, ◌∙◌, Perm, length,
  length-append, set, get_elem?, ◌==◌, Bool-cases, inl, inr, arith,
}
use ml_io.Instances.Shuffled.{back, pop_back, remove_at}

module _ {ℓ} {A : Type ℓ} where
  -- A list that is not empty ends in its back.
  pub back_view :
      (b : List A) → 0 < length b → (z : A) × (back b ≡ some z) × (b ≡ pop_back b ++ z ∷ [])
  back_view [] h = absurd (omega arith)
  back_view (x ∷ []) h = (x, refl, refl)
  back_view (x ∷ y ∷ b) h = let (z, e, f) = back_view (y ∷ b) (omega arith) in (z, e, ap (◌∷◌ x) f)

  pub back-perm : (b : List A) (z : A) → b ≡ pop_back b ++ z ∷ [] → Perm (z ∷ pop_back b) b
  back-perm b z f =
      subst (λ c. Perm (z ∷ pop_back b) c) (sym f)
        (Perm.symm (perm_append_singleton z (pop_back b)))

  pop_back-append : (c : List A) (z : A) → pop_back (c ++ z ∷ []) ≡ c
  pop_back-append [] z = refl
  pop_back-append (x ∷ []) z = refl
  pop_back-append (x ∷ y ∷ c) z = ap (◌∷◌ x) (pop_back-append (y ∷ c) z)

  set-append :
      (c : List A) (i : ℕ) (z v : A) → i < length c → set (c ++ z ∷ []) i v ≡ set c i v ++ z ∷ []
  set-append [] i z v h = absurd (omega arith)
  set-append (x ∷ c) zero z v h = refl
  set-append (x ∷ c) (suc i) z v h = ap (◌∷◌ x) (set-append c i z v (omega arith))

  get_elem?-append :
      (c : List A) (i : ℕ) (z : A) → i < length c → get_elem? (c ++ z ∷ []) i ≡ get_elem? c i
  get_elem?-append [] i z h = absurd (omega arith)
  get_elem?-append (x ∷ c) zero z h = refl
  get_elem?-append (x ∷ c) (suc i) z h = get_elem?-append c i z (omega arith)

  get_elem?-append_length : (c : List A) (z : A) → get_elem? (c ++ z ∷ []) (length c) ≡ some z
  get_elem?-append_length [] z = refl
  get_elem?-append_length (x ∷ c) z = get_elem?-append_length c z

  pub get_elem?-some : (b : List A) (i : ℕ) → i < length b → (x : A) × (get_elem? b i ≡ some x)
  get_elem?-some [] i h = absurd (omega arith)
  get_elem?-some (x ∷ b) zero h = (x, refl)
  get_elem?-some (x ∷ b) (suc i) h = get_elem?-some b i (omega arith)

  get_elem?-lt : (b : List A) (i : ℕ) (x : A) → get_elem? b i ≡ some x → i < length b
  get_elem?-lt [] i x e = cc
  get_elem?-lt (y ∷ b) zero x e = omega arith
  get_elem?-lt (y ∷ b) (suc i) x e = omega (arith, get_elem?-lt b i x e)

  -- An item that is overwritten changes places with the new one.
  set-perm : (c : List A) (i : ℕ) (x z : A) → get_elem? c i ≡ some x → Perm (x ∷ set c i z) (z ∷ c)
  set-perm [] i x z e = cc
  set-perm (y ∷ c) zero x z e = let q : y ≡ x = cc in rw q (Perm.swap z x c)
  set-perm (y ∷ c) (suc i) x z e =
      Perm.trans (Perm.swap y x (set c i z))
        (Perm.trans (Perm.cons y (set-perm c i x z e)) (Perm.swap z y c))

  remove_at-split :
      (c : List A) (i : ℕ) (x z : A)
      → back (c ++ z ∷ []) ≡ some z
      → get_elem? (c ++ z ∷ []) i ≡ some x
      → Perm (x ∷ remove_at i (c ++ z ∷ [])) (c ++ z ∷ [])
  unfolding remove_at
  remove_at-split c i x z e g = elim (Bool-cases (i == length (c ++ z ∷ []) - 1)) [
    | inl last ↦
        let at_end : i ≡ length c = ground (arith, length-append c (z ∷ [])) in
        let q : z ≡ x = cc (get_elem?-append_length c z, rw at_end at g) in
        rw (e, last, pop_back-append, q) (Perm.symm (perm_append_singleton x c))
    | inr inside ↦
        let lt : i < length c =
          ground (arith, length-append c (z ∷ []), get_elem?-lt (c ++ z ∷ []) i x g) in
        rw (e, inside, set-append c i z z lt, pop_back-append)
          (Perm.trans (set-perm c i x z (sym (get_elem?-append c i z lt) ∙ g))
            (Perm.symm (perm_append_singleton z c)))
  ]

  -- The removal takes out the item at the index, and nothing else.
  pub remove_at-perm :
      (i : ℕ) (b : List A) (x : A) → get_elem? b i ≡ some x → Perm (x ∷ remove_at i b) b
  remove_at-perm i b x g =
      let (z, e, f) = back_view b (omega (arith, get_elem?-lt b i x g)) in
      rw (sym f) at (remove_at-split (pop_back b) i x z (rw (← f) e) (rw (← f) g))
