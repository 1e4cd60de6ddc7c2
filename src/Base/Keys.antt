-- ===== src/Base/Keys.antt =====
-- Keys that can be compared, and maps that keep their pairs in a list.
use Prim.Native.Nat.{ℕ}
use mathlib.Core.Path.{◌≡◌, refl, ap, sym, ◌∙◌}
use mathlib.Core.Logic.{◌↔◌, inl, inr}
use mathlib.Core.Bool.{Bool, true, false, true≢false}
use mathlib.Core.Option.{Option, none, some, none-ne-some}
use mathlib.Core.List.{List, [], ◌∷◌}
use native.Mathlib.Omega.{arith}
use ml_io.Base.Tests.{◌==◌, if◌then◌else◌, ==_iff, Bool-cases}

pub record Eq {ℓ} (K : Type ℓ) : Type ℓ where
  pub beq : K → K → Bool
  pub beq_iff : (a b : K) → (beq a b ≡ true) ↔ (a ≡ b)

abbrev pub same {ℓ} : {K : Type ℓ} ⦃e : Eq K⦄ → K → K → Bool
same ⦃e⦄ = e.beq

instance abbrev pub nat_eq : Eq ℕ
nat_eq = record { beq = ◌==◌; beq_iff = ==_iff }

abbrev same_bytes : List ℕ → List ℕ → Bool
same_bytes [] [] = true
same_bytes [] (b ∷ ys) = false
same_bytes (a ∷ xs) [] = false
same_bytes (a ∷ xs) (b ∷ ys) = if a == b then same_bytes xs ys else false

pub same_bytes_iff : (xs ys : List ℕ) → (same_bytes xs ys ≡ true) ↔ (xs ≡ ys)
same_bytes_iff [] [] = ground arith
same_bytes_iff [] (b ∷ ys) = ground arith
same_bytes_iff (a ∷ xs) [] = ground arith
same_bytes_iff (a ∷ xs) (b ∷ ys) = ground (arith, same_bytes_iff xs ys)

instance abbrev pub bytes_eq : Eq (List ℕ)
bytes_eq = record { beq = same_bytes; beq_iff = same_bytes_iff }

module _ {ℓ} {K : Type ℓ} ⦃e : Eq K⦄ where
  abbrev pub contains : K → List K → Bool
  contains k [] = false
  contains k (x ∷ xs) = if same k x then true else contains k xs

  -- No key stands twice.
  abbrev pub Distinct : List K → Type 0
  Distinct [] = Unit {0}
  Distinct (k ∷ ks) = (contains k ks ≡ false) × Distinct ks

  pub contains-later : (k k' : K) (ks : List K) → contains k ks ≡ true → contains k (k' ∷ ks) ≡ true
  contains-later k k' ks h = ground (arith, h)

  pub same_refl : (k : K) → same k k ≡ true
  same_refl k = (e.beq_iff k k).1 refl

  pub same→eq : (a b : K) → same a b ≡ true → a ≡ b
  same→eq a b h = (e.beq_iff a b).0 h

  -- What stands in a list that a key does not stand in is another key.
  pub contains-cons :
      (k k' : K) (ks xs : List K)
      → contains k' xs ≡ false
      → contains k xs ≡ true
      → contains k ks ≡ false
      → contains k (k' ∷ ks) ≡ false
  contains-cons k k' ks xs f h g = elim (Bool-cases (same k k')) [
    | inl s ↦ absurd (true≢false (sym (ap (λ x. contains x xs) (sym (same→eq k k' s)) ∙ h) ∙ f))
    | inr s ↦ rw s g
  ]

  pub same-sym_false : (a b : K) → same a b ≡ false → same b a ≡ false
  same-sym_false a b n = elim (Bool-cases (same b a)) [
    | inl s ↦ absurd (true≢false (sym (ap (same a) (same→eq b a s) ∙ same_refl a) ∙ n))
    | inr s ↦ s
  ]

module _ {ℓ κ} {K : Type ℓ} ⦃e : Eq K⦄ {V : Type κ} where
  abbrev pub keys : List (K × V) → List K
  keys [] = []
  keys ((k, v) ∷ m) = k ∷ keys m

  abbrev pub lookup : K → List (K × V) → Option V
  lookup k [] = none
  lookup k ((k', v) ∷ m) = if same k k' then some v else lookup k m

  abbrev pub remove : K → List (K × V) → List (K × V)
  remove k [] = []
  remove k ((k', v) ∷ m) = if same k k' then m else (k', v) ∷ remove k m

  -- A key that is there gets another value.
  abbrev pub update : K → V → List (K × V) → List (K × V)
  update k w [] = []
  update k w ((k', v) ∷ m) = if same k k' then (k', w) ∷ m else (k', v) ∷ update k w m

  pub keys-update : (k : K) (w : V) (m : List (K × V)) → keys (update k w m) ≡ keys m
  keys-update k w [] = refl
  keys-update k w ((k', v) ∷ m) = ground (arith, keys-update k w m)

  pub lookup-none : (k : K) (m : List (K × V)) → lookup k m ≡ none → contains k (keys m) ≡ false
  lookup-none k [] h = refl
  lookup-none k ((k', v) ∷ m) h = ground (arith, lookup-none k m)

  pub lookup-contains :
      (k : K) (v : V) (m : List (K × V)) → lookup k m ≡ some v → contains k (keys m) ≡ true
  lookup-contains k v [] h = absurd (none-ne-some v h)
  lookup-contains k v ((k', w) ∷ m) h = ground (arith, lookup-contains k v m)

  -- A new key in front hides none of the others.
  pub lookup-cons_fresh :
      (k k' : K) (v w : V) (m : List (K × V))
      → contains k' (keys m) ≡ false
      → lookup k m ≡ some v
      → lookup k ((k', w) ∷ m) ≡ some v
  lookup-cons_fresh k k' v w m f h = elim (Bool-cases (same k k')) [
    | inl s ↦
        let there : contains k' (keys m) ≡ true =
          ap (λ x. contains x (keys m)) (sym (same→eq k k' s)) ∙ lookup-contains k v m h in
        absurd (true≢false (sym there ∙ f))
    | inr s ↦ rw s h
  ]

  pub lookup-cons_same : (k : K) (v : V) (m : List (K × V)) → lookup k ((k, v) ∷ m) ≡ some v
  lookup-cons_same k v m = rw (same_refl k)
