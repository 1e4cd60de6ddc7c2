-- ===== src/Tensors/Bounds.antt =====
-- tensor.cc: the size of the data that the default strides of a shape ask for.
use native.Mathlib.Nat.{
  mod-add-mod, add-mod-mod, mod-eq_of_lt, add-mul-mod_self_left, div-add-mod, mul_comm, mul_assoc,
}
use ml_io.Base.{
  ℕ, ◌+◌, ◌-◌, ◌*◌, ◌/◌, ◌%◌, ◌^◌, ◌<◌, ◌≡◌, refl, sym, ap, ◌∙◌, true, false, List, [], ◌∷◌, ltb,
  leb, if◌then◌else◌, arith,
}
use ml_io.Tensors.{word_mod, head_or, default_strides, abs, last_idx, validate_data_size}

abbrev pub product : List ℕ → ℕ
product [] = 1
product (d ∷ shape) = d * product shape

-- No stride of the shape reaches the sign bit.
abbrev pub StridesFit : List ℕ → Type 0
StridesFit [] = Unit {0}
StridesFit (d ∷ shape) = (product shape < 2 ^ 63) × StridesFit shape

pub default_strides-cons :
    (d : ℕ) (shape : List ℕ)
    → StridesFit (d ∷ shape)
    → default_strides (d ∷ shape) ≡ product shape ∷ default_strides shape
unfolding default_strides
default_strides-cons d [] h = refl
default_strides-cons d (d' ∷ shape) (f, h) =
    ap (λ r. head_or 1 r * d' % word_mod ∷ r) (default_strides-cons d' shape h)
    ∙ ap (λ r. r ∷ product shape ∷ default_strides shape)
        (mod-eq_of_lt (omega (arith, mul_comm (product shape) d')) ∙ mul_comm (product shape) d')
    ∙ ap (λ r. d' * product shape ∷ r) (sym (default_strides-cons d' shape h))

times_quotient :
    (m q r d s : ℕ) → 0 < m → m * q + r ≡ d + (m - 1) → r * s + s + m * (q * s) ≡ d * s + m * s
times_quotient m q r d s h e =
    let sum : m * q + r + 1 ≡ d + m = omega arith in
    let product_eq : (m * q + r + 1) * s ≡ (d + m) * s = ap (λ x. x * s) sum in
    omega (arith, mul_assoc m q s)

-- One step of the sum: (d - 1) strides and one more stride are d strides.
step_mod : (m d s : ℕ) → 0 < m → ((d + (m - 1)) % m * s + s) % m ≡ d * s % m
step_mod m d s h =
    let r : ℕ = (d + (m - 1)) % m in
    let q : ℕ = (d + (m - 1)) / m in
    sym (add-mul-mod_self_left (r * s + s) m (q * s))
    ∙ ap (λ x. x % m) (times_quotient m q r d s h (div-add-mod (d + (m - 1)) m))
    ∙ add-mul-mod_self_left (d * s) m s

step_sum : (m acc d s : ℕ) → 0 < m → ((acc + (d + (m - 1)) % m * s) % m + s) % m ≡ (acc + d * s) % m
step_sum m acc d s h =
    let t : ℕ = (d + (m - 1)) % m * s in
    let e : acc + t + s ≡ acc + (t + s) = omega arith in
    mod-add-mod (acc + t) m s
    ∙ ap (λ x. x % m) e
    ∙ sym (add-mod-mod acc (t + s) m)
    ∙ ap (λ x. (acc + x) % m) (step_mod m d s h)
    ∙ add-mod-mod acc (d * s) m

abs-small : (s : ℕ) → s < 2 ^ 63 → abs s ≡ s
abs-small s h = ground arith

last_idx-product :
    (shape : List ℕ) (acc : ℕ)
    → StridesFit shape
    → (last_idx acc shape (default_strides shape) + 1) % word_mod ≡ (acc + product shape) % word_mod
unfolding last_idx default_strides
last_idx-product [] acc h = refl
last_idx-product (d ∷ shape) acc (f, h) =
    ap (λ strides. (last_idx acc (d ∷ shape) strides + 1) % word_mod)
      (default_strides-cons d shape (f, h))
    ∙ ap
        (λ s.
          (last_idx ((acc + (d + (word_mod - 1)) % word_mod * s) % word_mod) shape
              (default_strides shape)
            + 1)
          % word_mod)
        (abs-small (product shape) f)
    ∙ last_idx-product shape _ h
    ∙ step_sum word_mod acc d (product shape) (omega arith)

-- Where no stride reaches the sign bit and the number of elements fits in 64 bits, dimensions of
-- zero included, the check of `Dense_tensor` accepts exactly the data with at least as many
-- elements as the shape.
pub validate_data_size-product :
    (d : ℕ) (shape : List ℕ) (data_size : ℕ)
    → StridesFit (d ∷ shape)
    → product (d ∷ shape) < 2 ^ 64
    → validate_data_size (d ∷ shape) (default_strides (d ∷ shape)) data_size
      ≡ leb (product (d ∷ shape)) data_size
unfolding validate_data_size
validate_data_size-product d shape data_size h f =
    ap (λ n. if ltb data_size n then false else true)
      (last_idx-product (d ∷ shape) 0 h ∙ mod-eq_of_lt {n = 0 + product (d ∷ shape)} (omega arith))
    ∙ ground arith
