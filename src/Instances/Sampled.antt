-- ===== src/Instances/Sampled.antt =====
-- sampled_instance_reader.cc: reads a hundred instances at a time and keeps the first of them.
pub mod Laws
use ml_io.Base.{
  ℕ, zero, suc, ◌+◌, ◌-◌, ◌≤◌, ◌<◌, Bool, true, false, Option, none, some, List, [], ◌∷◌, ◌++◌, ◌≡◌,
  refl, map, length, take, drop, set, get_elem?, drop_all, arith, ◌==◌, leb, if◌then◌else◌,
  Bool-cases, append-nil, append_assoc,
}
use ml_io.Action.{
  Result, ok, err, Error, invalid_argument, undefined_behaviour, Action, ◌>>=◌, ◌>>◌, pure, get,
  modify,
}
use ml_io.Instances.Yields.{Yields, done, more, Yields-step}

-- `num_instances_to_read_`.
abbrev pub num_instances_to_read : ℕ
num_instances_to_read = 100

-- The code's arithmetic on floats is a parameter: `num_keep n` is
-- `static_cast<std::ptrdiff_t>(sample_ratio * static_cast<float>(n))`, and `ratio_within` tells
-- whether the ratio lies strictly between 0 and 1.
pub record Sample : Type 0 where
  pub ratio_within : Bool
  pub num_keep : ℕ → ℕ

-- `buffer_pos_` is an index; the end of the buffer is its length.
pub record State (S A : Type 0) : Type 0 where
  pub buffer : List (Option A)
  pub buffer_pos : ℕ
  pub inner : S

-- The constructor's check.
pub check_params : Sample → Result (Unit {0})
check_params p = if p.ratio_within then ok tt else err invalid_argument

abbrev pub is_empty {ℓ} : {A : Type ℓ} → List A → Bool
is_empty [] = true
is_empty (x ∷ xs) = false

abbrev append_opt : {A : Type 0} → List (Option A) → Option A → List (Option A)
append_opt b o = b ++ o ∷ []

module _ {S A : Type 0} where
  abbrev put_inner {ℓ} : {B : Type ℓ} → State S A → Result B × S → Result B × State S A
  put_inner s (r, i) = (r, record s { inner = i })

  abbrev on_inner {ℓ} : {B : Type ℓ} → Action S B → Action (State S A) B
  on_inner m s = put_inner s (m s.inner)

  -- The loop `while (buffer_.size() < num_instances_to_read_)`, by the rounds that are left: a round
  -- adds one instance or ends the loop.
  pub fill : Action S (Option A) → ℕ → Action (State S A) (Unit {0})
  fill inner zero = pure tt
  fill inner (suc n) = do
    instance_read ← on_inner inner
    elim instance_read [
      | none ↦ pure tt
      | some x ↦ modify (λ s. record s { buffer = append_opt s.buffer (some x) }) >> fill inner n
    ]

  pub erase_rest : Sample → State S A → State S A
  erase_rest p s =
      if is_empty s.buffer
      then record s { buffer_pos = 0 }
      else record s { buffer = take (p.num_keep (length s.buffer)) s.buffer; buffer_pos = 0 }

  pub fill_buffer_from_inner : Action S (Option A) → Sample → Action (State S A) (Unit {0})
  unfolding erase_rest
  fill_buffer_from_inner inner p = do
    modify λ s. record s { buffer = [] }
    fill inner num_instances_to_read
    modify (erase_rest p)

  -- `std::exchange(*buffer_pos_++, {})`.
  abbrev exchange_at : State S A → Option (Option A) → Result (Option A) × State S A
  exchange_at s none = (err undefined_behaviour, s)
  exchange_at s (some o) =
      (ok o, record s { buffer = set s.buffer s.buffer_pos none; buffer_pos = s.buffer_pos + 1 })

  abbrev take_from_buffer : Action (State S A) (Option A)
  take_from_buffer s =
      if is_empty s.buffer then (ok none, s) else exchange_at s (get_elem? s.buffer s.buffer_pos)

  pub read_instance_core : Action S (Option A) → Sample → Action (State S A) (Option A)
  unfolding fill_buffer_from_inner
  read_instance_core inner p = do
    s ← get
    if s.buffer_pos == length s.buffer then fill_buffer_from_inner inner p else pure tt
    take_from_buffer

  pub reset_core : (S → S) → State S A → State S A
  reset_core inner_reset s = record { buffer = []; buffer_pos = 0; inner = inner_reset s.inner }

  abbrev pub start : S → State S A
  start i = record { buffer = []; buffer_pos = 0; inner = i }

pub check_params-ok : (p : Sample) → p.ratio_within ≡ true → check_params p ≡ ok tt
unfolding check_params
check_params-ok p h = rw h

pub check_params-err : (p : Sample) → p.ratio_within ≡ false → check_params p ≡ err invalid_argument
unfolding check_params
check_params-err p h = rw h

pub reset_core-start :
    {S A : Type 0} (inner_reset : S → S) (init : S)
    → ((s : S) → inner_reset s ≡ init)
    → (s : State S A) → reset_core inner_reset s ≡ start init
unfolding reset_core
reset_core-start inner_reset init h s =
    λ i. record { buffer = []; buffer_pos = 0; inner = h s.inner i }
