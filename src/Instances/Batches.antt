-- ===== src/Instances/Batches.antt =====
-- instance_batch_reader.cc: packs instances into batches of `batch_size`.
pub mod Laws
pub mod Contents
pub mod Sequence
use ml_io.Base.{
  ℕ, zero, suc, ◌+◌, Bool, true, false, Option, none, some, List, [], ◌∷◌, length, ◌==◌,
  if◌then◌else◌,
}
use ml_io.Action.{Result, ok, err, invalid_argument, Action, ◌>>=◌, ◌>>◌, pure}

pub data LastExampleHandling : Type 0 where
  keep drop drop_warn pad pad_warn : LastExampleHandling

pub record BatchParams : Type 0 where
  pub batch_size : ℕ
  pub last_example_handling : LastExampleHandling

pub record InstanceBatch (A : Type 0) : Type 0 where
  pub index : ℕ
  pub instances : List A
  pub size : ℕ

pub record State (S : Type 0) : Type 0 where
  pub reader : S
  pub batch_idx : ℕ

-- The constructor's check.
pub check_params : BatchParams → Result (Unit {0})
check_params p = if p.batch_size == 0 then err invalid_argument else ok tt

-- The enumerator `none` of the source is `keep` here. A batch that is not full is dropped, or is
-- given its size; the warnings are not modelled.
unfoldable pub is_dropped : LastExampleHandling → Bool
is_dropped drop = true
is_dropped drop_warn = true
is_dropped _ = false

unfoldable pub size_of {ℓ} : {A : Type ℓ} → BatchParams → LastExampleHandling → List A → ℕ
size_of p pad xs = p.batch_size
size_of p _ xs = length xs

abbrev on_reader {ℓ} : {S : Type 0} {B : Type ℓ} → State S → Result B × S → Result B × State S
on_reader s (r, i) = (r, record s { reader = i })

module _ {S A : Type 0} where
  -- The loop that collects at most `n` instances.
  pub collect : Action S (Option A) → ℕ → Action S (List A)
  collect read zero = pure []
  collect read (suc n) = do
    instance_read ← read
    elim instance_read [ none ↦ pure [] | some x ↦ (do xs ← collect read n; pure (x ∷ xs)) ]

  abbrev emit : BatchParams → State S → List A → Result (Option (InstanceBatch A)) × State S
  emit p s xs = (
    ok (
        some (record {
          index = s.batch_idx;
          instances = xs;
          size = size_of p p.last_example_handling xs;
        })),
    record s { batch_idx = s.batch_idx + 1 },
  )

  pub make_batch : BatchParams → List A → Action (State S) (Option (InstanceBatch A))
  unfolding is_dropped size_of
  make_batch p [] s = (ok none, s)
  make_batch p (x ∷ xs) s =
      if length (x ∷ xs) == p.batch_size
      then emit p s (x ∷ xs)
      else if is_dropped p.last_example_handling
      then (ok none, s)
      else emit p s (x ∷ xs)

  pub read_instance_batch :
      Action S (Option A) → BatchParams → Action (State S) (Option (InstanceBatch A))
  unfolding make_batch
  read_instance_batch read p =
      (λ s. on_reader s (collect read p.batch_size s.reader)) >>= make_batch p

pub reset : {S : Type 0} → (S → S) → State S → State S
reset reader_reset s = record { reader = reader_reset s.reader; batch_idx = 0 }
