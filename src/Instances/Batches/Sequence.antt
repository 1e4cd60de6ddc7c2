-- ===== src/Instances/Batches/Sequence.antt =====
-- instance_batch_reader.cc: the indices and the sizes of the batches, for every treatment of the
-- last one.
use ml_io.Base.{
  ℕ, zero, suc, ◌+◌, ◌≤◌, ◌<◌, ◌≡◌, refl, Bool, true, false, List, [], ◌∷◌, length, take, drop,
  length-take, if◌then◌else◌, Bool-cases, inl, inr, leb, leb→le, Option, arith,
}
use ml_io.Action.{Action}
use ml_io.Instances.Yields.{Yields}
use ml_io.Instances.Batches.{
  LastExampleHandling, pad, BatchParams, InstanceBatch, is_dropped, size_of, read_instance_batch,
}
use ml_io.Instances.Batches.Laws.{
  batch, last_batch, batches_from, batches_of, read_instance_batch-Yields,
}

abbrev pub is_padded : LastExampleHandling → Bool
is_padded pad = true
is_padded _ = false

module _ {A : Type 0} where
  -- A batch in front of others is full.
  abbrev pub FullBefore : BatchParams → InstanceBatch A → List (InstanceBatch A) → Type 0
  FullBefore p b [] = length b.instances ≤ p.batch_size
  FullBefore p b (c ∷ bs) = length b.instances ≡ p.batch_size

  -- Batches with indices from the first one on, none of them empty.
  abbrev pub IsSequence : BatchParams → ℕ → List (InstanceBatch A) → Type 0
  IsSequence p k [] = Unit {0}
  IsSequence p k (b ∷ bs) =
      (b.index ≡ k)
      × (0 < length b.instances)
      × (b.size ≡ (if is_padded p.last_example_handling then p.batch_size else length b.instances))
      × FullBefore p b bs
      × IsSequence p (k + 1) bs

  size_of-is_padded :
      (p : BatchParams) (h : LastExampleHandling) (xs : List A)
      → size_of p h xs ≡ (if is_padded h then p.batch_size else length xs)
  unfolding size_of
  size_of-is_padded p h xs = ground arith

  full-FullBefore :
      (p : BatchParams) (b : InstanceBatch A) (bs : List (InstanceBatch A))
      → length b.instances ≡ p.batch_size
      → FullBefore p b bs
  full-FullBefore p b [] h = omega arith
  full-FullBefore p b (c ∷ bs) h = h

  last_batch-IsSequence :
      (p : BatchParams) (k : ℕ) (xs : List A)
      → length xs < p.batch_size
      → IsSequence p k (last_batch p k xs)
  unfolding last_batch
  last_batch-IsSequence p k [] h = tt
  last_batch-IsSequence p k (x ∷ xs) h = elim (Bool-cases (is_dropped p.last_example_handling)) [
    | inl d ↦ rw d tt
    | inr d ↦
        rw d
          (refl, omega arith, size_of-is_padded p p.last_example_handling (x ∷ xs), omega arith, tt)
  ]

  from-IsSequence :
      (n : ℕ) (p : BatchParams) (k : ℕ) (xs : List A)
      → 0 < p.batch_size
      → IsSequence p k (batches_from n p k xs)
  unfolding batches_from
  from-IsSequence zero p k xs pos = tt
  from-IsSequence (suc n) p k xs pos = elim (Bool-cases (leb p.batch_size (length xs))) [
    | inl full ↦
        let le = leb→le p.batch_size (length xs) full in
        let b = take p.batch_size xs in
        let size : length b ≡ p.batch_size = omega (arith, length-take p.batch_size xs) in
        rw full (
          refl,
          omega arith,
          size_of-is_padded p p.last_example_handling b,
          full-FullBefore p (batch p k b) _ size,
          from-IsSequence n p (k + 1) (drop p.batch_size xs) pos,
        )
    | inr part ↦ rw part (last_batch-IsSequence p k xs (ground arith))
  ]

-- Where the batch size is not zero, the batches that the reader delivers are numbered from 0 without
-- a gap, as the flow graph that orders them asks for; none is empty, all but the last are full, and
-- the size of a batch is the number of its instances, but the batch size where the treatment of the
-- last one is `pad`, not `pad_warn`.
pub read_instance_batch-IsSequence :
    {S A : Type 0} (read : Action S (Option A)) (p : BatchParams) {i : S} {xs : List A}
    → 0 < p.batch_size
    → Yields read i xs
    → (bs : List (InstanceBatch A)) × Yields
        (read_instance_batch read p)
        (record { reader = i; batch_idx = 0 })
        bs
      × IsSequence p 0 bs
read_instance_batch-IsSequence read p {xs = xs} pos y = (
  batches_of p xs,
  read_instance_batch-Yields read p pos y,
  from-IsSequence (length xs + 1) p 0 xs pos,
)
