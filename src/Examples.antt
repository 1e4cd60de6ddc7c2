-- ===== src/Examples.antt =====
-- How the readers decode a batch of instances into an example: the loops of `decode_ser` and
-- `decode_prl` in csv_reader.cc, which recordio_protobuf_reader.cc has as `decode_serial` and
-- `decode_parallel`, over what one instance is decoded with. data_reader.h names the treatments.
pub mod Rows
use ml_io.Base.{
  ℕ, ◌+◌, ◌-◌, Bool, true, false, ◌||◌, Option, none, some, List, [], ◌∷◌, ◌++◌, length, ltb, ◌*◌,
  if◌then◌else◌,
}
use ml_io.Action.{
  Result, ok, err, invalid_argument, invalid_instance, Action, ◌>>=◌, ◌>>◌, pure, throw,
}
use ml_io.Instances.Batches.{InstanceBatch}

pub data BadExampleHandling : Type 0 where
  error skip skip_warn pad pad_warn : BadExampleHandling

-- `Decoder_state`: warnings are not modelled, but some code runs only for them.
pub record BadInstances : Type 0 where
  pub warn_bad_instance : Bool
  pub error_bad_example : Bool

abbrev pub is_error : BadExampleHandling → Bool
is_error error = true
is_error _ = false

pub decoder_flags : Bool → BadExampleHandling → BadInstances
decoder_flags warn h = record { warn_bad_instance = warn; error_bad_example = is_error h }

-- What every branch for a bad instance ends with.
abbrev pub refuse : {S : Type 0} → BadInstances → Action S Bool
refuse f = if f.error_bad_example then throw invalid_instance else pure false

-- What the serial loop does with an answer: it goes on at the next row, or on at the same row, or
-- leaves.
abbrev pub after_row :
    {S : Type 0}
    → BadExampleHandling
    → Action S (Option ℕ)
    → Action S (Option ℕ)
    → Bool
    → Action S (Option ℕ)
after_row h next_row same_row true = next_row
after_row error next_row same_row false = throw invalid_argument
after_row skip next_row same_row false = pure none
after_row skip_warn next_row same_row false = pure none
after_row pad next_row same_row false = same_row
after_row pad_warn next_row same_row false = same_row

-- What a worker does: it goes on, or has the example skipped.
abbrev pub after_work : {S : Type 0} → BadExampleHandling → Action S Bool → Bool → Action S Bool
after_work h next_row true = next_row
after_work skip next_row false = pure true
after_work skip_warn next_row false = pure true
after_work error next_row false = throw invalid_argument
after_work pad next_row false = throw invalid_argument
after_work pad_warn next_row false = throw invalid_argument

module _ {S I : Type 0} (h : BadExampleHandling) (decode_instance : ℕ → I → Action S Bool) where
  -- The rows that were good are decoded one behind the other.
  pub decode_serial : ℕ → List I → Action S (Option ℕ)
  decode_serial row_idx [] = pure (some row_idx)
  decode_serial row_idx (i ∷ instances) =
      decode_instance row_idx i
      >>= after_row h (decode_serial (row_idx + 1) instances) (decode_serial row_idx instances)

  -- A worker on a part of the range: true where it set `skip_example`.
  pub work : List (ℕ × I) → Action S Bool
  work [] = pure false
  work ((row_idx, i) ∷ range) = decode_instance row_idx i >>= after_work h (work range)

abbrev pub is_pad : BadExampleHandling → Bool
is_pad pad = true
is_pad pad_warn = true
is_pad _ = false

-- Padding needs the rows in order; little work is not worth the threads.
pub should_run_serial : BadExampleHandling → Bool → ℕ → ℕ → Bool
should_run_serial h in_order num_values num_instances =
    in_order || is_pad h || ltb (num_values * num_instances) 10000000

-- An example without its schema: the tensors, and how many rows of the batch are padding.
pub record Example (T : Type 0) : Type 0 where
  pub features : List T
  pub padding : ℕ

abbrev pub make_example : {I T : Type 0} → InstanceBatch I → List T → Option ℕ → Option (Example T)
make_example batch tensors none = none
make_example batch tensors (some num_instances_read) =
    some (record { features = tensors; padding = batch.size - num_instances_read })
