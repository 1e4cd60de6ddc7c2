-- ===== src/TextLines.antt =====
-- text_line_reader.cc: the data reader whose examples have one feature, the line of each instance.
use ml_io.Base.{
  ℕ, zero, suc, ◌-◌, ◌^◌, ◌≤◌, ◌<◌, ◌≡◌, refl, ap, ◌∙◌, true, false, List, [], ◌∷◌, ◌++◌, length,
  replicate, length-replicate, leb, Bytes, arith,
}
use ml_io.Action.{Result, ok, err, undefined_behaviour}
use ml_io.Instances.Batches.{InstanceBatch}
use ml_io.Tensors.{
  string, DenseTensor, make_dense_tensor, choose_strides, default_strides, validate_data_size,
}
use ml_io.Tensors.Bounds.{product, validate_data_size-product}
use ml_io.Tensors.Schema.{Attribute, Schema, make_attribute, make_schema}
use ml_io.Examples.{Example}

abbrev schema_with : Result Attribute → Result Schema
schema_with (ok attr) = make_schema (attr ∷ [])
schema_with (err e) = err e

abbrev value_name : Bytes
value_name = b'v' ∷ b'a' ∷ b'l' ∷ b'u' ∷ b'e' ∷ []

-- The schema does not depend on an instance.
pub infer_schema : ℕ → Result Schema
infer_schema batch_size =
    schema_with (make_attribute value_name string (batch_size ∷ 1 ∷ []) [] false)

abbrev no_line : Bytes
no_line = []

abbrev empty_rows : ℕ → List Bytes
empty_rows n = replicate n no_line

-- A new array of strings holds empty ones.
pub make_tensor : ℕ → Result (DenseTensor Bytes)
make_tensor batch_size = make_dense_tensor string (batch_size ∷ 1 ∷ []) (empty_rows batch_size) []

abbrev cons_row : Bytes → Result (List Bytes) → Result (List Bytes)
cons_row b (ok rows) = ok (b ∷ rows)
cons_row b (err e) = err e

-- The loop over the instances, on the rows that it writes over.
pub write_rows : List Bytes → List Bytes → Result (List Bytes)
write_rows rows [] = ok rows
write_rows [] (b ∷ bs) = err undefined_behaviour
write_rows (r ∷ rows) (b ∷ bs) = cons_row b (write_rows rows bs)

abbrev with_rows :
    InstanceBatch Bytes
    → DenseTensor Bytes
    → Result (List Bytes)
    → Result (Example (DenseTensor Bytes))
with_rows batch tensor (err e) = err e
with_rows batch tensor (ok rows) = ok (record {
  features = record tensor { elements = rows } ∷ [];
  padding = batch.size - length batch.instances;
})

abbrev fill_tensor :
    InstanceBatch Bytes → Result (DenseTensor Bytes) → Result (Example (DenseTensor Bytes))
fill_tensor batch (err e) = err e
fill_tensor batch (ok tensor) = with_rows batch tensor (write_rows tensor.elements batch.instances)

pub decode : InstanceBatch Bytes → Result (Example (DenseTensor Bytes))
decode batch = fill_tensor batch (make_tensor batch.size)

write_rows-empty_rows :
    (n : ℕ) (bs : List Bytes)
    → length bs ≤ n
    → write_rows (empty_rows n) bs ≡ ok (bs ++ empty_rows (n - length bs))
unfolding write_rows
write_rows-empty_rows n [] h = let e : n - 0 ≡ n = omega arith in rw e refl
write_rows-empty_rows zero (b ∷ bs) h = absurd (omega arith)
write_rows-empty_rows (suc n) (b ∷ bs) h =
    ap (cons_row b) (write_rows-empty_rows n bs (omega arith))
    ∙ ap (λ k. ok ((b ∷ bs) ++ empty_rows k)) (omega arith)

abbrev lines_of : ℕ → List Bytes → DenseTensor Bytes
lines_of n rows = record {
  tensor = record { data_type = string; shape = n ∷ 1 ∷ []; strides = 1 ∷ 1 ∷ [] };
  elements = rows;
}

size_checked :
    (n : ℕ)
    → n < 2 ^ 63
    → validate_data_size (n ∷ 1 ∷ []) (1 ∷ 1 ∷ []) (length (empty_rows n)) ≡ true
unfolding default_strides
size_checked n h =
    validate_data_size-product n (1 ∷ []) (length (empty_rows n)) (omega arith, (omega arith, tt))
      (omega arith)
    ∙ ap (leb (product (n ∷ 1 ∷ []))) (length-replicate n no_line)
    ∙ ground arith

make_tensor-lines_of : (n : ℕ) → n < 2 ^ 63 → make_tensor n ≡ ok (lines_of n (empty_rows n))
unfolding make_tensor make_dense_tensor choose_strides default_strides
make_tensor-lines_of n h = rw (size_checked n h) refl

-- A batch whose size is not below the number of its instances, and below 2 ^ 63, becomes an example of
-- its lines, in order, then of empty ones that are counted as padding.
decode-pads :
    (batch : InstanceBatch Bytes)
    → length batch.instances ≤ batch.size
    → batch.size < 2 ^ 63
    → decode batch
      ≡ ok (record {
        features =
            lines_of batch.size
              (batch.instances ++ empty_rows (batch.size - length batch.instances))
            ∷ [];
        padding = batch.size - length batch.instances;
      })
unfolding decode
decode-pads batch h l =
    rw (make_tensor-lines_of batch.size l, write_rows-empty_rows batch.size batch.instances h) refl
