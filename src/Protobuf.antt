-- ===== src/Protobuf.antt =====
-- recordio_protobuf_reader.cc: how a schema is made from the first message. The messages are those
-- of recordio_protobuf.proto; a map is the list of its pairs, and generated code parses them.
pub mod Decode
use ml_io.Base.{
  ℕ, ◌+◌, ◌*◌, Bool, true, false, not, ◌&&◌, ◌||◌, Option, none, some, List, [], ◌∷◌, ◌++◌, map,
  length, if◌then◌else◌, Bytes,
}
use ml_io.Action.{
  Result, ok, err, schema_error, not_supported, Action, ◌>>=◌, ◌>>◌, pure, throw, get, modify,
}
use ml_io.Tensors.{DataType, float32, float64, int32, head_or}
use ml_io.Tensors.Schema.{Attribute, Schema, make_attribute, make_schema}
use ml_io.Tensors.Coo.{try_narrow}

-- The three tensor messages have the same fields; the elements stand in `V`.
pub record TensorMessage (V : Type 0) : Type 0 where
  pub elements : List V
  pub keys : List ℕ
  pub shape : List ℕ

pub data ValueMessage (V : Type 0) : Type 0 where
  float32_tensor float64_tensor int32_tensor : TensorMessage V → ValueMessage V
  bytes value_not_set : ValueMessage V

pub record RecordMessage (V : Type 0) : Type 0 where
  pub label : List (Bytes × ValueMessage V)
  pub features : List (Bytes × ValueMessage V)

abbrev pub is_empty {ℓ} : {A : Type ℓ} → List A → Bool
is_empty [] = true
is_empty (x ∷ xs) = false

-- The members of the reader.
pub record State : Type 0 where
  pub has_sparse_feature : Bool
  pub num_values_per_instance : ℕ

pub start : State
start = record { has_sparse_feature = false; num_values_per_instance = 0 }

pub copy_shape : List ℕ → Result (List ℕ)
copy_shape [] = ok []
copy_shape (dim ∷ dims) = elim (try_narrow dim) [
  | none ↦ err schema_error
  | some d ↦ cons_dim d (copy_shape dims)
]
  where
    cons_dim : ℕ → Result (List ℕ) → Result (List ℕ)
    cons_dim d (ok ds) = ok (d ∷ ds)
    cons_dim d (err e) = err e

abbrev pub prefixed : ℕ → Bool → Result (List ℕ) → Result (List ℕ × Bool)
prefixed batch_size sparse (ok dims) = ok (batch_size ∷ dims, sparse)
prefixed batch_size sparse (err e) = err e

-- The shape of a feature, the batch in front, and whether it is sparse.
pub shape_of : {V : Type 0} → ℕ → TensorMessage V → Result (List ℕ × Bool)
shape_of batch_size t =
    if is_empty t.keys
    then (if is_empty t.shape
        then ok (batch_size ∷ length t.elements ∷ [], false)
        else prefixed batch_size (is_empty t.elements) (copy_shape t.shape))
    else if is_empty t.shape
    then err schema_error
    else prefixed batch_size true (copy_shape t.shape)

abbrev lift : {A : Type 0} → Result A → Action State A
lift r s = (r, s)

pub make_attribute_of :
    {V : Type 0} → ℕ → Bytes → DataType → TensorMessage V → Action State Attribute
make_attribute_of batch_size name dt t = do
  (shape, sparse) ← lift (shape_of batch_size t)
  _ ← modify (λ s. record s { has_sparse_feature = s.has_sparse_feature || sparse })
  lift (make_attribute name dt shape [] sparse)

-- The overload on the kind of a value.
pub make_value_attribute : {V : Type 0} → ℕ → Bytes → ValueMessage V → Action State Attribute
make_value_attribute batch_size name (float32_tensor t) =
    make_attribute_of batch_size name float32 t
make_value_attribute batch_size name (float64_tensor t) =
    make_attribute_of batch_size name float64 t
make_value_attribute batch_size name (int32_tensor t) = make_attribute_of batch_size name int32 t
make_value_attribute batch_size name bytes = throw not_supported
make_value_attribute batch_size name value_not_set = throw schema_error

pub make_attributes :
    {V : Type 0} → ℕ → List (Bytes × ValueMessage V) → Action State (List Attribute)
make_attributes batch_size [] = pure []
make_attributes batch_size ((name, value) ∷ values) = do
  attr ← make_value_attribute batch_size name value
  attrs ← make_attributes batch_size values
  pure (attr ∷ attrs)

-- Labels and features in one list; the names of labels get a prefix.
abbrev pub label_prefix : Bytes
label_prefix = b'l' ∷ b'a' ∷ b'b' ∷ b'e' ∷ b'l' ∷ b'_' ∷ []

abbrev pub all_values : {V : Type 0} → RecordMessage V → List (Bytes × ValueMessage V)
all_values m = map (λ x. (label_prefix ++ x.0, x.1)) m.label ++ m.features

abbrev pub dense_values : List Attribute → ℕ
dense_values [] = 0
dense_values (attr ∷ attrs) =
    if attr.sparse then dense_values attrs else head_or 0 attr.strides + dense_values attrs

-- No instance, no schema; `parse_proto` is the generated parser.
module _ {V : Type 0} (parse_proto : Bytes → Option (RecordMessage V)) where
  abbrev infer_message : ℕ → Option (RecordMessage V) → Action State (Option Schema)
  infer_message batch_size none = throw schema_error
  infer_message batch_size (some m) = do
    attrs ← make_attributes batch_size (all_values m)
    schema ← lift (make_schema attrs)
    _ ← modify (λ s. record s {
      num_values_per_instance = s.num_values_per_instance + dense_values schema.attributes;
    })
    pure (some schema)

  pub infer_schema : ℕ → Option Bytes → Action State (Option Schema)
  infer_schema batch_size none = pure none
  infer_schema batch_size (some bits) = infer_message batch_size (parse_proto bits)
