-- ===== src/Protobuf/Decode.antt =====
-- recordio_protobuf_reader.cc: the decoding of a message into dense tensors and builders of sparse
-- ones.
use ml_io.Base.{
  ℕ, ◌+◌, ◌*◌, ◌%◌, Bool, true, false, not, ◌&&◌, Option, none, some, List, [], ◌∷◌, ◌++◌, length,
  get_elem?, set, take, drop, replicate, leb, ◌==◌, if◌then◌else◌, Bytes,
}
use ml_io.Action.{Result, ok, err, undefined_behaviour, Action, ◌>>=◌, pure, throw, modify}
use ml_io.Tensors.{
  word_mod, DataType, float32, float64, int32, head_or, DenseTensor, CooTensor, make_dense_tensor,
}
use ml_io.Tensors.Schema.{Attribute, Schema, same_type, get_index}
use ml_io.Tensors.Coo.{Builder, start, append, build, try_narrow, tail, with_batch}
use ml_io.Examples.{BadInstances, BadExampleHandling, refuse, decode_serial}
use ml_io.Protobuf.{
  TensorMessage, ValueMessage, float32_tensor, float64_tensor, int32_tensor, bytes, value_not_set,
  RecordMessage, is_empty, all_values,
}

-- A feature has a tensor or the builder of one.
pub data Slot (V : Type 0) : Type 0 where
  dense : DenseTensor V → Slot V
  sparse : Builder V → Slot V

abbrev pub Slots : Type 0 → Type 0
Slots V = List (Slot V)

abbrev dense_slot : {V : Type 0} → Result (DenseTensor V) → Result (Slot V)
dense_slot (ok t) = ok (dense t)
dense_slot (err e) = err e

-- The batch's dimension is what its stride counts.
pub init_slot : {V : Type 0} → V → ℕ → Attribute → Result (Slot V)
init_slot zero_value batch_size attr =
    if attr.sparse
    then ok (sparse (start attr))
    else dense_slot (
        make_dense_tensor attr.data_type (with_batch batch_size attr.shape)
          (replicate (batch_size * head_or 0 attr.strides % word_mod) zero_value) [])

abbrev add_slot : {V : Type 0} → Result (Slot V) → Result (Slots V) → Result (Slots V)
add_slot (ok s) (ok slots) = ok (s ∷ slots)
add_slot (ok s) (err e) = err e
add_slot (err e) slots = err e

pub init_state : {V : Type 0} → V → ℕ → List Attribute → Result (Slots V)
init_state zero_value batch_size [] = ok []
init_state zero_value batch_size (attr ∷ attrs) =
    add_slot (init_slot zero_value batch_size attr) (init_state zero_value batch_size attrs)

pub is_sparse : {V : Type 0} → TensorMessage V → Bool
is_sparse t = if is_empty t.keys then is_empty t.elements && not (is_empty t.shape) else true

-- The dimensions of a message against those of the attribute, the batch left out.
pub same_dims : List ℕ → List ℕ → Bool
same_dims [] [] = true
same_dims (d ∷ dims) (n ∷ shape) = elim (try_narrow n) [
  | none ↦ false
  | some m ↦ if d == m then same_dims dims shape else false
]
same_dims _ _ = false

pub shape_equals : {V : Type 0} → Attribute → TensorMessage V → Bool
shape_equals attr t =
    if is_empty t.shape
    then same_dims (tail attr.shape) (length t.elements ∷ [])
    else same_dims (tail attr.shape) t.shape

abbrev same_bool : Bool → Bool → Bool
same_bool true b = b
same_bool false b = not b

-- A feature of the example: the dense tensor, or what its builder makes.
pub data Feature (V : Type 0) : Type 0 where
  dense_feature : DenseTensor V → Feature V
  sparse_feature : CooTensor V → Feature V

abbrev of_sparse : {V : Type 0} → Result (CooTensor V) → Result (Feature V)
of_sparse (ok t) = ok (sparse_feature t)
of_sparse (err e) = err e

pub build_feature : {V : Type 0} → ℕ → Attribute → Slot V → Result (Feature V)
build_feature batch_size attr (dense t) = ok (dense_feature t)
build_feature batch_size attr (sparse b) = of_sparse (build attr batch_size b)

module _ {V : Type 0} (flags : BadInstances) (schema : Schema) where
  abbrev write_at : ℕ → List V → List V → List V
  write_at offset values elements =
      take offset elements ++ (values ++ drop (offset + length values) elements)

  -- The values of a dense feature go to the row's place.
  pub copy_to_tensor : Attribute → ℕ → ℕ → TensorMessage V → DenseTensor V → Action (Slots V) Bool
  copy_to_tensor attr idx row_idx t tensor =
      let num_values = head_or 0 attr.strides in
      if num_values == length t.elements
      then (if leb (row_idx * num_values + num_values) (length tensor.elements)
          then (do
            _ ← modify (λ s. set s idx (
                dense (record tensor {
                  elements = write_at (row_idx * num_values) t.elements tensor.elements;
                })))
            pure true)
          else throw undefined_behaviour)
      else refuse flags

  abbrev put_builder : ℕ → Result Bool × Builder V → Action (Slots V) Bool
  put_builder idx (ok true, b) s = (ok true, set s idx (sparse b))
  put_builder idx (ok false, b) s = refuse flags (set s idx (sparse b))
  put_builder idx (err e, b) s = (err e, set s idx (sparse b))

  pub append_to_builder : Attribute → ℕ → TensorMessage V → Builder V → Action (Slots V) Bool
  append_to_builder attr idx t b =
      if length t.keys == length t.elements
      then put_builder idx (append attr t.elements t.keys b)
      else refuse flags

  -- The slots were made from the attributes, so that the branches of the wrong kind are not met.
  abbrev store : Attribute → ℕ → ℕ → TensorMessage V → Option (Slot V) → Action (Slots V) Bool
  store attr idx row_idx t none = throw undefined_behaviour
  store attr idx row_idx t (some (dense tensor)) =
      if attr.sparse then throw undefined_behaviour else copy_to_tensor attr idx row_idx t tensor
  store attr idx row_idx t (some (sparse b)) =
      if attr.sparse then append_to_builder attr idx t b else throw undefined_behaviour

  pub decode_tensor : Attribute → ℕ → ℕ → DataType → TensorMessage V → Action (Slots V) Bool
  decode_tensor attr idx row_idx dt t slots =
      if same_type attr.data_type dt && same_bool (is_sparse t) attr.sparse && shape_equals attr t
      then store attr idx row_idx t (get_elem? slots idx) slots
      else refuse flags slots

  pub decode_value : Attribute → ℕ → ℕ → ValueMessage V → Action (Slots V) Bool
  decode_value attr idx row_idx (float32_tensor t) = decode_tensor attr idx row_idx float32 t
  decode_value attr idx row_idx (float64_tensor t) = decode_tensor attr idx row_idx float64 t
  decode_value attr idx row_idx (int32_tensor t) = decode_tensor attr idx row_idx int32 t
  decode_value attr idx row_idx bytes = refuse flags
  decode_value attr idx row_idx value_not_set = refuse flags

  abbrev at_attribute : ℕ → ℕ → ValueMessage V → Option Attribute → Action (Slots V) Bool
  at_attribute idx row_idx value none = throw undefined_behaviour
  at_attribute idx row_idx value (some attr) = decode_value attr idx row_idx value

  abbrev at_index : ℕ → ValueMessage V → Option ℕ → Action (Slots V) Bool
  at_index row_idx value none = refuse flags
  at_index row_idx value (some idx) =
      at_attribute idx row_idx value (get_elem? schema.attributes idx)

  pub decode_feature : ℕ → Bytes → ValueMessage V → Action (Slots V) Bool
  decode_feature row_idx name value = at_index row_idx value (get_index schema name)

  -- Features are decoded until one is refused.
  pub decode_features : ℕ → List (Bytes × ValueMessage V) → Action (Slots V) Bool
  decode_features row_idx [] = pure true
  decode_features row_idx ((name, value) ∷ values) = do
    good ← decode_feature row_idx name value
    if good then decode_features row_idx values else pure false

  -- All attributes of the schema have to be read.
  abbrev all_read : ℕ → Action (Slots V) Bool
  all_read num_features_read =
      if num_features_read == length schema.attributes then pure true else refuse flags

  pub decode_message : ℕ → RecordMessage V → Action (Slots V) Bool
  decode_message row_idx m = decode_features row_idx (all_values m) >>= λ good.
      if good then all_read (length m.label + length m.features) else pure false

  pub decode : (Bytes → Option (RecordMessage V)) → ℕ → Bytes → Action (Slots V) Bool
  decode parse_proto row_idx bits = parsed_message (parse_proto bits)
    where
      parsed_message : Option (RecordMessage V) → Action (Slots V) Bool
      parsed_message none = refuse flags
      parsed_message (some m) = decode_message row_idx m

  -- The batch, one instance behind the other.
  pub decode_instances :
      BadExampleHandling
      → (Bytes → Option (RecordMessage V))
      → ℕ
      → List Bytes
      → Action (Slots V) (Option ℕ)
  decode_instances h parse_proto row_idx instances =
      decode_serial h (decode parse_proto) row_idx instances
