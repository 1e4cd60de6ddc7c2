-- ===== src/Tensors/Coo.antt =====
-- coo_tensor_builder.h and coo_tensor_builder.cc: sparse rows are appended to a list of elements and
-- to a list of coordinates for each dimension. What a call wrote before it failed stays written.
pub mod Coordinates
pub mod Faults
use ml_io.Base.{
  ℕ, ◌+◌, ◌*◌, ◌/◌, ◌%◌, Bool, true, false, Option, none, some, List, [], ◌∷◌, ◌++◌, length,
  replicate, ltb, leb, ◌==◌, if◌then◌else◌,
}
use ml_io.Action.{Result, ok, err, undefined_behaviour, Action, ◌>>=◌, pure}
use ml_io.Tensors.{word_mod, CooTensor, make_coo_tensor}
use ml_io.Tensors.Schema.{Attribute}

pub record Builder (V : Type 0) : Type 0 where
  pub row_idx : ℕ
  pub coordinates : List (List ℕ)
  pub elements : List V

-- `try_narrow` from 64 bits to a `std::size_t`, which has 64 bits here.
abbrev pub try_narrow : ℕ → Option ℕ
try_narrow n = if ltb n word_mod then some n else none

abbrev pub tail : List ℕ → List ℕ
tail [] = []
tail (x ∷ xs) = xs

-- The inner loop of `append_indices`, over the dimensions but that of the batch.
unfoldable pub push_dims : List ℕ → List ℕ → ℕ → Action (List (List ℕ)) Bool
push_dims (dim ∷ dims) (stride ∷ strides) idx (c ∷ cs) =
    let rest = push_dims dims strides (idx % stride) cs in
    if stride == 0
    then (err undefined_behaviour, c ∷ cs)
    else if leb dim (idx / stride)
    then (ok false, c ∷ cs)
    else (rest.0, (c ++ idx / stride ∷ []) ∷ rest.1)
push_dims _ _ idx cs = (ok true, cs)

-- One index of the outer loop.
unfoldable pub push_index : Attribute → ℕ → ℕ → Action (List (List ℕ)) Bool
push_index attr row_idx idx [] = (err undefined_behaviour, [])
push_index attr row_idx idx (c ∷ cs) =
    let rest = push_dims (tail attr.shape) (tail attr.strides) idx cs in
    elim (try_narrow idx) [
      | none ↦ (ok false, c ∷ cs)
      | some _ ↦ (rest.0, (c ++ row_idx ∷ []) ∷ rest.1)
    ]

unfoldable pub push_indices : Attribute → ℕ → List ℕ → Action (List (List ℕ)) Bool
push_indices attr row_idx [] = pure true
push_indices attr row_idx (idx ∷ indices) = push_index attr row_idx idx >>= λ within.
    if within then push_indices attr row_idx indices else pure false

-- The shape with the size of the batch in front.
abbrev pub with_batch : ℕ → List ℕ → List ℕ
with_batch n [] = []
with_batch n (d ∷ shape) = n ∷ shape

module _ {V : Type 0} where
  unfoldable pub start : Attribute → Builder V
  start attr = record { row_idx = 0; coordinates = replicate (length attr.shape) []; elements = [] }

  abbrev pub end_row : Builder V → Result Bool × List (List ℕ) → Result Bool × Builder V
  end_row b (ok true, cs) = (ok true, record b { row_idx = b.row_idx + 1; coordinates = cs })
  end_row b (ok false, cs) = (ok false, record b { coordinates = cs })
  end_row b (err e, cs) = (err e, record b { coordinates = cs })

  unfoldable pub append_indices : Attribute → List ℕ → Action (Builder V) Bool
  append_indices attr indices b = end_row b (push_indices attr b.row_idx indices b.coordinates)

  unfoldable pub append : Attribute → List V → List ℕ → Action (Builder V) Bool
  append attr values indices b =
      append_indices attr indices (record b { elements = b.elements ++ values })

  unfoldable pub build : Attribute → ℕ → Builder V → Result (CooTensor V)
  build attr batch_size b =
      make_coo_tensor attr.data_type (with_batch batch_size attr.shape) b.elements b.coordinates
