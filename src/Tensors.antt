-- ===== src/Tensors.antt =====
-- data_type.h, tensor.h, tensor.cc and example.cc: tensors, their strides and the checks of their
-- constructors. A `std::ptrdiff_t` is its pattern of 64 bits.
pub mod Bounds
pub mod Schema
pub mod Coo
use ml_io.Base.{
  ℕ, ◌+◌, ◌-◌, ◌*◌, ◌%◌, ◌^◌, Bool, true, false, List, [], ◌∷◌, length, ltb, ◌==◌, if◌then◌else◌,
}
use ml_io.Action.{Result, ok, err, invalid_argument, undefined_behaviour}

pub data DataType : Type 0 where
  size float16 float32 float64 int8 int16 int32 int64 : DataType
  uint8 uint16 uint32 uint64 string : DataType

abbrev pub word_mod : ℕ
word_mod = 2 ^ 64

abbrev pub head_or : ℕ → List ℕ → ℕ
head_or d [] = d
head_or d (x ∷ xs) = x

-- From the last dimension on, each stride is the next one times the next dimension.
unfoldable pub default_strides : List ℕ → List ℕ
default_strides [] = []
default_strides (d ∷ []) = 1 ∷ []
default_strides (d ∷ d' ∷ shape) =
    let rest = default_strides (d' ∷ shape) in head_or 1 rest * d' % word_mod ∷ rest

pub record Tensor : Type 0 where
  pub data_type : DataType
  pub shape : List ℕ
  pub strides : List ℕ

-- What the constructors of `Tensor` and `Attribute` do with the strides.
unfoldable pub choose_strides : List ℕ → List ℕ → Result (List ℕ)
choose_strides shape [] = ok (default_strides shape)
choose_strides shape (s ∷ strides) =
    if length (s ∷ strides) == length shape then ok (s ∷ strides) else err invalid_argument

-- `std::abs` on the pattern.
abbrev pub abs : ℕ → ℕ
abs s = if ltb s (2 ^ 63) then s else word_mod - s

-- The sum that `validate_data_size` makes, in the arithmetic of `std::size_t`.
pub last_idx : ℕ → List ℕ → List ℕ → ℕ
last_idx acc (dim ∷ shape) (s ∷ strides) =
    last_idx ((acc + (dim + (word_mod - 1)) % word_mod * abs s) % word_mod) shape strides
last_idx acc _ _ = acc

pub validate_data_size : List ℕ → List ℕ → ℕ → Bool
validate_data_size [] strides data_size = true
validate_data_size (d ∷ shape) strides data_size =
    if ltb data_size ((last_idx 0 (d ∷ shape) strides + 1) % word_mod) then false else true

-- The elements stand in `V`.
pub record DenseTensor (V : Type 0) : Type 0 where
  pub tensor : Tensor
  pub elements : List V

pub record CooTensor (V : Type 0) : Type 0 where
  pub tensor : Tensor
  pub elements : List V
  pub coordinates : List (List ℕ)

pub record CsrTensor (V : Type 0) : Type 0 where
  pub tensor : Tensor
  pub elements : List V
  pub indices : List ℕ
  pub indptr : List ℕ

pub all_of_size : ℕ → List (List ℕ) → Bool
all_of_size n [] = true
all_of_size n (c ∷ cs) = if length c == n then all_of_size n cs else false

module _ {V : Type 0} where
  unfoldable pub make_dense_tensor : DataType → List ℕ → List V → List ℕ → Result (DenseTensor V)
  make_dense_tensor dt shape elements strides = elim (choose_strides shape strides) [
    | err e ↦ err e
    | ok chosen ↦
        if validate_data_size shape chosen (length elements)
        then ok (record {
          tensor = record { data_type = dt; shape = shape; strides = chosen };
          elements = elements;
        })
        else err invalid_argument
  ]

  pub make_coo_tensor : DataType → List ℕ → List V → List (List ℕ) → Result (CooTensor V)
  make_coo_tensor dt shape elements coordinates =
      if length shape == length coordinates
      then (if all_of_size (length elements) coordinates
          then ok (record {
            tensor = record { data_type = dt; shape = shape; strides = default_strides shape };
            elements = elements;
            coordinates = coordinates;
          })
          else err invalid_argument)
      else err invalid_argument

  -- `indptr` was moved from when its size is asked for, through a null pointer.
  pub make_csr_tensor : DataType → List ℕ → List V → List ℕ → List ℕ → Result (CsrTensor V)
  make_csr_tensor dt shape elements indices indptr =
      if ltb 2 (length shape)
      then err invalid_argument
      else if length elements == length indices
      then err undefined_behaviour
      else err invalid_argument
