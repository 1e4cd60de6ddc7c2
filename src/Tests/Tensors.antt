-- ===== src/Tests/Tensors.antt =====
-- Tensors and their builders on small shapes.
use ml_io.Base.{ℕ, ◌+◌, ◌≡◌, refl, true, false, List, [], ◌∷◌, ◌++◌, leb, arith}
use ml_io.Action.{ok, err, invalid_argument}
use ml_io.Tensors.{float32, default_strides, validate_data_size}
use ml_io.Tensors.Bounds.{product, validate_data_size-product}
use ml_io.Tensors.Schema.{Attribute}
use ml_io.Tensors.Coo.{
  Builder, push_dims, push_index, push_indices, append_indices, append, start, build,
}
use ml_io.Tensors.Coo.Coordinates.{AllLocated, add_points, all_below, append-AllLocated}
use ml_io.Tensors.Coo.Faults.{Appends, none_more, append_more, build-refused}

-- A shape with a dimension of zero.
validate_data_size-product_example :
    validate_data_size (2 ∷ 0 ∷ 3 ∷ []) (default_strides (2 ∷ 0 ∷ 3 ∷ [])) 5
    ≡ leb (product (2 ∷ 0 ∷ 3 ∷ [])) 5
validate_data_size-product_example =
    validate_data_size-product 2 (0 ∷ 3 ∷ []) 5 (omega arith, (omega arith, (omega arith, tt)))
      (omega arith)

abbrev sparse_attribute : Attribute
sparse_attribute = record {
  name = b'x' ∷ [];
  data_type = float32;
  shape = 8 ∷ 2 ∷ 3 ∷ [];
  strides = 6 ∷ 3 ∷ 1 ∷ [];
  sparse = true;
}

abbrev empty_builder : Builder ℕ
empty_builder = record { row_idx = 0; coordinates = [] ∷ [] ∷ [] ∷ []; elements = [] }

sparse_strides : sparse_attribute.strides ≡ default_strides (8 ∷ 2 ∷ 3 ∷ [])
unfolding default_strides
sparse_strides = refl

append-AllLocated_example :
    ((append sparse_attribute (7 ∷ 9 ∷ []) (4 ∷ 1 ∷ []) empty_builder).0
      ≡ ok (all_below (product (2 ∷ 3 ∷ [])) (4 ∷ 1 ∷ [])))
    × (all_below (product (2 ∷ 3 ∷ [])) (4 ∷ 1 ∷ []) ≡ true
        → (points : List (List ℕ)) × AllLocated (2 ∷ 3 ∷ []) (4 ∷ 1 ∷ []) points
          × ((append sparse_attribute (7 ∷ 9 ∷ []) (4 ∷ 1 ∷ []) empty_builder).1 ≡ record {
            row_idx = 0 + 1;
            coordinates = add_points 0 points ([] ∷ [] ∷ [] ∷ []);
            elements = [] ++ 7 ∷ 9 ∷ [];
          }))
append-AllLocated_example =
    append-AllLocated sparse_attribute 8 2 (3 ∷ []) refl sparse_strides
      (omega arith, (omega arith, tt)) (omega arith, (omega arith, tt)) (omega arith) (7 ∷ 9 ∷ [])
      (4 ∷ 1 ∷ []) empty_builder refl

-- The second row has a key that is out of range; the third is good.
abbrev after_refusal : Builder ℕ
after_refusal = record {
  row_idx = 2;
  coordinates = (0 ∷ 1 ∷ 1 ∷ []) ∷ (1 ∷ 0 ∷ []) ∷ (1 ∷ 2 ∷ []) ∷ [];
  elements = 7 ∷ 8 ∷ 9 ∷ [];
}

three_rows :
    Appends {V = ℕ} sparse_attribute
      (start sparse_attribute)
      (true ∷ false ∷ true ∷ [])
      after_refusal
unfolding append append_indices push_indices push_index push_dims start
three_rows =
    append_more (7 ∷ []) (4 ∷ []) refl refl
      (append_more (8 ∷ []) (6 ∷ []) refl refl (append_more (9 ∷ []) (2 ∷ []) refl refl none_more))

build-refused_example : build sparse_attribute 8 after_refusal ≡ err invalid_argument
build-refused_example =
    build-refused sparse_attribute 8 after_refusal (true ∷ false ∷ true ∷ []) three_rows refl
