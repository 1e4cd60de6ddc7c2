-- ===== src/Tensors/Schema.antt =====
-- schema.cc: attributes and schemas. The map from names to indices is a list of pairs.
use mathlib.Core.Option.{none-ne-some, some-injective}
use ml_io.Base.{
  ℕ, zero, suc, subst, ◌∙◌, ◌+◌, ◌≡◌, refl, ap, Bool, true, false, Option, none, some, List, [],
  ◌∷◌, get_elem?, ◌==◌, if◌then◌else◌, Bool-cases, Option-cases, inl, inr, Bytes, arith,
}
use ml_io.Base.Keys.{
  contains, Distinct, keys, lookup, same_refl, bytes_eq, lookup-cons_fresh, lookup-cons_same,
  contains-cons, contains-later,
}
use ml_io.Action.{Result, ok, err, invalid_argument}
use ml_io.Tensors.{
  DataType, size, float16, float32, float64, int8, int16, int32, int64, uint8, uint16, uint32,
  uint64, string, choose_strides, default_strides,
}

-- Enumerators are compared by their numbers.
abbrev number_of : DataType → ℕ
number_of size = 0
number_of float16 = 1
number_of float32 = 2
number_of float64 = 3
number_of int8 = 4
number_of int16 = 5
number_of int32 = 6
number_of int64 = 7
number_of uint8 = 8
number_of uint16 = 9
number_of uint32 = 10
number_of uint64 = 11
number_of string = 12

abbrev pub same_type : DataType → DataType → Bool
same_type a b = number_of a == number_of b

pub record Attribute : Type 0 where
  pub name : Bytes
  pub data_type : DataType
  pub shape : List ℕ
  pub strides : List ℕ
  pub sparse : Bool

pub make_attribute : Bytes → DataType → List ℕ → List ℕ → Bool → Result Attribute
make_attribute name dt shape strides sparse = elim (choose_strides shape strides) [
  | err e ↦ err e
  | ok chosen ↦
      ok (record { name = name; data_type = dt; shape = shape; strides = chosen; sparse = sparse })
]

-- With default strides.
pub make_attribute-nil :
    (name : Bytes) (dt : DataType) (shape : List ℕ) (sparse : Bool)
    → make_attribute name dt shape [] sparse
      ≡ ok (record {
        name = name;
        data_type = dt;
        shape = shape;
        strides = default_strides shape;
        sparse = sparse;
      })
unfolding make_attribute choose_strides
make_attribute-nil name dt shape sparse = refl

pub record Schema : Type 0 where
  pub attributes : List Attribute
  pub name_index_map : List (Bytes × ℕ)

-- The loop of the constructor; `none` where a name is there already.
pub index_names : ℕ → List Attribute → List (Bytes × ℕ) → Option (List (Bytes × ℕ))
index_names idx [] m = some m
index_names idx (attr ∷ attrs) m =
    if contains attr.name (keys m) then none else index_names (idx + 1) attrs ((attr.name, idx) ∷ m)

pub make_schema : List Attribute → Result Schema
make_schema attrs = elim (index_names 0 attrs []) [
  | none ↦ err invalid_argument
  | some m ↦ ok (record { attributes = attrs; name_index_map = m })
]

pub get_index : Schema → Bytes → Option ℕ
get_index s name = lookup name s.name_index_map

abbrev pub names : List Attribute → List Bytes
names [] = []
names (attr ∷ attrs) = attr.name ∷ names attrs

-- What stands in the map stays there.
index_names-lookup :
    (idx : ℕ) (attrs : List Attribute) (m m' : List (Bytes × ℕ)) (name : Bytes) (i : ℕ)
    → index_names idx attrs m ≡ some m'
    → lookup name m ≡ some i
    → lookup name m' ≡ some i
unfolding index_names
index_names-lookup idx [] m m' name i e h =
    subst (λ x. lookup name x ≡ some i) (some-injective m m' e) h
index_names-lookup idx (attr ∷ attrs) m m' name i e h =
    elim (Bool-cases (contains attr.name (keys m))) [
      | inl c ↦ absurd (none-ne-some m' (rw c at e))
      | inr c ↦
          index_names-lookup (idx + 1) attrs ((attr.name, idx) ∷ m) m' name i (rw c at e)
            (lookup-cons_fresh name attr.name i idx m c h)
    ]

-- A name is mapped to the place of its attribute.
index_names-get :
    (idx : ℕ) (attrs : List Attribute) (m m' : List (Bytes × ℕ)) (k : ℕ) (attr : Attribute)
    → index_names idx attrs m ≡ some m'
    → get_elem? attrs k ≡ some attr
    → lookup attr.name m' ≡ some (idx + k)
unfolding index_names
index_names-get idx [] m m' k attr e h = absurd (none-ne-some attr h)
index_names-get idx (x ∷ attrs) m m' zero attr e h = elim (Bool-cases (contains x.name (keys m))) [
  | inl c ↦ absurd (none-ne-some m' (rw c at e))
  | inr c ↦
      index_names-lookup (idx + 1) attrs ((x.name, idx) ∷ m) m' attr.name (idx + 0) (rw c at e) (
        subst (λ y. lookup y.name ((x.name, idx) ∷ m) ≡ some (idx + 0)) (some-injective x attr h)
          (lookup-cons_same x.name idx m ∙ ap some (omega arith)))
]
index_names-get idx (x ∷ attrs) m m' (suc k) attr e h =
    elim (Bool-cases (contains x.name (keys m))) [
      | inl c ↦ absurd (none-ne-some m' (rw c at e))
      | inr c ↦
          index_names-get (idx + 1) attrs ((x.name, idx) ∷ m) m' k attr (rw c at e) h
          ∙ ap some (omega arith)
    ]

-- Distinct names, of which none stands in the map, make a schema.
index_names-some :
    (idx : ℕ) (attrs : List Attribute) (m : List (Bytes × ℕ))
    → Distinct (names attrs)
    → ((name : Bytes) → contains name (names attrs) ≡ true → contains name (keys m) ≡ false)
    → (m' : List (Bytes × ℕ)) × (index_names idx attrs m ≡ some m')
unfolding index_names
index_names-some idx [] m d h = (m, refl)
index_names-some idx (attr ∷ attrs) m (n, d) h =
    let fresh : contains attr.name (keys m) ≡ false =
      h attr.name
        (ap (λ b. if b then true else contains attr.name (names attrs)) (same_refl attr.name)) in
    rw fresh (
      index_names-some (idx + 1) attrs ((attr.name, idx) ∷ m) d (λ name c.
        contains-cons name attr.name (keys m) (names attrs) n c
          (h name (contains-later name attr.name (names attrs) c))))

pub make_schema-get_index :
    (attrs : List Attribute) (k : ℕ) (attr : Attribute) (s : Schema)
    → make_schema attrs ≡ ok s
    → get_elem? attrs k ≡ some attr
    → get_index s attr.name ≡ some k
unfolding make_schema get_index
make_schema-get_index attrs k attr s e h = elim (Option-cases (index_names 0 attrs [])) [
  | inl n ↦ ground (arith, n)
  | inr (m, n) ↦ ground (arith, n, index_names-get 0 attrs [] m k attr n h)
]

-- Distinct names make a schema of the attributes.
pub make_schema-Distinct :
    (attrs : List Attribute)
    → Distinct (names attrs)
    → (s : Schema) × (make_schema attrs ≡ ok s) × (s.attributes ≡ attrs)
unfolding make_schema
make_schema-Distinct attrs d =
    let (m, e) = index_names-some 0 attrs [] d (λ name c. refl) in
    (record { attributes = attrs; name_index_map = m }, rw (make_schema, e), refl)
