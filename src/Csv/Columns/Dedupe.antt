-- ===== src/Csv/Columns/Dedupe.antt =====
-- csv_reader.cc: duplicate column names are made distinct.
use mathlib.Core.Bool.{true≢false}
use ml_io.Base.{
  subst, ℕ, suc, ◌+◌, ◌≤◌, length, ◌++◌, ◌≡◌, refl, sym, ap, ◌∙◌, Bool, true, false, Option, none,
  some, List, [], ◌∷◌, if◌then◌else◌, Bool-cases, inl, inr, Bytes, arith,
}
use ml_io.Base.Keys.{contains, Distinct, keys, bytes_eq, same, same_refl, same→eq}
use ml_io.Action.{ok, err, out_of_fuel}
use ml_io.Tensors.{DataType, default_strides}
use ml_io.Tensors.Schema.{
  Attribute, Schema, make_attribute, make_attribute-nil, make_schema-Distinct, names,
}
use ml_io.Csv.Columns.{
  ReaderParams, State, Attributed, should_skip, longest, insert_name, free_name, make_attributes,
  put_attribute, put_ignored, schema_of, init_parsers_and_make_schema,
}
use ml_io.Csv.Columns.Names.{Extends, Found, insert_name-Found}

-- The columns that are read, with their types.
abbrev pub used : ReaderParams → ℕ → List Bytes → List DataType → List (Bytes × DataType)
used p index (name ∷ column_names) (dt ∷ types) =
    if should_skip p index name
    then used p (index + 1) column_names types
    else (name, dt) ∷ used p (index + 1) column_names types
used p index _ _ = []

-- The attributes of columns: their types, and their names as they are or made longer.
abbrev pub Describe : List (Bytes × DataType) → List Attribute → Type 0
Describe [] [] = Unit {0}
Describe ((name, dt) ∷ columns) (attr ∷ attrs) =
    Extends name attr.name × (attr.data_type ≡ dt) × Describe columns attrs
Describe _ _ = ⊥

-- Which columns are ignored.
abbrev pub skipped : ReaderParams → ℕ → List Bytes → List Bool
skipped p index [] = []
skipped p index (name ∷ column_names) =
    should_skip p index name ∷ skipped p (index + 1) column_names

record Attributes (columns : List (Bytes × DataType)) (taken : List Bytes) (ignores : List Bool)
    (r : Attributed) : Type 0 where
  attrs : List Attribute
  made : r ≡ (ok attrs, ignores)
  distinct : Distinct (names attrs)
  fresh : (k : Bytes) → contains k (names attrs) ≡ true → contains k taken ≡ false
  described : Describe columns attrs

abbrev column_shape : ℕ → List ℕ
column_shape batch_size = batch_size ∷ 1 ∷ []

abbrev column_attribute : ℕ → Bytes → DataType → Attribute
column_attribute batch_size name dt = record {
  name = name;
  data_type = dt;
  shape = column_shape batch_size;
  strides = default_strides (column_shape batch_size);
  sparse = false;
}

-- Keys that avoid a list and one key more avoid the list.
avoid-cons :
    (k free : Bytes) (taken taken' attr_names : List Bytes)
    → taken' ≡ free ∷ taken
    → contains free taken ≡ false
    → ((k : Bytes) → contains k attr_names ≡ true → contains k taken' ≡ false)
    → contains k (free ∷ attr_names) ≡ true
    → contains k taken ≡ false
avoid-cons k free taken taken' attr_names e f h c = elim (Bool-cases (same k free)) [
  | inl s ↦ ap (λ z. contains z taken) (same→eq k free s) ∙ f
  | inr s ↦
      let away : contains k (free ∷ taken) ≡ false = ap (contains k) (sym e) ∙ h k (rw s at c) in
      rw s at away
]

not_twice :
    (free : Bytes) (taken taken' attr_names : List Bytes)
    → taken' ≡ free ∷ taken
    → ((k : Bytes) → contains k attr_names ≡ true → contains k taken' ≡ false)
    → contains free attr_names ≡ false
not_twice free taken taken' attr_names e h = elim (Bool-cases (contains free attr_names)) [
  | inr c ↦ c
  | inl c ↦
      let away : contains free (free ∷ taken) ≡ false = ap (contains free) (sym e) ∙ h free c in
      let there : contains free (free ∷ taken) ≡ true =
        ap (λ b. if b then true else contains free taken) (same_refl free) in
      absurd (true≢false (sym there ∙ away))
]

module _ (to_string : ℕ → Bytes) (p : ReaderParams) (dedupe : p.dedupe_column_names ≡ true)
    (batch_size : ℕ) where
  free_name-Found :
      (name : Bytes) (counts : List (Bytes × ℕ))
      → Found name counts (free_name to_string p name counts)
  free_name-Found name counts =
      let f : ℕ = longest (keys counts) + 1 in
      let fuel : suc f ≡ longest (keys counts) + 2 = omega arith in
      subst (Found name counts)
        (ap (λ n. insert_name to_string n name counts) fuel
          ∙ ap
              (λ b.
                if b
                then insert_name to_string (longest (keys counts) + 2) name counts
                else some (name, counts))
              (sym dedupe))
        (insert_name-Found to_string f name counts (omega arith))

  cons-Attributes :
      (name : Bytes) (dt : DataType) (counts : List (Bytes × ℕ)) (columns : List (Bytes × DataType))
      (ignores : List Bool) (rest : List (Bytes × ℕ) → Attributed)
      (h : Found name counts (free_name to_string p name counts))
      → Attributes columns (keys h.counts') ignores (rest h.counts')
      → Attributes ((name, dt) ∷ columns) (keys counts) (false ∷ ignores) (
          put_attribute
            (make_attribute h.free dt (column_shape batch_size) [] false)
            (rest h.counts'))
  cons-Attributes name dt counts columns ignores rest h t = record {
    attrs = column_attribute batch_size h.free dt ∷ t.attrs;
    made =
        ap (λ a. put_attribute a (rest h.counts'))
          (make_attribute-nil h.free dt (column_shape batch_size) false)
        ∙ ap (put_attribute (ok (column_attribute batch_size h.free dt))) t.made;
    distinct = (
      not_twice h.free (keys counts) (keys h.counts') (names t.attrs) h.entered t.fresh,
      t.distinct,
    );
    fresh = λ k c.
        avoid-cons k h.free (keys counts) (keys h.counts') (names t.attrs) h.entered h.fresh t.fresh
          c;
    described = (h.extends, refl, t.described);
  }

  no_columns : (taken : List Bytes) → Attributes [] taken [] (ok [], [])
  no_columns taken = record {
    attrs = [];
    made = refl;
    distinct = tt;
    fresh = λ k c. absurd (true≢false (sym c));
    described = tt;
  }

  ignored-Attributes :
      (columns : List (Bytes × DataType)) (taken : List Bytes) (ignores : List Bool)
      (r : Attributed)
      → Attributes columns taken ignores r
      → Attributes columns taken (true ∷ ignores) (put_ignored r)
  ignored-Attributes columns taken ignores r h = record {
    attrs = h.attrs;
    made = ap put_ignored h.made;
    distinct = h.distinct;
    fresh = h.fresh;
    described = h.described;
  }

  abbrev rest_of : ℕ → List Bytes → List DataType → List (Bytes × ℕ) → Attributed
  rest_of index column_names types counts =
      make_attributes to_string p batch_size (index + 1) column_names types counts

  make_attributes-Attributes :
      (column_names : List Bytes) (index : ℕ) (types : List DataType) (counts : List (Bytes × ℕ))
      → length column_names ≤ length types
      → Attributes
          (used p index column_names types)
          (keys counts)
          (skipped p index column_names)
          (make_attributes to_string p batch_size index column_names types counts)
  unfolding make_attributes
  make_attributes-Attributes [] index types counts l = no_columns (keys counts)
  make_attributes-Attributes (name ∷ column_names) index [] counts l = absurd (omega arith)
  make_attributes-Attributes (name ∷ column_names) index (dt ∷ types) counts l =
      let h = free_name-Found name counts in
      let put : Bytes × List (Bytes × ℕ) → Attributed = λ found.
        put_attribute (make_attribute found.0 dt (column_shape batch_size) [] false)
          (rest_of index column_names types found.1) in
      let chosen : Option (Bytes × List (Bytes × ℕ)) → Attributed = λ o.
        elim o as (λ _. Attributed) [
          | none ↦ (err out_of_fuel, false ∷ [])
          | some found ↦ put found
        ] in
      elim (should_skip p index name)
        as (λ b.
          Attributes
            (if b
              then used p (index + 1) column_names types
              else (name, dt) ∷ used p (index + 1) column_names types)
            (keys counts) (b ∷ skipped p (index + 1) column_names)
            (if b
              then put_ignored (rest_of index column_names types counts)
              else chosen (free_name to_string p name counts))) [
                | true ↦
                    ignored-Attributes (used p (index + 1) column_names types) (keys counts)
                      (skipped p (index + 1) column_names) _
                      (make_attributes-Attributes column_names (index + 1) types counts
                        (omega arith))
                | false ↦
                    subst
                      (λ o.
                        Attributes ((name, dt) ∷ used p (index + 1) column_names types)
                          (keys counts) (false ∷ skipped p (index + 1) column_names) (chosen o))
                      (sym h.found)
                      (cons-Attributes name dt counts (used p (index + 1) column_names types)
                        (skipped p (index + 1) column_names) (rest_of index column_names types) h
                        (make_attributes-Attributes column_names (index + 1) types h.counts'
                          (omega arith)))
              ]

  -- Where duplicate names are to be made distinct, and each column has a type, the reader always gets
  -- a schema: its loops end, the names of its attributes are distinct, the attributes are the columns
  -- that are read, in their order and with their types, each name kept or made longer, and which
  -- columns are ignored is appended to what the reader keeps of that.
  pub init_parsers_and_make_schema-Distinct :
      (s : State)
      → length s.column_names ≤ length s.column_types
      → (schema : Schema) × (init_parsers_and_make_schema to_string p batch_size s ≡ (
        ok schema,
        record s { column_ignores = s.column_ignores ++ skipped p 0 s.column_names },
      ))
        × Distinct (names schema.attributes)
        × Describe (used p 0 s.column_names s.column_types) schema.attributes
  unfolding init_parsers_and_make_schema
  init_parsers_and_make_schema-Distinct s l =
      let h = make_attributes-Attributes s.column_names 0 s.column_types [] l in
      let (schema, made, same_attrs) = make_schema-Distinct h.attrs h.distinct in
      (
        schema,
        ap (λ r. schema_of r s) h.made ∙ ground (arith, made),
        subst (λ attrs. Distinct (names attrs)) (sym same_attrs) h.distinct,
        subst (Describe (used p 0 s.column_names s.column_types)) (sym same_attrs) h.described,
      )
