-- ===== src/Csv/Columns.antt =====
-- csv_reader.cc: the names and types of the columns, which of them are read, and the schema.
pub mod Names
pub mod Dedupe
pub mod Overrides
use ml_io.Base.{
  ℕ, zero, suc, max, ◌+◌, Bool, true, false, ◌||◌, Option, none, some, List, [], ◌∷◌, ◌++◌, map,
  length, ◌==◌, if◌then◌else◌, Bytes,
}
use ml_io.Base.Keys.{Eq, contains, keys, lookup, remove, update, bytes_eq, nat_eq}
use ml_io.Action.{
  Result, ok, err, invalid_argument, schema_error, undefined_behaviour, out_of_fuel, Action, ◌>>=◌,
  ◌>>◌, pure, throw, get, modify,
}
use ml_io.Tensors.{DataType, string}
use ml_io.Tensors.Schema.{Attribute, Schema, make_attribute, make_schema}
use ml_io.Csv.Format.{CsvParams}

-- The parameters beside those of the tokenizer. A set is a list of its members.
pub record ReaderParams : Type 0 where
  pub format : CsvParams
  pub header_row_index : Option ℕ
  pub has_single_header : Bool
  pub dedupe_column_names : Bool
  pub column_names : List Bytes
  pub name_prefix : Bytes
  pub use_columns : List Bytes
  pub use_columns_by_index : List ℕ
  pub default_data_type : Option DataType
  pub column_types : List (Bytes × DataType)
  pub column_types_by_index : List (ℕ × DataType)

-- The members of `Csv_reader`. The parser of a column is that of its data type.
pub record State : Type 0 where
  pub column_names : List Bytes
  pub column_types : List DataType
  pub column_ignores : List Bool
  pub should_read_header : Bool

pub start : ReaderParams → State
start p = record {
  column_names = p.column_names;
  column_types = [];
  column_ignores = [];
  should_read_header = true;
}

abbrev pub or_else : DataType → Option DataType → DataType
or_else dt none = dt
or_else dt (some dt') = dt'

abbrev pub erase_if {ℓ} :
    {K : Type ℓ} ⦃e : Eq K⦄ → Option DataType → K → List (K × DataType) → List (K × DataType)
erase_if none k overrides = overrides
erase_if (some _) k overrides = remove k overrides

-- A column that the map has takes its type and erases it.
pub override {ℓ} :
    {K : Type ℓ} ⦃e : Eq K⦄
    → List K
    → List DataType
    → List (K × DataType)
    → List DataType × List (K × DataType)
override (k ∷ ks) (dt ∷ types) overrides =
    let rest = override ks types (erase_if (lookup k overrides) k overrides) in
    (or_else dt (lookup k overrides) ∷ rest.0, rest.1)
override _ types overrides = (types, overrides)

abbrev pub indices_from : ℕ → List Bytes → List ℕ
indices_from i [] = []
indices_from i (name ∷ names) = i ∷ indices_from (i + 1) names

abbrev pub no_leftover {ℓ} :
    {K : Type ℓ} → List DataType × List (K × DataType) → Action State (Unit {0})
no_leftover (types, []) s = (ok tt, record s { column_types = types })
no_leftover (types, x ∷ xs) s = (err invalid_argument, record s { column_types = types })

pub apply_column_type_overrides : ReaderParams → Action State (Unit {0})
apply_column_type_overrides p = do
  s ← get
  _ ← no_leftover (override (indices_from 0 s.column_names) s.column_types p.column_types_by_index)
  s ← get
  no_leftover (override s.column_names s.column_types p.column_types)

abbrev is_unused {ℓ} : {K : Type ℓ} ⦃e : Eq K⦄ → List K → K → Bool
is_unused [] k = false
is_unused (x ∷ xs) k = if contains k (x ∷ xs) then false else true

pub should_skip : ReaderParams → ℕ → Bytes → Bool
should_skip p index name = is_unused p.use_columns_by_index index || is_unused p.use_columns name

abbrev pub longest : List Bytes → ℕ
longest [] = 0
longest (name ∷ names) = max (length name) (longest names)

-- The attributes, or the exception of the loop, and what it has appended to `column_ignores_`.
abbrev pub Attributed : Type 0
Attributed = Result (List Attribute) × List Bool

abbrev pub put_ignored : Attributed → Attributed
put_ignored (r, ignores) = (r, true ∷ ignores)

abbrev pub put_attribute : Result Attribute → Attributed → Attributed
put_attribute (err e) rest = (err e, false ∷ [])
put_attribute (ok attr) (err e, ignores) = (err e, false ∷ ignores)
put_attribute (ok attr) (ok attrs, ignores) = (ok (attr ∷ attrs), false ∷ ignores)

-- `column_ignores_` is appended to, whether there was an exception or not.
abbrev pub append_ignores : List Bool → State → State
append_ignores ignores s = record s { column_ignores = s.column_ignores ++ ignores }

-- The constructor of the schema throws where a name stands twice.
abbrev pub schema_of : Attributed → Action State Schema
schema_of (err e, ignores) s = (err e, append_ignores ignores s)
schema_of (ok attrs, ignores) s = elim (make_schema attrs) [
  | err _ ↦ (err schema_error, append_ignores ignores s)
  | ok schema ↦ (ok schema, append_ignores ignores s)
]

-- The loop that looks for a free name; `fuel` bounds its rounds. The map counts how often each name
-- was asked for, and `to_string` is that of fmt.
module _ (to_string : ℕ → Bytes) where
  pub insert_name : ℕ → Bytes → List (Bytes × ℕ) → Option (Bytes × List (Bytes × ℕ))
  insert_name zero name counts = none
  insert_name (suc fuel) name counts = elim (lookup name counts) [
    | none ↦ some (name, (name, 1) ∷ counts)
    | some n ↦ insert_name fuel (name ++ b'_' ∷ to_string n) (update name (n + 1) counts)
  ]

  -- A round makes the name longer, so that one that is longer than all in the map ends the loop.
  abbrev pub free_name : ReaderParams → Bytes → List (Bytes × ℕ) → Option (Bytes × List (Bytes × ℕ))
  free_name p name counts =
      if p.dedupe_column_names
      then insert_name (longest (keys counts) + 2) name counts
      else some (name, counts)

  -- The loop of `init_parsers_and_make_schema`: which columns are ignored, and the attributes of the
  -- others. It runs over the names, and a column without a type is read past the end of the types.
  pub make_attributes :
      ReaderParams → ℕ → ℕ → List Bytes → List DataType → List (Bytes × ℕ) → Attributed
  make_attributes p batch_size index (name ∷ names) (dt ∷ types) counts =
      if should_skip p index name
      then put_ignored (make_attributes p batch_size (index + 1) names types counts)
      else elim (free_name p name counts) [
        | none ↦ (err out_of_fuel, false ∷ [])
        | some found ↦
            (put_attribute (make_attribute found.0 dt (batch_size ∷ 1 ∷ []) [] false)
              (make_attributes p batch_size (index + 1) names types found.1))
      ]
  make_attributes p batch_size index (name ∷ names) [] counts = (err undefined_behaviour, [])
  make_attributes p batch_size index [] types counts = (ok [], [])

  pub init_parsers_and_make_schema : ReaderParams → ℕ → Action State Schema
  init_parsers_and_make_schema p batch_size = do
    s ← get
    schema_of (make_attributes p batch_size 0 s.column_names s.column_types [])
