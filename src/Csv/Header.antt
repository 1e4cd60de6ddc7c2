-- ===== src/Csv/Header.antt =====
-- csv_reader.cc: the header row, and the schema of the columns.
use ml_io.Base.{
  ℕ, zero, suc, ◌+◌, Bool, true, false, not, ◌||◌, Option, none, some, List, [], ◌∷◌, ◌++◌, map,
  length, ◌==◌, if◌then◌else◌, Bytes,
}
use ml_io.Action.{
  Result, ok, err, corrupt_record, corrupt_header, schema_error, Action, ◌>>=◌, pure, throw, get,
  modify, out_of_fuel,
}
use ml_io.Records.{Record}
use ml_io.Tensors.{DataType, string}
use ml_io.Tensors.Schema.{Schema}
use ml_io.Csv.Format.{CsvParams}
use ml_io.Csv.Tokenizer.{Tokenizer, next_value, reset}
use ml_io.Csv.Tokenizer.Values.{idle}
use ml_io.Csv.Columns.{
  ReaderParams, State, apply_column_type_overrides, init_parsers_and_make_schema,
}

-- The reader and the tokenizer that it has for one row.
pub record Tokenizing : Type 0 where
  pub state : State
  pub tokenizer : Tokenizer

-- The loop over the fields of a row, with what is done for each; what was done before the row turns
-- out to be corrupt stays done.
pub for_fields : CsvParams → (Bytes → State → State) → ℕ → Action Tokenizing (Unit {0})
for_fields p f zero = throw out_of_fuel
for_fields p f (suc fuel) = next_in >>= λ v. elim v [
  | none ↦ pure tt
  | some x ↦ (do _ ← modify (done x); for_fields p f fuel)
]
  where
    next_in : Action Tokenizing (Option Bytes)
    next_in s = let r = next_value p s.tokenizer in (r.0, record s { tokenizer = r.1 })

    done : Bytes → Tokenizing → Tokenizing
    done x s = record s { state = f x s.state }

-- `Corrupt_header_error` is a `Corrupt_record_error`.
abbrev pub nested : {A : Type 0} → Result A → Result A
nested (err corrupt_record) = err schema_error
nested (err corrupt_header) = err schema_error
nested r = r

abbrev pub on_fields : ReaderParams → (Bytes → State → State) → Bytes → Action State (Unit {0})
on_fields p f blob s =
    let r =
      for_fields p.format f (length blob + 2) (record { state = s; tokenizer = reset blob idle }) in
    (nested r.0, r.1.state)

-- The name of a column has the prefix in front, which may be empty.
pub add_name : ReaderParams → Bytes → State → State
add_name p name s = record s { column_names = s.column_names ++ (p.name_prefix ++ name) ∷ [] }

abbrev is_empty {ℓ} : {A : Type ℓ} → List A → Bool
is_empty [] = true
is_empty (x ∷ xs) = false

-- The reader and the record reader of a store that was opened.
pub record Opened (R : Type 0) : Type 0 where
  pub state : State
  pub reader : R

abbrev on_reader : {R A : Type 0} → Action R A → Action (Opened R) A
on_reader m s = let r = m s.reader in (r.0, record s { reader = r.1 })

abbrev on_state : {R A : Type 0} → Action State A → Action (Opened R) A
on_state m s = let r = m s.state in (r.0, record s { state = r.1 })

module _ {R : Type 0} (read_record : Action R (Option Record)) where
  -- The loop ends where there is no record.
  pub skip_to_header_row : ℕ → Action R (Unit {0})
  skip_to_header_row zero = pure tt
  skip_to_header_row (suc n) =
      read_record >>= λ r. elim r [ none ↦ pure tt | some _ ↦ skip_to_header_row n ]

  -- A corrupt record is nested in an error of the schema, within the `try` block.
  abbrev try_read : Action R (Option Record)
  try_read r = let x = read_record r in (nested x.0, x.1)

  -- A header that is blank is one column with a blank name.
  abbrev if_blank : ReaderParams → Action (Opened R) (Unit {0})
  if_blank p = modify (λ o. record o {
    state =
        if is_empty o.state.column_names
        then record o.state { column_names = p.name_prefix ∷ [] }
        else o.state;
  })

  pub read_names_from_header : ReaderParams → ℕ → Action (Opened R) (Unit {0})
  read_names_from_header p header_row_index = do
    _ ← on_reader (skip_to_header_row header_row_index)
    hdr ← on_reader try_read
    elim hdr [
      | none ↦ pure tt
      | some r ↦ (do _ ← on_state (on_fields p (add_name p) r.payload); if_blank p)
    ]

  abbrev skip_header : ℕ → Action R (Unit {0})
  skip_header header_row_index = do
    _ ← skip_to_header_row header_row_index
    _ ← read_record
    pure tt

  abbrev header_read : Action (Opened R) (Unit {0})
  header_read = modify (λ o. record o { state = record o.state { should_read_header = false } })

  -- What `make_record_reader` does with the record reader that it made.
  pub read_header : ReaderParams → Option ℕ → Action (Opened R) (Unit {0})
  read_header p none = pure tt
  read_header p (some header_row_index) = do
    o ← get
    _ ←
        if is_empty o.state.column_names
        then read_names_from_header p header_row_index
        else if o.state.should_read_header || not p.has_single_header
        then on_reader (skip_header header_row_index)
        else pure tt
    header_read

pub reset_header : State → State
reset_header s = record s { should_read_header = true }

module _ (infer_data_type : Bytes → DataType) (to_string : ℕ → Bytes) where
  abbrev default_type : Option DataType → DataType
  default_type none = string
  default_type (some dt) = dt

  abbrev type_of : Option DataType → Bytes → DataType
  type_of none value = infer_data_type value
  type_of (some dt) value = dt

  pub add_type : ReaderParams → Bytes → State → State
  add_type p value s = record s {
    column_types = s.column_types ++ type_of p.default_data_type value ∷ [];
  }

  -- An instance is its bits; without one, all columns have the default type.
  pub infer_column_types : ReaderParams → Option Bytes → Action State (Unit {0})
  infer_column_types p none = modify (λ s. record s {
    column_types = s.column_types ++ map (λ _. default_type p.default_data_type) s.column_names;
  })
  infer_column_types p (some bits) = on_fields p (add_type p) bits

  abbrev ordinal_names : Bytes → ℕ → List DataType → List Bytes
  ordinal_names prefix index [] = []
  ordinal_names prefix index (dt ∷ types) =
      (prefix ++ to_string index) ∷ ordinal_names prefix (index + 1) types

  pub set_or_validate_column_names : ReaderParams → Action State (Unit {0})
  set_or_validate_column_names p s =
      if is_empty s.column_names
      then (ok tt, record s { column_names = ordinal_names p.name_prefix 1 s.column_types })
      else if length s.column_names == length s.column_types
      then (ok tt, s)
      else (err schema_error, s)

  abbrev no_columns : Option Bytes → List Bytes → Bool
  no_columns none [] = true
  no_columns _ _ = false

  abbrev infer_columns : ReaderParams → ℕ → Option Bytes → Action State (Option Schema)
  infer_columns p batch_size bits = do
    _ ← infer_column_types p bits
    _ ← set_or_validate_column_names p
    _ ← apply_column_type_overrides p
    schema ← init_parsers_and_make_schema to_string p batch_size
    pure (some schema)

  pub infer_schema : ReaderParams → ℕ → Option Bytes → Action State (Option Schema)
  infer_schema p batch_size bits = get >>= λ s.
      if no_columns bits s.column_names then pure none else infer_columns p batch_size bits
