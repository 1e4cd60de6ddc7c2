-- ===== src/Csv/Decode.antt =====
-- csv_reader.cc: the decoding of a row into the tensors of the columns that are read.
pub mod Fields
pub mod Batch
use ml_io.Base.{
  ℕ, zero, suc, ◌+◌, Bool, true, false, ◌&&◌, ◌||◌, Option, none, some, List, [], ◌∷◌, ◌++◌, length,
  get_elem?, set, replicate, if◌then◌else◌, Bytes,
}
use ml_io.Action.{Result, ok, err, undefined_behaviour, Action, ◌>>=◌, ◌>>◌, pure, throw, get}
use ml_io.Tensors.{DataType}
use ml_io.Parsers.{ParseResult, parsed, failed, overflowed}
use ml_io.Examples.{BadInstances, refuse}
use ml_io.Csv.Format.{CsvParams}
use ml_io.Csv.Tokenizer.{Tokenizer, next, reset}
use ml_io.Csv.Tokenizer.Values.{all_values}

pub data MaxFieldLengthHandling : Type 0 where
  treat_as_bad truncate truncate_warn : MaxFieldLengthHandling

pub record Column : Type 0 where
  pub data_type : DataType
  pub ignored : Bool

-- The tensors are those of the columns that are read, from the one the iterator is at.
pub record Decoding (V : Type 0) : Type 0 where
  pub tokenizer : Tokenizer
  pub tensors : List (List V)

-- `make_tensors`: an array for each column that is read.
pub make_tensors {ℓ} : {V : Type ℓ} → (DataType → V) → ℕ → List Column → List (List V)
make_tensors init batch_size [] = []
make_tensors init batch_size (c ∷ columns) =
    if c.ignored
    then make_tensors init batch_size columns
    else replicate batch_size (init c.data_type) ∷ make_tensors init batch_size columns

abbrev pub is_bad_length : MaxFieldLengthHandling → Bool
is_bad_length treat_as_bad = true
is_bad_length _ = false

-- The rest of a row, with the tensors behind the first.
abbrev pub under : {V : Type 0} → List V → Result Bool × Decoding V → Result Bool × Decoding V
under ts (r, d) = (r, record d { tensors = ts ∷ d.tensors })

-- The parser of a data type takes the text and the element that it writes to.
module _ {V : Type 0} (p : CsvParams) (h : MaxFieldLengthHandling) (flags : BadInstances)
    (parse : DataType → Bytes → V → ParseResult × V) where
  abbrev pub next_field : Action (Decoding V) Bool
  next_field d = let r = next p d.tokenizer in (r.0, record d { tokenizer = r.1 })

  abbrev pub on_tokenizer :
      Decoding V → Result (List Bytes) × Tokenizer → Result (List Bytes) × Decoding V
  on_tokenizer d (r, t) = (r, record d { tokenizer = t })

  -- The fields that are left are counted for the message.
  pub count_fields : Action (Decoding V) (List Bytes)
  count_fields d = on_tokenizer d (all_values p (length d.tokenizer.text + 2) d.tokenizer)

  -- All columns were read, or not, and there may be fields that remain.
  pub end_row : Bool → Action (Decoding V) Bool
  end_row at_end d =
      if at_end && d.tokenizer.eof
      then (ok true, d)
      else if flags.warn_bad_instance || flags.error_bad_example
      then (count_fields >>= λ _. refuse flags) d
      else (ok false, d)

  abbrev pub after_parse :
      ℕ → List V → Action (Decoding V) Bool → ParseResult × V → Action (Decoding V) Bool
  after_parse row_idx ts rest (parsed, v) d = under (set ts row_idx v) (rest d)
  after_parse row_idx ts rest (_, v) d = under (set ts row_idx v) (refuse flags d)

  abbrev pub parse_at :
      DataType → ℕ → List V → Option V → Action (Decoding V) Bool → Action (Decoding V) Bool
  parse_at dt row_idx ts none rest d =
      (err undefined_behaviour, record d { tensors = ts ∷ d.tensors })
  parse_at dt row_idx ts (some old) rest d =
      after_parse row_idx ts rest (parse dt d.tokenizer.value old) d

  pub parse_field :
      DataType → ℕ → Action (Decoding V) Bool → List (List V) → Action (Decoding V) Bool
  parse_field dt row_idx rest [] d = (err undefined_behaviour, d)
  parse_field dt row_idx rest (ts ∷ tensors) d =
      parse_at dt row_idx ts (get_elem? ts row_idx) rest (record d { tensors = tensors })

  pub read_field : Column → ℕ → Action (Decoding V) Bool → Action (Decoding V) Bool
  read_field c row_idx rest d =
      if c.ignored
      then rest d
      else if d.tokenizer.truncated && is_bad_length h
      then refuse flags d
      else parse_field c.data_type row_idx rest d.tensors d

  -- The loop of `Decoder::decode`, over the columns from `col_pos` on.
  pub decode_columns : List Column → ℕ → Action (Decoding V) Bool
  decode_columns [] row_idx = next_field >>= λ more. end_row true
  decode_columns (c ∷ columns) row_idx = next_field >>= λ more.
      if more then read_field c row_idx (decode_columns columns row_idx) else end_row false

  pub decode : List Column → ℕ → Bytes → Action (Decoding V) Bool
  decode columns row_idx bits d =
      decode_columns columns row_idx (record d { tokenizer = reset bits d.tokenizer })
