-- ===== src/Csv/Tokenizer.antt =====
-- csv_record_tokenizer.cc: splits the text of a record into its fields.
pub mod Limit
pub mod Values
pub mod RoundTrip
pub mod Left
use ml_io.Base.{
  ℕ, ◌+◌, Bool, true, false, Option, none, some, List, [], ◌∷◌, ◌++◌, length, ◌==◌, if◌then◌else◌,
  Bytes,
}
use ml_io.Action.{Result, ok, err, corrupt_record, Action}
use ml_io.Csv.Format.{CsvParams}

pub data ParserState : Type 0 where
  new_field in_field in_quoted_field quote_in_quoted_field : ParserState

-- `text` is what lies between `text_pos_` and the end.
pub record Tokenizer : Type 0 where
  pub text : Bytes
  pub value : Bytes
  pub truncated : Bool
  pub finished : Bool
  pub eof : Bool

-- Where a character leads: to the end of the field, or to a state, pushed or not.
pub data Move : Type 0 where
  end_field : Move
  goto : ParserState → Bool → Move

pub move_of : CsvParams → ParserState → ℕ → Move
move_of p new_field chr =
    if chr == p.delimiter
    then end_field
    else if chr == p.quote_char
    then goto in_quoted_field false
    else goto in_field true
move_of p in_field chr = if chr == p.delimiter then end_field else goto in_field true
move_of p in_quoted_field chr =
    if chr == p.quote_char then goto quote_in_quoted_field false else goto in_quoted_field true
move_of p quote_in_quoted_field chr =
    if chr == p.delimiter
    then end_field
    else if chr == p.quote_char
    then goto in_quoted_field true
    else goto in_field true

-- The test of `push_char`: a limit is set, and the value has that length.
abbrev at_limit : Option ℕ → Bytes → Bool
at_limit none value = false
at_limit (some n) value = length value == n

pub push_char : CsvParams → ℕ → Tokenizer → Tokenizer
push_char p chr t =
    if at_limit p.max_field_length t.value
    then record t { truncated = true }
    else record t { value = t.value ++ chr ∷ [] }

-- `end_line`, the text being at its end.
abbrev pub end_line : ParserState → Tokenizer → Result Bool × Tokenizer
end_line in_quoted_field t = (err corrupt_record, record t { text = [] })
end_line _ t = (ok true, record t { text = []; finished = true })

abbrev pub push_if : CsvParams → Bool → ℕ → Tokenizer → Tokenizer
push_if p b chr t = if b then push_char p chr t else t

-- The labels of `next` and the jumps between them.
pub scan : CsvParams → ParserState → Bytes → Tokenizer → Result Bool × Tokenizer
scan p state [] t = end_line state t
scan p state (chr ∷ text) t = elim (move_of p state chr) [
  | end_field ↦ (ok true, record t { text = text })
  | goto state' pushed ↦ scan p state' text (push_if p pushed chr t)
]

pub next : CsvParams → Action Tokenizer Bool
next p t =
    if t.finished
    then (ok false, record t { value = []; truncated = false; eof = true })
    else scan p new_field t.text (record t { value = []; truncated = false })

unfoldable pub reset : Bytes → Tokenizer → Tokenizer
reset blob t = record t { text = blob; finished = false; eof = false }

-- A client's call: `next`, and the value if there is one.
abbrev pub take_value : Result Bool × Tokenizer → Result (Option Bytes) × Tokenizer
take_value (ok true, t) = (ok (some t.value), t)
take_value (ok false, t) = (ok none, t)
take_value (err e, t) = (err e, t)

pub next_value : CsvParams → Action Tokenizer (Option Bytes)
next_value p t = take_value (next p t)
