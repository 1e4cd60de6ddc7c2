-- ===== src/Csv/Reader.antt =====
-- csv_record_reader.cc: records that are CSV lines, whose quoted fields may hold line breaks.
pub mod Lines
pub mod File
use ml_io.Base.{
  ℕ, zero, suc, ◌+◌, ◌-◌, Bool, true, false, not, ◌&&◌, ◌||◌, Option, none, some, List, [], ◌∷◌,
  length, ◌==◌, leb, if◌then◌else◌, Bytes,
}
use ml_io.Action.{
  Error, corrupt_record, record_too_large, Result, ok, err, Action, ◌>>=◌, ◌>>◌, pure,
}
use ml_io.Records.Slice.{first_bytes, drop_bytes}
use ml_io.Records.{complete, Record}
use ml_io.Records.TextLine.{new_line, carriage, reaches, is_empty, is_blank, from_result, put}
use ml_io.Records.TextLine as TextLine
use ml_io.Csv.Format.{CsvParams}

pub data ReaderState : Type 0 where
  new_field in_field in_quoted_field quote_in_quoted_field has_carriage : ReaderState

-- Where a character leads: to a label that reads on, or to the end of the line.
pub data Jump : Type 0 where
  to : ReaderState → Jump
  to_new_line : Jump

abbrev pub at_line_break : ℕ → Jump
at_line_break chr =
    if chr == new_line
    then to_new_line
    else if chr == carriage
    then to has_carriage
    else to in_field

unfoldable pub jump_of : CsvParams → ReaderState → ℕ → Jump
jump_of p new_field chr =
    if chr == p.delimiter
    then to new_field
    else if chr == p.quote_char
    then to in_quoted_field
    else at_line_break chr
jump_of p in_field chr = if chr == p.delimiter then to new_field else at_line_break chr
jump_of p in_quoted_field chr =
    if chr == p.quote_char then to quote_in_quoted_field else to in_quoted_field
jump_of p quote_in_quoted_field chr =
    if chr == p.delimiter
    then to new_field
    else if chr == p.quote_char
    then to in_quoted_field
    else at_line_break chr
jump_of p has_carriage chr = to_new_line

-- Where the labels stop: at `new_line` or at `end`, with the characters read and the state.
pub data Stop : Type 0 where
  at_new_line at_end : ℕ → ReaderState → Stop

abbrev pub one_more : Stop → Stop
one_more (at_new_line n s) = at_new_line (suc n) s
one_more (at_end n s) = at_end (suc n) s

-- Behind a carriage return another character than a line feed is given back.
unfoldable pub scan : CsvParams → ReaderState → Bytes → Stop
unfolding jump_of
scan p state [] = at_end 0 state
scan p has_carriage (chr ∷ chars) =
    if chr == new_line then at_new_line 1 has_carriage else at_new_line 0 new_field
scan p state (chr ∷ chars) = elim (jump_of p state chr) [
  | to state' ↦ one_more (scan p state' chars)
  | to_new_line ↦ at_new_line 1 state
]

-- The label `end`, where the leftover counts.
unfoldable pub end_payload : ReaderState → Bytes → Result Bytes
unfolding first_bytes
end_payload in_quoted_field chunk = err corrupt_record
end_payload has_carriage chunk = first_bytes chunk (length chunk - 1)
end_payload _ chunk = ok chunk

abbrev pub back : ReaderState → ℕ
back has_carriage = 2
back _ = 1

abbrev pub line_of : Bytes → Option Record
line_of payload = some (record { payload = payload; kind = complete })

unfoldable pub finish : CsvParams → Bool → Stop → Action Bytes (Option Record)
unfolding end_payload first_bytes drop_bytes
finish p ignore_leftover (at_new_line n state) chunk =
    if reaches p.max_line_length n
    then (err record_too_large, chunk)
    else ◌>>=◌ (from_result (first_bytes chunk (n - back state)))
        (λ payload. do rest ← from_result (drop_bytes chunk n); put rest; pure (line_of payload))
        chunk
finish p ignore_leftover (at_end n state) chunk =
    if reaches p.max_line_length n
    then (err record_too_large, chunk)
    else if ignore_leftover
    then (ok none, chunk)
    else ◌>>=◌ (from_result (end_payload state chunk))
        (λ payload. do put []; pure (line_of payload)) chunk

unfoldable pub read_line : CsvParams → Bool → Action Bytes (Option Record)
unfolding scan finish
read_line p ignore_leftover chunk =
    if is_empty chunk
    then (if ignore_leftover then (ok none, chunk) else (err corrupt_record, chunk))
    else finish p ignore_leftover (scan p new_field chunk) chunk

abbrev pub starts_with : Option ℕ → Bytes → Bool
starts_with (some c) (b ∷ bs) = b == c
starts_with _ _ = false

abbrev pub is_comment_line : CsvParams → Bytes → Bool
is_comment_line p chunk = starts_with p.comment_char chunk

abbrev pub read_record_line : CsvParams → Bool → Action Bytes (Option Record)
read_record_line p ignore_leftover =
    if p.allow_quoted_new_lines
    then read_line p ignore_leftover
    else TextLine.read_line p.max_line_length ignore_leftover

-- The loop, by a bound on its rounds.
pub read_rounds : CsvParams → ℕ → Bool → Action Bytes (Option Record)
read_rounds p zero ignore_leftover chunk = (ok none, chunk)
read_rounds p (suc fuel) ignore_leftover chunk =
    if is_empty chunk
    then (ok none, chunk)
    else if is_comment_line p chunk
    then ◌>>=◌ (TextLine.read_line none ignore_leftover)
        (λ r. elim r [ none ↦ pure none | some x ↦ read_rounds p fuel ignore_leftover ]) chunk
    else ◌>>=◌ (read_record_line p ignore_leftover)
        (λ r. elim r [
          | none ↦ pure none
          | some x ↦ elim (p.skip_blank_lines && is_blank x) [
            | true ↦ read_rounds p fuel ignore_leftover
            | false ↦ pure (some x)
          ]
        ])
        chunk

-- `decode_text_record`. A round that goes on has taken at least one byte of the chunk.
unfoldable pub decode_text_record : CsvParams → Bool → Action Bytes (Option Record)
unfolding read_rounds read_line TextLine.read_line
decode_text_record p ignore_leftover chunk =
    read_rounds p (suc (length chunk)) ignore_leftover chunk
