-- ===== src/Records/TextLine.antt =====
-- record_readers/detail/text_line.cc, text_record_reader.cc and text_line_record_reader.cc: records
-- that are lines of text.
pub mod Lines
use ml_io.Base.{
  ℕ, zero, suc, ◌+◌, ◌-◌, Bool, true, false, not, ◌&&◌, ◌||◌, Option, none, some, List, [], ◌∷◌,
  length, ◌==◌, leb, if◌then◌else◌, Bytes,
}
use ml_io.Action.{
  Error, corrupt_record, record_too_large, Result, ok, err, Action, ◌>>=◌, ◌>>◌, pure, throw, get,
  modify,
}
use ml_io.Records.Slice.{first_bytes, drop_bytes}
use ml_io.Records.{complete, Record}

abbrev pub new_line : ℕ
new_line = b'\n'

abbrev pub carriage : ℕ
carriage = b'\r'

abbrev pub starts_with_new_line : Bytes → Bool
starts_with_new_line [] = false
starts_with_new_line (c ∷ cs) = c == new_line

-- Where the loop over the characters stops, and whether a carriage return stands before that place.
pub record LineEnd : Type 0 where
  pub pos : ℕ
  pub has_carriage : Bool

abbrev one_on : LineEnd → LineEnd
one_on e = record e { pos = suc e.pos }

-- The loop reads one character behind the end of a chunk without a line end, and does not use it; that
-- access is not modelled.
unfoldable pub find_line_end : Bytes → LineEnd
find_line_end [] = record { pos = 0; has_carriage = false }
find_line_end (c ∷ cs) =
    let later = one_on (find_line_end cs) in
    if c == new_line
    then record { pos = 0; has_carriage = false }
    else if c == carriage
    then (if starts_with_new_line cs
        then record { pos = 1; has_carriage = true }
        else record { pos = 0; has_carriage = false })
    else later

abbrev pub from_result {ℓ} : {A : Type ℓ} → Result A → Action Bytes A
from_result r s = (r, s)

abbrev pub reaches : Option ℕ → ℕ → Bool
reaches none n = false
reaches (some m) n = leb m n

abbrev pub is_empty : Bytes → Bool
is_empty [] = true
is_empty (c ∷ cs) = false

abbrev pub put : Bytes → Action Bytes (Unit {0})
put b s = (ok tt, b)

-- Behind the loop.
unfoldable pub finish_line : Option ℕ → Bool → LineEnd → Action Bytes (Option Record)
unfolding first_bytes drop_bytes
finish_line max_line_length ignore_leftover e chunk =
    if reaches max_line_length e.pos
    then (err record_too_large, chunk)
    else if e.pos == length chunk && ignore_leftover
    then (ok none, chunk)
    else ◌>>=◌ (from_result (first_bytes chunk (if e.has_carriage then e.pos - 1 else e.pos)))
        (λ payload. do
          rest ←
              if e.pos == length chunk then pure [] else from_result (drop_bytes chunk (e.pos + 1))
          put rest
          pure (some (record { payload = payload; kind = complete })))
        chunk

unfoldable pub read_line : Option ℕ → Bool → Action Bytes (Option Record)
unfolding find_line_end finish_line
read_line max_line_length ignore_leftover chunk =
    if is_empty chunk
    then (if ignore_leftover then (ok none, chunk) else (err corrupt_record, chunk))
    else finish_line max_line_length ignore_leftover (find_line_end chunk) chunk

abbrev pub is_blank : Record → Bool
is_blank r = is_empty r.payload

-- The loop that passes over blank lines, by a bound on its rounds.
pub skip_blank_lines : ℕ → Bool → Action Bytes (Option Record)
skip_blank_lines zero ignore_leftover = pure none
skip_blank_lines (suc fuel) ignore_leftover = do
  chunk ← get
  if is_empty chunk then pure none else (do
    r ← read_line none ignore_leftover
    elim r [
      | none ↦ pure none
      | some x ↦ elim (is_blank x) [
        | true ↦ skip_blank_lines fuel ignore_leftover
        | false ↦ pure (some x)
      ]
    ])

-- `Text_line_record_reader::decode_text_record`. A round takes at least one byte of the chunk.
unfoldable pub decode_text_record : Bool → Bool → Action Bytes (Option Record)
unfolding skip_blank_lines read_line
decode_text_record skip_blank ignore_leftover chunk =
    if is_empty chunk
    then (ok none, chunk)
    else if skip_blank
    then skip_blank_lines (length chunk) ignore_leftover chunk
    else read_line none ignore_leftover chunk

-- `skip_utf8_bom`: false where too few bytes are at hand to tell.
unfoldable pub skip_utf8_bom : Bool → Action Bytes Bool
skip_utf8_bom ignore_leftover (a ∷ b ∷ c ∷ rest) =
    if a == 0xEF && b == 0xBB && c == 0xBF then (ok true, rest) else (ok true, a ∷ b ∷ c ∷ rest)
skip_utf8_bom ignore_leftover chunk = (ok (not ignore_leftover), chunk)

-- `Text_record_reader::decode_record`, over the subclass's hook.
unfoldable pub decode_record :
    (Bool → Action Bytes (Option Record)) → Bool → Action Bytes (Option Record)
unfolding skip_utf8_bom
decode_record decode_text ignore_leftover chunk =
    if is_empty chunk
    then (ok none, chunk)
    else ◌>>=◌ (skip_utf8_bom ignore_leftover)
        (λ go_on. if go_on then decode_text ignore_leftover else pure none) chunk
