-- ===== src/Csv/Reader/File.antt =====
-- csv_record_reader.cc and csv_record_tokenizer.cc together, on a text of several records.
use ml_io.Base.{
  ℕ, ◌+◌, ◌≡◌, refl, ap, ◌∙◌, Bool, true, false, ◌&&◌, Option, none, some, List, [], ◌∷◌, ◌++◌,
  length, map, Bytes, if◌then◌else◌,
}
use ml_io.Action.{ok, Action}
use ml_io.Instances.Yields.{Yields, done, more}
use ml_io.Records.{Record}
use ml_io.Records.TextLine.{new_line, reaches, is_empty, is_blank}
use ml_io.Records.TextLine.Lines.{line}
use ml_io.Records.TextLine as TextLine
use ml_io.Csv.Format.{CsvParams, Field, record_text, AllWritable}
use ml_io.Csv.Tokenizer.{Tokenizer, next_value, reset}
use ml_io.Csv.Tokenizer.RoundTrip.{values_of, reset-Yields}
use ml_io.Csv.Reader.{read_line, read_record_line, read_rounds, starts_with, decode_text_record}
use ml_io.Csv.Reader.Lines.{IsDialect, AllOnLine, read_line-record_text}

pub record Row : Type 0 where
  pub first : Field
  pub others : List Field

abbrev pub row_text : CsvParams → Row → Bytes
row_text p r = record_text p r.first r.others

abbrev pub file_text : CsvParams → List Row → Bytes
file_text p [] = []
file_text p (r ∷ rows) = row_text p r ++ new_line ∷ file_text p rows

-- What a row has to be for a reader to give it back: no comment, no blank line that is skipped, not
-- too long, and nothing in a field without quotes that would end it.
pub record IsReadable (p : CsvParams) (r : Row) : Type 0 where
  pub writable : AllWritable p (r.first ∷ r.others)
  pub on_line : AllOnLine (r.first ∷ r.others)
  pub fits : reaches p.max_line_length (length (row_text p r) + 1) ≡ false
  pub no_comment : starts_with p.comment_char (row_text p r ++ new_line ∷ []) ≡ false
  pub kept : (p.skip_blank_lines && is_blank (line (row_text p r))) ≡ false

abbrev pub AllReadable : CsvParams → List Row → Type 0
AllReadable p [] = Unit {0}
AllReadable p (r ∷ rows) = IsReadable p r × AllReadable p rows

starts_with-append :
    (c : Option ℕ) (text rest : Bytes)
    → starts_with c (text ++ new_line ∷ rest) ≡ starts_with c (text ++ new_line ∷ [])
starts_with-append none text rest = refl
starts_with-append (some c) [] rest = refl
starts_with-append (some c) (b ∷ text) rest = refl

is_empty-append : (text rest : Bytes) → is_empty (text ++ new_line ∷ rest) ≡ false
is_empty-append [] rest = refl
is_empty-append (b ∷ text) rest = refl

module _ (p : CsvParams) (ignore_leftover : Bool) where
  decode_text_record-row :
      (r : Row) (rest : Bytes)
      → p.allow_quoted_new_lines ≡ true
      → IsDialect p
      → IsReadable p r
      → decode_text_record p ignore_leftover (row_text p r ++ new_line ∷ rest)
        ≡ (ok (some (line (row_text p r))), rest)
  unfolding decode_text_record read_rounds
  decode_text_record-row r rest q h k =
      let c = starts_with-append p.comment_char (row_text p r) rest ∙ k.no_comment in
      let e = is_empty-append (row_text p r) rest in
      let l =
        read_line-record_text p ignore_leftover r.first r.others rest h k.writable k.on_line
          k.fits in
      let m : read_record_line p ignore_leftover (row_text p r ++ new_line ∷ rest)
          ≡ (ok (some (line (row_text p r))), rest) =
        ap
          (λ b.
            (if b
                then read_line p ignore_leftover
                else TextLine.read_line p.max_line_length ignore_leftover)
              (row_text p r ++ new_line ∷ rest))
          q
        ∙ l in
      rw (e, c, m)
        (ap
          (λ b.
            (elim b as (λ _. Action Bytes (Option Record)) [
              | true ↦ read_rounds p (length (row_text p r ++ new_line ∷ rest)) ignore_leftover
              | false ↦ λ s. (ok (some (line (row_text p r))), s)
            ])
              rest)
          k.kept)

  -- A text of readable rows gives their texts, one by one, and then nothing.
  pub file_text-Yields :
      (rows : List Row)
      → p.allow_quoted_new_lines ≡ true
      → IsDialect p
      → AllReadable p rows
      → Yields
          (decode_text_record p ignore_leftover)
          (file_text p rows)
          (map (λ r. line (row_text p r)) rows)
  unfolding decode_text_record read_rounds
  file_text-Yields [] q h k = done refl refl
  file_text-Yields (r ∷ rows) q h (k, ks) =
      more (decode_text_record-row r (file_text p rows) q h k) (file_text-Yields rows q h ks)

abbrev pub AllYield : CsvParams → Tokenizer → List Record → List Row → Type 0
AllYield p t [] [] = Unit {0}
AllYield p t (x ∷ xs) (r ∷ rows) =
    Yields (next_value p) (reset x.payload t) (values_of p (r.first ∷ r.others))
    × AllYield p t xs rows
AllYield p t _ _ = ⊥

rows-Yields :
    (p : CsvParams) (t : Tokenizer) (rows : List Row)
    → IsDialect p
    → AllReadable p rows
    → AllYield p t (map (λ r. line (row_text p r)) rows) rows
rows-Yields p t [] h k = tt
rows-Yields p t (r ∷ rows) h (k, ks) =
    (reset-Yields p r.first r.others t h.quote k.writable, rows-Yields p t rows h ks)

-- Where line breaks between quotes are allowed, delimiter, quote and line breaks differ, and every
-- row is readable, the record reader cuts the text of the rows into records, and the tokenizer
-- splits each of them into the fields that its row was written with, as far as the limit on a
-- field allows.
pub file_text-fields :
    (p : CsvParams) (ignore_leftover : Bool) (t : Tokenizer) (rows : List Row)
    → p.allow_quoted_new_lines ≡ true
    → IsDialect p
    → AllReadable p rows
    → (xs : List Record) × Yields (decode_text_record p ignore_leftover) (file_text p rows) xs
      × AllYield p t xs rows
file_text-fields p ig t rows q h k = (
  map (λ r. line (row_text p r)) rows,
  file_text-Yields p ig rows q h k,
  rows-Yields p t rows h k,
)
