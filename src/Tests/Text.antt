-- ===== src/Tests/Text.antt =====
-- The record readers and the tokenizer on small chunks.
use ml_io.Base.{ap, ◌≡◌, refl, true, false, none, some, List, [], ◌∷◌, ◌++◌, Bytes, arith}
use ml_io.Action.{ok}
use ml_io.Records.{Record, begin}
use ml_io.Records.Slice.{
  MemorySlice, subslice_count, cut_bytes, bytes, Shows, subslice_count-cut_bytes,
}
use ml_io.Records.Recordio.{ByteOrder, little, big, Chunk, align}
use ml_io.Records.Recordio as Recordio
use ml_io.Records.Recordio.RoundTrip.{write_record, decode_record-write}
use ml_io.Records.Recordio.Chunks.{chunk, decode_record-grow, decode_record-nil}
use ml_io.Records.Stream.{State, read_record_core}
use ml_io.Records.Stream.Content.{decode_whole, stream-Yields}
use ml_io.Records.Stream.Memory.{
  ChunkReader, make_chunk_reader, read_stream, make_chunk_reader-Yields,
}
use ml_io.Records.Stream.Written.{decode_record-IsChunked, write_records, write_records-Yields}
use ml_io.Records.TextLine.{new_line, carriage}
use ml_io.Records.TextLine as TextLine
use ml_io.Records.TextLine.Lines.{
  IsLine, line, read_line-new_line, read_line-carriage-new_line, read_line-leftover,
  read_line-split_carriage,
}
use ml_io.Instances.Yields.{Yields, done, more}
use ml_io.Csv.Format.{
  CsvParams, Field, bare, quoted, value_of, record_text, AllWritable, IsWritable,
}
use ml_io.Csv.Tokenizer.{Tokenizer, next, next_value, reset}
use ml_io.Csv.Tokenizer.Limit.{fitted, exceeds}
use ml_io.Csv.Tokenizer.RoundTrip.{next-record_text, reset-Yields, values_of, IsLeft}
use ml_io.Csv.Reader.{decode_text_record}
use ml_io.Csv.Reader as CsvReader
use ml_io.Csv.Reader.Lines.{IsDialect, AllOnLine, read_line-record_text}
use ml_io.Csv.Reader.File.{Row, file_text, IsReadable, AllYield, file_text-fields}

abbrev some_slice : MemorySlice
some_slice = record { block = 1 ∷ 2 ∷ 3 ∷ 4 ∷ 5 ∷ []; beg = 1; last = 4 }

subslice_count-cut_bytes_example :
    Shows (subslice_count some_slice 1 2) (cut_bytes (bytes some_slice) 1 2)
subslice_count-cut_bytes_example =
    subslice_count-cut_bytes some_slice 1 2 (record { ordered = omega arith; within = omega arith })

abbrev some_record : Record
some_record = record { payload = 10 ∷ 20 ∷ 30 ∷ 40 ∷ 50 ∷ []; kind = begin }

abbrev written : Bytes
written = write_record some_record (7 ∷ [])

decode_record-write_example :
    Recordio.decode_record big true (record { bits = written; record_size_hint = none })
    ≡ (ok (some some_record), record { bits = 7 ∷ []; record_size_hint = none })
decode_record-write_example =
    decode_record-write some_record (7 ∷ []) big true none tt (omega arith)

decode_record-grow_example :
    Recordio.decode_record little false (chunk (written ++ 8 ∷ 9 ∷ []) none)
    ≡ (ok (some some_record), chunk (7 ∷ 8 ∷ 9 ∷ []) none)
decode_record-grow_example =
    decode_record-grow little true false written (8 ∷ 9 ∷ []) none
      (decode_record-write some_record (7 ∷ []) little true none tt (omega arith))

abbrev two_records : List Record
two_records = some_record ∷ some_record ∷ []

-- The first chunks have room for two bytes.
abbrev opened : Bytes → State
opened bs = record { stream = bs; eof = false; block_size = none; next_chunk_size = 2; chunk = [] }

write_records-Yields_example :
    Yields
      (read_record_core (Recordio.decode_record big) 101)
      (opened (write_records two_records))
      two_records
unfolding align
write_records-Yields_example =
    write_records-Yields big 100 2 two_records (omega arith) (omega arith)
      (tt, omega arith, (tt, omega arith, tt))

whole_records :
    Yields
      (decode_whole (Recordio.decode_record little) (decode_record-IsChunked little))
      (write_record some_record [])
      (some_record ∷ [])
whole_records =
    more
      (ap (λ z. (z.0, z.1.bits))
        (decode_record-write some_record [] little false none tt (omega arith)))
      (done (ap (λ z. (z.0, z.1.bits)) (decode_record-nil little false none))
        (ap (λ z. (z.0, z.1.bits)) (decode_record-nil little false none)))

stream-Yields_example :
    Yields
      (read_record_core (Recordio.decode_record little) 101)
      (opened (write_record some_record []))
      (some_record ∷ [])
unfolding align
stream-Yields_example =
    stream-Yields (Recordio.decode_record little) (decode_record-IsChunked little) 100 2
      (write_record some_record []) (omega arith) (omega arith) whole_records

-- The stream stood behind its first bytes.
make_chunk_reader-Yields_example :
    (r : ChunkReader) × ((make_chunk_reader
        (record { source = write_record some_record []; position = 5; closed = false })).0
      ≡ ok r)
    × Yields (read_stream (Recordio.decode_record little) 102) r (some_record ∷ [])
unfolding align
make_chunk_reader-Yields_example =
    make_chunk_reader-Yields (Recordio.decode_record little) (decode_record-IsChunked little) 100
      (write_record some_record []) 5 (omega arith) whole_records

abbrev abc : Bytes
abc = b'a' ∷ b'b' ∷ b'c' ∷ []

abc-IsLine : IsLine abc
abc-IsLine = (omega arith, omega arith, (omega arith, omega arith, (omega arith, omega arith, tt)))

read_line-new_line_example :
    TextLine.read_line (some 4) true (abc ++ new_line ∷ 7 ∷ []) ≡ (ok (some (line abc)), 7 ∷ [])
read_line-new_line_example = read_line-new_line (some 4) true abc (7 ∷ []) abc-IsLine refl

read_line-carriage-new_line_example :
    TextLine.read_line none true (abc ++ carriage ∷ new_line ∷ 7 ∷ [])
    ≡ (ok (some (line abc)), 7 ∷ [])
read_line-carriage-new_line_example =
    read_line-carriage-new_line none true abc (7 ∷ []) abc-IsLine refl

read_line-leftover_example :
    (TextLine.read_line none false abc ≡ (ok (some (line abc)), []))
    × (TextLine.read_line none true abc ≡ (ok none, abc))
read_line-leftover_example = read_line-leftover none abc abc-IsLine (omega arith) refl

read_line-split_carriage_example :
    (TextLine.read_line none true (abc ++ carriage ∷ []) ≡ (ok (some (line abc)), []))
    × (TextLine.read_line none true (new_line ∷ 7 ∷ []) ≡ (ok (some (line [])), 7 ∷ []))
read_line-split_carriage_example = read_line-split_carriage abc (7 ∷ []) abc-IsLine

-- Commas, double quotes, lines of less than 40 characters and fields of at most 4.
abbrev params : CsvParams
params = record {
  delimiter = b',';
  quote_char = b'"';
  comment_char = some b'#';
  allow_quoted_new_lines = true;
  skip_blank_lines = true;
  max_field_length = some 4;
  max_line_length = some 40;
}

params-IsDialect : IsDialect params
params-IsDialect = record {
  quote = omega arith;
  delimiter_line = omega arith;
  delimiter_carriage = omega arith;
  quote_line = omega arith;
  quote_carriage = omega arith;
}

-- The second field holds a delimiter, a quote and a line break.
abbrev plain : Field
plain = bare abc

abbrev tricky : Field
tricky = quoted (b'a' ∷ b',' ∷ b'"' ∷ new_line ∷ b'z' ∷ [])

plain-IsWritable : IsWritable params plain
plain-IsWritable = ((omega arith, (omega arith, (omega arith, tt))), omega arith)

abbrev some_row : Row
some_row = record { first = plain; others = tricky ∷ bare [] ∷ [] }

row-AllWritable : AllWritable params (plain ∷ tricky ∷ bare [] ∷ [])
row-AllWritable = (plain-IsWritable, (tt, ((tt, tt), tt)))

row-AllOnLine : AllOnLine (plain ∷ tricky ∷ bare [] ∷ [])
row-AllOnLine = (
  (
    (omega arith, (omega arith, (omega arith, tt))),
    (omega arith, (omega arith, (omega arith, tt))),
  ),
  (tt, ((tt, tt), tt)),
)

row-IsReadable : IsReadable params some_row
row-IsReadable = record {
  writable = row-AllWritable;
  on_line = row-AllOnLine;
  fits = refl;
  no_comment = refl;
  kept = refl;
}

abbrev idle : Tokenizer
idle = record { text = []; value = []; truncated = false; finished = false; eof = false }

reset-Yields_example :
    Yields
      (next_value params)
      (reset (record_text params plain (tricky ∷ bare [] ∷ [])) idle)
      (values_of params (plain ∷ tricky ∷ bare [] ∷ []))
reset-Yields_example =
    reset-Yields params plain (tricky ∷ bare [] ∷ []) idle (omega arith) row-AllWritable

next-record_text_example :
    (u : Tokenizer) × (next params (record idle { text = record_text params tricky (plain ∷ []) })
      ≡ (ok true, u))
    × (u.value ≡ fitted (some 4) (value_of tricky))
    × (u.truncated ≡ exceeds (some 4) (value_of tricky))
    × IsLeft params (plain ∷ []) u
next-record_text_example =
    next-record_text params tricky (plain ∷ [])
      (record idle { text = record_text params tricky (plain ∷ []) }) (omega arith) tt (refl, refl)

read_line-record_text_example :
    CsvReader.read_line params true
      (record_text params plain (tricky ∷ bare [] ∷ []) ++ new_line ∷ 7 ∷ [])
    ≡ (ok (some (line (record_text params plain (tricky ∷ bare [] ∷ [])))), 7 ∷ [])
read_line-record_text_example =
    read_line-record_text params true plain (tricky ∷ bare [] ∷ []) (7 ∷ []) params-IsDialect
      row-AllWritable row-AllOnLine refl

file_text-fields_example :
    (xs : List Record) × Yields
      (decode_text_record params false)
      (file_text params (some_row ∷ some_row ∷ []))
      xs
    × AllYield params idle xs (some_row ∷ some_row ∷ [])
file_text-fields_example =
    file_text-fields params false idle (some_row ∷ some_row ∷ []) refl params-IsDialect
      (row-IsReadable, (row-IsReadable, tt))
