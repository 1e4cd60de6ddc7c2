-- ===== src/Tests/Decoding.antt =====
-- The CSV reader and the streams below it on small inputs.
use ml_io.Base.{
  ℕ, ◌+◌, ◌<◌, ◌≡◌, ◌≢◌, refl, sym, ap, inr, true, false, ◌&&◌, Option, none, some, List, [], ◌∷◌,
  length, take, drop, take-append-drop, length-take, Bytes, arith,
}
use ml_io.Base.Keys.{Distinct, bytes_eq, nat_eq}
use ml_io.Action.{ok, err, invalid_argument}
use ml_io.Tensors.{DataType, int64, float64, string}
use ml_io.Tensors.Schema.{Schema, names}
use ml_io.Parsers.{ParseResult, parsed, failed}
use ml_io.Examples.{BadInstances, pad, decode_serial}
use ml_io.Csv.Format.{CsvParams, Field, bare, quoted, record_text}
use ml_io.Csv.Tokenizer.{Tokenizer}
use ml_io.Csv.Tokenizer.Values.{idle}
use ml_io.Csv.Columns.{
  ReaderParams, State, indices_from, apply_column_type_overrides, init_parsers_and_make_schema,
}
use ml_io.Csv.Columns.Dedupe.{used, skipped, Describe, init_parsers_and_make_schema-Distinct}
use ml_io.Csv.Columns.Overrides.{overlay, all_in, apply_column_type_overrides-overlay}
use ml_io.Csv.Decode.{treat_as_bad, Column, Decoding, make_tensors, decode}
use ml_io.Csv.Decode.Fields.{fields_into, decode-fields_into}
use ml_io.Csv.Decode.Batch.{
  ParsesWith, WrittenRow, good_cells, CellsAt, decode_written, decode_serial-good_cells,
}
use ml_io.Streams.{InputStream, IsStream}
use ml_io.Streams.Utf8.{Iconv, Made, utf8, converted, infer_bom_encoding, make_utf8_stream}
use ml_io.Streams.Utf8.Content.{Serves, make_utf8_stream-Serves}

abbrev comma : CsvParams
comma = record {
  delimiter = b',';
  quote_char = b'"';
  comment_char = none;
  allow_quoted_new_lines = false;
  skip_blank_lines = true;
  max_field_length = some 4;
  max_line_length = none;
}

abbrev reader_params : ReaderParams
reader_params = record {
  format = comma;
  header_row_index = some 0;
  has_single_header = false;
  dedupe_column_names = true;
  column_names = [];
  name_prefix = [];
  use_columns = [];
  use_columns_by_index = 0 ∷ 2 ∷ [];
  default_data_type = none;
  column_types = ((b'y' ∷ []), float64) ∷ [];
  column_types_by_index = (0, string) ∷ (2, string) ∷ [];
}

-- The digit of a number below ten.
abbrev digit : ℕ → Bytes
digit n = (48 + n) ∷ []

abbrev same_names : State
same_names = record {
  column_names = (b'x' ∷ []) ∷ (b'y' ∷ []) ∷ (b'x' ∷ []) ∷ [];
  column_types = int64 ∷ int64 ∷ int64 ∷ [];
  column_ignores = [];
  should_read_header = false;
}

init_parsers_and_make_schema-Distinct_example :
    (schema : Schema) × (init_parsers_and_make_schema digit reader_params 8 same_names ≡ (
      ok schema,
      record same_names { column_ignores = skipped reader_params 0 same_names.column_names },
    ))
    × Distinct (names schema.attributes)
    × Describe
        (used reader_params 0 same_names.column_names same_names.column_types)
        schema.attributes
init_parsers_and_make_schema-Distinct_example =
    init_parsers_and_make_schema-Distinct digit reader_params refl 8 same_names (omega arith)

abbrev other_names : State
other_names = record same_names { column_names = (b'x' ∷ []) ∷ (b'y' ∷ []) ∷ (b'z' ∷ []) ∷ [] }

apply_column_type_overrides-overlay_example :
    (all_in (indices_from 0 other_names.column_names) reader_params.column_types_by_index ≡ true
      → all_in other_names.column_names reader_params.column_types ≡ true
      → apply_column_type_overrides reader_params other_names ≡ (
        ok tt,
        record other_names {
          column_types =
              overlay other_names.column_names
                (overlay
                  (indices_from 0 other_names.column_names)
                  other_names.column_types
                  reader_params.column_types_by_index)
                reader_params.column_types;
        },
      ))
    × ((all_in (indices_from 0 other_names.column_names) reader_params.column_types_by_index
            && all_in other_names.column_names reader_params.column_types)
          ≡ false
        → (apply_column_type_overrides reader_params other_names).0 ≡ err invalid_argument)
apply_column_type_overrides-overlay_example =
    apply_column_type_overrides-overlay reader_params other_names refl (refl, (refl, (refl, tt)))
      (refl, tt) (refl, (refl, tt))

-- A text is good unless it is empty.
abbrev text_value : DataType → Bytes → Option Bytes
text_value dt [] = none
text_value dt (b ∷ bs) = some (b ∷ bs)

abbrev parse_text : DataType → Bytes → Bytes → ParseResult × Bytes
parse_text dt [] old = (failed, old)
parse_text dt (b ∷ bs) old = (parsed, b ∷ bs)

text-ParsesWith : ParsesWith parse_text text_value
text-ParsesWith = record { accepts = accepts; refuses = refuses }
  where
    accepts :
        (dt : DataType) (text old v : Bytes)
        → text_value dt text ≡ some v
        → parse_text dt text old ≡ (parsed, v)
    accepts dt [] old v e = cc
    accepts dt (b ∷ bs) old v e = cc

    refuses :
        (dt : DataType) (text old : Bytes)
        → text_value dt text ≡ none
        → (v : Bytes) × (r : ParseResult) × (r ≢ parsed) × (parse_text dt text old ≡ (r, v))
    refuses dt [] old e = (old, failed, (λ f. cc), refl)
    refuses dt (b ∷ bs) old e = cc

abbrev lenient : BadInstances
lenient = record { warn_bad_instance = true; error_bad_example = false }

abbrev three_columns : List Column
three_columns =
    record { data_type = string; ignored = false }
    ∷ record { data_type = string; ignored = true }
    ∷ record { data_type = string; ignored = false }
    ∷ []

abbrev first_field : Field
first_field = bare (b'a' ∷ [])

abbrev other_fields : List Field
other_fields = quoted (b'b' ∷ b',' ∷ []) ∷ quoted (b'c' ∷ b'"' ∷ []) ∷ []

abbrev empty_decoding : Decoding Bytes
empty_decoding = record { tokenizer = idle; tensors = ([] ∷ [] ∷ []) ∷ ([] ∷ [] ∷ []) ∷ [] }

decode-fields_into_example :
    (left : Tokenizer) × (decode comma treat_as_bad lenient parse_text three_columns 1
        (record_text comma first_field other_fields)
        empty_decoding
      ≡ (
        (fields_into comma treat_as_bad lenient parse_text 1 three_columns
            (first_field ∷ other_fields)
            empty_decoding.tensors).0,
        record {
          tokenizer = left;
          tensors =
              (fields_into comma treat_as_bad lenient parse_text 1 three_columns
                (first_field ∷ other_fields)
                empty_decoding.tensors).1;
        },
      ))
decode-fields_into_example =
    decode-fields_into comma treat_as_bad lenient parse_text three_columns 1 first_field
      other_fields empty_decoding (omega arith) (((omega arith, tt), omega arith), (tt, (tt, tt)))

-- The second row has an empty field.
abbrev good_row : WrittenRow comma
good_row = record {
  first = first_field;
  others = other_fields;
  writable = (((omega arith, tt), omega arith), (tt, (tt, tt)));
}

abbrev bad_row : WrittenRow comma
bad_row = record { first = quoted []; others = other_fields; writable = (tt, (tt, (tt, tt))) }

abbrev three_written : List (WrittenRow comma)
three_written = good_row ∷ bad_row ∷ good_row ∷ []

decode_serial-good_cells_example :
    (d : Decoding Bytes) × (decode_serial pad
        (decode_written comma treat_as_bad lenient parse_text text_value text-ParsesWith refl
          three_columns)
        0
        three_written
        (record { tokenizer = idle; tensors = make_tensors (λ dt. []) 4 three_columns })
      ≡ (
        ok (
            some (
              length (
                good_cells comma treat_as_bad lenient parse_text text_value text-ParsesWith refl
                  three_columns three_written))),
        d,
      ))
    × CellsAt comma treat_as_bad lenient parse_text text_value text-ParsesWith refl d.tensors 0 (
        good_cells comma treat_as_bad lenient parse_text text_value text-ParsesWith refl
          three_columns three_written)
decode_serial-good_cells_example =
    decode_serial-good_cells comma treat_as_bad lenient parse_text text_value text-ParsesWith refl
      three_columns (omega arith) pad (λ dt. []) 4 three_written idle refl (omega arith)

-- A stream of bytes that cannot seek, and a conversion that writes nothing.
abbrev pipe : InputStream
pipe = record {
  State = Bytes;
  seekable = false;
  read = λ n s. (ok (take n s), drop n s);
  seek_to_start = λ s. s;
}

abbrev marked : Bytes
marked = 0xEF ∷ 0xBB ∷ 0xBF ∷ b'a' ∷ b'b' ∷ []

-- A piece of no bytes is the end.
take-nothing : (n : ℕ) (s : Bytes) → 0 < n → take n s ≡ [] → s ≡ []
take-nothing n [] l e = refl
take-nothing n (b ∷ bs) l e = absurd (omega (arith, length-take n (b ∷ bs), ap (λ x. length x) e))

abbrev pipe-IsStream : IsStream pipe marked
pipe-IsStream = record {
  rest = λ s. s;
  reads = λ n s l. record {
    piece = take n s;
    left = drop n s;
    returns = refl;
    cut = sym (take-append-drop n s);
    fits = omega (arith, length-take n s);
    at_end = take-nothing n s l;
  };
  seeks = λ s e. cc;
}

marked-infer_bom_encoding : infer_bom_encoding (take 4 marked) ≡ some utf8
unfolding infer_bom_encoding
marked-infer_bom_encoding = refl

abbrev no_conversion : Iconv
no_conversion = record {
  Converter = Unit {0};
  open_converter = λ e. tt;
  convert = λ input room c. (ok (converted, [], []), c);
}

make_utf8_stream-Serves_example :
    (made : Made pipe no_conversion) × (make_utf8_stream pipe no_conversion 64 none marked
      ≡ ok made)
    × Serves pipe marked pipe-IsStream no_conversion marked made
make_utf8_stream-Serves_example =
    make_utf8_stream-Serves pipe marked pipe-IsStream no_conversion 64 marked refl
      (inr marked-infer_bom_encoding)
