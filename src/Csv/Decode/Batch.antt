-- ===== src/Csv/Decode/Batch.antt =====
-- csv_reader.cc: the decoder of a row as a decoder that writes one row of the tensors.
use mathlib.Core.Option.{none-ne-some, some-injective}
use ml_io.Base.{
  ℕ, ◌+◌, ◌≤◌, ◌<◌, ◌≡◌, ◌≢◌, refl, sym, ap, subst, ◌∙◌, Bool, true, false, ◌&&◌, Option, none,
  some, List, [], ◌∷◌, map, length, length-set, length-replicate, get_elem?, get_elem?-some,
  get_elem?-set_same, get_elem?-set_before, set, replicate, if◌then◌else◌, Option-cases, inl, inr,
  Bytes, arith,
}
use ml_io.Action.{Result, ok, Action}
use ml_io.Tensors.{DataType, head_or}
use ml_io.Tensors.Coo.{tail}
use ml_io.Parsers.{ParseResult, parsed, failed, overflowed}
use ml_io.Examples.{BadInstances, BadExampleHandling, is_pad, decode_serial}
use ml_io.Examples.Rows.{RowDecoder, or_more, good_rows, StandsAt, decode_serial-pad}
use ml_io.Csv.Format.{CsvParams, Field, value_of, record_text, AllWritable}
use ml_io.Csv.Tokenizer.{Tokenizer}
use ml_io.Csv.Tokenizer.Limit.{fitted, exceeds}
use ml_io.Csv.Decode.{MaxFieldLengthHandling, Column, Decoding, is_bad_length, make_tensors, decode}
use ml_io.Csv.Decode.Fields.{
  refused, fields_into, field_into, value_into, parsed_into, with_tensor, decode-fields_into,
}

-- A parser that has a value for a text, or none, whatever was in the element before.
pub record ParsesWith {V : Type 0} (parse : DataType → Bytes → V → ParseResult × V)
    (value : DataType → Bytes → Option V) : Type 0 where
  pub accepts :
      (dt : DataType) (text : Bytes) (old v : V)
      → value dt text ≡ some v
      → parse dt text old ≡ (parsed, v)
  pub refuses :
      (dt : DataType) (text : Bytes) (old : V)
      → value dt text ≡ none
      → (v : V) × (r : ParseResult) × (r ≢ parsed) × (parse dt text old ≡ (r, v))

-- A row as a writer makes it.
pub record WrittenRow (p : CsvParams) : Type 0 where
  pub first : Field
  pub others : List Field
  pub writable : AllWritable p (first ∷ others)

module _ {V : Type 0} (p : CsvParams) (h : MaxFieldLengthHandling) (flags : BadInstances)
    (parse : DataType → Bytes → V → ParseResult × V) (value : DataType → Bytes → Option V)
    (pw : ParsesWith parse value) (no_error : flags.error_bad_example ≡ false) where
  abbrev add_cell : Option V → Option (List (Option V)) → Option (List (Option V))
  add_cell none cells = none
  add_cell (some v) none = none
  add_cell (some v) (some cells) = some (some v ∷ cells)

  -- The elements that a row's fields have in the columns that are read, where the row is good.
  abbrev pub cells_of : List Column → List Field → Option (List (Option V))
  cells_of [] [] = some []
  cells_of [] (f ∷ fs) = none
  cells_of (c ∷ columns) [] = none
  cells_of (c ∷ columns) (f ∷ fs) =
      if c.ignored
      then cells_of columns fs
      else if exceeds p.max_field_length (value_of f) && is_bad_length h
      then none
      else add_cell (value c.data_type (fitted p.max_field_length (value_of f)))
          (cells_of columns fs)

  abbrev pub sizes : ℕ → List Column → List ℕ
  sizes n [] = []
  sizes n (c ∷ columns) = if c.ignored then sizes n columns else n ∷ sizes n columns

  abbrev pub row_at : List (List V) → ℕ → List (Option V)
  row_at tensors r = map (λ ts. get_elem? ts r) tensors

  abbrev pub is_some : Option (List (Option V)) → Bool
  is_some none = false
  is_some (some x) = true

  pub record Writes (r : ℕ) (cells : Option (List (Option V))) (tensors : List (List V))
      (o : Result Bool × List (List V)) : Type 0 where
    pub answer : o.0 ≡ ok (is_some cells)
    pub same_sizes : map length o.1 ≡ map length tensors
    pub written : (x : List (Option V)) → cells ≡ some x → row_at o.1 r ≡ x
    pub before : (q : ℕ) → q < r → row_at o.1 q ≡ row_at tensors q

  refused-Writes :
      (r : ℕ) (tensors : List (List V)) → Writes r none tensors (refused flags, tensors)
  refused-Writes r tensors = record {
    answer = rw no_error;
    same_sizes = refl;
    written = λ x e. absurd (none-ne-some x e);
    before = λ q l. refl;
  }

  set_sizes :
      (ts : List V) (r : ℕ) (v : V) (tensors : List (List V))
      → map length (set ts r v ∷ tensors) ≡ length ts ∷ map length tensors
  set_sizes ts r v tensors = ap (λ k. k ∷ map length tensors) (length-set ts r v)

  set_before :
      (ts : List V) (r q : ℕ) (v : V) (tensors : List (List V))
      → q < r
      → row_at (set ts r v ∷ tensors) q ≡ get_elem? ts q ∷ row_at tensors q
  set_before ts r q v tensors l = ap (λ k. k ∷ row_at tensors q) (get_elem?-set_before ts r q v l)

  -- A cell is written, and the rest of the row or none of it.
  cell-Writes :
      (r : ℕ) (ts : List V) (v : V) (cells : Option (List (Option V))) (tensors : List (List V))
      (o : Result Bool × List (List V))
      → r < length ts
      → Writes r cells tensors o
      → Writes r
          (add_cell (some v) cells)
          (ts ∷ tensors)
          (with_tensor p h flags parse (set ts r v) o)
  cell-Writes r ts v none tensors o l w = record {
    answer = w.answer;
    same_sizes = set_sizes ts r v o.1 ∙ ap (λ k. length ts ∷ k) w.same_sizes;
    written = λ x e. absurd (none-ne-some x e);
    before = λ q l. set_before ts r q v o.1 l ∙ ap (λ k. get_elem? ts q ∷ k) (w.before q l);
  }
  cell-Writes r ts v (some x) tensors o l w = record {
    answer = w.answer;
    same_sizes = set_sizes ts r v o.1 ∙ ap (λ k. length ts ∷ k) w.same_sizes;
    written = λ y e.
        ap (λ z. z ∷ row_at o.1 r) (get_elem?-set_same ts r v l)
        ∙ ap (λ k. some v ∷ k) (w.written x refl)
        ∙ some-injective (some v ∷ x) y e;
    before = λ q l. set_before ts r q v o.1 l ∙ ap (λ k. get_elem? ts q ∷ k) (w.before q l);
  }

  set-Writes :
      (r : ℕ) (ts : List V) (v : V) (tensors : List (List V))
      → Writes r none (ts ∷ tensors) (refused flags, set ts r v ∷ tensors)
  set-Writes r ts v tensors = record {
    answer = rw no_error;
    same_sizes = set_sizes ts r v tensors;
    written = λ x e. absurd (none-ne-some x e);
    before = λ q l. set_before ts r q v tensors l;
  }

  refused_cell-Writes :
      (r : ℕ) (ts : List V) (v : V) (cells : Option (List (Option V))) (tensors : List (List V))
      (result : ParseResult) (rest : List (List V) → Result Bool × List (List V))
      → result ≢ parsed
      → Writes r none (ts ∷ tensors) (parsed_into p h flags parse r ts tensors rest (result, v))
  refused_cell-Writes r ts v cells tensors parsed rest n = absurd (n refl)
  refused_cell-Writes r ts v cells tensors failed rest n = set-Writes r ts v tensors
  refused_cell-Writes r ts v cells tensors overflowed rest n = set-Writes r ts v tensors

  -- One field that is read, where the rest of the row writes what it should.
  field_into-Writes :
      (dt : DataType) (text : Bytes) (r n : ℕ) (sizes' : List ℕ) (cells : Option (List (Option V)))
      (tensors : List (List V)) (rest : List (List V) → Result Bool × List (List V))
      → r < n
      → map length tensors ≡ n ∷ sizes'
      → ((ts : List (List V)) → map length ts ≡ sizes' → Writes r cells ts (rest ts))
      → Writes r
          (add_cell (value dt text) cells)
          tensors
          (field_into p h flags parse dt r text tensors rest)
  field_into-Writes dt text r n sizes' cells [] rest l e k = cc
  field_into-Writes dt text r n sizes' cells (ts ∷ tensors) rest l e k =
      let size : length ts ≡ n = ap (head_or 0) e in
      let (old, there) = get_elem?-some ts r (omega arith) in
      subst
        (λ o.
          Writes r (add_cell (value dt text) cells) (ts ∷ tensors)
            (value_into p h flags parse dt r text ts tensors rest o))
        (sym there)
        (elim (Option-cases (value dt text)) [
          | inl none_there ↦
              let (v, result, n, e') = pw.refuses dt text old none_there in
              rw (none_there, e') (refused_cell-Writes r ts v cells tensors result rest n)
          | inr (v, some_there) ↦
              rw (some_there, pw.accepts dt text old v some_there)
                (cell-Writes r ts v cells tensors (rest tensors) (omega arith)
                  (k tensors (ap tail e)))
        ])

  fields_into-Writes :
      (columns : List Column) (fs : List Field) (n r : ℕ) (tensors : List (List V))
      → map length tensors ≡ sizes n columns
      → r < n
      → Writes r (cells_of columns fs) tensors (fields_into p h flags parse r columns fs tensors)
  fields_into-Writes [] [] n r [] e l = record {
    answer = refl;
    same_sizes = refl;
    written = some-injective [];
    before = λ q l. refl;
  }
  fields_into-Writes [] [] n r (ts ∷ tensors) e l = cc
  fields_into-Writes [] (f ∷ fs) n r tensors e l = refused-Writes r tensors
  fields_into-Writes (c ∷ columns) [] n r tensors e l = refused-Writes r tensors
  fields_into-Writes (c ∷ columns) (f ∷ fs) n r tensors e l =
      let text = fitted p.max_field_length (value_of f) in
      let rest = fields_into p h flags parse r columns fs in
      let cells = cells_of columns fs in
      let shown : Bool → Option (List (Option V)) =
        λ b. if b then none else add_cell (value c.data_type text) cells in
      let read : Bool → Result Bool × List (List V) = λ b.
        if b
        then (refused flags, tensors)
        else field_into p h flags parse c.data_type r text tensors rest in
      let long = exceeds p.max_field_length (value_of f) && is_bad_length h in
      elim c.ignored
          as (λ b.
            map length tensors ≡ (if b then sizes n columns else n ∷ sizes n columns)
            → Writes r (if b then cells else shown long) tensors
                (if b then rest tensors else read long)) [
                  | true ↦ λ e. fields_into-Writes columns fs n r tensors e l
                  | false ↦ λ e. elim long as (λ b. Writes r (shown b) tensors (read b)) [
                    | true ↦ refused-Writes r tensors
                    | false ↦
                        field_into-Writes c.data_type text r n (sizes n columns) cells tensors rest
                          l e (λ ts e. fields_into-Writes columns fs n r ts e l)
                  ]
                ]
        e

  make_tensors-sizes :
      (init : DataType → V) (n : ℕ) (columns : List Column)
      → map length (make_tensors init n columns) ≡ sizes n columns
  unfolding make_tensors
  make_tensors-sizes init n [] = refl
  make_tensors-sizes init n (c ∷ columns) =
      let rest = make_tensors-sizes init n columns in
      elim c.ignored
        as (λ b.
          map length (
            if b
            then make_tensors init n columns
            else replicate n (init c.data_type) ∷ make_tensors init n columns)
          ≡ (if b then sizes n columns else n ∷ sizes n columns)) [
            | true ↦ rest
            | false ↦
                ap (λ k. k ∷ map length (make_tensors init n columns))
                  (length-replicate n (init c.data_type))
                ∙ ap (λ k. n ∷ k) rest
          ]

  abbrev pub decode_written : List Column → ℕ → WrittenRow p → Action (Decoding V) Bool
  decode_written columns r row =
      decode p h flags parse columns r (record_text p row.first row.others)

  pub decode-Writes :
      (columns : List Column) (n r : ℕ) (row : WrittenRow p) (d : Decoding V)
      → p.quote_char ≢ p.delimiter
      → map length d.tensors ≡ sizes n columns
      → r < n
      → (t : Decoding V) × (decode_written columns r row d
          ≡ (ok (is_some (cells_of columns (row.first ∷ row.others))), t))
        × Writes r
            (cells_of columns (row.first ∷ row.others))
            d.tensors
            ((decode_written columns r row d).0, t.tensors)
  decode-Writes columns n r row d q e l =
      let (left, ran) =
        decode-fields_into p h flags parse columns r row.first row.others d q row.writable in
      let w = fields_into-Writes columns (row.first ∷ row.others) n r d.tensors e l in
      let o = fields_into p h flags parse r columns (row.first ∷ row.others) d.tensors in
      let t : Decoding V = record { tokenizer = left; tensors = o.1 } in
      (
        t,
        ran ∙ ap (λ z. (z, t)) w.answer,
        subst (λ z. Writes r (cells_of columns (row.first ∷ row.others)) d.tensors (z, o.1))
            (sym (ap (λ z. z.0) ran)) w,
      )

  abbrev pub written_rows :
      (columns : List Column) → p.quote_char ≢ p.delimiter → RowDecoder (decode_written columns)
  written_rows columns q = record {
    Row = List (Option V);
    row_of = λ row. cells_of columns (row.first ∷ row.others);
    row_at = λ d r. row_at d.tensors r;
    Fits = λ n d. map length d.tensors ≡ sizes n columns;
    good = λ n r row d x f l g.
        let (t, ran, w) = decode-Writes columns n r row d q f l in
        (t, ran ∙ ap (λ z. (ok (is_some z), t)) g, w.same_sizes ∙ f, w.written x g, w.before);
    bad = λ n r row d f l g.
        let (t, ran, w) = decode-Writes columns n r row d q f l in
        (t, ran ∙ ap (λ z. (ok (is_some z), t)) g, w.same_sizes ∙ f, w.before);
  }

  -- The cells of the good rows of a batch.
  abbrev pub good_cells : List Column → List (WrittenRow p) → List (List (Option V))
  good_cells columns [] = []
  good_cells columns (row ∷ rows) =
      or_more (cells_of columns (row.first ∷ row.others)) (good_cells columns rows)

  abbrev pub CellsAt : List (List V) → ℕ → List (List (Option V)) → Type 0
  CellsAt tensors r [] = Unit {0}
  CellsAt tensors r (x ∷ xs) = (row_at tensors r ≡ x) × CellsAt tensors (r + 1) xs

  good_rows-cells :
      (columns : List Column) (q : p.quote_char ≢ p.delimiter) (rows : List (WrittenRow p))
      → good_rows (written_rows columns q) rows ≡ good_cells columns rows
  good_rows-cells columns q [] = refl
  good_rows-cells columns q (row ∷ rows) =
      ap (or_more (cells_of columns (row.first ∷ row.others))) (good_rows-cells columns q rows)

  cells_at :
      (columns : List Column) (q : p.quote_char ≢ p.delimiter) (u : Decoding V)
      (xs : List (List (Option V))) (r : ℕ)
      → StandsAt (written_rows columns q) u r xs
      → CellsAt u.tensors r xs
  cells_at columns q u [] r h = tt
  cells_at columns q u (x ∷ xs) r (e, h) = (e, cells_at columns q u xs (r + 1) h)

  -- Where bad rows are to be padded and do not throw, parsers do not depend on what they write over,
  -- and the rows were written with a quote that is not the delimiter, the serial decoding of a batch
  -- that fits the new tensors returns the number of good rows, and the tensors start with their
  -- cells, in order and without a gap.
  pub decode_serial-good_cells :
      (columns : List Column) (q : p.quote_char ≢ p.delimiter) (treatment : BadExampleHandling)
      (init : DataType → V) (n : ℕ) (rows : List (WrittenRow p)) (t : Tokenizer)
      → is_pad treatment ≡ true
      → length rows ≤ n
      → (d : Decoding V) × (decode_serial treatment
            (decode_written columns)
            0
            rows
            (record { tokenizer = t; tensors = make_tensors init n columns })
          ≡ (ok (some (length (good_cells columns rows))), d))
        × CellsAt d.tensors 0 (good_cells columns rows)
  decode_serial-good_cells columns q treatment init n rows t pads l =
      let d = written_rows columns q in
      let (u, ran, stands) =
        decode_serial-pad d treatment rows n
          (record { tokenizer = t; tensors = make_tensors init n columns }) pads
          (make_tensors-sizes init n columns) l in
      let same = good_rows-cells columns q rows in
      (
        u,
        ran ∙ ap (λ xs. (ok (some (length xs)), u)) same,
        cells_at columns q u (good_cells columns rows) 0
            (subst (λ xs. StandsAt d u 0 xs) same stands),
      )
