-- ===== src/Csv/Decode/Fields.antt =====
-- csv_reader.cc: the decoding of a row whose text was written from fields.
use ml_io.Base.{
  ℕ, ◌+◌, ◌≡◌, ◌≢◌, refl, sym, ap, subst, ◌∙◌, Bool, true, false, ◌&&◌, ◌||◌, Option, none, some,
  List, [], ◌∷◌, length, get_elem?, set, if◌then◌else◌, Bool-cases, inl, inr, Bytes, arith,
}
use ml_io.Action.{
  Result, ok, err, invalid_instance, undefined_behaviour, Action, then_call, pure, throw,
}
use ml_io.Tensors.{DataType}
use ml_io.Parsers.{ParseResult, parsed, failed, overflowed}
use ml_io.Examples.{BadInstances, refuse}
use ml_io.Csv.Format.{CsvParams, Field, value_of, record_text, AllWritable}
use ml_io.Csv.Tokenizer.{Tokenizer, reset}
use ml_io.Csv.Tokenizer.Limit.{fitted, exceeds}
use ml_io.Csv.Tokenizer.RoundTrip.{IsLeft, next-record_text}
use ml_io.Csv.Tokenizer.Left.{next-eof, next-finished, all_values-IsLeft, length-IsLeft}
use ml_io.Csv.Decode.{
  MaxFieldLengthHandling, Column, Decoding, on_tokenizer, count_fields, end_row, under, after_parse,
  parse_at, parse_field, is_bad_length, read_field, decode_columns, decode,
}

-- What a bad row is answered with.
abbrev pub refused : BadInstances → Result Bool
refused flags = if flags.error_bad_example then err invalid_instance else ok false

module _ {V : Type 0} (p : CsvParams) (h : MaxFieldLengthHandling) (flags : BadInstances)
    (parse : DataType → Bytes → V → ParseResult × V) where
  abbrev pub Outcome : Type 0
  Outcome = Result Bool × List (List V)

  abbrev pub with_tensor : List V → Outcome → Outcome
  with_tensor ts (r, tensors) = (r, ts ∷ tensors)

  abbrev pub parsed_into :
      ℕ → List V → List (List V) → (List (List V) → Outcome) → ParseResult × V → Outcome
  parsed_into row_idx ts tensors rest (parsed, v) = with_tensor (set ts row_idx v) (rest tensors)
  parsed_into row_idx ts tensors rest (_, v) = (refused flags, set ts row_idx v ∷ tensors)

  abbrev pub value_into :
      DataType → ℕ → Bytes → List V → List (List V) → (List (List V) → Outcome) → Option V → Outcome
  value_into dt row_idx text ts tensors rest none = (err undefined_behaviour, ts ∷ tensors)
  value_into dt row_idx text ts tensors rest (some old) =
      parsed_into row_idx ts tensors rest (parse dt text old)

  abbrev pub field_into : DataType → ℕ → Bytes → List (List V) → (List (List V) → Outcome) → Outcome
  field_into dt row_idx text [] rest = (err undefined_behaviour, [])
  field_into dt row_idx text (ts ∷ tensors) rest =
      value_into dt row_idx text ts tensors rest (get_elem? ts row_idx)

  -- The columns take the fields one by one: a column that is ignored drops its field, each other one
  -- has it parsed into its tensor. A row is bad where the numbers differ, where a field that is read
  -- is too long and that is to be bad, or where one cannot be parsed.
  abbrev pub fields_into : ℕ → List Column → List Field → List (List V) → Outcome
  fields_into row_idx [] [] tensors = (ok true, tensors)
  fields_into row_idx [] (f ∷ fs) tensors = (refused flags, tensors)
  fields_into row_idx (c ∷ columns) [] tensors = (refused flags, tensors)
  fields_into row_idx (c ∷ columns) (f ∷ fs) tensors =
      if c.ignored
      then fields_into row_idx columns fs tensors
      else if exceeds p.max_field_length (value_of f) && is_bad_length h
      then (refused flags, tensors)
      else field_into c.data_type row_idx (fitted p.max_field_length (value_of f)) tensors
          (fields_into row_idx columns fs)

  -- A run ends with the outcome, whatever is left in the tokenizer.
  record EndsWith (o : Outcome) (x : Result Bool × Decoding V) : Type 0 where
    left : Tokenizer
    ends : x ≡ (o.0, record { tokenizer = left; tensors = o.1 })

  refuse-EndsWith : (d : Decoding V) → EndsWith (refused flags, d.tensors) (refuse flags d)
  refuse-EndsWith d = record {
    left = d.tokenizer;
    ends =
        elim flags.error_bad_example
          as (λ b.
            (if b then throw invalid_instance else pure false) d
            ≡ (if b then err invalid_instance else ok false, d)) [ true ↦ refl | false ↦ refl ];
  }

  EndsWith-path :
      (o : Outcome) (x y : Result Bool × Decoding V) → y ≡ x → EndsWith o x → EndsWith o y
  EndsWith-path o x y e w = record { left = w.left; ends = e ∙ w.ends }

  no_error : (w : Bool) → (w || flags.error_bad_example) ≡ false → refused flags ≡ ok false
  no_error w e = ground (arith, e)

  -- A row whose fields and columns differ in number.
  end_row-EndsWith :
      (fs : List Field) (at_end : Bool) (d : Decoding V)
      → p.quote_char ≢ p.delimiter
      → AllWritable p fs
      → IsLeft p fs d.tokenizer
      → (at_end && d.tokenizer.eof) ≡ false
      → EndsWith (refused flags, d.tensors) (end_row p h flags parse at_end d)
  unfolding end_row count_fields
  end_row-EndsWith fs at_end d q w l e =
      let (u, r) =
        all_values-IsLeft p fs (length d.tokenizer.text + 2) d.tokenizer q w l
          (omega (arith, length-IsLeft p fs d.tokenizer l)) in
      let counted : Result Bool × Decoding V =
        then_call (count_fields p h flags parse d) (λ _. refuse flags) in
      let warns : Bool → Result Bool × Decoding V = λ b. if b then counted else (ok false, d) in
      EndsWith-path (refused flags, d.tensors)
        (warns (flags.warn_bad_instance || flags.error_bad_example))
        (end_row p h flags parse at_end d)
        (ap
          (λ b.
            if b then (ok true, d) else warns (flags.warn_bad_instance || flags.error_bad_example))
          e)
        (elim (Bool-cases (flags.warn_bad_instance || flags.error_bad_example)) [
          | inl b ↦
              EndsWith-path (refused flags, d.tensors) (refuse flags (record d { tokenizer = u })) _
                (ap warns b
                  ∙ ap (λ z. then_call (on_tokenizer p h flags parse d z) (λ _. refuse flags)) r)
                (refuse-EndsWith (record d { tokenizer = u }))
          | inr b ↦ record {
            left = d.tokenizer;
            ends = ap warns b ∙ ap (λ z. (z, d)) (sym (no_error flags.warn_bad_instance b));
          }
        ])

  module _ (row_idx : ℕ) (rest : Action (Decoding V) Bool) (o : List (List V) → Outcome) where
    after_parse-EndsWith :
        (ts : List V) (d : Decoding V) (r : ParseResult × V)
        → EndsWith (o d.tensors) (rest d)
        → EndsWith
            (parsed_into row_idx ts d.tensors o r)
            (after_parse p h flags parse row_idx ts rest r d)
    after_parse-EndsWith ts d (parsed, v) k = record {
      left = k.left;
      ends = ap (under (set ts row_idx v)) k.ends;
    }
    after_parse-EndsWith ts d (failed, v) k = record {
      left = (refuse-EndsWith d).left;
      ends = ap (under (set ts row_idx v)) (refuse-EndsWith d).ends;
    }
    after_parse-EndsWith ts d (overflowed, v) k = record {
      left = (refuse-EndsWith d).left;
      ends = ap (under (set ts row_idx v)) (refuse-EndsWith d).ends;
    }

    parse_at-EndsWith :
        (dt : DataType) (ts : List V) (d : Decoding V) (old : Option V)
        → EndsWith (o d.tensors) (rest d)
        → EndsWith
            (value_into dt row_idx d.tokenizer.value ts d.tensors o old)
            (parse_at p h flags parse dt row_idx ts old rest d)
    parse_at-EndsWith dt ts d none k = record { left = d.tokenizer; ends = refl }
    parse_at-EndsWith dt ts d (some v) k =
        after_parse-EndsWith ts d (parse dt d.tokenizer.value v) k

    parse_field-EndsWith :
        (dt : DataType) (tensors : List (List V)) (d : Decoding V)
        → ((d' : Decoding V) → d'.tokenizer ≡ d.tokenizer → EndsWith (o d'.tensors) (rest d'))
        → d.tensors ≡ tensors
        → EndsWith
            (field_into dt row_idx d.tokenizer.value tensors o)
            (parse_field p h flags parse dt row_idx rest tensors d)
    unfolding parse_field
    parse_field-EndsWith dt [] d k e = record {
      left = d.tokenizer;
      ends = ap (λ ts. (err undefined_behaviour, record d { tensors = ts })) e;
    }
    parse_field-EndsWith dt (ts ∷ tensors) d k e =
        let d' : Decoding V = record d { tensors = tensors } in
        parse_at-EndsWith dt ts d' (get_elem? ts row_idx) (k d' refl)

    -- A field that was found is read as the outcome says, where the rest of the row is.
    read_field-EndsWith :
        (c : Column) (text : Bytes) (long : Bool) (d : Decoding V)
        → ((d' : Decoding V) → d'.tokenizer ≡ d.tokenizer → EndsWith (o d'.tensors) (rest d'))
        → d.tokenizer.value ≡ text
        → d.tokenizer.truncated ≡ long
        → EndsWith
            (if c.ignored
              then o d.tensors
              else if long && is_bad_length h
              then (refused flags, d.tensors)
              else field_into c.data_type row_idx text d.tensors o)
            (read_field p h flags parse c row_idx rest d)
    unfolding read_field
    read_field-EndsWith c text long d k v t =
        let field = parse_field p h flags parse c.data_type row_idx rest d.tensors d in
        let into : Bytes → Outcome = λ text. field_into c.data_type row_idx text d.tensors o in
        let bad : Outcome = (refused flags, d.tensors) in
        let shown : Bool → Outcome = λ b. if b then bad else into text in
        let read : Bool → Result Bool × Decoding V = λ b. if b then refuse flags d else field in
        elim c.ignored
          as (λ b.
            EndsWith (if b then o d.tensors else shown (long && is_bad_length h))
              (if b then rest d else read (d.tokenizer.truncated && is_bad_length h))) [
                | true ↦ k d refl
                | false ↦
                    EndsWith-path _ (read (long && is_bad_length h)) _
                      (ap (λ z. read (z && is_bad_length h)) t)
                      (elim (long && is_bad_length h) as (λ b. EndsWith (shown b) (read b)) [
                        | true ↦ refuse-EndsWith d
                        | false ↦
                            subst (λ z. EndsWith (into z) field) v
                              (parse_field-EndsWith c.data_type d.tensors d k refl)
                      ])
              ]

  abbrev moved : Decoding V → Result Bool × Tokenizer → Result Bool × Decoding V
  moved d (r, t) = (r, record d { tokenizer = t })

  abbrev ended : Tokenizer → Tokenizer
  ended t = record t { value = []; truncated = false; eof = true }

  abbrev loop : Column → List Column → ℕ → Bool → Action (Decoding V) Bool
  loop c columns row_idx more =
      if more
      then read_field p h flags parse c row_idx (decode_columns p h flags parse columns row_idx)
      else end_row p h flags parse false

  at_eof : (d : Decoding V) → d.tokenizer.eof ≡ true → end_row p h flags parse true d ≡ (ok true, d)
  unfolding end_row
  at_eof d e = rw e

  decode_columns-EndsWith :
      (columns : List Column) (row_idx : ℕ) (fs : List Field) (d : Decoding V)
      → p.quote_char ≢ p.delimiter
      → AllWritable p fs
      → IsLeft p fs d.tokenizer
      → d.tokenizer.eof ≡ false
      → EndsWith
          (fields_into row_idx columns fs d.tensors)
          (decode_columns p h flags parse columns row_idx d)
  unfolding decode_columns
  decode_columns-EndsWith [] row_idx [] d q w (g, f) e = record {
    left = ended d.tokenizer;
    ends =
        ap (λ r. then_call (moved d r) (λ more. end_row p h flags parse true))
          (next-finished p d.tokenizer f)
        ∙ at_eof (record d { tokenizer = ended d.tokenizer }) refl;
  }
  decode_columns-EndsWith [] row_idx (f ∷ fs) d q (w, ws) l e =
      let (u, step, v, c, l') = next-record_text p f fs d.tokenizer q w l in
      EndsWith-path _ (end_row p h flags parse true (record d { tokenizer = u })) _
        (ap (λ r. then_call (moved d r) (λ more. end_row p h flags parse true)) step)
        (end_row-EndsWith fs true (record d { tokenizer = u }) q ws l'
          (next-eof p d.tokenizer u step ∙ e))
  decode_columns-EndsWith (c ∷ columns) row_idx [] d q w (g, f) e =
      EndsWith-path _ (end_row p h flags parse false (record d { tokenizer = ended d.tokenizer })) _
        (ap (λ r. then_call (moved d r) (loop c columns row_idx)) (next-finished p d.tokenizer f))
        (end_row-EndsWith [] false (record d { tokenizer = ended d.tokenizer }) q tt (g, f) refl)
  decode_columns-EndsWith (c ∷ columns) row_idx (f ∷ fs) d q (w, ws) l e =
      let (u, step, v, long, l') = next-record_text p f fs d.tokenizer q w l in
      let rest = decode_columns p h flags parse columns row_idx in
      EndsWith-path _ (read_field p h flags parse c row_idx rest (record d { tokenizer = u })) _
        (ap (λ r. then_call (moved d r) (loop c columns row_idx)) step)
        (read_field-EndsWith row_idx rest (fields_into row_idx columns fs) c _ _
          (record d { tokenizer = u })
          (λ d' same.
            decode_columns-EndsWith columns row_idx fs d' q ws (subst (IsLeft p fs) (sym same) l')
              (ap (λ t. t.eof) same ∙ next-eof p d.tokenizer u step ∙ e))
          v long)

  -- Where the quote is not the delimiter and the fields are writable, decoding the text of a row
  -- answers and fills the tensors as the fields do that the columns take one by one, whatever the
  -- treatment of long fields and bad instances is and whatever was decoded before.
  pub decode-fields_into :
      (columns : List Column) (row_idx : ℕ) (f : Field) (fs : List Field) (d : Decoding V)
      → p.quote_char ≢ p.delimiter
      → AllWritable p (f ∷ fs)
      → (left : Tokenizer) × (decode p h flags parse columns row_idx (record_text p f fs) d ≡ (
        (fields_into row_idx columns (f ∷ fs) d.tensors).0,
        record { tokenizer = left; tensors = (fields_into row_idx columns (f ∷ fs) d.tensors).1 },
      ))
  unfolding decode reset
  decode-fields_into columns row_idx f fs d q w =
      let e =
        decode_columns-EndsWith columns row_idx (f ∷ fs)
          (record d { tokenizer = reset (record_text p f fs) d.tokenizer }) q w (refl, refl) refl in
      (e.left, e.ends)
