-- ===== src/Csv/Reader/Lines.antt =====
-- csv_record_reader.cc: `read_line` on the text of a record.
use ml_io.Base.{
  ℕ, zero, suc, ◌+◌, ◌-◌, ◌≡◌, ◌≢◌, refl, sym, ap, ◌∙◌, Bool, false, some, List, [], ◌∷◌, ◌++◌,
  append_assoc, length, length-append, take-append, ◌==◌, ltb, Bool-cases, inl, inr, Bytes, arith,
}
use ml_io.Action.{ok}
use ml_io.Records.Slice.{first_bytes, drop_bytes}
use ml_io.Records.TextLine.{new_line, carriage, reaches}
use ml_io.Records.TextLine.Lines.{line, drop-append_line}
use ml_io.Csv.Format.{
  CsvParams, Field, bare, quoted, escape, field_text, record_text, Avoids, IsWritable, AllWritable,
}
use ml_io.Csv.Reader.{
  ReaderState, new_field, in_field, in_quoted_field, quote_in_quoted_field, has_carriage, to,
  jump_of, Stop, at_new_line, one_more, scan, back, finish, read_line,
}

-- The delimiter, the quote and the line breaks are different characters.
pub record IsDialect (p : CsvParams) : Type 0 where
  pub quote : p.quote_char ≢ p.delimiter
  pub delimiter_line : p.delimiter ≢ new_line
  pub delimiter_carriage : p.delimiter ≢ carriage
  pub quote_line : p.quote_char ≢ new_line
  pub quote_carriage : p.quote_char ≢ carriage

-- A field without quotes holds no line break; one between quotes may.
abbrev pub IsOnLine : Field → Type 0
IsOnLine (bare bs) = Avoids new_line bs × Avoids carriage bs
IsOnLine (quoted bs) = Unit {0}

abbrev pub AllOnLine : List Field → Type 0
AllOnLine [] = Unit {0}
AllOnLine (f ∷ fs) = IsOnLine f × AllOnLine fs

abbrev advance : ℕ → Stop → Stop
advance zero s = s
advance (suc n) s = one_more (advance n s)

advance-add : (m n : ℕ) (s : Stop) → advance m (advance n s) ≡ advance (m + n) s
advance-add zero n s = ap (λ k. advance k s) {x = n} {y = 0 + n} (omega arith)
advance-add (suc m) n s =
    ap one_more (advance-add m n s)
    ∙ ap (λ k. advance k s) {x = suc (m + n)} {y = suc m + n} (omega arith)

advance-at_new_line :
    (n k : ℕ) (s : ReaderState) → advance n (at_new_line k s) ≡ at_new_line (n + k) s
advance-at_new_line zero k s = ap (λ i. at_new_line i s) {x = k} {y = 0 + k} (omega arith)
advance-at_new_line (suc n) k s =
    ap one_more (advance-at_new_line n k s)
    ∙ ap (λ i. at_new_line i s) {x = suc (n + k)} {y = suc n + k} (omega arith)

module _ (p : CsvParams) where
  -- The characters lead from one state to another, whatever follows them.
  record Goes (s : ReaderState) (xs : Bytes) (s' : ReaderState) : Type 0 where
    go : (rest : Bytes) → scan p s (xs ++ rest) ≡ advance (length xs) (scan p s' rest)

  Goes-append :
      {s s' s'' : ReaderState} (xs ys : Bytes)
      → Goes s xs s'
      → Goes s' ys s''
      → Goes s (xs ++ ys) s''
  Goes-append {s = s} {s'' = s''} xs ys h k = record {
    go = λ rest.
        ap (scan p s) (append_assoc xs ys rest)
        ∙ h.go (ys ++ rest)
        ∙ ap (advance (length xs)) (k.go rest)
        ∙ advance-add (length xs) (length ys) (scan p s'' rest)
        ∙ ap (λ n. advance n (scan p s'' rest)) (sym (length-append xs ys));
  }

  Goes-cons :
      {s s' s'' : ReaderState} (c : ℕ) (xs : Bytes)
      → jump_of p s c ≡ to s'
      → s ≢ has_carriage
      → Goes s' xs s''
      → Goes s (c ∷ xs) s''
  unfolding scan
  Goes-cons {s = new_field} c xs e n k = record {
    go = λ rest. rw (scan, e) (ap one_more (k.go rest));
  }
  Goes-cons {s = in_field} c xs e n k = record {
    go = λ rest. rw (scan, e) (ap one_more (k.go rest));
  }
  Goes-cons {s = in_quoted_field} c xs e n k = record {
    go = λ rest. rw (scan, e) (ap one_more (k.go rest));
  }
  Goes-cons {s = quote_in_quoted_field} c xs e n k = record {
    go = λ rest. rw (scan, e) (ap one_more (k.go rest));
  }
  Goes-cons {s = has_carriage} c xs e n k = absurd (n refl)

  Goes-nil : {s : ReaderState} → Goes s [] s
  Goes-nil = record { go = λ rest. refl }

  Goes-bare :
      (bs : Bytes)
      → Avoids p.delimiter bs
      → Avoids new_line bs
      → Avoids carriage bs
      → Goes in_field bs in_field
  Goes-bare [] d n r = Goes-nil
  Goes-bare (c ∷ bs) (d, ds) (n, ns) (r, rs) =
      Goes-cons {s = in_field} {s' = in_field} c bs (unfold jump_of in ground arith) (λ e. cc)
        (Goes-bare bs ds ns rs)

  Goes-escape :
      (bs : Bytes) → IsDialect p → Goes in_quoted_field (escape p.quote_char bs) in_quoted_field
  Goes-escape [] h = Goes-nil
  Goes-escape (c ∷ bs) h = elim (Bool-cases (c == p.quote_char)) [
    | inl e ↦ rw e (
        Goes-cons {s = in_quoted_field} {s' = quote_in_quoted_field} p.quote_char _
          (unfold jump_of in ground arith) (λ e. cc)
          (Goes-cons {s = quote_in_quoted_field} {s' = in_quoted_field} p.quote_char _
            (unfold jump_of in ground (arith, h.quote)) (λ e. cc) (Goes-escape bs h)))
    | inr e ↦ rw e (
        Goes-cons {s = in_quoted_field} {s' = in_quoted_field} c _ (unfold jump_of in ground arith)
          (λ e. cc) (Goes-escape bs h))
  ]

  abbrev state_of : Field → ReaderState
  state_of (bare []) = new_field
  state_of (bare (c ∷ cs)) = in_field
  state_of (quoted bs) = quote_in_quoted_field

  abbrev last_state : Field → List Field → ReaderState
  last_state f [] = state_of f
  last_state f (g ∷ gs) = last_state g gs

  Goes-field :
      (f : Field)
      → IsDialect p
      → IsWritable p f
      → IsOnLine f
      → Goes new_field (field_text p f) (state_of f)
  Goes-field (bare []) h w l = Goes-nil
  Goes-field (bare (c ∷ cs)) h ((d, ds), q) ((n, ns), (r, rs)) =
      Goes-cons {s = new_field} {s' = in_field} c cs (unfold jump_of in ground arith) (λ e. cc)
        (Goes-bare cs ds ns rs)
  Goes-field (quoted bs) h w l =
      Goes-cons {s = new_field} {s' = in_quoted_field} p.quote_char _
        (unfold jump_of in ground (arith, h.quote)) (λ e. cc)
        (Goes-append (escape p.quote_char bs) (p.quote_char ∷ []) (Goes-escape bs h) (
          Goes-cons {s = in_quoted_field} {s' = quote_in_quoted_field} p.quote_char []
            (unfold jump_of in ground arith) (λ e. cc) Goes-nil))

  jump_of-delimiter : (f : Field) → IsDialect p → jump_of p (state_of f) p.delimiter ≡ to new_field
  unfolding jump_of
  jump_of-delimiter (bare []) h = ground arith
  jump_of-delimiter (bare (c ∷ cs)) h = ground arith
  jump_of-delimiter (quoted bs) h = ground arith

  state_of-carriage : (f : Field) → state_of f ≢ has_carriage
  state_of-carriage (bare []) e = cc
  state_of-carriage (bare (c ∷ cs)) e = cc
  state_of-carriage (quoted bs) e = cc

  Goes-record :
      (f : Field) (fs : List Field)
      → IsDialect p
      → AllWritable p (f ∷ fs)
      → AllOnLine (f ∷ fs)
      → Goes new_field (record_text p f fs) (last_state f fs)
  Goes-record f [] h (w, ws) (l, ls) = Goes-field f h w l
  Goes-record f (g ∷ gs) h (w, ws) (l, ls) =
      Goes-append (field_text p f) (p.delimiter ∷ record_text p g gs) (Goes-field f h w l) (
        Goes-cons {s = state_of f} {s' = new_field} p.delimiter (record_text p g gs)
          (jump_of-delimiter f h) (state_of-carriage f) (Goes-record g gs h ws ls))

  scan-state_of :
      (f : Field) (rest : Bytes)
      → IsDialect p
      → scan p (state_of f) (new_line ∷ rest) ≡ at_new_line 1 (state_of f)
  unfolding scan jump_of
  scan-state_of (bare []) rest h = ground (arith, h.delimiter_line, h.quote_line)
  scan-state_of (bare (c ∷ cs)) rest h = ground (arith, h.delimiter_line)
  scan-state_of (quoted bs) rest h = ground (arith, h.delimiter_line, h.quote_line)

  back-state_of : (f : Field) → back (state_of f) ≡ 1
  back-state_of (bare []) = refl
  back-state_of (bare (c ∷ cs)) = refl
  back-state_of (quoted bs) = refl

  last_state-of : (f : Field) (fs : List Field) → (g : Field) × (last_state f fs ≡ state_of g)
  last_state-of f [] = (f, refl)
  last_state-of f (g ∷ gs) = last_state-of g gs

  finish-cut :
      (ignore_leftover : Bool) (s : ReaderState) (text rest : Bytes)
      → reaches p.max_line_length (length text + 1) ≡ false
      → back s ≡ 1
      → finish p ignore_leftover (at_new_line (length text + 1) s) (text ++ new_line ∷ rest)
        ≡ (ok (some (line text)), rest)
  unfolding finish first_bytes drop_bytes
  finish-cut ig s text rest h b =
      let k : length text + 1 - 1 ≡ length text = omega arith in
      let far : ltb (length (text ++ new_line ∷ rest)) (length text) ≡ false =
        ground (arith, length-append text (new_line ∷ rest)) in
      let near : ltb (length (text ++ new_line ∷ rest)) (length text + 1) ≡ false =
        ground (arith, length-append text (new_line ∷ rest)) in
      rw
        (
          h,
          b,
          k,
          far,
          near,
          drop-append_line (length text) text rest new_line refl,
          take-append text (new_line ∷ rest),
        )
        refl

  read_line-scan :
      (ignore_leftover : Bool) (text rest : Bytes)
      → read_line p ignore_leftover (text ++ new_line ∷ rest)
        ≡ finish p ignore_leftover
            (scan p new_field (text ++ new_line ∷ rest))
            (text ++ new_line ∷ rest)
  unfolding read_line
  read_line-scan ig [] rest = refl
  read_line-scan ig (c ∷ text) rest = refl

  -- Where delimiter, quote and line breaks differ and no field without quotes holds what would end
  -- it, the text of a record and a line feed are read as that text, line breaks between quotes
  -- included, where text and line feed together are below the limit; what follows is left.
  pub read_line-record_text :
      (ignore_leftover : Bool) (f : Field) (fs : List Field) (rest : Bytes)
      → IsDialect p
      → AllWritable p (f ∷ fs)
      → AllOnLine (f ∷ fs)
      → reaches p.max_line_length (length (record_text p f fs) + 1) ≡ false
      → read_line p ignore_leftover (record_text p f fs ++ new_line ∷ rest)
        ≡ (ok (some (line (record_text p f fs))), rest)
  read_line-record_text ig f fs rest h w l m =
      let (g, e) = last_state-of f fs in
      let text : Bytes = record_text p f fs in
      let stop : scan p new_field (text ++ new_line ∷ rest)
          ≡ at_new_line (length text + 1) (state_of g) =
        (Goes-record f fs h w l).go (new_line ∷ rest)
        ∙ ap (λ s. advance (length text) (scan p s (new_line ∷ rest))) e
        ∙ ap (advance (length text)) (scan-state_of g rest h)
        ∙ advance-at_new_line (length text) 1 (state_of g) in
      read_line-scan ig text rest
      ∙ ap (λ s. finish p ig s (text ++ new_line ∷ rest)) stop
      ∙ finish-cut ig (state_of g) text rest m (back-state_of g)
