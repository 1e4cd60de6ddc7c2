-- ===== src/Csv/Tokenizer/RoundTrip.antt =====
-- csv_record_tokenizer.cc: the tokenizer on the text that fields are written with.
use ml_io.Base.{
  take-nil, ℕ, ◌≡◌, ◌≢◌, refl, sym, ap, ◌∙◌, Bool, true, false, Option, none, some, List, [], ◌∷◌,
  ◌++◌, append-nil, append_assoc, ◌==◌, if◌then◌else◌, Bool-cases, inl, inr, Bytes, arith,
}
use ml_io.Action.{Result, ok}
use ml_io.Instances.Yields.{Yields, done, more}
use ml_io.Csv.Format.{
  CsvParams, Field, bare, quoted, value_of, escape, field_text, record_text, Avoids, IsWritable,
  AllWritable,
}
use ml_io.Csv.Tokenizer.Limit.{fitted, exceeds, filled, push_char-filled}
use ml_io.Csv.Tokenizer.{
  goto, push_if, ParserState, new_field, in_field, in_quoted_field, quote_in_quoted_field,
  Tokenizer, move_of, scan, next, next_value, reset,
}

-- How a field ends: the delimiter is consumed, or the text is at its end.
abbrev stop_at : Bytes → Tokenizer → Result Bool × Tokenizer
stop_at [] t = (ok true, record t { text = []; finished = true })
stop_at (d ∷ rest) t = (ok true, record t { text = rest })

abbrev StartsWithDelimiter : CsvParams → Bytes → Type 0
StartsWithDelimiter p [] = Unit {0}
StartsWithDelimiter p (d ∷ rest) = d ≡ p.delimiter

module _ (p : CsvParams) where
  scan-goto :
      (state state' : ParserState) (pushed : Bool) (c : ℕ) (text : Bytes) (t : Tokenizer)
      → move_of p state c ≡ goto state' pushed
      → scan p state (c ∷ text) t ≡ scan p state' text (push_if p pushed c t)
  unfolding scan
  scan-goto state state' pushed c text t e = rw (e, scan)

  scan-delimiter :
      (state : ParserState) (text : Bytes) (t : Tokenizer)
      → state ≢ in_quoted_field
      → scan p state (p.delimiter ∷ text) t ≡ (ok true, record t { text = text })
  unfolding scan move_of
  scan-delimiter state text t n = ground arith

  scan-stop :
      (state : ParserState) (rest : Bytes) (t : Tokenizer)
      → state ≢ in_quoted_field
      → StartsWithDelimiter p rest
      → scan p state rest t ≡ stop_at rest t
  unfolding scan
  scan-stop state (d ∷ rest) t n h = rw h (scan-delimiter state rest t n)
  scan-stop new_field [] t n h = refl
  scan-stop in_field [] t n h = refl
  scan-stop quote_in_quoted_field [] t n h = refl
  scan-stop in_quoted_field [] t n h = absurd (n refl)

  -- One character of a field goes into the value.
  scan-push :
      (state state' : ParserState) (c : ℕ) (w text : Bytes) (t : Tokenizer)
      → move_of p state c ≡ goto state' true
      → scan p state (c ∷ text) (filled p w t) ≡ scan p state' text (filled p (w ++ c ∷ []) t)
  scan-push state state' c w text t e =
      scan-goto state state' true c text (filled p w t) e
      ∙ ap (scan p state' text) (push_char-filled p w c t)

  scan-bare :
      (bs w rest : Bytes) (t : Tokenizer)
      → Avoids p.delimiter bs
      → scan p in_field (bs ++ rest) (filled p w t) ≡ scan p in_field rest (filled p (w ++ bs) t)
  scan-bare [] w rest t h = rw append-nil
  scan-bare (c ∷ bs) w rest t (n, h) =
      scan-push in_field in_field c w (bs ++ rest) t (unfold move_of in ground arith)
      ∙ scan-bare bs (w ++ c ∷ []) rest t h
      ∙ rw append_assoc

  scan-escaped :
      (c : ℕ) (w text : Bytes) (t : Tokenizer)
      → p.quote_char ≢ p.delimiter
      → scan p in_quoted_field
          ((if c == p.quote_char then p.quote_char ∷ p.quote_char ∷ [] else c ∷ []) ++ text)
          (filled p w t)
        ≡ scan p in_quoted_field text (filled p (w ++ c ∷ []) t)
  scan-escaped c w text t h = elim (Bool-cases (c == p.quote_char)) [
    | inl e ↦
        let same : c ≡ p.quote_char = ground arith in
        rw (e, same)
          (scan-goto in_quoted_field quote_in_quoted_field false p.quote_char _ _
              (unfold move_of in ground arith)
            ∙ scan-push quote_in_quoted_field in_quoted_field p.quote_char w text t
                (unfold move_of in ground arith))
    | inr e ↦
        rw e (scan-push in_quoted_field in_quoted_field c w text t (unfold move_of in ground arith))
  ]

  scan-quoted :
      (bs w rest : Bytes) (t : Tokenizer)
      → p.quote_char ≢ p.delimiter
      → scan p in_quoted_field (escape p.quote_char bs ++ rest) (filled p w t)
        ≡ scan p in_quoted_field rest (filled p (w ++ bs) t)
  scan-quoted [] w rest t h = rw append-nil
  scan-quoted (c ∷ bs) w rest t h =
      ap (λ text. scan p in_quoted_field (text ++ rest) (filled p w t)) (escape-cons c bs)
      ∙ ap (λ text. scan p in_quoted_field text (filled p w t))
          (append_assoc (escaped c) (escape p.quote_char bs) rest)
      ∙ scan-escaped c w (escape p.quote_char bs ++ rest) t h
      ∙ scan-quoted bs (w ++ c ∷ []) rest t h
      ∙ rw append_assoc
    where
      escaped : ℕ → Bytes
      escaped c = if c == p.quote_char then p.quote_char ∷ p.quote_char ∷ [] else c ∷ []

      escape-cons :
          (c : ℕ) (bs : Bytes) → escape p.quote_char (c ∷ bs) ≡ escaped c ++ escape p.quote_char bs
      escape-cons c bs = ground arith

  -- A field is read up to the delimiter or the end of the text.
  scan-field :
      (f : Field) (rest : Bytes) (t : Tokenizer)
      → p.quote_char ≢ p.delimiter
      → IsWritable p f
      → StartsWithDelimiter p rest
      → scan p new_field (field_text p f ++ rest) (filled p [] t)
        ≡ stop_at rest (filled p (value_of f) t)
  scan-field (bare []) rest t n h s = scan-stop new_field rest _ (λ e. cc) s
  scan-field (bare (c ∷ bs)) rest t n ((d, h), q) s =
      scan-push new_field in_field c [] (bs ++ rest) t (unfold move_of in ground arith)
      ∙ scan-bare bs (c ∷ []) rest t h
      ∙ scan-stop in_field rest _ (λ e. cc) s
  scan-field (quoted bs) rest t n h s =
      ap (λ text. scan p new_field (p.quote_char ∷ text) (filled p [] t))
        (append_assoc (escape p.quote_char bs) (p.quote_char ∷ []) rest)
      ∙ scan-goto new_field in_quoted_field false p.quote_char _ _ (unfold move_of in ground arith)
      ∙ scan-quoted bs [] (p.quote_char ∷ rest) t n
      ∙ scan-goto in_quoted_field quote_in_quoted_field false p.quote_char rest _
          (unfold move_of in ground arith)
      ∙ scan-stop quote_in_quoted_field rest _ (λ e. cc) s

  -- What is left of a record's text before its next field, or behind its last.
  abbrev pub IsLeft : List Field → Tokenizer → Type 0
  IsLeft [] t = (t.text ≡ []) × (t.finished ≡ true)
  IsLeft (g ∷ gs) t = (t.text ≡ record_text p g gs) × (t.finished ≡ false)

  filled-nil :
      (l : Option ℕ) (t : Tokenizer)
      → p.max_field_length ≡ l
      → record t { value = []; truncated = false } ≡ filled p [] t
  filled-nil none t e = rw e
  filled-nil (some n) t e = ground (arith, e, take-nil {A = ℕ} n)

  next-scan :
      (t : Tokenizer) (text : Bytes)
      → t.finished ≡ false
      → t.text ≡ text
      → next p t ≡ scan p new_field text (filled p [] t)
  unfolding next
  next-scan t text e g =
      ground (arith, e)
      ∙ ap (λ x. scan p new_field x (record t { value = []; truncated = false })) g
      ∙ ap (scan p new_field text) (filled-nil p.max_field_length t refl)

  -- Where the quote is not the delimiter and the first field is writable, a call of `next` on a
  -- record's text gives that field, as far as the limit allows, and tells whether it was cut; what
  -- lies behind its delimiter is left.
  pub next-record_text :
      (f : Field) (fs : List Field) (t : Tokenizer)
      → p.quote_char ≢ p.delimiter
      → IsWritable p f
      → IsLeft (f ∷ fs) t
      → (u : Tokenizer) × (next p t ≡ (ok true, u))
        × (u.value ≡ fitted p.max_field_length (value_of f))
        × (u.truncated ≡ exceeds p.max_field_length (value_of f))
        × IsLeft fs u
  next-record_text f [] t n h (g, e) = (
    record (filled p (value_of f) t) { text = []; finished = true },
    next-scan t (field_text p f) e g
        ∙ ap (λ text. scan p new_field text (filled p [] t)) (sym (append-nil (field_text p f)))
        ∙ scan-field f [] t n h tt,
    refl,
    refl,
    (refl, refl),
  )
  next-record_text f (f' ∷ fs) t n h (g, e) = (
    record (filled p (value_of f) t) { text = record_text p f' fs },
    next-scan t (record_text p f (f' ∷ fs)) e g
        ∙ scan-field f (p.delimiter ∷ record_text p f' fs) t n h refl,
    refl,
    refl,
    (refl, e),
  )

  pub next_value-finished :
      (t : Tokenizer)
      → t.finished ≡ true
      → next_value p t ≡ (ok none, record t { value = []; truncated = false; eof = true })
  unfolding next_value next
  next_value-finished t e = ground (arith, e)

  pub next_value-next :
      (t u : Tokenizer) → next p t ≡ (ok true, u) → next_value p t ≡ (ok (some u.value), u)
  unfolding next_value
  next_value-next t u e = rw e

  abbrev pub values_of : List Field → List Bytes
  values_of [] = []
  values_of (f ∷ fs) = fitted p.max_field_length (value_of f) ∷ values_of fs

  left-Yields :
      (fs : List Field) (t : Tokenizer)
      → p.quote_char ≢ p.delimiter
      → AllWritable p fs
      → IsLeft fs t
      → Yields (next_value p) t (values_of fs)
  left-Yields [] t n h (g, e) = done (next_value-finished t e) (next_value-finished _ e)
  left-Yields (f ∷ fs) t n (h, hs) l =
      let (u, e, v, c, l') = next-record_text f fs t n h l in
      more (next_value-next t u e ∙ ap (λ x. (ok (some x), u)) v) (left-Yields fs u n hs l')

  -- Where the quote is not the delimiter and every field without quotes avoids the delimiter and
  -- does not start with a quote, the calls after a reset on the text of a record give its fields,
  -- each as far as the limit allows, and then nothing.
  pub reset-Yields :
      (f : Field) (fs : List Field) (t : Tokenizer)
      → p.quote_char ≢ p.delimiter
      → AllWritable p (f ∷ fs)
      → Yields (next_value p) (reset (record_text p f fs) t) (values_of (f ∷ fs))
  unfolding reset
  reset-Yields f fs t n h = left-Yields (f ∷ fs) (reset (record_text p f fs) t) n h (refl, refl)
