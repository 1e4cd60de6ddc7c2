-- ===== src/Csv/Tokenizer/Left.antt =====
-- csv_record_tokenizer.cc: what the calls of `next` on a written record leave, for the clients that
-- loop over them.
use ml_io.Base.{
  ℕ, zero, suc, ◌+◌, ◌≤◌, ◌<◌, ◌≡◌, ◌≢◌, refl, sym, ap, ◌∙◌, Bool, true, false, List, [], ◌∷◌,
  length, length-append, if◌then◌else◌, Bytes, arith,
}
use ml_io.Action.{Result, ok, then_call, pure}
use ml_io.Csv.Format.{CsvParams, Field, field_text, record_text, AllWritable}
use ml_io.Csv.Tokenizer.{
  Tokenizer, ParserState, new_field, in_field, in_quoted_field, quote_in_quoted_field, scan, next,
  push_if, push_char, goto, end_field, move_of,
}
use ml_io.Csv.Tokenizer.Values.{all_values, rest_of}
use ml_io.Csv.Tokenizer.RoundTrip.{
  IsLeft, next-record_text, next_value-next, next_value-finished, values_of,
}

module _ (p : CsvParams) where
  push_if-eof : (pushed : Bool) (c : ℕ) (t : Tokenizer) → (push_if p pushed c t).eof ≡ t.eof
  unfolding push_char
  push_if-eof pushed c t = ground arith

  scan-eof :
      (state : ParserState) (text : Bytes) (t : Tokenizer) → (scan p state text t).1.eof ≡ t.eof
  unfolding scan
  scan-eof new_field [] t = refl
  scan-eof in_field [] t = refl
  scan-eof in_quoted_field [] t = refl
  scan-eof quote_in_quoted_field [] t = refl
  scan-eof state (c ∷ text) t =
      elim (move_of p state c)
        as (λ m.
          (elim m as (λ _. Result Bool × Tokenizer) [
            | end_field ↦ (ok true, record t { text = text })
            | goto state' pushed ↦ scan p state' text (push_if p pushed c t)
          ]).1.eof
          ≡ t.eof) [
            | end_field ↦ refl
            | goto state' pushed ↦
                scan-eof state' text (push_if p pushed c t) ∙ push_if-eof pushed c t
          ]

  -- A call that finds a field is not at the end.
  pub next-eof : (t u : Tokenizer) → next p t ≡ (ok true, u) → u.eof ≡ t.eof
  unfolding next
  next-eof t u e =
      elim t.finished
          as (λ b.
            (if b
                then (ok false, record t { value = []; truncated = false; eof = true })
                else scan p new_field t.text (record t { value = []; truncated = false }))
              ≡ (ok true, u)
            → u.eof ≡ t.eof) [
              | true ↦ λ e. cc
              | false ↦ λ e.
                  sym (ap (λ r. r.1.eof) e)
                  ∙ scan-eof new_field t.text (record t { value = []; truncated = false })
            ]
        e

  pub next-finished :
      (t : Tokenizer)
      → t.finished ≡ true
      → next p t ≡ (ok false, record t { value = []; truncated = false; eof = true })
  unfolding next
  next-finished t e = ground (arith, e)

  pub all_values-IsLeft :
      (fs : List Field) (fuel : ℕ) (t : Tokenizer)
      → p.quote_char ≢ p.delimiter
      → AllWritable p fs
      → IsLeft p fs t
      → length fs < fuel
      → (u : Tokenizer) × (all_values p fuel t ≡ (ok (values_of p fs), u))
  unfolding all_values
  all_values-IsLeft fs zero t q w l lt = absurd (omega arith)
  all_values-IsLeft [] (suc fuel) t q w (g, e) lt = (
    record t { value = []; truncated = false; eof = true },
    ap (λ r. then_call r (rest_of p fuel)) (next_value-finished p t e),
  )
  all_values-IsLeft (f ∷ fs) (suc fuel) t q (w, ws) l lt =
      let (u, e, v, c, l') = next-record_text p f fs t q w l in
      let (u', r) = all_values-IsLeft fs fuel u q ws l' (omega arith) in
      (
        u',
        ap (λ r. then_call r (rest_of p fuel)) (next_value-next p t u e)
            ∙ ap (λ r. then_call r (λ xs. pure (u.value ∷ xs))) r
            ∙ ap (λ x. (ok (x ∷ values_of p fs), u')) v,
      )

  -- There are at most as many fields as characters, and one more.
  length-record_text : (g : Field) (gs : List Field) → length gs ≤ length (record_text p g gs)
  length-record_text g [] = omega arith
  length-record_text g (g' ∷ gs) = omega (
    arith,
    length-append (field_text p g) (p.delimiter ∷ record_text p g' gs),
    length-record_text g' gs,
  )

  pub length-IsLeft :
      (fs : List Field) (t : Tokenizer) → IsLeft p fs t → length fs ≤ length t.text + 1
  length-IsLeft [] t l = omega arith
  length-IsLeft (g ∷ gs) t (e, f) = omega (arith, ap (λ x. length x) e, length-record_text g gs)
