-- ===== src/Csv/Tokenizer/Limit.antt =====
-- The field length limit: pushing characters one by one keeps the first of them.
use ml_io.Base.{
  ℕ, ◌≡◌, refl, inl, inr, Bool, false, Option, none, some, [], ◌∷◌, ◌++◌, length, length-append,
  length-take, take, take_all, take-append_le, ltb, leb, leb→le, Bool-cases, Bytes, arith,
}
use ml_io.Csv.Format.{CsvParams}
use ml_io.Csv.Tokenizer.{Tokenizer, push_char}

-- The part of a field that fits the limit, and whether something is cut off.
abbrev pub fitted : Option ℕ → Bytes → Bytes
fitted none w = w
fitted (some n) w = take n w

abbrev pub exceeds : Option ℕ → Bytes → Bool
exceeds none w = false
exceeds (some n) w = ltb n (length w)

abbrev pub filled : CsvParams → Bytes → Tokenizer → Tokenizer
filled p w t = record t {
  value = fitted p.max_field_length w;
  truncated = exceeds p.max_field_length w;
}

push_at :
    (l : Option ℕ) (p : CsvParams) (w : Bytes) (c : ℕ) (t : Tokenizer)
    → p.max_field_length ≡ l
    → push_char p c (filled p w t) ≡ filled p (w ++ c ∷ []) t
unfolding push_char
push_at none p w c t e = rw e
push_at (some n) p w c t e = elim (Bool-cases (leb n (length w))) [
  | inl full ↦
      let le = leb→le n (length w) full in
      ground (arith, e, take-append_le n w (c ∷ []) le, length-take n w, length-append w (c ∷ []))
  | inr room ↦
      let same : take n w ≡ w = take_all n w (ground arith) in
      let same' : take n (w ++ c ∷ []) ≡ w ++ c ∷ [] =
        take_all n (w ++ c ∷ []) (ground (arith, length-append w (c ∷ []))) in
      ground (arith, e, same, same', length-append w (c ∷ []))
]

pub push_char-filled :
    (p : CsvParams) (w : Bytes) (c : ℕ) (t : Tokenizer)
    → push_char p c (filled p w t) ≡ filled p (w ++ c ∷ []) t
push_char-filled p w c t = push_at p.max_field_length p w c t refl
