-- ===== src/Csv/Tokenizer/Values.antt =====
-- csv_record_tokenizer.cc: the loop over all fields of a record, as the clients of the tokenizer
-- write it. Its bound is the number of characters that are left, and two more.
use ml_io.Base.{
  subst, ℕ, zero, suc, ◌+◌, ◌≤◌, ◌<◌, ◌≡◌, ◌≢◌, refl, sym, Bool, true, false, Option, none, some,
  List, [], ◌∷◌, length, if◌then◌else◌, Bool-cases, inl, inr, Bytes, arith,
}
use ml_io.Action.{
  Result, ok, err, corrupt_record, out_of_fuel, Action, ◌>>=◌, pure, throw, then_call,
}
use ml_io.Csv.Format.{CsvParams}
use ml_io.Csv.Tokenizer.{
  Tokenizer, ParserState, new_field, in_field, in_quoted_field, quote_in_quoted_field, goto,
  end_field, push_if, move_of, scan, next, next_value, take_value, reset,
}

-- The fields that are left.
unfoldable pub all_values : CsvParams → ℕ → Action Tokenizer (List Bytes)
all_values p zero = throw out_of_fuel
all_values p (suc fuel) = next_value p >>= λ v. elim v [
  | none ↦ pure []
  | some x ↦ (do xs ← all_values p fuel; pure (x ∷ xs))
]

abbrev pub idle : Tokenizer
idle = record { text = []; value = []; truncated = false; finished = false; eof = false }

pub read_fields : CsvParams → Bytes → Result (List Bytes)
read_fields p blob = (all_values p (length blob + 2) (reset blob idle)).0

-- What is left to do for the tokenizer.
abbrev pub weight : Tokenizer → ℕ
weight t = if t.finished then 0 else suc (length t.text)

-- A call either found a field, with less left to do, or the record is corrupt.
abbrev Shrinks : ℕ → Result Bool × Tokenizer → Type 0
Shrinks n (ok true, u) = weight u ≤ n
Shrinks n (ok false, u) = Unit {0}
Shrinks n (err e, u) = e ≡ corrupt_record

Shrinks-le : (m n : ℕ) (r : Result Bool × Tokenizer) → m ≤ n → Shrinks m r → Shrinks n r
Shrinks-le m n (ok true, u) l h = omega arith
Shrinks-le m n (ok false, u) l h = tt
Shrinks-le m n (err e, u) l h = h

module _ (p : CsvParams) where
  scan-Shrinks :
      (state : ParserState) (text : Bytes) (t : Tokenizer)
      → Shrinks (length text) (scan p state text t)
  unfolding scan
  scan-Shrinks new_field [] t = omega arith
  scan-Shrinks in_field [] t = omega arith
  scan-Shrinks in_quoted_field [] t = refl
  scan-Shrinks quote_in_quoted_field [] t = omega arith
  scan-Shrinks state (c ∷ text) t =
      elim (move_of p state c)
        as (λ m. Shrinks (suc (length text)) (elim m as (λ _. Result Bool × Tokenizer) [
          | end_field ↦ (ok true, record t { text = text })
          | goto state' pushed ↦ scan p state' text (push_if p pushed c t)
        ])) [
          | end_field ↦ ground arith
          | goto state' pushed ↦
              Shrinks-le (length text) (suc (length text)) _ (omega arith)
                (scan-Shrinks state' text (push_if p pushed c t))
        ]

  next-Shrinks : (t : Tokenizer) → Shrinks (length t.text) (next p t)
  unfolding next
  next-Shrinks t =
      elim t.finished
        as (λ b. Shrinks (length t.text) (
          if b
          then (ok false, record t { value = []; truncated = false; eof = true })
          else scan p new_field t.text (record t { value = []; truncated = false }))) [
            | true ↦ tt
            | false ↦ scan-Shrinks new_field t.text (record t { value = []; truncated = false })
          ]

  abbrev pub rest_of : ℕ → Option Bytes → Action Tokenizer (List Bytes)
  rest_of fuel v = elim v [ none ↦ pure [] | some x ↦ (do xs ← all_values p fuel; pure (x ∷ xs)) ]

  cons_ends :
      (x : Bytes) (r : Result (List Bytes) × Tokenizer)
      → r.0 ≢ err out_of_fuel
      → (then_call r (λ xs. pure {S = Tokenizer} (x ∷ xs))).0 ≢ err out_of_fuel
  cons_ends x (ok xs, u) h = λ e. cc
  cons_ends x (err e, u) h = h

  field_ends :
      (fuel n : ℕ) (r : Result Bool × Tokenizer)
      → Shrinks n r
      → ((u : Tokenizer) → weight u ≤ n → (all_values p fuel u).0 ≢ err out_of_fuel)
      → (then_call (take_value r) (rest_of fuel)).0 ≢ err out_of_fuel
  field_ends fuel n (ok true, u) h k = cons_ends u.value (all_values p fuel u) (k u h)
  field_ends fuel n (ok false, u) h k = λ e. cc
  field_ends fuel n (err e, u) h k = λ f. cc

  -- With enough fuel the loop ends: with the fields, or where the record is corrupt.
  pub all_values_ends :
      (fuel : ℕ) (t : Tokenizer) → weight t < fuel → (all_values p fuel t).0 ≢ err out_of_fuel
  unfolding all_values next_value next
  all_values_ends zero t l = absurd (omega arith)
  all_values_ends (suc fuel) t l = elim (Bool-cases t.finished) [
    | inl over ↦
        subst
          (λ b.
            (then_call
              (take_value (
                if b
                then (ok false, record t { value = []; truncated = false; eof = true })
                else scan p new_field t.text (record t { value = []; truncated = false })))
              (rest_of fuel)).0
            ≢ err out_of_fuel)
          (sym over) (λ e. cc)
    | inr open_text ↦
        field_ends fuel (length t.text) (next p t) (next-Shrinks t)
          (λ u less. all_values_ends fuel u (ground arith))
  ]
