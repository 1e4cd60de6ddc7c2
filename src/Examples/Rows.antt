-- ===== src/Examples/Rows.antt =====
-- The loop over the instances of a batch, over any decoder that writes one row and leaves those
-- before it.
use mathlib.Core.Bool.{true≢false}
use ml_io.Base.{
  ℕ, ◌+◌, ◌≤◌, ◌<◌, ◌≡◌, refl, sym, ap, subst, ◌∙◌, Bool, true, false, Option, none, some, List, [],
  ◌∷◌, length, Option-cases, inl, inr, arith,
}
use ml_io.Action.{ok, Action, then_call}
use ml_io.Examples.{
  BadExampleHandling, error, skip, skip_warn, pad, pad_warn, is_pad, decode_serial, after_row,
}

-- A good instance has a row. Decoding it at a place that fits writes the row there; decoding a bad
-- one answers no. Neither touches the rows before.
pub record RowDecoder {S I : Type 0} (decode_instance : ℕ → I → Action S Bool) : Type 1 where
  pub Row : Type 0
  pub row_of : I → Option Row
  pub row_at : S → ℕ → Row
  pub Fits : ℕ → S → Type 0
  pub good :
      (n r : ℕ) (i : I) (s : S) (x : Row)
      → Fits n s
      → r < n
      → row_of i ≡ some x
      → (t : S) × (decode_instance r i s ≡ (ok true, t))
        × Fits n t
        × (row_at t r ≡ x)
        × ((q : ℕ) → q < r → row_at t q ≡ row_at s q)
  pub bad :
      (n r : ℕ) (i : I) (s : S)
      → Fits n s
      → r < n
      → row_of i ≡ none
      → (t : S) × (decode_instance r i s ≡ (ok false, t))
        × Fits n t
        × ((q : ℕ) → q < r → row_at t q ≡ row_at s q)

abbrev pub or_more {ℓ} : {A : Type ℓ} → Option A → List A → List A
or_more none xs = xs
or_more (some x) xs = x ∷ xs

module _ {S I : Type 0} {decode_instance : ℕ → I → Action S Bool}
    (d : RowDecoder decode_instance) where
  -- The rows of the good instances, in order.
  abbrev pub good_rows : List I → List d.Row
  good_rows [] = []
  good_rows (i ∷ instances) = or_more (d.row_of i) (good_rows instances)

  abbrev pub StandsAt : S → ℕ → List d.Row → Type 0
  StandsAt s r [] = Unit {0}
  StandsAt s r (x ∷ xs) = (d.row_at s r ≡ x) × StandsAt s (r + 1) xs

  abbrev SameBefore : ℕ → S → S → Type 0
  SameBefore r s t = (q : ℕ) → q < r → d.row_at t q ≡ d.row_at s q

  abbrev later : BadExampleHandling → ℕ → List I → Bool → Action S (Option ℕ)
  later h row_idx instances =
      after_row h (decode_serial h decode_instance (row_idx + 1) instances)
        (decode_serial h decode_instance row_idx instances)

  -- What the loop makes of a state: rows behind those that stand there.
  record Stacks (h : BadExampleHandling) (row_idx : ℕ) (xs : List d.Row) (instances : List I)
      (s : S) : Type 0 where
    left : S
    returns :
        decode_serial h decode_instance row_idx instances s
        ≡ (ok (some (row_idx + length xs)), left)
    stands : StandsAt left row_idx xs
    before : SameBefore row_idx s left

  good-Stacks :
      (h : BadExampleHandling) (row_idx : ℕ) (i : I) (instances : List I) (x : d.Row)
      (xs : List d.Row) (s t : S)
      → decode_instance row_idx i s ≡ (ok true, t)
      → d.row_at t row_idx ≡ x
      → SameBefore row_idx s t
      → Stacks h (row_idx + 1) xs instances t
      → Stacks h row_idx (x ∷ xs) (i ∷ instances) s
  unfolding decode_serial
  good-Stacks h row_idx i instances x xs s t e x_there same k =
      let count : row_idx + 1 + length xs ≡ row_idx + length (x ∷ xs) = omega arith in
      record {
        left = k.left;
        returns =
            ap (λ r. then_call r (later h row_idx instances)) e
            ∙ k.returns
            ∙ ap (λ n. (ok (some n), k.left)) count;
        stands = (k.before row_idx (omega arith) ∙ x_there, k.stands);
        before = λ q l. k.before q (omega arith) ∙ same q l;
      }

  bad-Stacks :
      (h : BadExampleHandling)
      → is_pad h ≡ true
      → (row_idx : ℕ) (i : I) (instances : List I) (xs : List d.Row) (s t : S)
      → decode_instance row_idx i s ≡ (ok false, t)
      → SameBefore row_idx s t
      → Stacks h row_idx xs instances t
      → Stacks h row_idx xs (i ∷ instances) s
  unfolding decode_serial
  bad-Stacks h p row_idx i instances xs s t e same k = record {
    left = k.left;
    returns =
        ap (λ r. then_call r (later h row_idx instances)) e
        ∙ pads h p (decode_serial h decode_instance (row_idx + 1) instances)
            (decode_serial h decode_instance row_idx instances) t
        ∙ k.returns;
    stands = k.stands;
    before = λ q l. k.before q l ∙ same q l;
  }
    where
      pads :
          (h : BadExampleHandling)
          → is_pad h ≡ true
          → (next_row same_row : Action S (Option ℕ)) (t : S)
          → after_row h next_row same_row false t ≡ same_row t
      pads pad e next_row same_row t = refl
      pads pad_warn e next_row same_row t = refl
      pads error e next_row same_row t = absurd (true≢false (sym e))
      pads skip e next_row same_row t = absurd (true≢false (sym e))
      pads skip_warn e next_row same_row t = absurd (true≢false (sym e))

  stacks :
      (h : BadExampleHandling)
      → is_pad h ≡ true
      → (instances : List I) (n row_idx : ℕ) (s : S) → d.Fits n s
      → row_idx + length instances ≤ n
      → Stacks h row_idx (good_rows instances) instances s
  unfolding decode_serial
  stacks h p [] n row_idx s f l =
      let same : row_idx ≡ row_idx + 0 = omega arith in
      record {
        left = s;
        returns = ap (λ n. (ok (some n), s)) same;
        stands = tt;
        before = λ q l. refl;
      }
  stacks h p (i ∷ instances) n row_idx s f l = elim (Option-cases (d.row_of i)) [
    | inl b ↦
        let (t, e, f', same) = d.bad n row_idx i s f (omega arith) b in
        subst (λ o. Stacks h row_idx (or_more o (good_rows instances)) (i ∷ instances) s) (sym b)
          (bad-Stacks h p row_idx i instances (good_rows instances) s t e same
            (stacks h p instances n row_idx t f' (omega arith)))
    | inr (x, g) ↦
        let (t, e, f', there, same) = d.good n row_idx i s x f (omega arith) g in
        subst (λ o. Stacks h row_idx (or_more o (good_rows instances)) (i ∷ instances) s) (sym g)
          (good-Stacks h row_idx i instances x (good_rows instances) s t e there same
            (stacks h p instances n (row_idx + 1) t f' (omega arith)))
  ]

  -- Where bad instances are to be padded and the batch fits, the serial loop returns the number of
  -- good instances, and their rows stand at the start, in order and without a gap.
  pub decode_serial-pad :
      (h : BadExampleHandling) (instances : List I) (n : ℕ) (s : S)
      → is_pad h ≡ true
      → d.Fits n s
      → length instances ≤ n
      → (t : S) × (decode_serial h decode_instance 0 instances s
          ≡ (ok (some (length (good_rows instances))), t))
        × StandsAt t 0 (good_rows instances)
  decode_serial-pad h instances n s p f l =
      let k = stacks h p instances n 0 s f (omega arith) in
      let count : 0 + length (good_rows instances) ≡ length (good_rows instances) = omega arith in
      (k.left, k.returns ∙ ap (λ n. (ok (some n), k.left)) count, k.stands)
