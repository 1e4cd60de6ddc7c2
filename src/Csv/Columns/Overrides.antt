-- ===== src/Csv/Columns/Overrides.antt =====
-- csv_reader.cc: the data types that the caller sets by index and by name.
use mathlib.Core.Option.{none-ne-some}
use ml_io.Base.{
  ℕ, suc, ◌+◌, ◌<◌, ◌≡◌, refl, sym, ap, ◌∙◌, Bool, true, false, ◌&&◌, none, List, [], ◌∷◌, length,
  if◌then◌else◌, Bool-cases, Option-cases, inl, inr, Bytes, arith,
}
use ml_io.Base.Keys.{
  Eq, contains, Distinct, keys, lookup, remove, bytes_eq, nat_eq, same, same_refl, same→eq,
  lookup-none, same-sym_false,
}
use ml_io.Action.{Result, ok, err, invalid_argument, then_call}
use ml_io.Tensors.{DataType}
use ml_io.Csv.Columns.{
  ReaderParams, State, or_else, override, no_leftover, indices_from, apply_column_type_overrides,
}

abbrev verdict : Bool → Result (Unit {0})
verdict true = ok tt
verdict false = err invalid_argument

module _ {ℓ} {K : Type ℓ} ⦃e : Eq K⦄ where
  -- The type that the map has for a key, or else the old one.
  abbrev pub overlay : List K → List DataType → List (K × DataType) → List DataType
  overlay (k ∷ ks) (dt ∷ types) overrides =
      or_else dt (lookup k overrides) ∷ overlay ks types overrides
  overlay ks types overrides = []

  abbrev pub all_in : List K → List (K × DataType) → Bool
  all_in ks [] = true
  all_in ks ((k, dt) ∷ overrides) = if contains k ks then all_in ks overrides else false

  abbrev is_nil : List (K × DataType) → Bool
  is_nil [] = true
  is_nil (x ∷ xs) = false

  lookup-remove :
      (k k' : K) (m : List (K × DataType))
      → same k k' ≡ false
      → lookup k' (remove k m) ≡ lookup k' m
  lookup-remove k k' [] n = refl
  lookup-remove k k' ((x, v) ∷ m) n = elim (Bool-cases (same k x)) [
    | inl s ↦
        let other : same k' x ≡ false =
          ap (same k') (sym (same→eq k x s)) ∙ same-sym_false k k' n in
        rw (s, other)
    | inr s ↦ rw (s, lookup-remove k k' m n)
  ]

  avoids-cons :
      (k x : K) (ks : List K)
      → contains k (x ∷ ks) ≡ false
      → (same k x ≡ false) × (contains k ks ≡ false)
  avoids-cons k x ks h = ground (arith, h)

  overlay-remove :
      (k : K) (ks : List K) (types : List DataType) (m : List (K × DataType))
      → contains k ks ≡ false
      → overlay ks types (remove k m) ≡ overlay ks types m
  overlay-remove k [] types m n = refl
  overlay-remove k (k' ∷ ks) [] m n = refl
  overlay-remove k (k' ∷ ks) (dt ∷ types) m n =
      let (differs, later) = avoids-cons k k' ks n in
      rw (lookup-remove k k' m differs, overlay-remove k ks types m later)

  override-overlay :
      (ks : List K) (types : List DataType) (m : List (K × DataType))
      → length types ≡ length ks
      → Distinct ks
      → (override ks types m).0 ≡ overlay ks types m
  unfolding override
  override-overlay [] [] m l d = refl
  override-overlay [] (dt ∷ types) m l d = absurd (omega arith)
  override-overlay (k ∷ ks) [] m l d = refl
  override-overlay (k ∷ ks) (dt ∷ types) m l (n, d) = elim (Option-cases (lookup k m)) [
    | inl none_there ↦ rw (none_there, override-overlay ks types m (omega arith) d)
    | inr (dt', there) ↦ rw (
      there,
      override-overlay ks types (remove k m) (omega arith) d,
      overlay-remove k ks types m n,
    )
  ]

  contains-remove :
      (k x : K) (m : List (K × DataType))
      → contains x (keys m) ≡ false
      → contains x (keys (remove k m)) ≡ false
  contains-remove k x [] h = refl
  contains-remove k x ((y, v) ∷ m) h =
      let (differs, later) = avoids-cons x y (keys m) h in
      elim (Bool-cases (same k y)) [
        | inl s ↦ rw s later
        | inr s ↦ rw (s, differs, contains-remove k x m later)
      ]

  Distinct-remove :
      (k : K) (m : List (K × DataType)) → Distinct (keys m) → Distinct (keys (remove k m))
  Distinct-remove k [] d = tt
  Distinct-remove k ((y, v) ∷ m) (n, d) = elim (Bool-cases (same k y)) [
    | inl s ↦ rw s d
    | inr s ↦ rw s (contains-remove k y m n, Distinct-remove k m d)
  ]

  -- A key that the map does not have changes nothing.
  all_in-cons :
      (k : K) (ks : List K) (m : List (K × DataType))
      → contains k (keys m) ≡ false
      → all_in (k ∷ ks) m ≡ all_in ks m
  all_in-cons k ks [] n = refl
  all_in-cons k ks ((x, v) ∷ m) n =
      let (differs, later) = avoids-cons k x (keys m) n in
      rw (same-sym_false k x differs, all_in-cons k ks m later)

  all_in-remove :
      (k : K) (ks : List K) (m : List (K × DataType))
      → Distinct (keys m)
      → all_in ks (remove k m) ≡ all_in (k ∷ ks) m
  all_in-remove k ks [] d = refl
  all_in-remove k ks ((x, v) ∷ m) (n, d) = elim (Bool-cases (same k x)) [
    | inl s ↦
        let x_is : k ≡ x = same→eq k x s in
        let back : same x k ≡ true = ap (same x) x_is ∙ same_refl x in
        rw (s, back) (sym (all_in-cons k ks m (ap (λ z. contains z (keys m)) x_is ∙ n)))
    | inr s ↦ rw (s, same-sym_false k x s, all_in-remove k ks m d)
  ]

  remove-none : (k : K) (m : List (K × DataType)) → lookup k m ≡ none → remove k m ≡ m
  remove-none k [] h = refl
  remove-none k ((x, v) ∷ m) h = elim (Bool-cases (same k x)) [
    | inl s ↦ absurd (none-ne-some v (sym (rw s at h)))
    | inr s ↦ rw (s, remove-none k m (rw s at h))
  ]

  all_in-nil : (m : List (K × DataType)) → is_nil m ≡ all_in [] m
  all_in-nil [] = refl
  all_in-nil (x ∷ m) = refl

  override-all_in :
      (ks : List K) (types : List DataType) (m : List (K × DataType))
      → length types ≡ length ks
      → Distinct (keys m)
      → is_nil (override ks types m).1 ≡ all_in ks m
  unfolding override
  override-all_in [] types m l d = all_in-nil m
  override-all_in (k ∷ ks) [] m l d = absurd (omega arith)
  override-all_in (k ∷ ks) (dt ∷ types) m l d = elim (Option-cases (lookup k m)) [
    | inl none_there ↦ rw none_there (
        override-all_in ks types m (omega arith) d
        ∙ sym (all_in-cons k ks m (lookup-none k m none_there)))
    | inr (dt', there) ↦ rw there (
        override-all_in ks types (remove k m) (omega arith) (Distinct-remove k m d)
        ∙ all_in-remove k ks m d)
  ]

  length-overlay :
      (ks : List K) (types : List DataType) (m : List (K × DataType))
      → length types ≡ length ks
      → length (overlay ks types m) ≡ length ks
  length-overlay [] types m l = refl
  length-overlay (k ∷ ks) [] m l = l
  length-overlay (k ∷ ks) (dt ∷ types) m l = ap suc (length-overlay ks types m (omega arith))

  no_leftover-verdict :
      (types : List DataType) (m : List (K × DataType)) (s : State)
      → no_leftover (types, m) s ≡ (verdict (is_nil m), record s { column_types = types })
  no_leftover-verdict types [] s = refl
  no_leftover-verdict types (x ∷ m) s = refl

  -- One of the two passes over the columns.
  override-verdict :
      (ks : List K) (types : List DataType) (m : List (K × DataType)) (s : State)
      → length types ≡ length ks
      → Distinct ks
      → Distinct (keys m)
      → no_leftover (override ks types m) s
        ≡ (verdict (all_in ks m), record s { column_types = overlay ks types m })
  override-verdict ks types m s l d dm =
      no_leftover-verdict (override ks types m).0 (override ks types m).1 s
      ∙ ap (λ b. (verdict b, record s { column_types = (override ks types m).0 }))
          (override-all_in ks types m l dm)
      ∙ ap (λ t. (verdict (all_in ks m), record s { column_types = t }))
          (override-overlay ks types m l d)

length-indices_from :
    (i : ℕ) (column_names : List Bytes) → length (indices_from i column_names) ≡ length column_names
length-indices_from i [] = refl
length-indices_from i (name ∷ column_names) = ap suc (length-indices_from (i + 1) column_names)

contains-indices_from :
    (i j : ℕ) (column_names : List Bytes) → i < j → contains i (indices_from j column_names) ≡ false
contains-indices_from i j [] l = refl
contains-indices_from i j (name ∷ column_names) l =
    ground (arith, contains-indices_from i (j + 1) column_names (omega arith))

indices_from-Distinct : (i : ℕ) (column_names : List Bytes) → Distinct (indices_from i column_names)
indices_from-Distinct i [] = tt
indices_from-Distinct i (name ∷ column_names) = (
  contains-indices_from i (i + 1) column_names (omega arith),
  indices_from-Distinct (i + 1) column_names,
)

-- Where the columns have distinct names and each map has distinct keys, a column has the type that
-- is set for its name, or else the one for its index, or else its own; the call throws exactly where
-- a key of one of the maps is no column.
pub apply_column_type_overrides-overlay :
    (p : ReaderParams) (s : State)
    → length s.column_types ≡ length s.column_names
    → Distinct s.column_names
    → Distinct (keys p.column_types)
    → Distinct (keys p.column_types_by_index)
    → (all_in (indices_from 0 s.column_names) p.column_types_by_index ≡ true
        → all_in s.column_names p.column_types ≡ true
        → apply_column_type_overrides p s ≡ (
          ok tt,
          record s {
            column_types =
                overlay s.column_names
                  (overlay (indices_from 0 s.column_names) s.column_types p.column_types_by_index)
                  p.column_types;
          },
        ))
      × ((all_in (indices_from 0 s.column_names) p.column_types_by_index
              && all_in s.column_names p.column_types)
            ≡ false
          → (apply_column_type_overrides p s).0 ≡ err invalid_argument)
unfolding apply_column_type_overrides
apply_column_type_overrides-overlay p s l d dn di =
    let ix = indices_from 0 s.column_names in
    let l' = l ∙ sym (length-indices_from 0 s.column_names) in
    let types = overlay ix s.column_types p.column_types_by_index in
    let s' : State = record s { column_types = types } in
    let then_names : Result (Unit {0}) → Result (Unit {0}) × State = λ r.
      then_call (r, s')
        (λ _ s''. no_leftover (override s''.column_names s''.column_types p.column_types) s'') in
    let first =
      ap
        (λ r.
          then_call r
            (λ _ s''. no_leftover (override s''.column_names s''.column_types p.column_types) s''))
        (override-verdict ix s.column_types p.column_types_by_index s l'
          (indices_from-Distinct 0 s.column_names) di) in
    let second =
      override-verdict s.column_names types p.column_types s'
        (length-overlay ix s.column_types p.column_types_by_index l'
          ∙ length-indices_from 0 s.column_names)
        d dn in
    (
      λ hi hn.
          first
          ∙ ap (λ b. then_names (verdict b)) hi
          ∙ second
          ∙ ap
              (λ b. (
                verdict b,
                record s { column_types = overlay s.column_names types p.column_types },
              ))
              hn,
      λ h. elim (Bool-cases (all_in ix p.column_types_by_index)) [
        | inl hi ↦
            ap (λ r. r.0) (first ∙ ap (λ b. then_names (verdict b)) hi ∙ second)
            ∙ ap verdict (rw hi at h)
        | inr hi ↦ ap (λ r. r.0) (first ∙ ap (λ b. then_names (verdict b)) hi)
      ],
    )
