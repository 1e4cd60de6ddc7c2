-- ===== src/Csv/Columns/Names.antt =====
-- csv_reader.cc: the loop that looks for a free column name finds one.
use mathlib.Core.Bool.{true≢false}
use ml_io.Base.{
  ℕ, zero, suc, ◌+◌, ◌≤◌, ◌<◌, ◌≡◌, refl, sym, ap, ◌∙◌, true, false, Option, none, some, List, [],
  ◌∷◌, ◌++◌, append-nil, append_assoc, length, length-append, Bool-cases, Option-cases, inl, inr,
  Bytes, arith,
}
use ml_io.Base.Keys.{
  contains, keys, lookup, update, bytes_eq, same, same→eq, lookup-none, lookup-contains,
  keys-update,
}
use ml_io.Csv.Columns.{longest, insert_name}

contains-longest : (k : Bytes) (ks : List Bytes) → contains k ks ≡ true → length k ≤ longest ks
contains-longest k [] h = absurd (true≢false (sym h))
contains-longest k (x ∷ ks) h = elim (Bool-cases (same k x)) [
  | inl s ↦ omega (arith, ap (λ z. length z) (same→eq k x s))
  | inr s ↦ omega (arith, contains-longest k ks (rw s at h))
]

abbrev pub Extends : Bytes → Bytes → Type 0
Extends name free = (suffix : Bytes) × (free ≡ name ++ suffix)

-- A free name was found: it is new, and is now in the map.
pub record Found (name : Bytes) (counts : List (Bytes × ℕ)) (o : Option (Bytes × List (Bytes × ℕ)))
    : Type 0 where
  pub free : Bytes
  pub counts' : List (Bytes × ℕ)
  pub found : o ≡ some (free, counts')
  pub fresh : contains free (keys counts) ≡ false
  pub entered : keys counts' ≡ free ∷ keys counts
  pub extends : Extends name free

module _ (to_string : ℕ → Bytes) where
  abbrev next_name : Bytes → ℕ → Bytes
  next_name name n = name ++ b'_' ∷ to_string n

  new-Found :
      (f : ℕ) (name : Bytes) (counts : List (Bytes × ℕ))
      → lookup name counts ≡ none
      → Found name counts (insert_name to_string (suc f) name counts)
  unfolding insert_name
  new-Found f name counts new = record {
    free = name;
    counts' = (name, 1) ∷ counts;
    found = ground (arith, new);
    fresh = lookup-none name counts new;
    entered = refl;
    extends = ([], sym (append-nil name));
  }

  old-Found :
      (f n : ℕ) (name : Bytes) (counts : List (Bytes × ℕ))
      → lookup name counts ≡ some n
      → Found
          (next_name name n)
          (update name (n + 1) counts)
          (insert_name to_string f (next_name name n) (update name (n + 1) counts))
      → Found name counts (insert_name to_string (suc f) name counts)
  unfolding insert_name
  old-Found f n name counts old h =
      let (suffix, e) = h.extends in
      let same_keys = keys-update name (n + 1) counts in
      record {
        free = h.free;
        counts' = h.counts';
        found = ground (arith, old, h.found);
        fresh = ap (contains h.free) (sym same_keys) ∙ h.fresh;
        entered = h.entered ∙ ap (λ ks. h.free ∷ ks) same_keys;
        extends = (b'_' ∷ to_string n ++ suffix, e ∙ append_assoc name (b'_' ∷ to_string n) suffix);
      }

  pub insert_name-Found :
      (f : ℕ) (name : Bytes) (counts : List (Bytes × ℕ))
      → longest (keys counts) < length name + f
      → Found name counts (insert_name to_string (suc f) name counts)
  insert_name-Found zero name counts l = elim (Option-cases (lookup name counts)) [
    | inl new ↦ new-Found 0 name counts new
    | inr (n, old) ↦
        let short = contains-longest name (keys counts) (lookup-contains name n counts old) in
        absurd (omega arith)
  ]
  insert_name-Found (suc f) name counts l = elim (Option-cases (lookup name counts)) [
    | inl new ↦ new-Found (suc f) name counts new
    | inr (n, old) ↦ old-Found (suc f) n name counts old (
        insert_name-Found f (next_name name n) (update name (n + 1) counts) (
          omega (
            arith,
            ap longest (keys-update name (n + 1) counts),
            length-append name (b'_' ∷ to_string n),
          )))
  ]
