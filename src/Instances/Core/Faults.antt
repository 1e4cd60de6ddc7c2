-- ===== src/Instances/Core/Faults.antt =====
-- What the core reader does with records that do not make up instances.
use ml_io.Base.{
  ℕ, zero, suc, ◌+◌, ◌≤◌, ◌≡◌, refl, subst, ◌∙◌, true, Option, none, some, List, [], ◌∷◌, ◌++◌,
  append-nil, length, Bytes, arith,
}
use ml_io.Action.{
  data_reader_error, record_corrupt_at, corrupt_record, Error, undefined_behaviour, ok, err, Action,
}
use ml_io.Records.{RecordKind, complete, begin, middle, end, unnamed, Record}
use ml_io.Instances.Yields.{Yields, more}
use ml_io.Instances.Core.{
  Source, State, read_split_rest, handle_errors, read_record_payload,
  throw_corrupt_split_record_error, read_instance_core, start,
}
use ml_io.Instances.Core.Laws.{Pieces, records_of, Content, at, record_of, record-some}
use ml_io.Instances.Core.Dataset.{
  IsByCalls, AllOpen, FitsFuel, stores, instances, numbered, no_reader, at_end, record-end,
  core-next, by_groups, by_stores,
}

-- Repeated calls return the items of the list, then every call throws the error.
pub data Fails {S A : Type 0} (read : Action S (Option A)) (e : Error) : S → List A → Type 0 where
  fails : {s t : S} → read s ≡ (err e, t) → read t ≡ (err e, t) → Fails read e s []
  gives :
      {s t : S} {x : A} {xs : List A}
      → read s ≡ (ok (some x), t)
      → Fails read e t xs
      → Fails read e s (x ∷ xs)

Fails-same :
    {S A : Type 0} (read : Action S (Option A)) (e : Error) (s t : S) (xs : List A)
    → read s ≡ read t
    → Fails read e t xs
    → Fails read e s xs
Fails-same read e s t xs p (fails f g) = fails (p ∙ f) g
Fails-same read e s t xs p (gives f g) = gives (p ∙ f) g

Fails-IsByCalls :
    {S A : Type 0} (read : Action S (Option A)) (e : Error) → IsByCalls read (Fails read e)
Fails-IsByCalls read e = record { cons = λ s t x xs. gives; same = Fails-same read e }

-- No record of an instance starts so, and none goes on so.
abbrev pub CannotBegin : RecordKind → Type 0
CannotBegin complete = ⊥
CannotBegin begin = ⊥
CannotBegin _ = Unit {0}

abbrev pub CannotContinue : RecordKind → Type 0
CannotContinue middle = ⊥
CannotContinue end = ⊥
CannotContinue _ = Unit {0}

-- Behind a record that begins an instance: as many records, of which the last one is wrong.
pub data BrokenRest : List Record → ℕ → Type 0 where
  wrong_rest :
      {rs : List Record} (k : RecordKind) (q : Bytes)
      → CannotContinue k
      → BrokenRest (record_of k q ∷ rs) 1
  behind_middle :
      {rs : List Record} {n : ℕ} (q : Bytes)
      → BrokenRest rs n
      → BrokenRest (record_of middle q ∷ rs) (suc n)

-- Records of which as many are no instance, the last one of these being wrong.
pub data Broken : List Record → ℕ → Type 0 where
  wrong_first :
      {rs : List Record} (k : RecordKind) (p : Bytes)
      → CannotBegin k
      → Broken (record_of k p ∷ rs) 1
  behind_begin :
      {rs : List Record} {n : ℕ} (p : Bytes)
      → BrokenRest rs n
      → Broken (record_of begin p ∷ rs) (suc n)

module _ (src : Source) (size : ℕ) where
  open src use {Store, RecordReader}

  -- The state behind records that were found corrupt.
  abbrev corrupt_at : List Store → Store → RecordReader → ℕ → ℕ → State src
  corrupt_at it s rs k m = record (at src size it (some s) (some rs) k m) {
    has_corrupt_split_record = true;
  }

  abbrev corrupt_error : ℕ → Error
  corrupt_error m = data_reader_error (record_corrupt_at m)

  -- Once a split record was found corrupt every call throws, and nothing changes.
  stays_corrupt :
      (it : List Store) (s : Store) (rs : RecordReader) (k m : ℕ)
      → read_instance_core src size (corrupt_at it s rs k m)
        ≡ (err (corrupt_error m), corrupt_at it s rs k m)
  unfolding read_instance_core read_record_payload throw_corrupt_split_record_error handle_errors
  stays_corrupt it s rs k m = refl

  -- The rest of the split record is found corrupt.
  record FoundRest (it : List Store) (s : Store) (k m n fuel : ℕ) (rs : RecordReader) (p : Bytes)
      : Type 0 where
    left : RecordReader
    number : ℕ
    counted : number ≡ m + n
    found :
        read_split_rest src fuel p (at src size it (some s) (some rs) k m)
        ≡ (err corrupt_record, corrupt_at it s left k number)

  wrong_rest-FoundRest :
      (it : List Store) (s : Store) (k m fuel : ℕ) {rs rs' : RecordReader} (p : Bytes)
      (kind : RecordKind) (q : Bytes)
      → CannotContinue kind
      → src.read_record rs ≡ (ok (some (record_of kind q)), rs')
      → FoundRest it s k m 1 (suc fuel) rs p
  unfolding read_split_rest throw_corrupt_split_record_error
  wrong_rest-FoundRest it s k m fuel {rs' = u} p complete q c e = record {
    left = u;
    number = m + 1;
    counted = refl;
    found = rw (record-some src size it (some s) k m e) refl;
  }
  wrong_rest-FoundRest it s k m fuel {rs' = u} p begin q c e = record {
    left = u;
    number = m + 1;
    counted = refl;
    found = rw (record-some src size it (some s) k m e) refl;
  }
  wrong_rest-FoundRest it s k m fuel {rs' = u} p (unnamed j) q c e = record {
    left = u;
    number = m + 1;
    counted = refl;
    found = rw (record-some src size it (some s) k m e) refl;
  }
  wrong_rest-FoundRest it s k m fuel p middle q c e = absurd c
  wrong_rest-FoundRest it s k m fuel p end q c e = absurd c

  behind_middle-FoundRest :
      (it : List Store) (s : Store) (k m n fuel : ℕ) {rs rs' : RecordReader} (p q : Bytes)
      → src.read_record rs ≡ (ok (some (record_of middle q)), rs')
      → FoundRest it s k (m + 1) n fuel rs' (p ++ q)
      → FoundRest it s k m (suc n) (suc fuel) rs p
  unfolding read_split_rest
  behind_middle-FoundRest it s k m n fuel p q e h = record {
    left = h.left;
    number = h.number;
    counted = omega (arith, h.counted);
    found = rw (record-some src size it (some s) k m e) h.found;
  }

  BrokenRest-FoundRest :
      (it : List Store) (s : Store) (k m fuel : ℕ) {n : ℕ} {rs : RecordReader} (p : Bytes)
      {later : List Record}
      → BrokenRest later n
      → n ≤ fuel
      → Yields src.read_record rs later
      → FoundRest it s k m n fuel rs p
  BrokenRest-FoundRest it s k m zero p (wrong_rest kind q c) l y = absurd (omega arith)
  BrokenRest-FoundRest it s k m zero p (behind_middle q b) l y = absurd (omega arith)
  BrokenRest-FoundRest it s k m (suc fuel) p (wrong_rest kind q c) l (more e y) =
      wrong_rest-FoundRest it s k m fuel p kind q c e
  BrokenRest-FoundRest it s k m (suc fuel) p (behind_middle {n = n} q b) l (more e y) =
      behind_middle-FoundRest it s k m n fuel p q e
        (BrokenRest-FoundRest it s k (m + 1) fuel (p ++ q) b (omega arith) y)

  record Found (it : List Store) (s : Store) (k m n : ℕ) (rs : RecordReader) : Type 0 where
    left : RecordReader
    found :
        read_instance_core src size (at src size it (some s) (some rs) k m)
        ≡ (err (corrupt_error (m + n)), corrupt_at it s left k (m + n))

  wrong_first-Found :
      (it : List Store) (s : Store) (k m : ℕ) {rs rs' : RecordReader} (kind : RecordKind)
      (p : Bytes)
      → CannotBegin kind
      → src.read_record rs ≡ (ok (some (record_of kind p)), rs')
      → Found it s k m 1 rs
  unfolding read_instance_core read_record_payload throw_corrupt_split_record_error handle_errors
  wrong_first-Found it s k m {rs' = u} middle p c e = record {
    left = u;
    found = rw (record-some src size it (some s) k m e) refl;
  }
  wrong_first-Found it s k m {rs' = u} end p c e = record {
    left = u;
    found = rw (record-some src size it (some s) k m e) refl;
  }
  wrong_first-Found it s k m {rs' = u} (unnamed j) p c e = record {
    left = u;
    found = rw (record-some src size it (some s) k m e) refl;
  }
  wrong_first-Found it s k m complete p c e = absurd c
  wrong_first-Found it s k m begin p c e = absurd c

  behind_begin-Found :
      (it : List Store) (s : Store) (k m n : ℕ) {rs rs' : RecordReader} (p : Bytes)
      → src.read_record rs ≡ (ok (some (record_of begin p)), rs')
      → FoundRest it s k (m + 1) n size rs' p
      → Found it s k m (suc n) rs
  unfolding read_instance_core read_record_payload handle_errors
  behind_begin-Found it s k m n {rs} p e h =
      let c : h.number ≡ m + suc n = omega (arith, h.counted) in
      record {
        left = h.left;
        found =
            subst
              (λ i.
                read_instance_core src size (at src size it (some s) (some rs) k m)
                ≡ (err (corrupt_error i), corrupt_at it s h.left k i))
              c (rw (record-some src size it (some s) k m e, h.found) refl);
      }

  Broken-Found :
      (it : List Store) (s : Store) (k m : ℕ) {n : ℕ} {rs : RecordReader} {later : List Record}
      → Broken later n
      → n ≤ suc size
      → Yields src.read_record rs later
      → Found it s k m n rs
  Broken-Found it s k m (wrong_first kind p c) l (more e y) = wrong_first-Found it s k m kind p c e
  Broken-Found it s k m (behind_begin {n = n} p b) l (more e y) =
      behind_begin-Found it s k m n p e
        (BrokenRest-FoundRest it s k (m + 1) size p b (omega arith) y)

  Found-Fails :
      (it : List Store) (s : Store) (k m n : ℕ) (rs : RecordReader)
      → Found it s k m n rs
      → Fails
          (read_instance_core src size)
          (corrupt_error (m + n))
          (at src size it (some s) (some rs) k m)
          []
  Found-Fails it s k m n rs h = fails h.found (stays_corrupt it s h.left k (m + n))

  -- Where some stores open and one behind them gives the records of its payloads and then records
  -- that are no instance, the reader delivers the instances of the stores and of these payloads, and
  -- then every call throws that the record is corrupt, with its number in its store: the records in
  -- front of it count, of the payloads and of its own instance, and it itself. The bound is not
  -- below the pieces of a payload, nor, by more than one, below the records of the wrong instance.
  pub Broken-Fails :
      (ds : List (Store × Content)) (it : List Store) (s : Store) (r : RecordReader)
      (gs : List Pieces) (later : List Record) (n : ℕ)
      → AllOpen src size ds
      → src.make_record_reader s ≡ ok (some r)
      → FitsFuel src size gs
      → Broken later n
      → n ≤ suc size
      → Yields src.read_record r (records_of gs ++ later)
      → Fails
          (read_instance_core src size)
          (data_reader_error (record_corrupt_at (length (records_of gs) + n)))
          (start src (stores src size ds ++ s ∷ it))
          (instances src size ds ++ numbered src size s 0 gs)
  Broken-Fails ds it s r gs later n h f g b l y =
      let calls =
        Fails-IsByCalls (read_instance_core src size)
          (corrupt_error (length (records_of gs) + n)) in
      by_stores src size _ calls ds (s ∷ it) (numbered src size s 0 gs) none none 0 0 no_reader h
        (λ st rd k m x. calls.same _ _ _ (core-next src size s it st k m x f) (
          subst (Fails (read_instance_core src size) _ (at src size it (some s) (some r) 0 0))
            (append-nil (numbered src size s 0 gs))
            (by_groups src size _ calls it s gs later 0 0 r [] g y (λ rs' k' m' c y'.
              subst
                (λ i.
                  Fails (read_instance_core src size) (corrupt_error i)
                    (at src size it (some s) (some rs') k' m') [])
                (omega (arith, c))
                (Found-Fails it s k' m' n rs' (Broken-Found it s k' m' b l y'))))))

  -- Where the dataset ends behind a record that begins a split record, the error handler looks for
  -- the name of a store through a null pointer.
  cut_record :
      (fuel : ℕ) (s : Store) (k m : ℕ) {rs rs₁ rs₂ : RecordReader} (p : Bytes)
      → src.read_record rs ≡ (ok (some (record_of begin p)), rs₁)
      → src.read_record rs₁ ≡ (ok none, rs₂)
      → (read_instance_core src (suc fuel) (at src size [] (some s) (some rs) k m)).0
        ≡ err undefined_behaviour
  unfolding read_instance_core read_record_payload read_split_rest throw_corrupt_split_record_error
      handle_errors
  cut_record fuel s k m p e f =
      rw (record-some src size [] (some s) k m e, record-end src size (some s) k (m + 1) (at_end f))
        refl
