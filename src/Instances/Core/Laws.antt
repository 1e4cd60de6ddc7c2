-- ===== src/Instances/Core/Laws.antt =====
-- core_instance_reader.cc: instances from the records of one store.
use ml_io.Base.{
  ℕ, zero, suc, ◌+◌, ◌≤◌, ◌<◌, ◌≡◌, refl, ap, ◌∙◌, false, Option, some, List, [], ◌∷◌, ◌++◌,
  append_assoc, append-nil, length, Bytes, arith,
}
use ml_io.Action.{ok}
use ml_io.Records.{RecordKind, complete, begin, middle, end, Record}
use ml_io.Instances.Yields.{Yields, more}
use ml_io.Instances.Core.{
  Instance, Source, State, read_loop, read_record, read_split_rest, read_record_payload,
  read_instance_core,
}

-- The payload of an instance in pieces: a first one, and those that follow it.
abbrev pub Pieces : Type 0
Pieces = Bytes × List Bytes

abbrev pub flat : List Bytes → Bytes
flat [] = []
flat (p ∷ ps) = p ++ flat ps

abbrev pub joined : Pieces → Bytes
joined (p, ps) = p ++ flat ps

abbrev pub record_of : RecordKind → Bytes → Record
record_of k p = record { payload = p; kind = k }

-- The last record is an end record, all before it are middle records.
abbrev pub split_tail : Bytes → List Bytes → List Record
split_tail p [] = record_of end p ∷ []
split_tail p (q ∷ qs) = record_of middle p ∷ split_tail q qs

length-split_tail : (q : Bytes) (qs : List Bytes) → length (split_tail q qs) ≡ suc (length qs)
length-split_tail q [] = refl
length-split_tail q (r ∷ qs) = ap suc (length-split_tail r qs)

-- The records that a payload in pieces is written as.
abbrev pub split_records : Pieces → List Record
split_records (p, []) = record_of complete p ∷ []
split_records (p, q ∷ qs) = record_of begin p ∷ split_tail q qs

abbrev pub records_of : List Pieces → List Record
records_of [] = []
records_of (g ∷ gs) = split_records g ++ records_of gs

pub data Content : Type 0 where
  whole : Content
  holds : List Pieces → Content

module _ (src : Source) (fuel : ℕ) where
  open src use {Store, RecordReader}

  abbrev pub at : List Store → Option Store → Option RecordReader → ℕ → ℕ → State src
  at it st rd k m = record {
    store_iter = it;
    store = st;
    record_reader = rd;
    instance_idx = k;
    record_idx = m;
    has_corrupt_split_record = false;
  }

  loop-some :
      (it : List Store) (st : Option Store) (k m : ℕ) {rs rs' : RecordReader} {r : Record}
      → src.read_record rs ≡ (ok (some r), rs')
      → read_loop src it (at it st (some rs) k m) ≡ (ok (some r), at it st (some rs') k m)
  unfolding read_loop
  loop-some [] st k m e = rw e
  loop-some (x ∷ it) st k m e = rw e

  pub record-some :
      (it : List Store) (st : Option Store) (k m : ℕ) {rs rs' : RecordReader} {r : Record}
      → src.read_record rs ≡ (ok (some r), rs')
      → read_record src (at it st (some rs) k m) ≡ (ok (some r), at it st (some rs') k (m + 1))
  unfolding read_record
  record-some it st k m e = rw (loop-some it st k m e)

  -- The middle and end records of one payload, behind those that are joined already.
  data Joined (it : List Store) (st : Option Store) (k m n : ℕ) (rs : RecordReader) (p q : Bytes)
      (later : List Record) (count : ℕ) : Type 0 where
    is_joined :
        (rs' : RecordReader) (m' : ℕ)
        → m' ≡ m + count
        → read_split_rest src n p (at it st (some rs) k m)
          ≡ (ok (some (p ++ q)), at it st (some rs') k m')
        → Yields src.read_record rs' later
        → Joined it st k m n rs p q later count

  Joined-middle :
      (it : List Store) (st : Option Store) (k m n : ℕ) {rs rs' : RecordReader} (p q r : Bytes)
      {later : List Record} {count : ℕ}
      → src.read_record rs ≡ (ok (some (record_of middle q)), rs')
      → Joined it st k (m + 1) n rs' (p ++ q) r later count
      → Joined it st k m (suc n) rs p (q ++ r) later (suc count)
  unfolding read_split_rest
  Joined-middle it st k m n p q r e (is_joined rs' m' c f y) =
      is_joined rs' m' (omega arith) (rw (record-some it st k m e) (f ∙ rw append_assoc)) y

  split_rest-Joined :
      (it : List Store) (st : Option Store) (k m n : ℕ) {rs : RecordReader} (p q : Bytes)
      (qs : List Bytes) {later : List Record}
      → length qs < n
      → Yields src.read_record rs (split_tail q qs ++ later)
      → Joined it st k m n rs p (q ++ flat qs) later (suc (length qs))
  unfolding read_split_rest
  split_rest-Joined it st k m zero p q qs h y = absurd (omega arith)
  split_rest-Joined it st k m (suc n) p q [] h (more {t = rs'} e y) =
      is_joined rs' (m + 1) refl (rw (record-some it st k m e, append-nil)) y
  split_rest-Joined it st k m (suc n) p q (r ∷ qs) h (more {t = rs'} e y) =
      Joined-middle it st k m n p q (r ++ flat qs) e
        (split_rest-Joined it st k (m + 1) n (p ++ q) r qs (omega arith) y)

  abbrev pub instance_at : Store → ℕ → Pieces → Instance Store
  instance_at s k g = record { data_store = s; index = k; bits = some (joined g) }

  -- One instance from a running store.
  pub data Read (it : List Store) (s : Store) (k m : ℕ) (rs : RecordReader) (g : Pieces)
      (later : List Record) : Type 0 where
    is_read :
        (rs' : RecordReader) (m' : ℕ)
        → m' ≡ m + length (split_records g)
        → read_instance_core src fuel (at it (some s) (some rs) k m)
          ≡ (ok (some (instance_at s k g)), at it (some s) (some rs') (k + 1) m')
        → Yields src.read_record rs' later
        → Read it s k m rs g later

  Joined-Read :
      (it : List Store) (s : Store) (k m : ℕ) {rs rs' : RecordReader} (p q : Bytes)
      (qs : List Bytes) {later : List Record}
      → src.read_record rs ≡ (ok (some (record_of begin p)), rs')
      → Joined it (some s) k (m + 1) fuel rs' p (q ++ flat qs) later (suc (length qs))
      → Read it s k m rs (p, q ∷ qs) later
  unfolding read_instance_core read_record_payload
  Joined-Read it s k m p q qs e (is_joined u m' c f y) =
      is_read u m' (omega (arith, c, length-split_tail q qs))
        (rw (record-some it (some s) k m e, f)) y

  pub group-Read :
      (it : List Store) (s : Store) (k m : ℕ) {rs : RecordReader} (g : Pieces) {later : List Record}
      → length g.1 ≤ fuel
      → Yields src.read_record rs (split_records g ++ later)
      → Read it s k m rs g later
  unfolding read_instance_core read_record_payload
  group-Read it s k m (p, []) h (more {t = rs'} e y) =
      is_read rs' (m + 1) refl (rw (record-some it (some s) k m e, append-nil)) y
  group-Read it s k m (p, q ∷ qs) h (more {t = rs'} e y) =
      Joined-Read it s k m p q qs e
        (split_rest-Joined it (some s) k (m + 1) fuel p q qs (omega arith) y)
