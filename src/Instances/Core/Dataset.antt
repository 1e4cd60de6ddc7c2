-- ===== src/Instances/Core/Dataset.antt =====
-- The core reader over a whole dataset: from one store to the next.
use ml_io.Base.{
  ℕ, ◌+◌, ◌≤◌, ◌≡◌, refl, sym, subst, Option, none, some, List, [], ◌∷◌, ◌++◌, append-nil,
  append_assoc, length, length-append, arith,
}
use ml_io.Action.{ok, Action}
use ml_io.Records.{Record}
use ml_io.Instances.Yields.{Yields, done, more, Yields-step}
use ml_io.Instances.Core.Laws.{
  Pieces, split_records, records_of, Content, whole, holds, at, Read, is_read, group-Read,
  instance_at,
}
use ml_io.Instances.Core.{
  Instance, Source, State, init_next_record_reader, read_loop, read_record, read_record_payload,
  read_instance_core, start,
}

module _ (src : Source) (fuel : ℕ) where
  open src use {Store, RecordReader}

  -- A reader that has no more records, or none at all.
  pub data Exhausted : Option RecordReader → Type 0 where
    no_reader : Exhausted none
    at_end : {rs rs' : RecordReader} → src.read_record rs ≡ (ok none, rs') → Exhausted (some rs)

  loop-next :
      (s : Store) (it : List Store) (st : Option Store) (k m : ℕ) {rs rs' r : RecordReader}
      → src.read_record rs ≡ (ok none, rs')
      → src.make_record_reader s ≡ ok (some r)
      → read_loop src (s ∷ it) (at src fuel (s ∷ it) st (some rs) k m)
        ≡ read_loop src it (at src fuel it (some s) (some r) 0 0)
  unfolding read_loop
  loop-next s it st k m e f = rw (e, f)

  loop-whole :
      (s : Store) (it : List Store) (st : Option Store) (k m : ℕ) {rs rs' : RecordReader}
      → src.read_record rs ≡ (ok none, rs')
      → src.make_record_reader s ≡ ok none
      → read_loop src (s ∷ it) (at src fuel (s ∷ it) st (some rs) k m)
        ≡ (ok none, at src fuel it (some s) none 0 0)
  unfolding read_loop
  loop-whole s it st k m e f = rw (e, f)

  record-next :
      (s : Store) (it : List Store) (st : Option Store) (k m : ℕ) {rd : Option RecordReader}
      {r : RecordReader}
      → Exhausted rd
      → src.make_record_reader s ≡ ok (some r)
      → read_record src (at src fuel (s ∷ it) st rd k m)
        ≡ read_record src (at src fuel it (some s) (some r) 0 0)
  unfolding read_record init_next_record_reader
  record-next s it st k m no_reader f = rw f
  record-next s it st k m (at_end e) f = rw (loop-next s it st k m e f)

  record-whole :
      (s : Store) (it : List Store) (st : Option Store) (k m : ℕ) {rd : Option RecordReader}
      → Exhausted rd
      → src.make_record_reader s ≡ ok none
      → read_record src (at src fuel (s ∷ it) st rd k m)
        ≡ (ok none, at src fuel it (some s) none 0 0)
  unfolding read_record init_next_record_reader
  record-whole s it st k m no_reader f = rw f
  record-whole s it st k m (at_end e) f = rw (loop-whole s it st k m e f)

  pub record-end :
      (st : Option Store) (k m : ℕ) {rd : Option RecordReader}
      → Exhausted rd
      → read_record src (at src fuel [] st rd k m) ≡ (ok none, at src fuel [] none none 0 0)
  unfolding read_record read_loop init_next_record_reader
  record-end st k m no_reader = refl
  record-end st k m (at_end e) = rw e

  pub core-next :
      (s : Store) (it : List Store) (st : Option Store) (k m : ℕ) {rd : Option RecordReader}
      {r : RecordReader}
      → Exhausted rd
      → src.make_record_reader s ≡ ok (some r)
      → read_instance_core src fuel (at src fuel (s ∷ it) st rd k m)
        ≡ read_instance_core src fuel (at src fuel it (some s) (some r) 0 0)
  unfolding read_instance_core read_record_payload
  core-next s it st k m x f = rw (record-next s it st k m x f)

  core-whole :
      (s : Store) (it : List Store) (st : Option Store) (k m : ℕ) {rd : Option RecordReader}
      → Exhausted rd
      → src.make_record_reader s ≡ ok none
      → read_instance_core src fuel (at src fuel (s ∷ it) st rd k m) ≡ (
        ok (some (record { data_store = s; index = 0; bits = none })),
        at src fuel it (some s) none 0 0,
      )
  unfolding read_instance_core read_record_payload
  core-whole s it st k m x f = rw (record-whole s it st k m x f)

  core-end :
      (st : Option Store) (k m : ℕ) {rd : Option RecordReader}
      → Exhausted rd
      → read_instance_core src fuel (at src fuel [] st rd k m)
        ≡ (ok none, at src fuel [] none none 0 0)
  unfolding read_instance_core read_record_payload
  core-end st k m x = rw (record-end st k m x)

  -- The client's factory opens the store, and its reader gives these records.
  pub data Opens (s : Store) : Content → Type 0 where
    opens_whole : src.make_record_reader s ≡ ok none → Opens s whole
    opens_records :
        (r : RecordReader) (gs : List Pieces)
        → src.make_record_reader s ≡ ok (some r)
        → Yields src.read_record r (records_of gs)
        → Opens s (holds gs)

  abbrev pub FitsFuel : List Pieces → Type 0
  FitsFuel [] = Unit {0}
  FitsFuel (g ∷ gs) = (length g.1 ≤ fuel) × FitsFuel gs

  abbrev pub ContentFits : Content → Type 0
  ContentFits whole = Unit {0}
  ContentFits (holds gs) = FitsFuel gs

  abbrev pub AllOpen : List (Store × Content) → Type 0
  AllOpen [] = Unit {0}
  AllOpen ((s, c) ∷ ds) = Opens s c × ContentFits c × AllOpen ds

  abbrev pub stores : List (Store × Content) → List Store
  stores [] = []
  stores ((s, c) ∷ ds) = s ∷ stores ds

  -- The instances of a store are numbered from 0.
  abbrev pub numbered : Store → ℕ → List Pieces → List (Instance Store)
  numbered s k [] = []
  numbered s k (g ∷ gs) = instance_at src fuel s k g ∷ numbered s (k + 1) gs

  abbrev pub instances_in : Store → Content → List (Instance Store)
  instances_in s whole = record { data_store = s; index = 0; bits = none } ∷ []
  instances_in s (holds gs) = numbered s 0 gs

  abbrev pub instances : List (Store × Content) → List (Instance Store)
  instances [] = []
  instances ((s, c) ∷ ds) = instances_in s c ++ instances ds

-- What calls of a reader give from its state on, in a sense that looks at one call after the other.
pub record IsByCalls {S A : Type 0} (read : Action S (Option A)) (P : S → List A → Type 0)
    : Type 0 where
  pub cons : (s t : S) (x : A) (xs : List A) → read s ≡ (ok (some x), t) → P t xs → P s (x ∷ xs)
  pub same : (s t : S) (xs : List A) → read s ≡ read t → P t xs → P s xs

Yields-IsByCalls : {S A : Type 0} (read : Action S (Option A)) → IsByCalls read (Yields read)
Yields-IsByCalls read = record { cons = λ s t x xs. more; same = λ s t xs. Yields-step read }

module _ (src : Source) (fuel : ℕ) (P : State src → List (Instance src.Store) → Type 0)
    (calls : IsByCalls (read_instance_core src fuel) P) where
  open src use {Store, RecordReader}

  step_group :
      (it : List Store) (s : Store) (k m : ℕ) (g : Pieces) {rs : RecordReader} {later : List Record}
      {xs : List (Instance Store)}
      → Read src fuel it s k m rs g later
      → ((rs' : RecordReader) (m' : ℕ)
          → m' ≡ m + length (split_records g)
          → Yields src.read_record rs' later
          → P (at src fuel it (some s) (some rs') (k + 1) m') xs)
      → P (at src fuel it (some s) (some rs) k m) (instance_at src fuel s k g ∷ xs)
  step_group it s k m g (is_read rs' m' c e y) ih = calls.cons _ _ _ _ e (ih rs' m' c y)

  pub by_groups :
      (it : List Store) (s : Store) (gs : List Pieces) (later : List Record) (k m : ℕ)
      (rs : RecordReader) (xs : List (Instance Store))
      → FitsFuel src fuel gs
      → Yields src.read_record rs (records_of gs ++ later)
      → ((rs' : RecordReader) (k' m' : ℕ)
          → m' ≡ m + length (records_of gs)
          → Yields src.read_record rs' later
          → P (at src fuel it (some s) (some rs') k' m') xs)
      → P (at src fuel it (some s) (some rs) k m) (numbered src fuel s k gs ++ xs)
  by_groups it s [] later k m rs xs h y next = next rs k m (omega arith) y
  by_groups it s (g ∷ gs) later k m rs xs h y next =
      step_group it s k m g
        (group-Read src fuel it s k m g h.0 (
          subst (Yields src.read_record rs) (append_assoc (split_records g) (records_of gs) later)
            y))
        (λ rs' m' c z. by_groups it s gs later (k + 1) m' rs' xs h.1 z (λ rs'' k' m'' c' y'.
          next rs'' k' m'' (omega (arith, c, c', length-append (split_records g) (records_of gs)))
            y'))

  pub by_stores :
      (ds : List (Store × Content)) (it : List Store) (xs : List (Instance Store))
      (st : Option Store) (rd : Option RecordReader) (k m : ℕ)
      → Exhausted src fuel rd
      → AllOpen src fuel ds
      → ((st' : Option Store) (rd' : Option RecordReader) (k' m' : ℕ)
          → Exhausted src fuel rd'
          → P (at src fuel it st' rd' k' m') xs)
      → P (at src fuel (stores src fuel ds ++ it) st rd k m) (instances src fuel ds ++ xs)
  by_stores [] it xs st rd k m x h next = next st rd k m x
  by_stores ((s, whole) ∷ ds) it xs st rd k m x (opens_whole f, _, h) next =
      calls.cons _ _ _ _ (core-whole src fuel s (stores src fuel ds ++ it) st k m x f)
        (by_stores ds it xs (some s) none 0 0 no_reader h next)
  by_stores ((s, holds gs) ∷ ds) it xs st rd k m x (opens_records r _ f y, g, h) next =
      calls.same _ _ _ (core-next src fuel s (stores src fuel ds ++ it) st k m x f) (
        subst (P (at src fuel (stores src fuel ds ++ it) (some s) (some r) 0 0))
          (sym (append_assoc (numbered src fuel s 0 gs) (instances src fuel ds) xs))
          (by_groups (stores src fuel ds ++ it) s gs [] 0 0 r (instances src fuel ds ++ xs) g
            (subst (Yields src.read_record r) (sym (append-nil (records_of gs))) y)
            (λ rs' k' m' c y'. by_stores ds it xs (some s) (some rs') k' m' (exhausted y') h next)))
    where
      exhausted : {rs : RecordReader} → Yields src.read_record rs [] → Exhausted src fuel (some rs)
      exhausted (done e f) = at_end e

module _ (src : Source) (fuel : ℕ) where
  open src use {Store, RecordReader}

  -- Where every store opens, either as a whole or with a reader of the records of its payloads,
  -- none in more pieces than the bound allows, the reader delivers the instances of all stores in
  -- order, numbered within each store: the joined payloads of a store that holds records, and the
  -- store itself where it has no reader.
  pub instances-Yields :
      (ds : List (Store × Content))
      → AllOpen src fuel ds
      → Yields
          (read_instance_core src fuel)
          (start src (stores src fuel ds))
          (instances src fuel ds)
  instances-Yields ds h =
      let whole_dataset =
        by_stores src fuel (Yields (read_instance_core src fuel)) (Yields-IsByCalls _) ds [] [] none
          none 0 0 no_reader h
          (λ st rd k m x.
            done (core-end src fuel st k m x) (core-end src fuel none 0 0 no_reader)) in
      subst (λ it. Yields (read_instance_core src fuel) (start src it) (instances src fuel ds))
        (append-nil (stores src fuel ds))
        (subst (Yields (read_instance_core src fuel) (start src (stores src fuel ds ++ [])))
          (append-nil (instances src fuel ds)) whole_dataset)
