-- ===== src/Instances/Core.antt =====
-- core_instance_reader.cc: reads records store by store and joins split records to instances.
pub mod Laws
pub mod Dataset
pub mod Faults
use ml_io.Base.{
  ℕ, zero, suc, ◌+◌, Bool, true, false, Option, none, some, List, [], ◌∷◌, ◌++◌, if◌then◌else◌,
  Bytes,
}
use ml_io.Action.{
  ReaderFault, record_too_large_at, record_corrupt_at, store_corrupt, store_unreadable,
  store_system_error, store_missing, store_denied, Error, record_too_large, corrupt_record,
  corrupt_header, stream_error, not_supported, no_such_file, permission_denied, other_system_error,
  data_reader_error, undefined_behaviour, out_of_fuel, Result, ok, err, Action, ◌>>=◌, ◌>>◌, pure,
  throw, get, modify,
}
use ml_io.Records.{complete, begin, middle, end, Record}

pub record Instance (Store : Type 0) : Type 0 where
  pub data_store : Store
  pub index : ℕ
  -- Without bits the whole store is the instance.
  pub bits : Option Bytes

-- The factory and the record readers are the client's; a factory may give no reader, for a store
-- that is one instance.
pub record Source : Type 1 where
  pub Store : Type 0
  pub RecordReader : Type 0
  pub make_record_reader : Store → Result (Option RecordReader)
  pub read_record : Action RecordReader (Option Record)

pub record State (src : Source) : Type 0 where
  pub store_iter : List src.Store
  pub store : Option src.Store
  pub record_reader : Option src.RecordReader
  pub instance_idx : ℕ
  pub record_idx : ℕ
  pub has_corrupt_split_record : Bool

abbrev open_error : Error → Error
open_error no_such_file = data_reader_error store_missing
open_error permission_denied = data_reader_error store_denied
open_error e = e

-- A message names the store; at the end of the dataset, where a split record may be cut, there is
-- none, and `store_->id()` goes through a null pointer.
abbrev name_store : {Store : Type 0} → Option Store → ReaderFault → Error
name_store none fault = undefined_behaviour
name_store (some st) fault = data_reader_error fault

-- `handle_errors`; a corrupt header is a corrupt record. What no `catch` names goes on as it is.
pub handle_errors : {Store : Type 0} → Option Store → ℕ → Error → Error
handle_errors st record_idx record_too_large = name_store st (record_too_large_at record_idx)
handle_errors st record_idx corrupt_record = name_store st (record_corrupt_at record_idx)
handle_errors st record_idx corrupt_header = name_store st (record_corrupt_at record_idx)
handle_errors st record_idx stream_error = name_store st store_corrupt
handle_errors st record_idx not_supported = name_store st store_unreadable
handle_errors st record_idx no_such_file = name_store st store_system_error
handle_errors st record_idx permission_denied = name_store st store_system_error
handle_errors st record_idx other_system_error = name_store st store_system_error
handle_errors st record_idx e = e

module _ (src : Source) where
  open src use {Store, RecordReader}

  abbrev is_reader : Option RecordReader → Bool
  is_reader none = false
  is_reader (some r) = true

  -- The iterator moves on only when the factory has returned.
  abbrev open_store :
      Store → List Store → State src → Result (Option RecordReader) → Result Bool × State src
  open_store st rest s (err e) = (err (open_error e), record s { store = some st })
  open_store st rest s (ok r) =
      (ok (is_reader r), record s { store = some st; record_reader = r; store_iter = rest })

  abbrev next_store : List Store → Action (State src) Bool
  next_store [] s = (ok false, record s { store = none; record_reader = none })
  next_store (st ∷ rest) s = open_store st rest s (src.make_record_reader st)

  pub init_next_record_reader : Action (State src) Bool
  init_next_record_reader s =
      next_store s.store_iter (record s { instance_idx = 0; record_idx = 0 })

  abbrev put_reader {ℓ} : {B : Type ℓ} → State src → Result B × RecordReader → Result B × State src
  put_reader s (r, rs) = (r, record s { record_reader = some rs })

  -- A call through a null pointer is undefined.
  abbrev read_current : Action (State src) (Option Record)
  read_current s = elim s.record_reader [
    | none ↦ (err undefined_behaviour, s)
    | some rs ↦ put_reader s (src.read_record rs)
  ]

  -- The `while` loop, by the stores that are left: each round but the last opens one.
  pub read_loop : List Store → Action (State src) (Option Record)
  unfolding init_next_record_reader
  read_loop [] = do
    r ← read_current
    elim r [ some x ↦ pure (some x) | none ↦ (init_next_record_reader >>= λ _. pure none) ]
  read_loop (st ∷ rest) = do
    r ← read_current
    elim r [
      | some x ↦ pure (some x)
      | none ↦ (do more ← init_next_record_reader; if more then read_loop rest else pure none)
    ]

  abbrev count_record : Option Record → Action (State src) (Option Record)
  count_record none = pure none
  count_record (some r) = do modify λ s. record s { record_idx = s.record_idx + 1 }; pure (some r)

  abbrev ensure_reader : Action (State src) Bool
  ensure_reader s = elim s.record_reader [
    | none ↦ init_next_record_reader s
    | some r ↦ (ok true, s)
  ]

  pub read_record : Action (State src) (Option Record)
  unfolding read_loop
  read_record = do
    ready ← ensure_reader
    s ← get
    if ready then (read_loop s.store_iter >>= count_record) else pure none

  pub throw_corrupt_split_record_error : {A : Type 0} → Action (State src) A
  throw_corrupt_split_record_error s =
      (err corrupt_record, record s { has_corrupt_split_record = true })

  -- The loop over the middle records and the check of the last, by a bound on their number.
  pub read_split_rest : ℕ → Bytes → Action (State src) (Option Bytes)
  unfolding throw_corrupt_split_record_error
  read_split_rest zero payload = throw out_of_fuel
  read_split_rest (suc fuel) payload = do
    r ← read_record
    elim r [
      | none ↦ throw_corrupt_split_record_error
      | some x ↦ elim x.kind [
        | middle ↦ read_split_rest fuel (payload ++ x.payload)
        | end ↦ pure (some (payload ++ x.payload))
        | _ ↦ throw_corrupt_split_record_error
      ]
    ]

  pub read_record_payload : ℕ → Action (State src) (Option Bytes)
  unfolding throw_corrupt_split_record_error
  read_record_payload fuel s =
      if s.has_corrupt_split_record
      then throw_corrupt_split_record_error s
      else ◌>>=◌ read_record
          (λ r. elim r [
            | none ↦ pure none
            | some x ↦ elim x.kind [
              | complete ↦ pure (some x.payload)
              | begin ↦ read_split_rest fuel x.payload
              | _ ↦ throw_corrupt_split_record_error
            ]
          ])
          s

  abbrev whole_store : State src → Option Store → Result (Option (Instance Store)) × State src
  whole_store s none = (ok none, s)
  whole_store s (some st) = (ok (some (record { data_store = st; index = 0; bits = none })), s)

  abbrev record_instance :
      State src → Bytes → Option Store → Result (Option (Instance Store)) × State src
  record_instance s payload none = (err undefined_behaviour, s)
  record_instance s payload (some st) = (
    ok (some (record { data_store = st; index = s.instance_idx; bits = some payload })),
    record s { instance_idx = s.instance_idx + 1 },
  )

  abbrev make_instance :
      Result (Option Bytes) × State src → Result (Option (Instance Store)) × State src
  make_instance (err e, s) = (err (handle_errors s.store s.record_idx e), s)
  make_instance (ok none, s) = whole_store s s.store
  make_instance (ok (some payload), s) = record_instance s payload s.store

  pub read_instance_core : ℕ → Action (State src) (Option (Instance Store))
  unfolding handle_errors
  read_instance_core fuel s = make_instance (read_record_payload fuel s)

  abbrev pub start : List Store → State src
  start dataset = record {
    store_iter = dataset;
    store = none;
    record_reader = none;
    instance_idx = 0;
    record_idx = 0;
    has_corrupt_split_record = false;
  }

  pub reset_core : List Store → State src → State src
  reset_core dataset s = record s {
    store_iter = dataset;
    store = none;
    record_reader = none;
    instance_idx = 0;
    record_idx = 0;
    has_corrupt_split_record = false;
  }
