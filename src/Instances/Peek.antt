-- ===== src/Instances/Peek.antt =====
-- `read_instance` and `peek_instance` of instance_reader_base.cc, and the like pairs
-- `read_record`/`peek_record` of record_reader_base.cc and `read_example`/`peek_example` of
-- data_reader_base.cc: one code, over the hook that a subclass provides.
use ml_io.Base.{Option, none, some, List, [], ◌∷◌, ◌≡◌, arith}
use ml_io.Action.{Result, ok, err, Action}
use ml_io.Instances.Yields.{Yields, done, more}

-- The base class's member beside the subclass's state.
pub record Peekable (S A : Type 0) : Type 0 where
  pub peeked : Option A
  pub core : S

module _ {S A : Type 0} where
  -- The hook's outcome, with the peeked item left as it is.
  abbrev on_core : Option A → Result (Option A) × S → Result (Option A) × Peekable S A
  on_core p (r, s) = (r, record { peeked = p; core = s })

  -- A peeked item is stored; `none` and an exception store nothing.
  abbrev keep_peeked : Result (Option A) × S → Result (Option A) × Peekable S A
  keep_peeked (ok o, s) = (ok o, record { peeked = o; core = s })
  keep_peeked (err e, s) = (err e, record { peeked = none; core = s })

  abbrev pub read_item : Action S (Option A) → Action (Peekable S A) (Option A)
  read_item hook s = elim s.peeked [
    | some x ↦ (ok (some x), record { peeked = none; core = s.core })
    | none ↦ on_core none (hook s.core)
  ]

  abbrev pub peek_item : Action S (Option A) → Action (Peekable S A) (Option A)
  peek_item hook s = elim s.peeked [ some x ↦ (ok (some x), s) | none ↦ keep_peeked (hook s.core) ]

  unfoldable pub read_instance : Action S (Option A) → Action (Peekable S A) (Option A)
  read_instance = read_item

  unfoldable pub peek_instance : Action S (Option A) → Action (Peekable S A) (Option A)
  peek_instance = peek_item

  unfoldable pub reset : (S → S) → Peekable S A → Peekable S A
  reset reset_core s = record { peeked = none; core = reset_core s.core }

  unfoldable pub read_record : Action S (Option A) → Action (Peekable S A) (Option A)
  read_record = read_item

  unfoldable pub peek_record : Action S (Option A) → Action (Peekable S A) (Option A)
  peek_record = peek_item

  abbrev pub fresh : S → Peekable S A
  fresh s = record { peeked = none; core = s }

abbrev pub head_of {ℓ} : {A : Type ℓ} → List A → Option A
head_of [] = none
head_of (x ∷ xs) = some x

module _ {S A : Type 0} (hook : Action S (Option A)) where
  -- The base class hands on what the hook delivers.
  pub Yields-read_instance :
      {s : S} {xs : List A} → Yields hook s xs → Yields (read_instance hook) (fresh s) xs
  unfolding read_instance
  Yields-read_instance (done {t = t} e f) = done {t = fresh t} (ground arith) (ground arith)
  Yields-read_instance (more {t = t} e y) =
      more {t = fresh t} (ground arith) (Yields-read_instance y)

  peek-Yields_at :
      (p : Option A) (c : S) {xs : List A}
      → Yields (read_instance hook) (record { peeked = p; core = c }) xs
      → (t : Peekable S A) × (peek_instance hook (record { peeked = p; core = c })
          ≡ (ok (head_of xs), t))
        × Yields (read_instance hook) t xs
  unfolding read_instance peek_instance
  peek-Yields_at (some x) c (done e f) = cc
  peek-Yields_at (some x) c (more {x = y} e z) =
      (record { peeked = some x; core = c }, ground arith, more e z)
  peek-Yields_at none c (done {t = t} e f) = (t, ground arith, done f f)
  peek-Yields_at none c (more {t = t} {x = x} e z) =
      (record { peeked = some x; core = t.core }, ground arith, more (ground arith) z)

  -- A peek tells what the next read returns, and what a reader delivers is as it was.
  pub peek-Yields :
      {s : Peekable S A} {xs : List A}
      → Yields (read_instance hook) s xs
      → (t : Peekable S A) × (peek_instance hook s ≡ (ok (head_of xs), t))
        × Yields (read_instance hook) t xs
  peek-Yields {s} y = peek-Yields_at s.peeked s.core y
