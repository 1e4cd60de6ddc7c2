-- ===== src/Parallel/Inference.antt =====
-- parallel_data_reader.cc: how the schema is inferred from the first instance, which stays to be
-- read.
use ml_io.Base.{Option, none, some, List, ◌≡◌, refl, sym, ap, subst, ◌∙◌}
use ml_io.Action.{Result, ok, err, Action}
use ml_io.Instances.Yields.{Yields}
use ml_io.Instances.Peek.{Peekable, peek_instance, read_instance, peek-Yields, head_of}
use ml_io.Tensors.Schema.{Schema}

pub record State (S A : Type 0) : Type 0 where
  pub reader : Peekable S A
  pub schema : Option Schema

-- The hook of the subclass may make no schema.
module _ {S A : Type 0} (hook : Action S (Option A))
    (infer_schema : Option A → Result (Option Schema)) where
  abbrev store_schema : Peekable S A → Result (Option Schema) → Result (Unit {0}) × State S A
  store_schema reader (ok o) = (ok tt, record { reader = reader; schema = o })
  store_schema reader (err e) = (err e, record { reader = reader; schema = none })

  abbrev infer_from : Result (Option A) × Peekable S A → Result (Unit {0}) × State S A
  infer_from (ok instance_read, reader) = store_schema reader (infer_schema instance_read)
  infer_from (err e, reader) = (err e, record { reader = reader; schema = none })

  pub ensure_schema_inferred : Action (State S A) (Unit {0})
  ensure_schema_inferred s = elim s.schema [
    | some _ ↦ (ok tt, s)
    | none ↦ infer_from (peek_instance hook s.reader)
  ]

  abbrev give_schema : Result (Unit {0}) × State S A → Result (Option Schema) × State S A
  give_schema (ok _, s) = (ok s.schema, s)
  give_schema (err e, s) = (err e, s)

  pub read_schema : Action (State S A) (Option Schema)
  read_schema s = give_schema (ensure_schema_inferred s)

  give_schema-store :
      (reader : Peekable S A) (r : Result (Option Schema))
      → ((give_schema (store_schema reader r)).0 ≡ r)
        × ((give_schema (store_schema reader r)).1.reader ≡ reader)
  give_schema-store reader (ok o) = (refl, refl)
  give_schema-store reader (err e) = (refl, refl)

  -- Before a schema was inferred the call answers what the hook makes of the first instance, or of
  -- none, and the reader still has all instances to deliver.
  read_schema-Yields :
      (reader : Peekable S A) {xs : List A}
      → Yields (read_instance hook) reader xs
      → (t : State S A) × (read_schema (record { reader = reader; schema = none })
          ≡ (infer_schema (head_of xs), t))
        × Yields (read_instance hook) t.reader xs
  unfolding read_schema ensure_schema_inferred
  read_schema-Yields reader {xs} y =
      let (u, peeked, z) = peek-Yields hook y in
      let (same, kept) = give_schema-store u (infer_schema (head_of xs)) in
      (
        (give_schema (store_schema u (infer_schema (head_of xs)))).1,
        ap (λ r. give_schema (infer_from r)) peeked
            ∙ ap (λ r. (r, (give_schema (store_schema u (infer_schema (head_of xs)))).1)) same,
        subst (λ p. Yields (read_instance hook) p xs) (sym kept) z,
      )
