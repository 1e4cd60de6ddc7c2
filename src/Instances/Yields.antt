-- ===== src/Instances/Yields.antt =====
-- What a reader delivers, call by call, and the loop that reads and discards.
use ml_io.Base.{
  ℕ, zero, suc, ◌≤◌, ◌<◌, Bool, true, false, Option, none, some, List, [], ◌∷◌, ◌≡◌, refl, length,
  drop, arith,
}
use ml_io.Action.{ok, Action, ◌>>=◌, pure}

-- Repeated calls from state `s` return the items of the list, then `none` at every later call.
pub data Yields {S A : Type 0} (read : Action S (Option A)) : S → List A → Type 0 where
  done : {s t : S} → read s ≡ (ok none, t) → read t ≡ (ok none, t) → Yields read s []
  more :
      {s t : S} {x : A} {xs : List A}
      → read s ≡ (ok (some x), t)
      → Yields read t xs
      → Yields read s (x ∷ xs)

-- `for (i = 0; i < n; i++) if (inner_->read_instance() == nullopt) return {};`, as the wrappers
-- write it. The result tells whether the loop ran to its end.
unfoldable pub skip_instances : {S A : Type 0} → Action S (Option A) → ℕ → Action S Bool
skip_instances read zero = pure true
skip_instances read (suc n) = do
  instance_read ← read
  elim instance_read [ none ↦ pure false | some _ ↦ skip_instances read n ]

module _ {S A : Type 0} (read : Action S (Option A)) where
  pub data Skipped (n : ℕ) (s : S) (xs : List A) : Type 0 where
    skipped :
        (t : S)
        → skip_instances read n s ≡ (ok true, t)
        → n ≤ length xs
        → Yields read t (drop n xs)
        → Skipped n s xs
    ended :
        (t : S)
        → skip_instances read n s ≡ (ok false, t)
        → length xs < n
        → read t ≡ (ok none, t)
        → Skipped n s xs

  Skipped-cons :
      (n : ℕ) {s t : S} {x : A} {xs : List A}
      → read s ≡ (ok (some x), t)
      → Skipped n t xs
      → Skipped (suc n) s (x ∷ xs)
  unfolding skip_instances
  Skipped-cons n e (skipped u f h y) = skipped u (rw e f) (omega arith) y
  Skipped-cons n e (ended u f h y) = ended u (rw e f) (omega arith) y

  pub Yields-Skipped : (n : ℕ) {s : S} {xs : List A} → Yields read s xs → Skipped n s xs
  unfolding skip_instances
  Yields-Skipped zero y = skipped _ refl (omega arith) y
  Yields-Skipped (suc n) (done {t = t} e f) = ended t (rw e) (omega arith) f
  Yields-Skipped (suc n) (more e y) = Skipped-cons n e (Yields-Skipped n y)

  pub Yields-step : {s t : S} {xs : List A} → read s ≡ read t → Yields read t xs → Yields read s xs
  Yields-step p (done e f) = done (rw p e) f
  Yields-step p (more e y) = more (rw p e) y
