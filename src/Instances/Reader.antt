-- ===== src/Instances/Reader.antt =====
-- instance_reader.h: the interface that the wrappers take and offer. A class under
-- instance_reader_base.h gives its own state and the hooks `read_instance_core` and `reset_core`.
use ml_io.Base.{Option, List, ◌≡◌}
use ml_io.Action.{Action}
use ml_io.Instances.Yields.{Yields}
use ml_io.Instances.Peek.{
  Peekable, fresh, read_instance, peek_instance, reset, Yields-read_instance,
}

pub record InstanceReader (A : Type 0) : Type 1 where
  pub State : Type 0
  pub init : State
  pub read_instance : Action State (Option A)
  pub peek_instance : Action State (Option A)
  pub reset : State → State

abbrev pub of_hooks : {S A : Type 0} → S → Action S (Option A) → (S → S) → InstanceReader A
of_hooks {S} {A} init read_core reset_core = record {
  State = Peekable S A;
  init = fresh init;
  read_instance = read_instance read_core;
  peek_instance = peek_instance read_core;
  reset = reset reset_core;
}

-- Reading from the start returns the items of the list, and then `none`.
abbrev pub Delivers : {A : Type 0} → InstanceReader A → List A → Type 0
Delivers r xs = Yields r.read_instance r.init xs

-- A reset brings the reader back to its start, whatever was read or peeked before.
abbrev pub IsRestartable : {A : Type 0} → InstanceReader A → Type 0
IsRestartable r = (s : r.State) → r.reset s ≡ r.init

pub Delivers-of_hooks :
    {S A : Type 0} (init : S) (read_core : Action S (Option A)) (reset_core : S → S) {xs : List A}
    → Yields read_core init xs
    → Delivers (of_hooks init read_core reset_core) xs
Delivers-of_hooks init read_core reset_core y = Yields-read_instance read_core y

pub IsRestartable-of_hooks :
    {S A : Type 0} (init : S) (read_core : Action S (Option A)) (reset_core : S → S)
    → ((s : S) → reset_core s ≡ init)
    → IsRestartable (of_hooks init read_core reset_core)
unfolding reset
IsRestartable-of_hooks init read_core reset_core h s = λ i. fresh (h s.core i)
