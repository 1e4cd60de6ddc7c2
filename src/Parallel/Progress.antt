-- ===== src/Parallel/Progress.antt =====
-- parallel_data_reader.cc: the steps that a client waits for in `read_example_core`.
use ml_io.Base.{ℕ, ◌≡◌, true, Option, none, List, [], ◌∷◌}
use ml_io.Action.{ok}
use ml_io.Parallel.{
  running, State, is_ready, read_example_core, queue, may_queue, end_pipeline, Step, deliver,
  finish,
}

-- A step of the background threads in which nothing fails: the queue node handles a message, or the
-- graph is done.
pub data Works {E : Type 0} (n : ℕ) : State E → State E → Type 0 where
  handles :
      {s : State E} {m : Option E} {ms : List (Option E)}
      → s.state ≡ running
      → s.pending ≡ m ∷ ms
      → may_queue n m s ≡ true
      → Works n s (queue m (record s { pending = ms }))
  is_done : {s : State E} → s.state ≡ running → s.pending ≡ [] → Works n s (end_pipeline none s)

module _ {E : Type 0} (n : ℕ) where
  -- They are steps of the reader that return nothing to a client.
  Works-Step : {s t : State E} → Works n s t → Step n s [] t
  Works-Step (handles r p q) = deliver r p q
  Works-Step (is_done r p) = finish r p

  -- Whatever steps of this kind the threads take from a state, one can be taken until a state with
  -- the property is met, and it is met.
  pub data Inevitably (P : State E → Type 0) : State E → Type 0 where
    now : {s : State E} → P s → Inevitably P s
    later :
        {s t : State E}
        → Works n s t
        → ((u : State E) → Works n s u → Inevitably P u)
        → Inevitably P s

  -- The wait ends, and the call returns this.
  abbrev pub Answers : Option E → State E → Type 0
  Answers o s = (is_ready s ≡ true) × ((read_example_core s).0 ≡ ok o)

  abbrev Waits : List (Option E) → State E → Type 0
  Waits ms s = (s.state ≡ running) × (s.read_queue ≡ []) × (s.fill_queue ≡ []) × (s.pending ≡ ms)

  tail_of : List (Option E) → List (Option E)
  tail_of [] = []
  tail_of (m ∷ ms) = ms

  first_of : List (Option E) → Option E
  first_of [] = none
  first_of (m ∷ ms) = m
