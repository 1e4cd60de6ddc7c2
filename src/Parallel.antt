-- ===== src/Parallel.antt =====
-- parallel_data_reader.cc: the queues between the thread that reads and the flow graph that fills.
-- The graph's nodes are the third party's; `pending` holds the messages that its sequencer node has
-- still to hand to the queue node, by the index of their batches.
pub mod Inference
pub mod Order
pub mod Progress
use ml_io.Base.{
  ℕ, ◌+◌, ◌<◌, ◌≡◌, ◌≢◌, Bool, true, false, not, ◌||◌, Option, none, some, List, [], ◌∷◌, ◌++◌,
  length, ltb, ◌==◌, map, if◌then◌else◌,
}
use ml_io.Action.{Error, undefined_behaviour, Result, ok, err, Action}

pub data RunState : Type 0 where
  not_started running stopped faulted : RunState

pub record State (E : Type 0) : Type 0 where
  pub state : RunState
  pub read_queue : List E
  pub fill_queue : List E
  pub exception : Option Error
  -- A batch whose decoding failed has a message without an example.
  pub pending : List (Option E)

-- `init_graph`: the number of examples that may wait, and of batches that are decoded at a time.
pub num_prefetched : ℕ → ℕ → ℕ
num_prefetched default_num_threads n = if n == 0 then default_num_threads else n

pub num_parallel : ℕ → ℕ → ℕ
num_parallel prefetched n = if (n == 0) || ltb prefetched n then prefetched else n

abbrev pub is_nil {ℓ} : {A : Type ℓ} → List A → Bool
is_nil [] = true
is_nil (x ∷ xs) = false

abbrev pub is_running : RunState → Bool
is_running running = true
is_running _ = false

abbrev pub or_running : RunState → RunState
or_running not_started = running
or_running r = r

abbrev pub end_state : Option Error → RunState
end_state none = stopped
end_state (some e) = faulted

module _ {E : Type 0} where
  -- What the constructor and `reset` leave, where the batches give these messages.
  abbrev pub initial : List (Option E) → State E
  initial ms = record {
    state = not_started;
    read_queue = [];
    fill_queue = [];
    exception = none;
    pending = ms;
  }

  unfoldable pub ensure_pipeline_running : State E → State E
  ensure_pipeline_running s = record s { state = or_running s.state }

  -- The condition that `read_example_core` waits for.
  unfoldable pub is_ready : State E → Bool
  is_ready s = not (is_running s.state) || not (is_nil s.fill_queue)

  abbrev pub pop : Action (State E) (Option E)
  pop s = elim s.read_queue [
    | [] ↦ (ok none, s)
    | x ∷ xs ↦ (ok (some x), record s { read_queue = xs })
  ]

  abbrev pub swapped : State E → State E
  swapped s = record s { read_queue = s.fill_queue; fill_queue = s.read_queue }

  -- Behind the wait: the exception again, or the queues change places.
  abbrev pub take_filled : RunState → Option Error → Action (State E) (Option E)
  take_filled faulted (some e) s = (err e, s)
  take_filled faulted none s = (err undefined_behaviour, s)
  take_filled not_started thrown s = pop (swapped s)
  take_filled running thrown s = pop (swapped s)
  take_filled stopped thrown s = pop (swapped s)

  -- `read_example_core` from where it need not wait.
  unfoldable pub read_example_core : Action (State E) (Option E)
  read_example_core s = if is_nil s.read_queue then take_filled s.state s.exception s else pop s

  -- The body of the queue node on the next message; the graph is not cancelled.
  unfoldable pub queue : Option E → State E → State E
  queue none s = s
  queue (some e) s = record s { fill_queue = s.fill_queue ++ e ∷ [] }

  -- Whether the body need not wait, where `n` examples may.
  unfoldable pub may_queue : ℕ → Option E → State E → Bool
  may_queue n none s = true
  may_queue n (some e) s = ltb (length s.fill_queue) n

  -- `run_pipeline` behind `wait_for_all`, which threw or not.
  unfoldable pub end_pipeline : Option Error → State E → State E
  end_pipeline thrown s = record s { state = end_state thrown; exception = thrown }

  -- `stop`; the thread that it joins ends as if the graph were done.
  unfoldable pub stop : State E → State E
  unfolding end_pipeline
  stop s = elim s.state [
    | not_started ↦ s
    | running ↦ end_pipeline none (record s { read_queue = []; fill_queue = [] })
    | stopped ↦ record s { read_queue = []; fill_queue = [] }
    | faulted ↦ record s { read_queue = []; fill_queue = [] }
  ]

  -- `reset`, where the batch reader's reset gives these messages.
  unfoldable pub reset : List (Option E) → State E → State E
  unfolding stop
  reset ms s = record (stop s) { state = not_started; exception = none; pending = ms }

  -- One step of the threads, and what a call that it ends returns.
  pub data Step (n : ℕ) : State E → List (Result (Option E)) → State E → Type 0 where
    start : {s : State E} → s.read_queue ≡ [] → Step n s [] (ensure_pipeline_running s)
    front :
        {s : State E}
        → is_nil s.read_queue ≡ false
        → Step n s ((read_example_core s).0 ∷ []) ((read_example_core s).1)
    refill :
        {s : State E}
        → s.read_queue ≡ []
        → s.state ≢ not_started
        → is_ready s ≡ true
        → Step n s ((read_example_core s).0 ∷ []) ((read_example_core s).1)
    deliver :
        {s : State E} {m : Option E} {ms : List (Option E)}
        → s.state ≡ running
        → s.pending ≡ m ∷ ms
        → may_queue n m s ≡ true
        → Step n s [] (queue m (record s { pending = ms }))
    finish : {s : State E} → s.state ≡ running → s.pending ≡ [] → Step n s [] (end_pipeline none s)
    fail : {s : State E} (e : Error) → s.state ≡ running → Step n s [] (end_pipeline (some e) s)

  -- Any number of steps, in any order of the threads.
  pub data Run (n : ℕ) : State E → List (Result (Option E)) → State E → Type 0 where
    stay : {s : State E} → Run n s [] s
    and_then :
        {s t u : State E} {rs qs : List (Result (Option E))}
        → Run n s rs t
        → Step n t qs u
        → Run n s (rs ++ qs) u
