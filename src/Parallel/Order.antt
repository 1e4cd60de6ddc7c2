-- ===== src/Parallel/Order.antt =====
-- parallel_data_reader.cc: what the queues hold and what the calls return, under any order of steps.
use ml_io.Base.{
  ℕ, ◌≤◌, ◌≡◌, ◌≢◌, refl, sym, ap, ◌∙◌, true, Option, none, some, List, [], ◌∷◌, ◌++◌, append-nil,
  append_assoc, length, length-append, ltb→lt, arith,
}
use ml_io.Action.{Error, Result, ok, err}
use ml_io.Parallel.{
  RunState, not_started, running, stopped, faulted, State, initial, ensure_pipeline_running,
  is_ready, is_nil, read_example_core, queue, may_queue, end_pipeline, stop, reset, Step, start,
  front, refill, deliver, finish, fail, Run, stay, and_then,
}

abbrev pub examples_of {ℓ} : {E : Type ℓ} → List (Option E) → List E
examples_of [] = []
examples_of (none ∷ ms) = examples_of ms
examples_of (some e ∷ ms) = e ∷ examples_of ms

-- What the calls of `read_example_core` have returned.
abbrev pub returned {ℓ} : {E : Type ℓ} → List (Result (Option E)) → List E
returned [] = []
returned (ok (some e) ∷ rs) = e ∷ returned rs
returned (ok none ∷ rs) = returned rs
returned (err e ∷ rs) = returned rs

returned-append :
    {E : Type 0} (rs qs : List (Result (Option E)))
    → returned (rs ++ qs) ≡ returned rs ++ returned qs
returned-append [] qs = refl
returned-append (ok (some e) ∷ rs) qs = ap (λ xs. e ∷ xs) (returned-append rs qs)
returned-append (ok none ∷ rs) qs = returned-append rs qs
returned-append (err e ∷ rs) qs = returned-append rs qs

head-inj : {A : Type 0} {x y : A} → x ∷ [] ≡ y ∷ [] → x ≡ y
head-inj e = cc

module _ {E : Type 0} (n : ℕ) where
  -- The examples that are on their way to the client.
  abbrev pub to_come : State E → List E
  to_come s = s.read_queue ++ (s.fill_queue ++ examples_of s.pending)

  pub record IsValid (s : State E) : Type 0 where
    pub read_bound : length s.read_queue ≤ n
    pub fill_bound : length s.fill_queue ≤ n
    pub at_start : s.state ≡ not_started → (s.read_queue ≡ []) × (s.fill_queue ≡ [])
    pub at_stop : s.state ≡ stopped → s.pending ≡ []
    pub at_fault : s.state ≡ faulted → (e : Error) × (s.exception ≡ some e)

  abbrev pub state_of : RunState → List E → List E → Option Error → List (Option E) → State E
  state_of r reads fills e ms = record {
    state = r;
    read_queue = reads;
    fill_queue = fills;
    exception = e;
    pending = ms;
  }

  abbrev Keeps : State E → Type 0
  Keeps s = returned ((read_example_core s).0 ∷ []) ++ to_come (read_example_core s).1 ≡ to_come s

  -- A call takes the example that is next.
  read_example_core-to_come :
      (r : RunState) (reads fills : List E) (e : Option Error) (ms : List (Option E))
      → Keeps (state_of r reads fills e ms)
  unfolding read_example_core
  read_example_core-to_come r (x ∷ xs) fills e ms = refl
  read_example_core-to_come faulted [] fills none ms = refl
  read_example_core-to_come faulted [] fills (some e) ms = refl
  read_example_core-to_come not_started [] [] e ms = refl
  read_example_core-to_come not_started [] (y ∷ ys) e ms = refl
  read_example_core-to_come running [] [] e ms = refl
  read_example_core-to_come running [] (y ∷ ys) e ms = refl
  read_example_core-to_come stopped [] [] e ms = refl
  read_example_core-to_come stopped [] (y ∷ ys) e ms = refl

  queue-to_come :
      (m : Option E) (s : State E) (ms : List (Option E))
      → s.pending ≡ m ∷ ms
      → to_come (queue m (record s { pending = ms })) ≡ to_come s
  unfolding queue
  queue-to_come none s ms h = rw h refl
  queue-to_come (some e) s ms h = rw (h, append_assoc s.fill_queue (e ∷ []) (examples_of ms)) refl

  Step-to_come :
      {s t : State E} {rs : List (Result (Option E))}
      → Step n s rs t
      → returned rs ++ to_come t ≡ to_come s
  unfolding ensure_pipeline_running end_pipeline
  Step-to_come (start h) = refl
  Step-to_come {s} (front h) =
      read_example_core-to_come s.state s.read_queue s.fill_queue s.exception s.pending
  Step-to_come {s} (refill h k l) =
      read_example_core-to_come s.state s.read_queue s.fill_queue s.exception s.pending
  Step-to_come {s} (deliver {m = m} {ms = ms} h k l) = queue-to_come m s ms k
  Step-to_come (finish h k) = refl
  Step-to_come (fail e h) = refl

  Run-to_come :
      {s t : State E} {rs : List (Result (Option E))}
      → Run n s rs t
      → returned rs ++ to_come t ≡ to_come s
  Run-to_come stay = refl
  Run-to_come {t = u} (and_then {rs = rs} {qs = qs} r x) =
      ap (λ es. es ++ to_come u) (returned-append rs qs)
      ∙ append_assoc (returned rs) (returned qs) (to_come u)
      ∙ ap (λ es. returned rs ++ es) (Step-to_come x)
      ∙ Run-to_come r

  initial-IsValid : (ms : List (Option E)) → IsValid (initial ms)
  initial-IsValid ms = record {
    read_bound = omega arith;
    fill_bound = omega arith;
    at_start = λ e. (refl, refl);
    at_stop = λ e. cc;
    at_fault = λ e. cc;
  }

  abbrev StaysValid : State E → Type 0
  StaysValid s = IsValid s → IsValid (read_example_core s).1

  read_example_core-IsValid :
      (r : RunState) (reads fills : List E) (e : Option Error) (ms : List (Option E))
      → r ≢ not_started
      → StaysValid (state_of r reads fills e ms)
  unfolding read_example_core
  read_example_core-IsValid r (x ∷ xs) fills e ms h v = record {
    read_bound = omega (arith, v.read_bound);
    fill_bound = v.fill_bound;
    at_start = λ k. absurd (h k);
    at_stop = v.at_stop;
    at_fault = v.at_fault;
  }
  read_example_core-IsValid faulted [] fills none ms h v = v
  read_example_core-IsValid faulted [] fills (some e) ms h v = v
  read_example_core-IsValid not_started [] fills e ms h v = absurd (h refl)
  read_example_core-IsValid running [] [] e ms h v = v
  read_example_core-IsValid running [] (y ∷ ys) e ms h v = record {
    read_bound = omega (arith, v.fill_bound);
    fill_bound = v.read_bound;
    at_start = λ k. cc;
    at_stop = v.at_stop;
    at_fault = v.at_fault;
  }
  read_example_core-IsValid stopped [] [] e ms h v = v
  read_example_core-IsValid stopped [] (y ∷ ys) e ms h v = record {
    read_bound = omega (arith, v.fill_bound);
    fill_bound = v.read_bound;
    at_start = λ k. cc;
    at_stop = v.at_stop;
    at_fault = v.at_fault;
  }

  start-IsValid :
      (r : RunState) (reads fills : List E) (e : Option Error) (ms : List (Option E))
      → IsValid (state_of r reads fills e ms)
      → IsValid (ensure_pipeline_running (state_of r reads fills e ms))
  unfolding ensure_pipeline_running
  start-IsValid not_started reads fills e ms v = record {
    read_bound = v.read_bound;
    fill_bound = v.fill_bound;
    at_start = λ k. cc;
    at_stop = λ k. cc;
    at_fault = λ k. cc;
  }
  start-IsValid running reads fills e ms v = v
  start-IsValid stopped reads fills e ms v = v
  start-IsValid faulted reads fills e ms v = v

  Step-IsValid :
      {s t : State E} {rs : List (Result (Option E))} → Step n s rs t → IsValid s → IsValid t
  unfolding ensure_pipeline_running end_pipeline queue may_queue
  Step-IsValid {s} (start h) v =
      start-IsValid s.state s.read_queue s.fill_queue s.exception s.pending v
  Step-IsValid {s} (front h) v =
      read_example_core-IsValid s.state s.read_queue s.fill_queue s.exception s.pending
        (λ e. let k = ap is_nil (v.at_start e).0 in cc) v
  Step-IsValid {s} (refill h k l) v =
      read_example_core-IsValid s.state s.read_queue s.fill_queue s.exception s.pending k v
  Step-IsValid {s} (deliver {m = none} {ms = ms} h k l) v = record {
    read_bound = v.read_bound;
    fill_bound = v.fill_bound;
    at_start = v.at_start;
    at_stop = λ e. cc;
    at_fault = v.at_fault;
  }
  Step-IsValid {s} (deliver {m = some x} {ms = ms} h k l) v = record {
    read_bound = v.read_bound;
    fill_bound = omega (arith, length-append s.fill_queue (x ∷ []), ltb→lt _ _ l);
    at_start = λ e. cc;
    at_stop = λ e. cc;
    at_fault = v.at_fault;
  }
  Step-IsValid (finish h k) v = record {
    read_bound = v.read_bound;
    fill_bound = v.fill_bound;
    at_start = λ e. cc;
    at_stop = λ e. k;
    at_fault = λ e. cc;
  }
  Step-IsValid (fail x h) v = record {
    read_bound = v.read_bound;
    fill_bound = v.fill_bound;
    at_start = λ e. cc;
    at_stop = λ e. cc;
    at_fault = λ e. (x, refl);
  }

  Run-IsValid :
      {s t : State E} {rs : List (Result (Option E))} → Run n s rs t → IsValid s → IsValid t
  Run-IsValid stay v = v
  Run-IsValid (and_then r x) v = Step-IsValid x (Run-IsValid r v)

  -- From the start, whatever the order of the steps, what the calls have returned and what is still
  -- in the queues and in the graph are together the examples of the batches, in their order.
  pub initial-to_come :
      {s : State E} {rs : List (Result (Option E))} (ms : List (Option E))
      → Run n (initial ms) rs s
      → returned rs ++ (s.read_queue ++ (s.fill_queue ++ examples_of s.pending)) ≡ examples_of ms
  initial-to_come ms r = Run-to_come r

  -- From the start, whatever the order of the steps, neither queue holds more than `n` examples, and
  -- a pipeline that has stopped without a fault has no batch left.
  pub initial-bounds :
      {s : State E} {rs : List (Result (Option E))} (ms : List (Option E))
      → Run n (initial ms) rs s
      → (length s.read_queue ≤ n) × (length s.fill_queue ≤ n) × (s.state ≡ stopped → s.pending ≡ [])
  initial-bounds ms r =
      let v = Run-IsValid r (initial-IsValid ms) in (v.read_bound, v.fill_bound, v.at_stop)

  abbrev IsDrained : State E → Type 0
  IsDrained s = (s.read_queue ≡ []) × (s.fill_queue ≡ []) × (s.state ≡ stopped)

  read_example_core-IsDrained :
      (r : RunState) (reads fills : List E) (e : Option Error) (ms : List (Option E))
      → (reads ≡ [] → r ≢ not_started)
      → (reads ≡ [] → is_ready (state_of r reads fills e ms) ≡ true)
      → (read_example_core (state_of r reads fills e ms)).0 ≡ ok none
      → IsDrained (state_of r reads fills e ms)
  unfolding read_example_core is_ready
  read_example_core-IsDrained r (x ∷ xs) fills e ms h k q = absurd cc
  read_example_core-IsDrained not_started [] fills e ms h k q = absurd (h refl refl)
  read_example_core-IsDrained running [] [] e ms h k q = let l = k refl in absurd cc
  read_example_core-IsDrained running [] (y ∷ ys) e ms h k q = absurd cc
  read_example_core-IsDrained stopped [] [] e ms h k q = (refl, refl, refl)
  read_example_core-IsDrained stopped [] (y ∷ ys) e ms h k q = absurd cc
  read_example_core-IsDrained faulted [] fills none ms h k q = absurd cc
  read_example_core-IsDrained faulted [] fills (some x) ms h k q = absurd cc

  Step-IsDrained :
      {s t : State E} {rs : List (Result (Option E))}
      → Step n s rs t
      → rs ≡ ok none ∷ []
      → IsDrained s
  Step-IsDrained (start h) q = absurd cc
  Step-IsDrained {s} (front h) q =
      read_example_core-IsDrained s.state s.read_queue s.fill_queue s.exception s.pending
        (λ e. absurd (let k = ap is_nil e in cc)) (λ e. absurd (let k = ap is_nil e in cc))
        (head-inj q)
  Step-IsDrained {s} (refill h k l) q =
      read_example_core-IsDrained s.state s.read_queue s.fill_queue s.exception s.pending (λ e. k)
        (λ e. l) (head-inj q)
  Step-IsDrained (deliver h k l) q = absurd cc
  Step-IsDrained (finish h k) q = absurd cc
  Step-IsDrained (fail e h) q = absurd cc

  -- From the start, whatever the order of the steps, a call that returns no example comes only
  -- when the calls before it have returned the examples of all batches, in their order.
  pub end_of_data :
      {s t : State E} {rs : List (Result (Option E))} (ms : List (Option E))
      → Run n (initial ms) rs s
      → Step n s (ok none ∷ []) t
      → returned rs ≡ examples_of ms
  end_of_data {s} {rs = rs} ms r x =
      let (a, b, c) = Step-IsDrained x refl in
      let d : s.pending ≡ [] = (Run-IsValid r (initial-IsValid ms)).at_stop c in
      let e : to_come s ≡ [] = rw (a, b, d) refl in
      sym (append-nil (returned rs)) ∙ ap (λ es. returned rs ++ es) (sym e) ∙ Run-to_come r

  -- A reset brings back the start from every state that steps from a start lead to.
  pub reset-initial :
      {s : State E} {rs : List (Result (Option E))} (ms : List (Option E))
      → Run n (initial ms) rs s
      → reset ms s ≡ initial ms
  unfolding reset stop end_pipeline
  reset-initial {s} ms r =
      reset-valid s.state s.read_queue s.fill_queue s.exception s.pending
        (Run-IsValid r (initial-IsValid ms))
    where
      reset-valid :
          (r : RunState) (reads fills : List E) (e : Option Error) (qs : List (Option E))
          → IsValid (state_of r reads fills e qs)
          → reset ms (state_of r reads fills e qs) ≡ initial ms
      reset-valid not_started reads fills e qs v = let (a, b) = v.at_start refl in rw (a, b) refl
      reset-valid running reads fills e qs v = refl
      reset-valid stopped reads fills e qs v = refl
      reset-valid faulted reads fills e qs v = refl
