-- ===== src/Tests/Queues.antt =====
-- The queues of the parallel reader in one run.
use ml_io.Base.{ℕ, ◌≤◌, ◌≡◌, refl, Option, none, some, List, [], ◌∷◌, ◌++◌}
use ml_io.Action.{ok}
use ml_io.Parallel.{
  running, stopped, State, initial, is_ready, ensure_pipeline_running, read_example_core, queue,
  may_queue, end_pipeline, reset, Step, start, refill, deliver, finish, Run, stay, and_then,
}
use ml_io.Parallel.Order.{
  returned, examples_of, initial-to_come, initial-bounds, end_of_data, reset-initial,
}

-- The second batch could not be decoded.
abbrev messages : List (Option ℕ)
messages = some 1 ∷ none ∷ some 2 ∷ []

abbrev state : List ℕ → List ℕ → List (Option ℕ) → State ℕ
state reads fills ms = record {
  state = running;
  read_queue = reads;
  fill_queue = fills;
  exception = none;
  pending = ms;
}

abbrev at_end : State ℕ
at_end = record {
  state = stopped;
  read_queue = [];
  fill_queue = [];
  exception = none;
  pending = [];
}

-- The pipeline starts and queues the first example, a call takes it, and the pipeline goes on.
begins : Run 1 (initial messages) [] (state [] (1 ∷ []) (none ∷ some 2 ∷ []))
unfolding ensure_pipeline_running queue may_queue
begins = and_then (and_then stay (start refl)) (deliver {m = some 1} refl refl refl)

goes_on : Run 1 (initial messages) (ok (some 1) ∷ []) (state [] (2 ∷ []) [])
unfolding read_example_core queue may_queue is_ready
goes_on =
    and_then
      (and_then (and_then begins (refill refl (λ e. cc) refl)) (deliver {m = none} refl refl refl))
      (deliver {m = some 2} refl refl refl)

ends : Run 1 (initial messages) (ok (some 1) ∷ ok (some 2) ∷ []) at_end
unfolding read_example_core is_ready end_pipeline
ends = and_then (and_then goes_on (refill refl (λ e. cc) refl)) (finish refl refl)

last_call : Step 1 at_end (ok none ∷ []) at_end
unfolding read_example_core is_ready
last_call = refill refl (λ e. cc) refl

initial-to_come_example :
    returned (ok (some 1) ∷ []) ++ ([] ++ ((2 ∷ []) ++ examples_of [])) ≡ examples_of messages
initial-to_come_example = initial-to_come 1 messages goes_on

initial-bounds_example :
    (0 ≤ 1)
    × (1 ≤ 1)
    × ((state [] (2 ∷ []) []).state ≡ stopped → (state [] (2 ∷ []) []).pending ≡ [])
initial-bounds_example = initial-bounds 1 messages goes_on

end_of_data_example : returned (ok (some 1) ∷ ok (some 2) ∷ []) ≡ examples_of messages
end_of_data_example = end_of_data 1 messages ends last_call

reset-initial_example : reset messages at_end ≡ initial messages
reset-initial_example = reset-initial 1 messages ends
