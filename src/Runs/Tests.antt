-- ===== src/Runs/Tests.antt =====
-- Runs on concrete managers, and the theorems applied to them.
use simple_claw.Base.{
  ℕ, ◌+◌, ◌%◌, ◌^◌, ◌≡◌, refl, ◌≤◌, arith, List, inr, [], ◌∷◌, none, some, false, Distinct,
  text_discrete,
}
use simple_claw.Base.Dict
use simple_claw.Error.{FrameworkError, ok, err}
use simple_claw.Runs.{AsyncToolRunEntry, running, completed, process, Tails, Killing, belongs_to}
use simple_claw.Runs.Manager.{
  Launch, launched, start_process, process_entry, run_id_of, AsyncToolRunManager, max_completed,
}
use simple_claw.Runs.Access.{get_for_session, kill_for_session, unknown_run}
use simple_claw.Runs.Watch.{claim_run, Others}
use simple_claw.Runs.Status.{run, run-Keeps, Event, process_completed, killed_for}
use simple_claw.Runs.Keeps.{Keeps}
use simple_claw.Runs.Eviction.{start_process-bound, ended_count}
use simple_claw.Runs.Claims.{NotOwn-refused}

abbrev tails : Tails
tails path bytes = path

-- A run of the agent 97 in the session 115.
abbrev live : AsyncToolRunEntry
live = record {
  tool_name = 116 ∷ [];
  kind = process;
  summary = 99 ∷ [];
  agent_id = 97 ∷ [];
  session_key = 115 ∷ [];
  status = running;
  started_at = 5;
  finished_at = none;
  claimed = false;
  process_state = some (record {
    command = 99 ∷ [];
    pid = some 7;
    stdout_path = 111 ∷ [];
    stderr_path = 101 ∷ [];
    exit_code = none;
  });
  delegated_state = none;
}

abbrev over : AsyncToolRunEntry
over = record live { status = completed; finished_at = some 9 }

abbrev two : AsyncToolRunManager
two = record { runs = (1 ∷ [], live) ∷ (2 ∷ [], over) ∷ []; counter = 3 }

two-Distinct : Distinct two.runs
two-Distinct = ((λ e. ground arith, tt), (tt, tt))

abbrev killing : Killing
killing = record { now = 11; kill_error = λ pid. none }

abbrev events : List Event
events =
    process_completed 20 (2 ∷ []) (some 0) ∷ killed_for killing (2 ∷ []) (97 ∷ []) (115 ∷ []) ∷ []

run-Keeps_example :
    Keeps (Dict.get two.runs (2 ∷ [])) (Dict.get (run tails two events).runs (2 ∷ []))
run-Keeps_example = run-Keeps tails two events (2 ∷ []) (tt, (tt, tt))

NotOwn-refused_example :
    (get_for_session tails two (1 ∷ []) (98 ∷ []) (115 ∷ []) ≡ err (unknown_run (1 ∷ [])))
    × (kill_for_session tails killing two (1 ∷ []) (98 ∷ []) (115 ∷ [])
        ≡ (err (unknown_run (1 ∷ [])), two))
    × (claim_run two (1 ∷ []) (98 ∷ []) (115 ∷ []) ≡ (err (unknown_run (1 ∷ [])), two))
unfolding Dict.get belongs_to text_discrete
NotOwn-refused_example =
    NotOwn-refused tails killing two (1 ∷ []) (98 ∷ []) (115 ∷ []) (inr (live, refl, refl))

abbrev quiet : Others
quiet = record { during = λ x. x; before_unclaim = λ x. x; before_read = λ x. x }

abbrev launch : Launch
launch = record {
  millis = 4;
  started_at = 5;
  base = 47 ∷ [];
  create_dir_all = none;
  create_file = λ path. none;
  spawn = ok 7;
}

start_process-bound_example :
    let id = run_id_of launch.millis two.counter in
    let started = start_process two launch (116 ∷ [], 99 ∷ []) (97 ∷ [], 115 ∷ []) in
    ((e : FrameworkError)
      → launched launch id ≡ err e
      → started ≡ (err e, record two { counter = (two.counter + 1) % 2 ^ 64 }))
    × ((pid : ℕ)
        → launched launch id ≡ ok pid
        → (Dict.get started.1.runs id
            ≡ some (process_entry launch id (116 ∷ []) (99 ∷ []) (97 ∷ []) (115 ∷ []) pid))
          × (ended_count started.1.runs ≤ max_completed)
          × Distinct started.1.runs)
start_process-bound_example =
    start_process-bound two launch (116 ∷ [], 99 ∷ []) (97 ∷ [], 115 ∷ []) two-Distinct
