-- ===== src/Runs/Status.antt =====
-- A run ends once: what any sequence of the manager's methods does to a run that has ended.
use simple_claw.Base.{◌≢◌, ℕ, Text, List, [], ◌∷◌, Option}
use simple_claw.Base.Dict
use simple_claw.Base.Dict.{Dict, get-insert, get-remove}
use simple_claw.Error.{Result}
use simple_claw.Runs.{Killing, Tails}
use simple_claw.Runs.Manager.{
  AsyncToolRunManager, Launch, start_process, start_delegated, run_id_of, delegated_entry,
}
use simple_claw.Runs.Access.{kill_for_session}
use simple_claw.Runs.Watch.{
  claim_runs, unclaim_runs, complete_process, complete_delegated, mark_process_completed,
  mark_delegated_completed,
}
use simple_claw.Runs.Keeps.{
  Keeps, Keeps-refl, Keeps-trans, Keeps-start, Keeps-if_running, Keeps-kill, Keeps-claim_runs,
  Keeps-unclaim_runs, Keeps-start_process,
}

-- The methods that change the manager.
pub data Event : Type 0 where
  process_started : Launch → Text × Text → Text × Text → Event
  delegated_started : ℕ × ℕ → Text × Text → Text × Text → Event
  killed_for : Killing → Text → Text → Text → Event
  claimed_for : List Text → Text → Text → Event
  unclaimed_for : List Text → Event
  process_completed : ℕ → Text → Option ℕ → Event
  delegated_completed : ℕ → Text → Result Text → Event

unfoldable pub step : Tails → AsyncToolRunManager → Event → AsyncToolRunManager
step tail m (process_started l what whose) = (start_process m l what whose).1
step tail m (delegated_started at what whose) = (start_delegated m at what whose).1
step tail m (killed_for k id agent session) = (kill_for_session tail k m id agent session).1
step tail m (claimed_for ids agent session) = (claim_runs m ids agent session).1
step tail m (unclaimed_for ids) = unclaim_runs m ids
step tail m (process_completed now id code) = mark_process_completed m now id code
step tail m (delegated_completed now id result) = mark_delegated_completed m now id result

unfoldable pub run : Tails → AsyncToolRunManager → List Event → AsyncToolRunManager
unfolding step
run tail m [] = m
run tail m (event ∷ events) = run tail (step tail m event) events

-- The event does not start a run under this id.
abbrev pub Spares : Text → AsyncToolRunManager → Event → Type 0
Spares id m (process_started l what whose) = run_id_of l.millis m.counter ≢ id
Spares id m (delegated_started (millis, at) what whose) = run_id_of millis m.counter ≢ id
Spares id m _ = Unit

-- Ids are not taken again along the events.
abbrev pub AllSpare : Tails → Text → AsyncToolRunManager → List Event → Type 0
AllSpare tail id m [] = Unit
AllSpare tail id m (event ∷ events) =
    Spares id m event × AllSpare tail id (step tail m event) events

step-Keeps :
    (tail : Tails) (m : AsyncToolRunManager) (event : Event) (id : Text)
    → Spares id m event
    → Keeps (Dict.get m.runs id) (Dict.get (step tail m event).runs id)
unfolding step start_delegated mark_process_completed mark_delegated_completed
step-Keeps tail m (process_started l what whose) id ne = Keeps-start_process m l what whose id ne
step-Keeps tail m (delegated_started (millis, at) (tool, request) (agent, session)) id ne =
    Keeps-start m.runs (run_id_of millis m.counter) id
      (delegated_entry at tool request agent session) ne
step-Keeps tail m (killed_for k j agent session) id ne = Keeps-kill tail k m j agent session id
step-Keeps tail m (claimed_for ids agent session) id ne = Keeps-claim_runs m ids agent session id
step-Keeps tail m (unclaimed_for ids) id ne = Keeps-unclaim_runs m ids id
step-Keeps tail m (process_completed now j code) id ne =
    Keeps-if_running m j id (complete_process now code)
step-Keeps tail m (delegated_completed now j result) id ne =
    Keeps-if_running m j id (complete_delegated now result)

-- Along any sequence of the manager's methods that does not take the id again, a run that has ended
-- keeps its status, its end and its outcome until it is evicted, whatever kills and completions come
-- after; and a run that is not there stays away.
pub run-Keeps :
    (tail : Tails) (m : AsyncToolRunManager) (events : List Event) (id : Text)
    → AllSpare tail id m events
    → Keeps (Dict.get m.runs id) (Dict.get (run tail m events).runs id)
unfolding run
run-Keeps tail m [] id spare = Keeps-refl (Dict.get m.runs id)
run-Keeps tail m (event ∷ events) id (spare, spares) =
    let m' = step tail m event in
    Keeps-trans (Dict.get m.runs id) (Dict.get m'.runs id) (Dict.get (run tail m' events).runs id)
      (step-Keeps tail m event id spare) (run-Keeps tail m' events id spares)
