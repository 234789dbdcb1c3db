-- ===== src/Runs/Watch.antt =====
-- Claims and completions in src/tools/async_tool_manager.rs: `claim_runs`, `unclaim_runs`,
-- `wait_for_session`, and the `mark_…` methods.
use simple_claw.Base.{
  ℕ, Text, List, [], ◌∷◌, Option, none, some, Bool, true, false, not, if◌then◌else◌,
}
use simple_claw.Base.Dict
use simple_claw.Error.{display, Result, ok, err, ◌>>=◌}
use simple_claw.Runs.{
  completed, is_running, AsyncToolRunEntry, ProcessRunState, DelegatedRunState,
  AsyncToolRunSnapshot, Tails,
}
use simple_claw.Runs.Manager.{AsyncToolRunManager}
use simple_claw.Runs.Access.{get_for_session, own_entry}

set_exit_code : Option ℕ → Option ProcessRunState → Option ProcessRunState
set_exit_code code none = none
set_exit_code code (some p) = some (record p { exit_code = code })

set_outcome : Result Text → Option DelegatedRunState → Option DelegatedRunState
set_outcome result none = none
set_outcome (ok reply) (some d) = some (record d { reply = some reply; error = none })
set_outcome (err e) (some d) = some (record d { reply = none; error = some (display e) })

unfoldable pub complete_process : ℕ → Option ℕ → AsyncToolRunEntry → AsyncToolRunEntry
unfolding set_exit_code
complete_process now exit_code e = record e {
  status = completed;
  process_state = set_exit_code exit_code e.process_state;
  finished_at = some now;
}

unfoldable pub complete_delegated : ℕ → Result Text → AsyncToolRunEntry → AsyncToolRunEntry
unfolding set_outcome
complete_delegated now result e = record e {
  status = completed;
  finished_at = some now;
  delegated_state = set_outcome result e.delegated_state;
}

unfoldable pub unclaimed : AsyncToolRunEntry → AsyncToolRunEntry
unclaimed e = record e { claimed = false }

update_if_running :
    AsyncToolRunManager
    → Text
    → (AsyncToolRunEntry → AsyncToolRunEntry)
    → Option AsyncToolRunEntry
    → AsyncToolRunManager
update_if_running self run_id f none = self
update_if_running self run_id f (some e) =
    if is_running e.status then record self { runs = Dict.insert self.runs run_id (f e) } else self

-- `if let Some(entry) = runs.get_mut(run_id) && entry.status == Running { … }`
unfoldable pub if_running :
    AsyncToolRunManager → Text → (AsyncToolRunEntry → AsyncToolRunEntry) → AsyncToolRunManager
unfolding update_if_running is_running
if_running self run_id f = update_if_running self run_id f (Dict.get self.runs run_id)

unfoldable pub mark_process_completed :
    AsyncToolRunManager → ℕ → Text → Option ℕ → AsyncToolRunManager
unfolding if_running complete_process
mark_process_completed self now run_id exit_code =
    if_running self run_id (complete_process now exit_code)

unfoldable pub mark_delegated_completed :
    AsyncToolRunManager → ℕ → Text → Result Text → AsyncToolRunManager
unfolding if_running complete_delegated
mark_delegated_completed self now run_id result =
    if_running self run_id (complete_delegated now result)

claim_entry :
    AsyncToolRunManager
    → Text
    → Result AsyncToolRunEntry
    → Result (Text × Bool) × AsyncToolRunManager
claim_entry self run_id (err e) = (err e, self)
claim_entry self run_id (ok entry) = (
  ok (run_id, not (is_running entry.status)),
  record self { runs = Dict.insert self.runs run_id (record entry { claimed = true }) },
)

-- The claim of one run: its id, and whether it had ended.
unfoldable pub claim_run :
    AsyncToolRunManager → Text → Text → Text → Result (Text × Bool) × AsyncToolRunManager
unfolding claim_entry own_entry is_running
claim_run self run_id agent_id session_key =
    claim_entry self run_id (own_entry self run_id agent_id session_key)

prepend : Text × Bool → Result (List (Text × Bool)) → Result (List (Text × Bool))
prepend c rest = do cs ← rest; ok (c ∷ cs)

unfoldable pub collected :
    Result (Text × Bool) × AsyncToolRunManager
    → Result (List (Text × Bool)) × AsyncToolRunManager
    → Result (List (Text × Bool)) × AsyncToolRunManager
unfolding prepend
collected (err e, self) rest = (err e, self)
collected (ok c, self) (claims, self') = (prepend c claims, self')

-- `collect` stops at the first error; the claims made before it stay.
unfoldable pub claim_runs :
    AsyncToolRunManager
    → List Text
    → Text
    → Text
    → Result (List (Text × Bool)) × AsyncToolRunManager
unfolding claim_run collected
claim_runs self [] agent_id session_key = (ok [], self)
claim_runs self (run_id ∷ run_ids) agent_id session_key =
    let first = claim_run self run_id agent_id session_key in
    collected first (claim_runs first.1 run_ids agent_id session_key)

unfoldable pub unclaim_runs : AsyncToolRunManager → List Text → AsyncToolRunManager
unfolding if_running unclaimed
unclaim_runs self [] = self
unclaim_runs self (run_id ∷ run_ids) = unclaim_runs (if_running self run_id unclaimed) run_ids

-- What the other tasks do to the manager during a wait: until the notifications or the deadline,
-- before the claims of running runs are given up, and before the final reading.
pub record Others : Type 0 where
  pub during : AsyncToolRunManager → AsyncToolRunManager
  pub before_unclaim : AsyncToolRunManager → AsyncToolRunManager
  pub before_read : AsyncToolRunManager → AsyncToolRunManager

module _ (tail : Tails) (agent_id session_key : Text) where
  unfoldable pub snapshots_of : AsyncToolRunManager → List Text → Result (List AsyncToolRunSnapshot)
  snapshots_of self [] = ok []
  snapshots_of self (run_id ∷ run_ids) = do
    s ← get_for_session tail self run_id agent_id session_key
    rest ← snapshots_of self run_ids
    ok (s ∷ rest)

  unfoldable pub still_running : List AsyncToolRunSnapshot → List Text
  still_running [] = []
  still_running (s ∷ ss) =
      let rest = still_running ss in if is_running s.status then s.run_id ∷ rest else rest

  settle :
      Others
      → AsyncToolRunManager
      → List Text
      → Result (List AsyncToolRunSnapshot)
      → Result (List AsyncToolRunSnapshot) × AsyncToolRunManager
  settle others self run_ids (err e) = (err e, self)
  settle others self run_ids (ok snapshots) =
      let self' = unclaim_runs (others.before_unclaim self) (still_running snapshots) in
      (snapshots_of (others.before_read self') run_ids, others.before_read self')

  after_claim :
      Others
      → List Text
      → Result (List (Text × Bool)) × AsyncToolRunManager
      → Result (List AsyncToolRunSnapshot) × AsyncToolRunManager
  unfolding settle snapshots_of still_running
  after_claim others run_ids (err e, self) = (err e, self)
  after_claim others run_ids (ok claims, self) =
      settle others (others.during self) run_ids (snapshots_of (others.during self) run_ids)

  unfoldable pub wait_for_session :
      AsyncToolRunManager
      → Others
      → List Text
      → Result (List AsyncToolRunSnapshot) × AsyncToolRunManager
  unfolding after_claim claim_runs
  wait_for_session self others run_ids =
      after_claim others run_ids (claim_runs self run_ids agent_id session_key)
