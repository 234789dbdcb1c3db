-- ===== src/Runs/Claims.antt =====
-- Whose runs a session reaches, and which completions are announced.
use simple_claw.Base.{
  ◌≡◌, ◌⊎◌, inl, inr, ℕ, Text, List, [], ◌∷◌, Option, none, some, true, false, arith, Bool-cases,
  All, All-sort_by, Sorted, sort_by-Sorted, Distinct, refl, ap, if◌then◌else◌,
}
use simple_claw.Base.Dict
use simple_claw.Base.Dict.{Dict, get-insert, get-insert_self}
use simple_claw.Error.{ok, err}
use simple_claw.Runs.{
  AsyncToolRunEntry, AsyncToolRunSnapshot, Tails, Killing, CompletionRoute, snapshot, belongs_to,
  is_running,
}
use simple_claw.Runs.Manager.{AsyncToolRunManager}
use simple_claw.Runs.Access.{
  get_for_session, kill_for_session, list_for_session, own_snapshots, own_entry, unknown_run,
  started_later,
}
use simple_claw.Runs.Eviction.{get-Lacking}
use simple_claw.Runs.Keeps.{own_entry-ok}
use simple_claw.Runs.Watch.{
  claim_run, claim_runs, unclaim_runs, wait_for_session, Others, mark_process_completed,
  mark_delegated_completed, complete_process, complete_delegated,
}
use simple_claw.Runs.Completion.{
  watch_completion, Ended, process_ended, delegated_ended, should_reinject, mark, content_of,
  addressed,
}

-- The run is not there, or it is of another agent or session.
abbrev pub NotOwn : AsyncToolRunManager → Text → Text → Text → Type 0
NotOwn m id agent session =
    (Dict.get m.runs id ≡ none)
    ⊎ ((e : AsyncToolRunEntry) × (Dict.get m.runs id ≡ some e)
        × (belongs_to e agent session ≡ false))

own_entry-NotOwn :
    (m : AsyncToolRunManager) (id agent session : Text)
    → NotOwn m id agent session
    → own_entry m id agent session ≡ err (unknown_run id)
unfolding own_entry
own_entry-NotOwn m id agent session (inl gone) = rw gone refl
own_entry-NotOwn m id agent session (inr (e, there, foreign)) = rw (there, foreign) refl

-- A session that asks for a run of another one gets the answer that it would get for an unknown id,
-- from `get_for_session`, `kill_for_session` and the claim alike, and changes nothing.
pub NotOwn-refused :
    (tail : Tails) (k : Killing) (m : AsyncToolRunManager) (id agent session : Text)
    → NotOwn m id agent session
    → (get_for_session tail m id agent session ≡ err (unknown_run id))
      × (kill_for_session tail k m id agent session ≡ (err (unknown_run id), m))
      × (claim_run m id agent session ≡ (err (unknown_run id), m))
unfolding get_for_session kill_for_session claim_run
NotOwn-refused tail k m id agent session h =
    let refused = own_entry-NotOwn m id agent session h in rw refused (refl, refl, refl)

-- The snapshot is of a run of this session.
abbrev pub OwnSnapshot :
    Tails → Dict AsyncToolRunEntry → Text → Text → AsyncToolRunSnapshot → Type 0
OwnSnapshot tail m agent session s =
    (e : AsyncToolRunEntry) × (Dict.get m s.run_id ≡ some e)
    × (belongs_to e agent session ≡ true)
    × (s ≡ snapshot tail e s.run_id)

OwnSnapshot-cons :
    (tail : Tails) (m : Dict AsyncToolRunEntry) (j : Text) (new : AsyncToolRunEntry)
    (agent session : Text) (ss : List AsyncToolRunSnapshot)
    → Dict.get m j ≡ none
    → All (OwnSnapshot tail m agent session) ss
    → All (OwnSnapshot tail ((j, new) ∷ m) agent session) ss
unfolding Dict.get
OwnSnapshot-cons tail m j new agent session [] gone hs = tt
OwnSnapshot-cons tail m j new agent session (s ∷ ss) gone ((e, there, mine, same), hs) =
    ((e, ground arith, mine, same), OwnSnapshot-cons tail m j new agent session ss gone hs)

own_snapshots-OwnSnapshot :
    (tail : Tails) (m : Dict AsyncToolRunEntry) (agent session : Text)
    → Distinct m
    → All (OwnSnapshot tail m agent session) (own_snapshots tail agent session m)
unfolding own_snapshots snapshot Dict.get
own_snapshots-OwnSnapshot tail [] agent session d = tt
own_snapshots-OwnSnapshot tail ((j, e) ∷ m) agent session (l, d) =
    let rest =
      OwnSnapshot-cons tail m j e agent session (own_snapshots tail agent session m)
        (get-Lacking m j l) (own_snapshots-OwnSnapshot tail m agent session d) in
    elim (Bool-cases (belongs_to e agent session)) [
      | inl h ↦ rw h ((e, ground arith, h, refl), rest)
      | inr h ↦ rw h rest
    ]

-- In a manager that has no id twice, the runs that a session lists are its own, as they are in the
-- map, the latest start first.
pub list_for_session_lem :
    (tail : Tails) (m : AsyncToolRunManager) (agent session : Text)
    → Distinct m.runs
    → All (OwnSnapshot tail m.runs agent session) (list_for_session tail m agent session)
      × Sorted started_later (list_for_session tail m agent session)
unfolding list_for_session
list_for_session_lem tail m agent session d = (
  All-sort_by started_later (OwnSnapshot tail m.runs agent session)
      (own_snapshots tail agent session m.runs)
      (own_snapshots-OwnSnapshot tail m.runs agent session d),
  sort_by-Sorted started_later (λ a b h. ground arith) (λ a b c h h'. ground arith)
      (own_snapshots tail agent session m.runs),
)

-- When no other task comes between, the watcher of a run that is there marks it, and announces it to
-- the session of its route exactly if the run is not claimed.
pub watch_completion_lem :
    (tail : Tails) (m : AsyncToolRunManager) (now : ℕ) (id : Text) (ended : Ended)
    (route : Option CompletionRoute) (e : AsyncToolRunEntry)
    → Dict.get m.runs id ≡ some e
    → watch_completion tail m now id ended (λ x. x) (λ x. x) route ≡ (
      if e.claimed then none else addressed (content_of tail (mark m now id ended) id ended) route,
      mark m now id ended,
    )
unfolding watch_completion should_reinject mark mark_process_completed mark_delegated_completed
watch_completion_lem tail m now id (process_ended c) route e there =
    ground (arith, get-insert m.runs id id (complete_process now c e))
watch_completion_lem tail m now id (delegated_ended r) route e there =
    ground (arith, get-insert m.runs id id (complete_delegated now r e))

-- The manager in which only this run's claim is set.
abbrev pub claimed_in : AsyncToolRunManager → Text → AsyncToolRunEntry → AsyncToolRunManager
claimed_in m id e = record m { runs = Dict.insert m.runs id (record e { claimed = true }) }

-- A wait for one run that is still running at its end reports it as running, and gives the claim up,
-- so that its completion is announced later.
pub wait_for_session-released :
    (tail : Tails) (m : AsyncToolRunManager) (during : AsyncToolRunManager → AsyncToolRunManager)
    (id agent session : Text) (e₀ e : AsyncToolRunEntry)
    → own_entry m id agent session ≡ ok e₀
    → own_entry (during (claimed_in m id e₀)) id agent session ≡ ok e
    → is_running e.status ≡ true
    → let waited =
        wait_for_session tail agent session m
          (record { during = during; before_unclaim = λ x. x; before_read = λ x. x })
          (id ∷ []) in
      (waited.0 ≡ ok (snapshot tail e id ∷ [])) × (should_reinject waited.1 id ≡ true)
unfolding wait_for_session claim_runs should_reinject snapshot unclaim_runs get_for_session Dict.get
wait_for_session-released tail m during id agent session e₀ e own own' live =
    let (there₀, mine₀) = own_entry-ok m id agent session e₀ own in
    let (there, mine) = own_entry-ok (during (claimed_in m id e₀)) id agent session e own' in
    let again =
      get-insert_self (during (claimed_in m id e₀)).runs id (record e { claimed = false }) in
    rw (there₀, mine₀, there, mine, live, there, live, again, mine) (refl, refl)

claimed-gone :
    (m : AsyncToolRunManager) (id unknown : Text) (e : AsyncToolRunEntry)
    → Dict.get m.runs id ≡ some e
    → Dict.get m.runs unknown ≡ none
    → Dict.get (Dict.insert m.runs id (record e { claimed = true })) unknown ≡ none
claimed-gone m id unknown e there gone =
    ground (arith, get-insert m.runs id unknown (record e { claimed = true }))

-- When a session waits for its run and an unknown id, the wait fails but the run stays claimed: its
-- completion, when no other task comes between, is then announced to nobody.
pub wait_for_session-leaks :
    (tail : Tails) (m : AsyncToolRunManager) (others : Others) (id unknown agent session : Text)
    (e : AsyncToolRunEntry) (now : ℕ) (ended : Ended) (route : Option CompletionRoute)
    → own_entry m id agent session ≡ ok e
    → Dict.get m.runs unknown ≡ none
    → let waited = wait_for_session tail agent session m others (id ∷ unknown ∷ []) in
      (waited.0 ≡ err (unknown_run unknown))
      × ((watch_completion tail waited.1 now id ended (λ x. x) (λ x. x) route).0 ≡ none)
unfolding wait_for_session claim_runs
wait_for_session-leaks tail m others id unknown agent session e now ended route own gone =
    let held = record e { claimed = true } in
    let (there, mine) = own_entry-ok m id agent session e own in
    rw (there, mine, claimed-gone m id unknown e there gone)
      (
        refl,
        ap (λ w. w.0)
            (watch_completion_lem tail (record m { runs = Dict.insert m.runs id held }) now id ended
              route held (get-insert_self m.runs id held)),
      )
