-- ===== src/Gateway/Stopping.antt =====
-- What the stop command does to the background runs.
use simple_claw.Base.{
  ◌≡◌, refl, ap, sym, ◌∙◌, inl, inr, Text, lit, List, [], ◌∷◌, any, Option, none, some, Bool, true,
  false, ◌&&◌, ◌||◌, ◌==◌, if◌then◌else◌, arith, Bool-cases, Option-cases, text_eq_iff, sort_by,
  any-sort_by, All, Distinct,
}
use simple_claw.Base.Dict
use simple_claw.Base.Dict.{Dict, get-insert}
use simple_claw.Error.{FrameworkError, Result, ok, err, Result-cases}
use simple_claw.Runs.{
  AsyncToolRunEntry, AsyncToolRunSnapshot, Tails, Killing, snapshot, belongs_to, is_running, kill,
}
use simple_claw.Runs.Manager.{AsyncToolRunManager}
use simple_claw.Runs.Access.{
  kill_for_session, list_for_session, own_snapshots, own_entry, started_later,
}
use simple_claw.Runs.Claims.{OwnSnapshot, list_for_session_lem}
use simple_claw.Gateway.{Outside, stop_response}
use simple_claw.Gateway.Commands.{stop_run, stop_runs, stop_message, stop_command_response}

killed_entry : AsyncToolRunEntry → Result AsyncToolRunEntry → AsyncToolRunEntry
killed_entry e (ok e') = e'
killed_entry e (err x) = e

-- What a stop makes of a run: killed if it is of this session and the kill is not refused, and as it
-- was otherwise.
unfoldable pub stopped : Killing → Text → Text → AsyncToolRunEntry → AsyncToolRunEntry
unfolding killed_entry
stopped k agent session e = if belongs_to e agent session then killed_entry e (kill k e) else e

abbrev pub on_some :
    (AsyncToolRunEntry → AsyncToolRunEntry) → Option AsyncToolRunEntry → Option AsyncToolRunEntry
on_some f none = none
on_some f (some e) = some (f e)

kill_for_session-get :
    (tail : Tails) (k : Killing) (m : AsyncToolRunManager) (j agent session id : Text)
    → Dict.get (kill_for_session tail k m j agent session).1.runs id ≡ (
        if j == id
        then on_some (stopped k agent session) (Dict.get m.runs id)
        else Dict.get m.runs id)
unfolding kill_for_session own_entry stopped
kill_for_session-get tail k m j agent session id = elim (Option-cases (Dict.get m.runs j)) [
  | inl gone ↦ ground arith
  | inr (e, there) ↦ elim (Result-cases (kill k e)) [
    | inl (e', done) ↦ ground (arith, get-insert m.runs j id e')
    | inr (x, refused) ↦ ground arith
  ]
]

stopped-twice :
    (k : Killing) (agent session : Text) (e : AsyncToolRunEntry)
    → stopped k agent session (stopped k agent session e) ≡ stopped k agent session e
unfolding stopped kill belongs_to is_running
stopped-twice k agent session e = ground arith

on_some-twice :
    (k : Killing) (agent session : Text) (o : Option AsyncToolRunEntry)
    → on_some (stopped k agent session) (on_some (stopped k agent session) o)
      ≡ on_some (stopped k agent session) o
on_some-twice k agent session none = refl
on_some-twice k agent session (some e) = ap some (stopped-twice k agent session e)

-- A listed run that the loop tries to kill.
abbrev hits : Text → AsyncToolRunSnapshot → Bool
hits id run = is_running run.status && run.run_id == id

-- Two steps that may do the same, which doing it twice does not change.
either {ℓ} :
    {A : Type ℓ} (p q : Bool) (f : A → A) (a : A)
    → f (f a) ≡ f a
    → (if q then f (if p then f a else a) else (if p then f a else a)) ≡ (if p || q then f a else a)
either true true f a twice = twice
either true false f a twice = refl
either false q f a twice = refl

module _ {T : Type 0} (outside : Outside T) (agent session : Text) where
  abbrev after_stop : Text → Option AsyncToolRunEntry → Option AsyncToolRunEntry
  after_stop id o = on_some (stopped (outside.killing id) agent session) o

  stop_run-get :
      (run : AsyncToolRunSnapshot) (m : AsyncToolRunManager) (id : Text)
      → ((j : Text) (n : AsyncToolRunManager) → outside.before_kill j n ≡ n)
      → Dict.get (stop_run outside agent session run m).1.runs id
        ≡ (if hits id run then after_stop id (Dict.get m.runs id) else Dict.get m.runs id)
  unfolding stop_run
  stop_run-get run m id alone =
      let killing =
        kill_for_session-get outside.tail (outside.killing run.run_id) m run.run_id agent session
          id in
      elim (Bool-cases (is_running run.status)) [
        | inl h ↦ elim (Bool-cases (run.run_id == id)) [
          | inl e ↦
              rw (h, e, alone run.run_id m)
                (rw (killing, e)
                  (ap
                    (λ j. on_some (stopped (outside.killing j) agent session) (Dict.get m.runs id))
                    ((text_eq_iff run.run_id id).0 e)))
          | inr e ↦ rw (h, e, alone run.run_id m) (rw (killing, e) refl)
        ]
        | inr h ↦ rw h refl
      ]

  stop_runs-get :
      (runs : List AsyncToolRunSnapshot) (m : AsyncToolRunManager) (id : Text)
      → ((j : Text) (n : AsyncToolRunManager) → outside.before_kill j n ≡ n)
      → Dict.get (stop_runs outside agent session runs m).1.runs id
        ≡ (if any (hits id) runs then after_stop id (Dict.get m.runs id) else Dict.get m.runs id)
  unfolding stop_runs
  stop_runs-get [] m id alone = refl
  stop_runs-get (run ∷ runs) m id alone =
      rw
        (
          stop_runs-get runs (stop_run outside agent session run m).1 id alone,
          stop_run-get run m id alone,
        )
        (either (hits id run) (any (hits id) runs) (after_stop id) (Dict.get m.runs id)
          (on_some-twice (outside.killing id) agent session (Dict.get m.runs id)))

or_false : {p q : Bool} → (p || q) ≡ false → (p ≡ false) × (q ≡ false)
or_false {p} {q} h = ground arith

and_false : {p : Bool} → (p && true) ≡ false → p ≡ false
and_false {p} h = ground arith

spared :
    (k : Killing) (agent session : Text) (e : AsyncToolRunEntry)
    → (belongs_to e agent session && is_running e.status) ≡ false
    → stopped k agent session e ≡ e
unfolding stopped kill
spared k agent session e h = ground arith

-- A run that the loop does not try to kill is none that a stop changes.
unlisted :
    (tail : Tails) (k : Killing) (m : Dict AsyncToolRunEntry) (agent session id : Text)
    → any (hits id) (own_snapshots tail agent session m) ≡ false
    → on_some (stopped k agent session) (Dict.get m id) ≡ Dict.get m id
unfolding own_snapshots Dict.get snapshot
unlisted tail k [] agent session id h = refl
unlisted tail k ((j, e) ∷ m) agent session id h = elim (Bool-cases (belongs_to e agent session)) [
  | inl own ↦
      let unhit : ((is_running e.status && j == id) ≡ false)
          × (any (hits id) (own_snapshots tail agent session m) ≡ false) =
        or_false (rw own at h) in
      elim (Bool-cases (j == id)) [
        | inl same ↦
            rw same (ap some (spared k agent session e (rw own (and_false (rw same at unhit.0)))))
        | inr other ↦ rw other (unlisted tail k m agent session id unhit.1)
      ]
  | inr foreign ↦ elim (Bool-cases (j == id)) [
    | inl same ↦ rw same (ap some (spared k agent session e (rw foreign refl)))
    | inr other ↦ rw other (unlisted tail k m agent session id (rw foreign at h))
  ]
]

module _ {T : Type 0} (outside : Outside T) where
  -- When no other task acts on a run between its listing and its kill, a stop kills exactly the running
  -- runs of the agent's session whose kill is not refused, and leaves every other run as it was.
  pub stop_command_response-get :
      (m : AsyncToolRunManager) (agent session id : Text)
      → ((j : Text) (n : AsyncToolRunManager) → outside.before_kill j n ≡ n)
      → Dict.get (stop_command_response outside m agent session).1.runs id
        ≡ on_some
            (stopped (outside.killing id) agent session)
            (Dict.get (outside.before_list m).runs id)
  unfolding stop_command_response list_for_session
  stop_command_response-get m agent session id alone =
      let listed = outside.before_list m in
      let own = own_snapshots outside.tail agent session listed.runs in
      rw
        (
          stop_runs-get outside agent session (sort_by started_later own) listed id alone,
          any-sort_by started_later (hits id) own,
        )
        (elim (Bool-cases (any (hits id) own)) [
          | inl h ↦ rw h refl
          | inr h ↦
              rw h (sym (unlisted outside.tail (outside.killing id) listed.runs agent session id h))
        ])

-- The kill of each running run of the session is refused.
abbrev pub AllRefused : (Text → Killing) → Dict AsyncToolRunEntry → Text → Text → Type 0
AllRefused killing m agent session =
    (id : Text) (e : AsyncToolRunEntry)
    → Dict.get m id ≡ some e
    → belongs_to e agent session ≡ true
    → is_running e.status ≡ true
    → (x : FrameworkError) × (kill (killing id) e ≡ err x)

module _ {T : Type 0} (outside : Outside T) (agent session : Text) (m : AsyncToolRunManager) where
  stop_run-refused :
      (run : AsyncToolRunSnapshot)
      → ((j : Text) (n : AsyncToolRunManager) → outside.before_kill j n ≡ n)
      → AllRefused outside.killing m.runs agent session
      → OwnSnapshot outside.tail m.runs agent session run
      → stop_run outside agent session run m ≡ (0, m)
  unfolding stop_run kill_for_session own_entry snapshot
  stop_run-refused run alone refused (e, there, mine, same) =
      elim (Bool-cases (is_running run.status)) [
        | inl h ↦
            let live : is_running e.status ≡ true =
              sym (ap (λ (r : AsyncToolRunSnapshot). is_running r.status) same) ∙ h in
            let (x, refusal) = refused run.run_id e there mine live in
            rw (h, alone run.run_id m, there, mine, refusal) refl
        | inr h ↦ rw h refl
      ]

  stop_runs-refused :
      (runs : List AsyncToolRunSnapshot)
      → ((j : Text) (n : AsyncToolRunManager) → outside.before_kill j n ≡ n)
      → AllRefused outside.killing m.runs agent session
      → All (OwnSnapshot outside.tail m.runs agent session) runs
      → stop_runs outside agent session runs m ≡ (0, m)
  unfolding stop_runs
  stop_runs-refused [] alone refused hs = refl
  stop_runs-refused (run ∷ runs) alone refused (h, hs) =
      rw (stop_run-refused run alone refused h, stop_runs-refused runs alone refused hs) refl

module _ {T : Type 0} (outside : Outside T) where
  -- When no other task acts between the listing and the kills, no id is listed twice, and the kill of
  -- each running run of the session is refused, a stop answers that no running tasks were found, and
  -- leaves them running.
  pub stop_command_response-refused :
      (m : AsyncToolRunManager) (agent session : Text)
      → ((j : Text) (n : AsyncToolRunManager) → outside.before_kill j n ≡ n)
      → Distinct (outside.before_list m).runs
      → AllRefused outside.killing (outside.before_list m).runs agent session
      → stop_command_response outside m agent session
        ≡ (stop_response 0 (lit "No running background tasks were found."), outside.before_list m)
  unfolding stop_command_response stop_message
  stop_command_response-refused m agent session alone distinct refused =
      let listed = outside.before_list m in
      rw
        (stop_runs-refused outside agent session listed
          (list_for_session outside.tail listed agent session) alone refused
          (list_for_session_lem outside.tail listed agent session distinct).0)
        refl
