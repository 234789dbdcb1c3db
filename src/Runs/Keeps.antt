-- ===== src/Runs/Keeps.antt =====
-- What each method of the manager keeps of a run.
use simple_claw.Base.{
  ◌≡◌, ◌≢◌, ℕ, Text, Bool, List, [], ◌∷◌, Option, none, some, true, arith, ◌⊎◌, inl, inr,
  Option-cases, Bool-cases, refl, text_discrete,
}
use simple_claw.Base.Dict
use simple_claw.Base.Dict.{Dict, get-insert, get-remove}
use simple_claw.Error.{Result, ok, err, Result-cases}
use simple_claw.Runs.{AsyncToolRunEntry, Killing, Tails, kill, belongs_to}
use simple_claw.Runs.Manager.{
  AsyncToolRunManager, Launch, start_process, run_id_of, ended, auto_evict, remove_all, evicted,
  launched, process_entry,
}
use simple_claw.Runs.Access.{kill_for_session, own_entry}
use simple_claw.Runs.Watch.{claim_runs, claim_run, collected, unclaim_runs, unclaimed, if_running}

-- A run that is not there stays away, and one that has ended is evicted or is kept but for its claim.
abbrev pub Keeps : Option AsyncToolRunEntry → Option AsyncToolRunEntry → Type 0
Keeps before after =
    (before ≡ none → after ≡ none)
    × ((e : AsyncToolRunEntry)
        → before ≡ some e
        → ended e ≡ true
        → (after ≡ none) ⊎ ((c : Bool) × (after ≡ some (record e { claimed = c }))))

pub Keeps-refl : (o : Option AsyncToolRunEntry) → Keeps o o
Keeps-refl o = (λ h. h, λ e h q. inr (e.claimed, h))

pub Keeps-trans : (a b c : Option AsyncToolRunEntry) → Keeps a b → Keeps b c → Keeps a c
unfolding ended
Keeps-trans a b c (n, k) (n', k') = (
  λ h. n' (n h),
  λ e h q. elim (k e h q) [
    | inl gone ↦ inl (n' gone)
    | inr (d, there) ↦ elim (k' (record e { claimed = d }) there q) [
      | inl gone ↦ inl gone
      | inr (d', there') ↦ inr (d', there')
    ]
  ],
)

pub Keeps-remove :
    (m : Dict AsyncToolRunEntry) (k id : Text)
    → Keeps (Dict.get m id) (Dict.get (Dict.remove m k) id)
Keeps-remove m k id = (
  λ h. ground (arith, get-remove m k id),
  λ e h q. elim (Option-cases (Dict.get (Dict.remove m k) id)) [
    | inl gone ↦ inl gone
    | inr (e', there) ↦ inr (e.claimed, ground (arith, get-remove m k id))
  ],
)

pub Keeps-remove_all :
    (m : Dict AsyncToolRunEntry) (ids : List (Text × ℕ)) (id : Text)
    → Keeps (Dict.get m id) (Dict.get (remove_all m ids) id)
unfolding remove_all
Keeps-remove_all m [] id = Keeps-refl (Dict.get m id)
Keeps-remove_all m ((k, t) ∷ ids) id =
    Keeps-trans (Dict.get m id) (Dict.get (Dict.remove m k) id)
      (Dict.get (remove_all (Dict.remove m k) ids) id) (Keeps-remove m k id)
      (Keeps-remove_all (Dict.remove m k) ids id)

-- Inserting a run under another id, and evicting.
pub Keeps-start :
    (m : Dict AsyncToolRunEntry) (k id : Text) (new : AsyncToolRunEntry)
    → k ≢ id
    → Keeps (Dict.get m id) (Dict.get (auto_evict (Dict.insert m k new)) id)
unfolding auto_evict
Keeps-start m k id new ne =
    Keeps-trans (Dict.get m id) (Dict.get (Dict.insert m k new) id)
      (Dict.get (auto_evict (Dict.insert m k new)) id)
      (
        λ h. ground (arith, get-insert m k id new),
        λ e h q. inr (e.claimed, ground (arith, get-insert m k id new)),
      )
      (Keeps-remove_all (Dict.insert m k new) (evicted (Dict.insert m k new)) id)

pub Keeps-if_running :
    (m : AsyncToolRunManager) (k id : Text) (f : AsyncToolRunEntry → AsyncToolRunEntry)
    → Keeps (Dict.get m.runs id) (Dict.get (if_running m k f).runs id)
unfolding if_running ended
Keeps-if_running m k id f = elim (Option-cases (Dict.get m.runs k)) [
  | inl e ↦ rw e (Keeps-refl (Dict.get m.runs id))
  | inr (e, there) ↦ (
    λ h. ground (arith, get-insert m.runs k id (f e)),
    λ e' h q. inr (e'.claimed, ground (arith, get-insert m.runs k id (f e))),
  )
]

-- Writing a run back: one that has ended may only have its claim changed.
pub Keeps-insert :
    (m : Dict AsyncToolRunEntry) (j id : Text) (e new : AsyncToolRunEntry)
    → Dict.get m j ≡ some e
    → (ended e ≡ true → (c : Bool) × (new ≡ record e { claimed = c }))
    → Keeps (Dict.get m id) (Dict.get (Dict.insert m j new) id)
Keeps-insert m j id e new there same = (
  λ h. ground (arith, get-insert m j id new),
  λ e' h q. elim (text_discrete j id) [
    | yes here ↦
        let (c, kept) = same (ground arith) in inr (c, ground (arith, get-insert m j id new))
    | no elsewhere ↦ inr (e'.claimed, ground (arith, get-insert m j id new))
  ],
)

-- An entry that `own_entry` gives is in the map and belongs to the session.
pub own_entry-ok :
    (m : AsyncToolRunManager) (j agent session : Text) (e : AsyncToolRunEntry)
    → own_entry m j agent session ≡ ok e
    → (Dict.get m.runs j ≡ some e) × (belongs_to e agent session ≡ true)
unfolding own_entry
own_entry-ok m j agent session e h = elim (Option-cases (Dict.get m.runs j)) [
  | inl none_there ↦ ground arith
  | inr (e', there) ↦ elim (Bool-cases (belongs_to e' agent session)) [
    | inl own ↦ (ground arith, ground arith)
    | inr foreign ↦ ground arith
  ]
]

kill-ended : (k : Killing) (e e' : AsyncToolRunEntry) → kill k e ≡ ok e' → ended e ≡ true → e' ≡ e
unfolding kill ended
kill-ended k e e' h q = ground arith

pub Keeps-kill :
    (tail : Tails) (k : Killing) (m : AsyncToolRunManager) (j agent session id : Text)
    → Keeps (Dict.get m.runs id) (Dict.get (kill_for_session tail k m j agent session).1.runs id)
unfolding kill_for_session
Keeps-kill tail k m j agent session id = elim (Result-cases (own_entry m j agent session)) [
  | inl (e, own) ↦ elim (Result-cases (kill k e)) [
    | inl (e', done) ↦
        rw (own, done)
          (Keeps-insert m.runs j id e e' (own_entry-ok m j agent session e own).0
            (λ q. (e.claimed, kill-ended k e e' done q)))
    | inr (x, failed) ↦ rw (own, failed) (Keeps-refl (Dict.get m.runs id))
  ]
  | inr (x, failed) ↦ rw failed (Keeps-refl (Dict.get m.runs id))
]

pub Keeps-claim_run :
    (m : AsyncToolRunManager) (j agent session id : Text)
    → Keeps (Dict.get m.runs id) (Dict.get (claim_run m j agent session).1.runs id)
unfolding claim_run
Keeps-claim_run m j agent session id = elim (Result-cases (own_entry m j agent session)) [
  | inl (e, own) ↦ rw own (
      Keeps-insert m.runs j id e (record e { claimed = true })
        (own_entry-ok m j agent session e own).0 (λ q. (true, refl)))
  | inr (x, failed) ↦ rw failed (Keeps-refl (Dict.get m.runs id))
]

pub Keeps-collected :
    (o : Option AsyncToolRunEntry) (id : Text) (first : Result (Text × Bool) × AsyncToolRunManager)
    (rest : Result (List (Text × Bool)) × AsyncToolRunManager)
    → Keeps o (Dict.get first.1.runs id)
    → Keeps o (Dict.get rest.1.runs id)
    → Keeps o (Dict.get (collected first rest).1.runs id)
unfolding collected
Keeps-collected o id (ok c, m) rest h h' = h'
Keeps-collected o id (err x, m) rest h h' = h

pub Keeps-claim_runs :
    (m : AsyncToolRunManager) (ids : List Text) (agent session id : Text)
    → Keeps (Dict.get m.runs id) (Dict.get (claim_runs m ids agent session).1.runs id)
unfolding claim_runs
Keeps-claim_runs m [] agent session id = Keeps-refl (Dict.get m.runs id)
Keeps-claim_runs m (j ∷ js) agent session id =
    let first = claim_run m j agent session in
    let m' = first.1 in
    Keeps-collected (Dict.get m.runs id) id first (claim_runs m' js agent session)
      (Keeps-claim_run m j agent session id)
      (Keeps-trans (Dict.get m.runs id) (Dict.get m'.runs id)
        (Dict.get (claim_runs m' js agent session).1.runs id) (Keeps-claim_run m j agent session id)
        (Keeps-claim_runs m' js agent session id))

pub Keeps-unclaim_runs :
    (m : AsyncToolRunManager) (ids : List Text) (id : Text)
    → Keeps (Dict.get m.runs id) (Dict.get (unclaim_runs m ids).runs id)
unfolding unclaim_runs
Keeps-unclaim_runs m [] id = Keeps-refl (Dict.get m.runs id)
Keeps-unclaim_runs m (j ∷ js) id =
    let m' = unclaim_runs m (j ∷ []) in
    Keeps-trans (Dict.get m.runs id) (Dict.get m'.runs id) (Dict.get (unclaim_runs m' js).runs id)
      (Keeps-if_running m j id unclaimed) (Keeps-unclaim_runs m' js id)

pub Keeps-start_process :
    (m : AsyncToolRunManager) (l : Launch) (what whose : Text × Text) (id : Text)
    → run_id_of l.millis m.counter ≢ id
    → Keeps (Dict.get m.runs id) (Dict.get (start_process m l what whose).1.runs id)
unfolding start_process
Keeps-start_process m l what whose id ne =
    elim (Result-cases (launched l (run_id_of l.millis m.counter))) [
      | inl (pid, done) ↦ rw done (
          Keeps-start m.runs (run_id_of l.millis m.counter) id
            (process_entry l (run_id_of l.millis m.counter) what.0 what.1 whose.0 whose.1 pid) ne)
      | inr (x, failed) ↦ rw failed (Keeps-refl (Dict.get m.runs id))
    ]
