-- ===== src/Runs/Eviction.antt =====
-- What `auto_evict` bounds and what it spares.
use simple_claw.Base.{
  ◌%◌, ◌^◌, ◌≡◌, ℕ, ◌+◌, ◌-◌, ◌≤◌, Text, List, [], ◌∷◌, length, none, some, true, false, ◌==◌,
  arith, inl, inr, Bool-cases, All, All-take, All-sort_by, sort_by, length-sort_by, length-take,
  Distinct, Lacking, Distinct-remove, Distinct-take, Distinct-sort_by, remove-Lacking,
  Distinct-insert, subst, refl,
}
use simple_claw.Base.Dict
use simple_claw.Base.Dict.{Dict, get-insert_self, get-remove}
use simple_claw.Runs.{AsyncToolRunEntry}
use simple_claw.Error.{FrameworkError, ok, err}
use simple_claw.Runs.Manager.{
  Launch, launched, start_process, process_entry, AsyncToolRunManager, ended, completed_runs,
  remove_all, evicted, auto_evict, earlier, max_completed, start_delegated, delegated_entry,
  run_id_of,
}

abbrev pub Runs : Type 0
Runs = Dict AsyncToolRunEntry

-- How many runs have ended.
abbrev pub ended_count : Runs → ℕ
ended_count m = length (completed_runs m)

-- The run is there and has ended.
abbrev HasEnded : Runs → Text → Type 0
HasEnded m k = (e : AsyncToolRunEntry) × (Dict.get m k ≡ some e) × (ended e ≡ true)

Lacking-completed_runs : (m : Runs) (k : Text) → Lacking k m → Lacking k (completed_runs m)
unfolding completed_runs
Lacking-completed_runs [] k l = tt
Lacking-completed_runs ((j, e) ∷ m) k (n, l) = elim (Bool-cases (ended e)) [
  | inl h ↦ rw h (n, Lacking-completed_runs m k l)
  | inr h ↦ rw h (Lacking-completed_runs m k l)
]

Distinct-completed_runs : (m : Runs) → Distinct m → Distinct (completed_runs m)
unfolding completed_runs
Distinct-completed_runs [] d = tt
Distinct-completed_runs ((j, e) ∷ m) (l, d) = elim (Bool-cases (ended e)) [
  | inl h ↦ rw h (Lacking-completed_runs m j l, Distinct-completed_runs m d)
  | inr h ↦ rw h (Distinct-completed_runs m d)
]

pub get-Lacking : (m : Runs) (k : Text) → Lacking k m → Dict.get m k ≡ none
unfolding Dict.get
get-Lacking [] k l = ground arith
get-Lacking ((j, e) ∷ m) k (n, l) = ground (arith, get-Lacking m k l)

HasEnded-cons :
    (m : Runs) (j : Text) (e : AsyncToolRunEntry) (ids : List (Text × ℕ))
    → Lacking j ids
    → All (λ (p : Text × ℕ). HasEnded m p.0) ids
    → All (λ (p : Text × ℕ). HasEnded ((j, e) ∷ m) p.0) ids
unfolding Dict.get
HasEnded-cons m j e [] l hs = tt
HasEnded-cons m j e ((k, t) ∷ ids) (n, l) ((e', there, h), hs) =
    ((e', ground arith, h), HasEnded-cons m j e ids l hs)

HasEnded-completed_runs :
    (m : Runs) → Distinct m → All (λ (p : Text × ℕ). HasEnded m p.0) (completed_runs m)
unfolding completed_runs Dict.get
HasEnded-completed_runs [] d = tt
HasEnded-completed_runs ((j, e) ∷ m) (l, d) =
    let rest =
      HasEnded-cons m j e (completed_runs m) (Lacking-completed_runs m j l)
        (HasEnded-completed_runs m d) in
    elim (Bool-cases (ended e)) [ inl h ↦ rw h ((e, ground arith, h), rest) | inr h ↦ rw h rest ]

-- Removing a run that has ended lowers their number by one.
count-remove :
    (m : Runs) (k : Text)
    → Distinct m
    → HasEnded m k
    → ended_count m ≡ ended_count (Dict.remove m k) + 1
unfolding completed_runs Dict.get Dict.remove
count-remove [] k d (e, there, h) = ground arith
count-remove ((j, e') ∷ m) k (l, d) (e, there, h) = elim (Bool-cases (j == k)) [
  | inl here ↦ ground (arith, remove-Lacking m k (subst (λ x. Lacking x m) (ground arith) l))
  | inr elsewhere ↦ elim (Bool-cases (ended e')) [
    | inl h' ↦ ground (arith, count-remove m k d (e, ground arith, h))
    | inr h' ↦ ground (arith, count-remove m k d (e, ground arith, h))
  ]
]

HasEnded-remove :
    (m : Runs) (k : Text) (ids : List (Text × ℕ))
    → Lacking k ids
    → All (λ (p : Text × ℕ). HasEnded m p.0) ids
    → All (λ (p : Text × ℕ). HasEnded (Dict.remove m k) p.0) ids
HasEnded-remove m k [] l hs = tt
HasEnded-remove m k ((j, t) ∷ ids) (n, l) ((e, there, h), hs) =
    ((e, ground (arith, get-remove m k j), h), HasEnded-remove m k ids l hs)

count-remove_all :
    (m : Runs) (ids : List (Text × ℕ))
    → Distinct m
    → Distinct ids
    → All (λ (p : Text × ℕ). HasEnded m p.0) ids
    → ended_count m ≡ ended_count (remove_all m ids) + length ids
unfolding remove_all
count-remove_all m [] d d' hs = omega arith
count-remove_all m ((k, t) ∷ ids) d (l, d') (h, hs) = omega (
  arith,
  count-remove m k d h,
  count-remove_all (Dict.remove m k) ids (Distinct-remove m k d) d' (HasEnded-remove m k ids l hs),
)

HasEnded-evicted : (m : Runs) → Distinct m → All (λ (p : Text × ℕ). HasEnded m p.0) (evicted m)
unfolding evicted
HasEnded-evicted m d =
    All-take (λ (p : Text × ℕ). HasEnded m p.0) (ended_count m - max_completed)
      (sort_by earlier (completed_runs m))
      (All-sort_by earlier (λ (p : Text × ℕ). HasEnded m p.0) (completed_runs m)
        (HasEnded-completed_runs m d))

Distinct-evicted : (m : Runs) → Distinct m → Distinct (evicted m)
unfolding evicted
Distinct-evicted m d =
    Distinct-take (ended_count m - max_completed) (sort_by earlier (completed_runs m))
      (Distinct-sort_by earlier (completed_runs m) (Distinct-completed_runs m d))

length-evicted : (m : Runs) → length (evicted m) ≡ ended_count m - max_completed
unfolding evicted
length-evicted m = omega (
  arith,
  length-sort_by earlier (completed_runs m),
  length-take (ended_count m - max_completed) (sort_by earlier (completed_runs m)),
)

Distinct-remove_all : (m : Runs) (ids : List (Text × ℕ)) → Distinct m → Distinct (remove_all m ids)
unfolding remove_all
Distinct-remove_all m [] d = d
Distinct-remove_all m ((k, t) ∷ ids) d =
    Distinct-remove_all (Dict.remove m k) ids (Distinct-remove m k d)

running-remove_all :
    (m : Runs) (ids : List (Text × ℕ)) (id : Text) (e : AsyncToolRunEntry)
    → Distinct ids
    → All (λ (p : Text × ℕ). HasEnded m p.0) ids
    → Dict.get m id ≡ some e
    → ended e ≡ false
    → Dict.get (remove_all m ids) id ≡ some e
unfolding remove_all
running-remove_all m [] id e d hs there h = there
running-remove_all m ((k, t) ∷ ids) id e (l, d) ((e', there', h'), hs) there h =
    running-remove_all (Dict.remove m k) ids id e d (HasEnded-remove m k ids l hs)
      (ground (arith, get-remove m k id)) h

-- In a map that has no id twice, an eviction keeps at most 64 runs that have ended, and no id is
-- there twice after it.
pub auto_evict-bound :
    (m : Runs) → Distinct m → (ended_count (auto_evict m) ≤ max_completed) × Distinct (auto_evict m)
unfolding auto_evict
auto_evict-bound m d = (
  omega (
    arith,
    length-evicted m,
    count-remove_all m (evicted m) d (Distinct-evicted m d) (HasEnded-evicted m d),
  ),
  Distinct-remove_all m (evicted m) d,
)

-- In a map that has no id twice, an eviction keeps every run that has not ended as it is.
pub auto_evict-running :
    (m : Runs) (id : Text) (e : AsyncToolRunEntry)
    → Distinct m
    → Dict.get m id ≡ some e
    → ended e ≡ false
    → Dict.get (auto_evict m) id ≡ some e
unfolding auto_evict
auto_evict-running m id e d there h =
    running-remove_all m (evicted m) id e (Distinct-evicted m d) (HasEnded-evicted m d) there h

-- In a manager that has no id twice, a started delegated run is there, running and unclaimed, at
-- most 64 ended runs are kept with it, and no id is there twice.
pub start_delegated-bound :
    (m : AsyncToolRunManager) (millis started_at : ℕ) (what whose : Text × Text)
    → Distinct m.runs
    → let started = start_delegated m (millis, started_at) what whose in
      (Dict.get started.1.runs started.0.run_id
        ≡ some (delegated_entry started_at what.0 what.1 whose.0 whose.1))
      × (ended_count started.1.runs ≤ max_completed)
      × Distinct started.1.runs
unfolding start_delegated delegated_entry ended
start_delegated-bound m millis started_at (tool, request) (agent, session) d =
    let id = run_id_of millis m.counter in
    let entry = delegated_entry started_at tool request agent session in
    let runs = Dict.insert m.runs id entry in
    let d' = Distinct-insert m.runs id entry d in
    let (few, distinct) = auto_evict-bound runs d' in
    (auto_evict-running runs id entry d' (get-insert_self m.runs id entry) refl, few, distinct)

-- In a manager that has no id twice, a process that could not be started leaves the runs as they
-- were and only takes a number; one that was started is there, running and unclaimed, at most 64
-- ended runs are kept with it, and no id is there twice.
pub start_process-bound :
    (m : AsyncToolRunManager) (l : Launch) (what whose : Text × Text)
    → Distinct m.runs
    → let id = run_id_of l.millis m.counter in
      let started = start_process m l what whose in
      ((e : FrameworkError)
        → launched l id ≡ err e
        → started ≡ (err e, record m { counter = (m.counter + 1) % 2 ^ 64 }))
      × ((pid : ℕ)
          → launched l id ≡ ok pid
          → (Dict.get started.1.runs id
              ≡ some (process_entry l id what.0 what.1 whose.0 whose.1 pid))
            × (ended_count started.1.runs ≤ max_completed)
            × Distinct started.1.runs)
unfolding start_process process_entry ended
start_process-bound m l (tool, command) (agent, session) d =
    let id = run_id_of l.millis m.counter in
    (
      λ e failed. rw failed refl,
      λ pid done.
          let entry = process_entry l id tool command agent session pid in
          let runs = Dict.insert m.runs id entry in
          let d' = Distinct-insert m.runs id entry d in
          let (few, distinct) = auto_evict-bound runs d' in
          rw done (
            auto_evict-running runs id entry d' (get-insert_self m.runs id entry) refl,
            few,
            distinct,
          ),
    )
