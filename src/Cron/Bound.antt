-- ===== src/Cron/Bound.antt =====
-- How many jobs an agent has, and whose jobs a call of the cron tool of src/tools/builtin/cron/mod.rs
-- changes.
use simple_claw.Base.{
  ◌≡◌, ◌≢◌, refl, sym, subst, ◌∙◌, ℕ, ◌+◌, ◌≤◌, ◌<◌, Text, [], ◌∷◌, ◌++◌, Option, none, some, Bool,
  false, ◌==◌, count, any, arith, ◌⊎◌, inl, inr, Bool-cases, Option-cases, text_eq_iff,
  if◌then◌else◌,
}
use simple_claw.Error.{Result, ok, err}
use simple_claw.Cron.{
  CronJob, CronStore, create_job, delete_job, without, is_of, filter_jobs, count_jobs_for_agent,
  has_id,
}
use simple_claw.Cron.Tool.{
  Schedules, CronToolConfig, CronArgs, CronContext, CronFaults, create, delete, list, trimmed,
  unwrap_or, new_job, stored, delete_of, act, CronAction, execute,
}

abbrev pub of_agent : Text → CronJob → Bool
of_agent agent_id job = job.agent_id == agent_id

abbrev pub jobs_of : Text → CronStore → ℕ
jobs_of agent_id store = count (of_agent agent_id) store

count-append_one :
    (p : CronJob → Bool) (store : CronStore) (job : CronJob)
    → count p (store ++ job ∷ []) ≡ count p store + (if p job then 1 else 0)
count-append_one p [] job = omega arith
count-append_one p (x ∷ store) job = omega (arith, count-append_one p store job)

count-without :
    (p q : CronJob → Bool) (store : CronStore) → count p (without q store) ≤ count p store
unfolding without
count-without p q [] = omega arith
count-without p q (x ∷ store) = ground (arith, count-without p q store)

-- A new job is one of the caller's, who has fewer than allowed.
new_job-ok :
    {Schedule : Type 0} (schedules : Schedules Schedule) (like : Text → Text → Bool)
    (config : CronToolConfig) (ctx : CronContext) (faults : CronFaults) (id : Text) (now : ℕ)
    (store : CronStore) (args : CronArgs) (job : CronJob)
    → new_job schedules like config ctx faults id now store args ≡ ok job
    → (job.agent_id ≡ ctx.agent_id)
      × (jobs_of ctx.agent_id store < unwrap_or config.max_jobs_per_agent 50)
unfolding new_job count_jobs_for_agent
new_job-ok schedules like config ctx faults id now store args job h = (ground arith, ground arith)

created-bound :
    (faults : CronFaults) (store : CronStore) (r : Result CronJob) (caller agent : Text)
    (max_jobs : ℕ)
    → ((job : CronJob) → r ≡ ok job → (job.agent_id ≡ caller) × (jobs_of caller store < max_jobs))
    → jobs_of agent store ≤ max_jobs
    → jobs_of agent (stored faults store r).1 ≤ max_jobs
unfolding stored create_job
created-bound faults store (err e) caller agent max_jobs new h = h
created-bound faults store (ok job) caller agent max_jobs new h =
    let (own, free) = new job refl in
    let one = count-append_one (of_agent agent) store job in
    elim (Option-cases faults.on_statement) [
      | inr (message, e) ↦ rw e h
      | inl e ↦ elim (Bool-cases (any (has_id job.id) store)) [
        | inl known ↦ rw (e, known) h
        | inr fresh ↦
            rw (e, fresh)
              (elim (Bool-cases (of_agent agent job)) [
                | inl k ↦
                    let below : jobs_of agent store < max_jobs =
                      subst (λ a. jobs_of a store < max_jobs)
                        (sym own ∙ (text_eq_iff job.agent_id agent).0 k) free in
                    ground arith
                | inr k ↦ ground arith
              ])
      ]
    ]

deleted-bound :
    (ctx : CronContext) (faults : CronFaults) (store : CronStore) (id : Option Text) (agent : Text)
    → jobs_of agent (delete_of ctx faults store id).1 ≤ jobs_of agent store
unfolding delete_of delete_job
deleted-bound ctx faults store none agent = omega arith
deleted-bound ctx faults store (some id) agent =
    ground (arith, count-without (of_agent agent) (is_of id ctx.agent_id) store)

act-bound :
    {Schedule : Type 0} (schedules : Schedules Schedule) (like : Text → Text → Bool)
    (config : CronToolConfig) (ctx : CronContext) (faults : CronFaults) (id : Text) (now : ℕ)
    (store : CronStore) (args : CronArgs) (action : CronAction) (agent : Text)
    → jobs_of agent store ≤ unwrap_or config.max_jobs_per_agent 50
    → jobs_of agent (act schedules like config ctx faults id now store args action).1
      ≤ unwrap_or config.max_jobs_per_agent 50
unfolding act
act-bound schedules like config ctx faults id now store args create agent h =
    created-bound faults store (new_job schedules like config ctx faults id now store args)
      ctx.agent_id agent _
      (λ job e. new_job-ok schedules like config ctx faults id now store args job e) h
act-bound schedules like config ctx faults id now store args delete agent h =
    omega (arith, deleted-bound ctx faults store (trimmed args.id) agent)
act-bound schedules like config ctx faults id now store args list agent h = h

-- Whatever call of the tool, whoever calls and whatever fails: no agent gets more jobs than allowed.
pub execute-bound :
    {Schedule : Type 0} (schedules : Schedules Schedule) (like : Text → Text → Bool)
    (config : CronToolConfig) (ctx : CronContext) (faults : CronFaults) (id : Text) (now : ℕ)
    (store : CronStore) (args : Text ⊎ CronArgs) (agent : Text)
    → jobs_of agent store ≤ unwrap_or config.max_jobs_per_agent 50
    → jobs_of agent (execute schedules like config ctx faults id now store args).1
      ≤ unwrap_or config.max_jobs_per_agent 50
unfolding execute
execute-bound schedules like config ctx faults id now store (inl error) agent h = h
execute-bound schedules like config ctx faults id now store (inr args) agent h =
    act-bound schedules like config ctx faults id now store args args.action agent h

append-filter_ne :
    (agent : Text) (store : CronStore) (job : CronJob)
    → of_agent agent job ≡ false
    → filter_jobs (of_agent agent) (store ++ job ∷ []) ≡ filter_jobs (of_agent agent) store
unfolding filter_jobs
append-filter_ne agent [] job h = rw h refl
append-filter_ne agent (x ∷ store) job h = rw (append-filter_ne agent store job h) refl

without-filter_ne :
    (id caller agent : Text) (store : CronStore)
    → agent ≢ caller
    → filter_jobs (of_agent agent) (without (is_of id caller) store)
      ≡ filter_jobs (of_agent agent) store
unfolding filter_jobs without
without-filter_ne id caller agent [] h = refl
without-filter_ne id caller agent (x ∷ store) h = ground (
  arith,
  without-filter_ne id caller agent store h,
  text_eq_iff x.agent_id agent,
  text_eq_iff x.agent_id caller,
)

other_agent : (a b c : Text) → a ≢ b → c ≡ b → (c == a) ≡ false
other_agent a b c h e = ground arith

created-others :
    (faults : CronFaults) (store : CronStore) (r : Result CronJob) (caller agent : Text)
    → ((job : CronJob) → r ≡ ok job → job.agent_id ≡ caller)
    → agent ≢ caller
    → filter_jobs (of_agent agent) (stored faults store r).1 ≡ filter_jobs (of_agent agent) store
unfolding stored create_job
created-others faults store (err e) caller agent new h = refl
created-others faults store (ok job) caller agent new h =
    let skipped =
      append-filter_ne agent store job (other_agent agent caller job.agent_id h (new job refl)) in
    ground arith

deleted-others :
    (ctx : CronContext) (faults : CronFaults) (store : CronStore) (id : Option Text) (agent : Text)
    → agent ≢ ctx.agent_id
    → filter_jobs (of_agent agent) (delete_of ctx faults store id).1
      ≡ filter_jobs (of_agent agent) store
unfolding delete_of delete_job
deleted-others ctx faults store none agent h = refl
deleted-others ctx faults store (some id) agent h =
    let kept = without-filter_ne id ctx.agent_id agent store h in ground arith

act-others :
    {Schedule : Type 0} (schedules : Schedules Schedule) (like : Text → Text → Bool)
    (config : CronToolConfig) (ctx : CronContext) (faults : CronFaults) (id : Text) (now : ℕ)
    (store : CronStore) (args : CronArgs) (action : CronAction) (agent : Text)
    → agent ≢ ctx.agent_id
    → filter_jobs (of_agent agent) (act schedules like config ctx faults id now store args action).1
      ≡ filter_jobs (of_agent agent) store
unfolding act
act-others schedules like config ctx faults id now store args create agent h =
    created-others faults store (new_job schedules like config ctx faults id now store args)
      ctx.agent_id agent
      (λ job e. (new_job-ok schedules like config ctx faults id now store args job e).0) h
act-others schedules like config ctx faults id now store args delete agent h =
    deleted-others ctx faults store (trimmed args.id) agent h
act-others schedules like config ctx faults id now store args list agent h = refl

-- A call of one agent neither adds, changes, reorders nor removes a job of another one.
pub execute-others :
    {Schedule : Type 0} (schedules : Schedules Schedule) (like : Text → Text → Bool)
    (config : CronToolConfig) (ctx : CronContext) (faults : CronFaults) (id : Text) (now : ℕ)
    (store : CronStore) (args : Text ⊎ CronArgs) (agent : Text)
    → agent ≢ ctx.agent_id
    → filter_jobs (of_agent agent) (execute schedules like config ctx faults id now store args).1
      ≡ filter_jobs (of_agent agent) store
unfolding execute
execute-others schedules like config ctx faults id now store (inl error) agent h = refl
execute-others schedules like config ctx faults id now store (inr args) agent h =
    act-others schedules like config ctx faults id now store args args.action agent h
