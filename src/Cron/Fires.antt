-- ===== src/Cron/Fires.antt =====
-- What a tick of src/run/cron_scheduler.rs sends, and what it leaves in the store.
use simple_claw.Base.{
  ◌≡◌, refl, sym, ap, subst, ◌∙◌, ℕ, ◌≤◌, ◌<◌, Text, List, [], ◌∷◌, ◌++◌, map, Option, none, some,
  Bool, true, false, ◌&&◌, ◌||◌, ◌==◌, All, All-append, In, arith, ◌⊎◌, inl, inr, Bool-cases,
  Option-cases, if◌then◌else◌,
}
use simple_claw.Base.Dict.{Dict}
use simple_claw.Error.{Result, ok, err}
use simple_claw.Channels.{GatewayChannelKind, discord, InboundMessage}
use simple_claw.Cron.{CronJob, CronStore, filter_jobs, fired, list_all_enabled, update_last_fired}
use simple_claw.Cron.Tool.{Schedules, parse_schedule}
use simple_claw.Cron.Scheduler.{
  TickInputs, should_fire, guard_passes, parse_source_channel, cron_message, fire, due, fire_all,
  run_tick, tick_jobs, send,
}

unfoldable pub has_any : Text → List Text → Bool
has_any id [] = false
has_any id (x ∷ ids) = id == x || has_any id ids

stamped : List Text → ℕ → CronJob → CronJob
stamped ids now job = if has_any job.id ids then record job { last_fired_at = some now } else job

-- The jobs with these ids have been fired at this time.
pub stamp : List Text → ℕ → CronStore → CronStore
unfolding stamped
stamp ids now [] = []
stamp ids now (job ∷ store) = stamped ids now job ∷ stamp ids now store

abbrev pub sent_ids : List (CronJob × InboundMessage) → List Text
sent_ids [] = []
sent_ids ((job, message) ∷ sent) = job.id ∷ sent_ids sent

sent_ids-append :
    (a b : List (CronJob × InboundMessage)) → sent_ids (a ++ b) ≡ sent_ids a ++ sent_ids b
sent_ids-append [] b = refl
sent_ids-append ((job, message) ∷ a) b = ap (λ l. job.id ∷ l) (sent_ids-append a b)

stamp-nil : (now : ℕ) (store : CronStore) → stamp [] now store ≡ store
unfolding stamp stamped has_any
stamp-nil now [] = refl
stamp-nil now (job ∷ store) = ap (λ l. job ∷ l) (stamp-nil now store)

has_any-append : (id : Text) (a b : List Text) → has_any id (a ++ b) ≡ has_any id a || has_any id b
unfolding has_any
has_any-append id [] b = refl
has_any-append id (x ∷ a) b = ground (arith, has_any-append id a b)

stamped-stamped :
    (a b : List Text) (now : ℕ) (job : CronJob)
    → stamped b now (stamped a now job) ≡ stamped (a ++ b) now job
unfolding stamped
stamped-stamped a b now job = elim (Bool-cases (has_any job.id a)) [
  | inl e ↦ elim (Bool-cases (has_any job.id b)) [
    | inl f ↦ rw (has_any-append job.id a b, e, f) refl
    | inr f ↦ rw (has_any-append job.id a b, e, f) refl
  ]
  | inr e ↦ rw (has_any-append job.id a b, e) refl
]

stamp-stamp :
    (a b : List Text) (now : ℕ) (store : CronStore)
    → stamp b now (stamp a now store) ≡ stamp (a ++ b) now store
unfolding stamp
stamp-stamp a b now [] = refl
stamp-stamp a b now (job ∷ store) = rw (stamped-stamped a b now job, stamp-stamp a b now store) refl

fired-stamp :
    (id : Text) (now : ℕ) (store : CronStore) → map (fired id now) store ≡ stamp (id ∷ []) now store
unfolding stamp stamped fired has_any
fired-stamp id now [] = refl
fired-stamp id now (job ∷ store) = elim (Bool-cases (job.id == id)) [
  | inl e ↦ rw (e, fired-stamp id now store) refl
  | inr e ↦ rw (e, fired-stamp id now store) refl
]

module _ {Schedule : Type 0} (schedules : Schedules Schedule) (inputs : TickInputs)
    (env_by_agent : Dict (Dict Text)) (default_guard_timeout now : ℕ)
    (updates : (job : CronJob) → inputs.on_update job ≡ none) where
  send-stamp :
      (job : CronJob) (store : CronStore) (source_channel : Option GatewayChannelKind)
      → (send schedules inputs env_by_agent default_guard_timeout now job store source_channel).1
        ≡ stamp
            (sent_ids
              (send schedules inputs env_by_agent default_guard_timeout now job store
                source_channel).0)
            now
            store
  unfolding send update_last_fired
  send-stamp job store none = sym (stamp-nil now store)
  send-stamp job store (some channel) = elim (Bool-cases (inputs.send_fails job)) [
    | inl e ↦ rw e (sym (stamp-nil now store))
    | inr e ↦ rw (e, updates job) (fired-stamp job.id now store)
  ]

  fire-stamp :
      (job : CronJob) (store : CronStore)
      → (fire schedules inputs env_by_agent default_guard_timeout now job store).1
        ≡ stamp
            (sent_ids (fire schedules inputs env_by_agent default_guard_timeout now job store).0)
            now
            store
  unfolding fire
  fire-stamp job store =
      elim (Bool-cases (
        should_fire schedules job now
        && guard_passes inputs env_by_agent default_guard_timeout job)) [
          | inl e ↦ rw e (send-stamp job store (parse_source_channel job.source_channel))
          | inr e ↦ rw e (sym (stamp-nil now store))
        ]

  fire_all-stamp :
      (jobs : List CronJob) (store : CronStore)
      → (fire_all schedules inputs env_by_agent default_guard_timeout now jobs store).1
        ≡ stamp
            (sent_ids
              (fire_all schedules inputs env_by_agent default_guard_timeout now jobs store).0)
            now
            store
  unfolding fire_all
  fire_all-stamp [] store = sym (stamp-nil now store)
  fire_all-stamp (job ∷ jobs) store =
      let first = fire schedules inputs env_by_agent default_guard_timeout now job store in
      let rest = fire_all schedules inputs env_by_agent default_guard_timeout now jobs first.1 in
      fire_all-stamp jobs first.1
      ∙ ap (stamp (sent_ids rest.0) now) (fire-stamp job store)
      ∙ stamp-stamp (sent_ids first.0) (sent_ids rest.0) now store
      ∙ ap (λ ids. stamp ids now store) (sym (sent_ids-append first.0 rest.0))

  ticked :
      (poisoned : Bool) (store : CronStore) (r : Result (List CronJob))
      → let t =
          if poisoned
          then ([], store)
          else tick_jobs schedules inputs env_by_agent default_guard_timeout now store r in
        t.1 ≡ stamp (sent_ids t.0) now store
  unfolding tick_jobs
  ticked true store r = sym (stamp-nil now store)
  ticked false store (err e) = sym (stamp-nil now store)
  ticked false store (ok jobs) = fire_all-stamp jobs store

  -- When the updates of the store succeed, a tick changes the jobs for which it has sent a message, and
  -- these only in that they have been fired at the time of the tick.
  pub run_tick-stamp :
      (store : CronStore)
      → (run_tick schedules inputs env_by_agent default_guard_timeout now store).1
        ≡ stamp
            (sent_ids (run_tick schedules inputs env_by_agent default_guard_timeout now store).0)
            now
            store
  unfolding run_tick
  run_tick-stamp store = ticked inputs.lock_poisoned store (list_all_enabled inputs.on_list store)

and-true : (a b : Bool) → (a && b) ≡ true → (a ≡ true) × (b ≡ true)
and-true a b h = (ground arith, ground arith)

filter_jobs-All :
    (p : CronJob → Bool) (P : CronJob → Type 0) (jobs : CronStore)
    → ((job : CronJob) → In job jobs → p job ≡ true → P job)
    → All P (filter_jobs p jobs)
unfolding filter_jobs
filter_jobs-All p P [] h = tt
filter_jobs-All p P (job ∷ jobs) h =
    let rest = filter_jobs-All p P jobs (λ j i e. h j (inr i) e) in
    elim (Bool-cases (p job)) [ inl e ↦ rw e (h job (inl refl) e, rest) | inr e ↦ rw e rest ]

-- Why a message is sent.
abbrev pub Justified :
    {Schedule : Type 0}
    → Schedules Schedule
    → TickInputs
    → Dict (Dict Text)
    → ℕ
    → ℕ
    → CronStore
    → CronJob × InboundMessage
    → Type 0
Justified schedules inputs env_by_agent default_guard_timeout now store (job, message) =
    In job store
    × (job.enabled ≡ true)
    × (should_fire schedules job now ≡ true)
    × (guard_passes inputs env_by_agent default_guard_timeout job ≡ true)
    × (message ≡ cron_message (inputs.trace_id job) discord job)

module _ {Schedule : Type 0} (schedules : Schedules Schedule) (inputs : TickInputs)
    (env_by_agent : Dict (Dict Text)) (default_guard_timeout now : ℕ) (store : CronStore) where
  send-Justified :
      (job : CronJob) (store' : CronStore) (source_channel : Option GatewayChannelKind)
      → In job store
      → job.enabled ≡ true
      → should_fire schedules job now ≡ true
      → guard_passes inputs env_by_agent default_guard_timeout job ≡ true
      → All
          (Justified schedules inputs env_by_agent default_guard_timeout now store)
          (send schedules inputs env_by_agent default_guard_timeout now job store' source_channel).0
  unfolding send
  send-Justified job store' none i e f g = tt
  send-Justified job store' (some discord) i e f g = elim (Bool-cases (inputs.send_fails job)) [
    | inl failed ↦ rw failed tt
    | inr sent ↦ rw sent ((i, e, f, g, refl), tt)
  ]

  fired-Justified :
      (job : CronJob) (store' : CronStore)
      → In job store
      → job.enabled ≡ true
      → All
          (Justified schedules inputs env_by_agent default_guard_timeout now store)
          (fire schedules inputs env_by_agent default_guard_timeout now job store').0
  unfolding fire
  fired-Justified job store' i e =
      let f = should_fire schedules job now in
      let g = guard_passes inputs env_by_agent default_guard_timeout job in
      elim (Bool-cases (f && g)) [
        | inl both ↦ rw both (
            send-Justified job store' (parse_source_channel job.source_channel) i e
              (and-true f g both).0 (and-true f g both).1)
        | inr not_both ↦ rw not_both tt
      ]

  fire_all-Justified :
      (jobs : List CronJob) (store' : CronStore)
      → All (λ job. In job store × (job.enabled ≡ true)) jobs
      → All
          (Justified schedules inputs env_by_agent default_guard_timeout now store)
          (fire_all schedules inputs env_by_agent default_guard_timeout now jobs store').0
  unfolding fire_all
  fire_all-Justified [] store' h = tt
  fire_all-Justified (job ∷ jobs) store' ((i, e), hs) =
      All-append _ _ _ (fired-Justified job store' i e) (
        fire_all-Justified jobs
          (fire schedules inputs env_by_agent default_guard_timeout now job store').1 hs)

  ticked-Justified :
      (poisoned : Bool) (fault : Option Text)
      → All
          (Justified schedules inputs env_by_agent default_guard_timeout now store)
          (if poisoned
            then ([], store)
            else tick_jobs schedules inputs env_by_agent default_guard_timeout now store
                (list_all_enabled fault store)).0
  unfolding tick_jobs list_all_enabled
  ticked-Justified true fault = tt
  ticked-Justified false (some message) = tt
  ticked-Justified false none = fire_all-Justified (filter_jobs (λ job. job.enabled) store) store (
      filter_jobs-All (λ job. job.enabled) (λ job. In job store × (job.enabled ≡ true)) store
        (λ job i e. (i, e)))

  -- Each message that a tick sends is that of a job in the store that is enabled, that is due at the time
  -- of the tick by its schedule, and whose guard has let it fire.
  pub run_tick-Justified :
      All
        (Justified schedules inputs env_by_agent default_guard_timeout now store)
        (run_tick schedules inputs env_by_agent default_guard_timeout now store).0
  unfolding run_tick
  run_tick-Justified = ticked-Justified inputs.lock_poisoned inputs.on_list

stamped-id : (ids : List Text) (now : ℕ) (job : CronJob) → (stamped ids now job).id ≡ job.id
unfolding stamped
stamped-id ids now job = elim (Bool-cases (has_any job.id ids)) [
  | inl e ↦ rw e refl
  | inr e ↦ rw e refl
]

stamped-last :
    (ids : List Text) (now : ℕ) (job : CronJob)
    → has_any job.id ids ≡ true
    → (stamped ids now job).last_fired_at ≡ some now
unfolding stamped
stamped-last ids now job e = rw e refl

stamped-In :
    (ids : List Text) (now : ℕ) (store : CronStore) (job : CronJob)
    → In job (stamp ids now store)
    → has_any job.id ids ≡ true
    → job.last_fired_at ≡ some now
unfolding stamp
stamped-In ids now [] job h k = absurd h
stamped-In ids now (j ∷ store) job (inr h) k = stamped-In ids now store job h k
stamped-In ids now (j ∷ store) job (inl h) k =
    let same : j.id ≡ job.id = sym (stamped-id ids now j) ∙ ap (λ (x : CronJob). x.id) h in
    ap (λ (x : CronJob). x.last_fired_at) (sym h)
    ∙ stamped-last ids now j (ap (λ id. has_any id ids) same ∙ k)

due-next :
    {Schedule : Type 0} (schedules : Schedules Schedule) (fired_at : Option ℕ) (last now : ℕ)
    (parsed : Text ⊎ Schedule)
    → fired_at ≡ some last
    → due schedules fired_at now parsed ≡ true
    → (schedule : Schedule) × (next : ℕ) × (parsed ≡ inr schedule)
      × (schedules.after schedule last ≡ some next)
      × (next ≤ now)
unfolding due
due-next schedules none last now parsed e h = absurd (ground arith)
due-next schedules (some t) last now (inl error) e h = absurd (ground arith)
due-next schedules (some t) last now (inr schedule) e h =
    elim (Option-cases (schedules.after schedule t)) [
      | inl f ↦ absurd (ground arith)
      | inr (next, f) ↦ (
        schedule,
        next,
        refl,
        (let same : t ≡ last = ground arith in
            subst (λ x. schedules.after schedule x ≡ some next) same f),
        ground arith,
      )
    ]

-- When the updates of the store succeed: a job for which a tick has sent a message is due again only by a
-- later time of its schedule, if the schedules give later times only.
pub run_tick-again :
    {Schedule : Type 0} (schedules : Schedules Schedule) (inputs : TickInputs)
    (env_by_agent : Dict (Dict Text)) (default_guard_timeout now now' : ℕ) (store : CronStore)
    (job : CronJob)
    → ((j : CronJob) → inputs.on_update j ≡ none)
    → ((schedule : Schedule) (t next : ℕ) → schedules.after schedule t ≡ some next → t < next)
    → let ticked = run_tick schedules inputs env_by_agent default_guard_timeout now store in
      In job ticked.1
      → has_any job.id (sent_ids ticked.0) ≡ true
      → should_fire schedules job now' ≡ true
      → (schedule : Schedule) × (next : ℕ) × (parse_schedule schedules job.schedule ≡ inr schedule)
        × (schedules.after schedule now ≡ some next)
        × (now < next)
        × (next ≤ now')
unfolding should_fire
run_tick-again schedules inputs env_by_agent default_guard_timeout now now' store job updates later
      i k f =
    let ticked = run_tick schedules inputs env_by_agent default_guard_timeout now store in
    let last : job.last_fired_at ≡ some now =
      stamped-In (sent_ids ticked.0) now store job
        (subst (In job)
          (run_tick-stamp schedules inputs env_by_agent default_guard_timeout now updates store) i)
        k in
    let (schedule, next, parsed, after, reached) =
      due-next schedules job.last_fired_at now now' (parse_schedule schedules job.schedule) last
        f in
    (schedule, next, parsed, after, later schedule now next after, reached)
