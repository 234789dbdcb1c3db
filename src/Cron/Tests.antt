-- ===== src/Cron/Tests.antt =====
-- Two jobs of one agent, on schedules that come every minute, and the theorems applied to them.
use simple_claw.Base.{
  ◌≡◌, ◌≢◌, refl, ℕ, ◌+◌, ◌*◌, ◌/◌, ◌≤◌, ◌<◌, Text, lit, [], ◌∷◌, none, some, true, false, inl, inr,
  All, In, arith, text_discrete, is_empty, trim, trim_start, is_whitespace, show,
}
use simple_claw.Error.{ok, err, tool}
use simple_claw.Channels.{discord}
use simple_claw.Cron.{
  CronJob, CronStore, create_job, filter_jobs, list_all_enabled, update_last_fired,
  count_jobs_for_agent,
}
use simple_claw.Cron.Tool.{
  Schedules, parse_schedule, CronToolConfig, CronArgs, CronContext, CronFaults, create, created,
  execute, trimmed,
}
use simple_claw.Cron.Scheduler.{
  TickInputs, should_fire, guard_passes, parse_source_channel, cron_message, fire_all, run_tick,
  run_guard_command, fire,
}
use simple_claw.Cron.Bound.{of_agent, jobs_of, execute-bound, execute-others}
use simple_claw.Cron.Fires.{
  stamp, sent_ids, has_any, Justified, run_tick-stamp, run_tick-Justified, run_tick-again,
}

abbrev minute : ℕ
minute = 60000000000

abbrev every_minute : Schedules (Unit {0})
every_minute = record { from_str = λ t. inr tt; after = λ s t. some ((t / minute + 1) * minute) }

abbrev job : Text → CronJob
job id = record {
  id = id;
  agent_id = lit "a";
  schedule = lit "* * * * *";
  description = lit "d";
  prompt = lit "p";
  guard_command = none;
  workspace_root = lit "/w";
  channel_id = lit "c";
  guild_id = none;
  source_channel = lit "discord";
  is_dm = false;
  created_by = lit "u";
  created_at = 5;
  last_fired_at = none;
  guard_timeout_seconds = 10;
  enabled = true;
}

abbrev store : CronStore
store = job (lit "1") ∷ record (job (lit "2")) { guard_command = some (lit "false") } ∷ []

-- Each guard exits with 1.
abbrev inputs : TickInputs
inputs = record {
  lock_poisoned = false;
  on_list = none;
  exit_code = λ request. ok 1;
  trace_id = λ j. lit "t";
  send_fails = λ j. false;
  on_update = λ j. none;
}

abbrev now : ℕ
now = 123000000000

ticks : run_tick every_minute inputs [] 10 now store ≡ (
  (job (lit "1"), cron_message (lit "t") discord (job (lit "1"))) ∷ [],
  record (job (lit "1")) { last_fired_at = some now }
      ∷ record (job (lit "2")) { guard_command = some (lit "false") }
      ∷ [],
)
unfolding run_tick list_all_enabled filter_jobs fire_all fire should_fire guard_passes
    parse_source_channel update_last_fired parse_schedule lit text_discrete is_empty trim trim_start
    is_whitespace run_guard_command
ticks = refl

abbrev ctx : Text → CronContext
ctx agent_id = record {
  agent_id = agent_id;
  user_id = lit "u";
  workspace_root = lit "/w";
  completion_route = some (record {
    trace_id = lit "t";
    source_channel = discord;
    target_agent_id = agent_id;
    session_key = lit "s";
    source_message_id = none;
    channel_id = lit "c";
    guild_id = none;
    is_dm = false;
  });
}

abbrev args : CronArgs
args = record {
  action = create;
  schedule = some (lit " * * * * * ");
  description = some (lit "d");
  prompt = some (lit "p");
  guard_command = none;
  id = none;
  query = none;
}

abbrev config : CronToolConfig
config = record { max_jobs_per_agent = some 2; guard_timeout_seconds = none }

abbrev faults : CronFaults
faults = record { poisoned = false; on_count = none; on_statement = none }

creates_and_refuses :
    (execute every_minute (λ a b. false) config (ctx (lit "b")) faults (lit "3") 5 store (inr args)
      ≡ (
        ok (created (record (job (lit "3")) { agent_id = lit "b" })),
        job (lit "1")
            ∷ record (job (lit "2")) { guard_command = some (lit "false") }
            ∷ record (job (lit "3")) { agent_id = lit "b" }
            ∷ [],
      ))
    × (execute every_minute
          (λ a b. false)
          config
          (ctx (lit "a"))
          faults
          (lit "3")
          5
          store
          (inr args)
        ≡ (err (tool (lit "cron create rejected: max jobs per agent (2) reached")), store))
unfolding execute create_job count_jobs_for_agent parse_schedule trimmed lit text_discrete is_empty
    trim trim_start is_whitespace show
creates_and_refuses = (refl, refl)

execute-bound_example :
    jobs_of
      (lit "a")
      (execute every_minute
        (λ a b. false)
        config
        (ctx (lit "a"))
        faults
        (lit "3")
        5
        store
        (inr args)).1
    ≤ 2
unfolding lit text_discrete
execute-bound_example =
    execute-bound every_minute (λ a b. false) config (ctx (lit "a")) faults (lit "3") 5 store
      (inr args) (lit "a") (omega arith)

b_is_not_a : lit "a" ≢ lit "b"
unfolding lit
b_is_not_a = λ h. ground arith

execute-others_example :
    filter_jobs
      (of_agent (lit "a"))
      (execute every_minute
        (λ a b. false)
        config
        (ctx (lit "b"))
        faults
        (lit "3")
        5
        store
        (inr args)).1
    ≡ filter_jobs (of_agent (lit "a")) store
execute-others_example =
    execute-others every_minute (λ a b. false) config (ctx (lit "b")) faults (lit "3") 5 store
      (inr args) (lit "a") b_is_not_a

run_tick-stamp_example :
    (run_tick every_minute inputs [] 10 now store).1
    ≡ stamp (sent_ids (run_tick every_minute inputs [] 10 now store).0) now store
run_tick-stamp_example = run_tick-stamp every_minute inputs [] 10 now (λ j. refl) store

run_tick-Justified_example :
    All
      (Justified every_minute inputs [] 10 now store)
      (run_tick every_minute inputs [] 10 now store).0
run_tick-Justified_example = run_tick-Justified every_minute inputs [] 10 now store

later : (schedule : Unit {0}) (t next : ℕ) → every_minute.after schedule t ≡ some next → t < next
later schedule t next h = ground arith

abbrev fired_job : CronJob
fired_job = record (job (lit "1")) { last_fired_at = some now }

there : In fired_job (run_tick every_minute inputs [] 10 now store).1
unfolding run_tick list_all_enabled filter_jobs fire_all fire should_fire guard_passes
    parse_source_channel update_last_fired parse_schedule lit text_discrete is_empty trim trim_start
    is_whitespace run_guard_command
there = inl refl

sent_first : has_any fired_job.id (sent_ids (run_tick every_minute inputs [] 10 now store).0) ≡ true
unfolding run_tick list_all_enabled filter_jobs fire_all fire should_fire guard_passes
    parse_source_channel update_last_fired parse_schedule lit text_discrete is_empty trim trim_start
    is_whitespace run_guard_command has_any
sent_first = refl

due_next_minute : should_fire every_minute fired_job 185000000000 ≡ true
unfolding should_fire parse_schedule
due_next_minute = refl

run_tick-again_example :
    (schedule : Unit {0}) × (next : ℕ) × (parse_schedule every_minute fired_job.schedule
      ≡ inr schedule)
    × (every_minute.after schedule now ≡ some next)
    × (now < next)
    × (next ≤ 185000000000)
run_tick-again_example =
    run_tick-again every_minute inputs [] 10 now 185000000000 store fired_job (λ j. refl) later
      there sent_first due_next_minute
