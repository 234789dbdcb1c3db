-- ===== src/Cron/Scheduler.antt =====
-- src/run/cron_scheduler.rs: a tick of the scheduler. The sandbox that runs a guard's command, the channel
-- to the gateway, the trace ids and the failures of the store are inputs. No other task changes the jobs
-- during a tick.
use simple_claw.Base.{
  ℕ, ◌-◌, ◌*◌, ◌%◌, Text, lit, List, [], ◌∷◌, ◌++◌, Option, none, some, Bool, true, false, ◌&&◌,
  ◌||◌, ◌==◌, ◌⊎◌, inl, inr, leb, eqb, trim, is_empty, if◌then◌else◌,
}
use simple_claw.Base.Dict.{Dict, get}
use simple_claw.Error.{Result, ok, err}
use simple_claw.Channels.{GatewayChannelKind, discord, InboundMessage}
use simple_claw.Cron.{CronJob, CronStore, list_all_enabled, update_last_fired}
use simple_claw.Cron.Tool.{Schedules, parse_schedule, unwrap_or}

-- `RunHostCommandRequest` with the sandbox's policy of a guard: no writable paths, no network.
pub record GuardRequest : Type 0 where
  pub command : Text
  pub workspace_root : Text
  pub env : Dict Text
  pub timeout_seconds : ℕ

pub record TickInputs : Type 0 where
  pub lock_poisoned : Bool
  pub on_list : Option Text
  pub exit_code : GuardRequest → Result ℕ
  pub trace_id : CronJob → Text
  pub send_fails : CronJob → Bool
  pub on_update : CronJob → Option Text

abbrev pub second : ℕ
second = 1000000000

module _ {Schedule : Type 0} (schedules : Schedules Schedule) where
  due_after : Option ℕ → ℕ → Bool
  due_after none now = false
  due_after (some next) now = leb next now

  due_in_minute : Option ℕ → ℕ → ℕ → Bool
  due_in_minute none minute_start now = false
  due_in_minute (some next) minute_start now = leb minute_start next && leb next now

  unfoldable pub due : Option ℕ → ℕ → Text ⊎ Schedule → Bool
  unfolding due_after due_in_minute
  due last_fired_at now (inl error) = false
  due (some last_fired_at) now (inr schedule) =
      due_after (schedules.after schedule last_fired_at) now
  due none now (inr schedule) =
      let minute_start = now - now % (60 * second) in
      due_in_minute (schedules.after schedule (minute_start - second)) minute_start now

  unfoldable pub should_fire : CronJob → ℕ → Bool
  unfolding due
  should_fire job now = due job.last_fired_at now (parse_schedule schedules job.schedule)

passed : Result ℕ → Bool
passed (ok code) = eqb code 0
passed (err e) = false

unfoldable pub run_guard_command : TickInputs → Text → Text → Dict Text → ℕ → Bool
unfolding passed
run_guard_command inputs command workspace_root env timeout_seconds = passed (
    inputs.exit_code (record {
      command = command;
      workspace_root = workspace_root;
      env = env;
      timeout_seconds = timeout_seconds;
    }))

unfoldable pub parse_source_channel : Text → Option GatewayChannelKind
parse_source_channel raw = if trim raw == lit "discord" then some discord else none

abbrev max_one : ℕ → ℕ
max_one n = if eqb n 0 then 1 else n

-- Whether the guard lets the job fire.
guarded : TickInputs → Dict (Dict Text) → ℕ → CronJob → Option Text → Bool
unfolding run_guard_command
guarded inputs env_by_agent default_guard_timeout job none = true
guarded inputs env_by_agent default_guard_timeout job (some command) =
    let timeout =
      if eqb job.guard_timeout_seconds 0
      then max_one default_guard_timeout
      else job.guard_timeout_seconds in
    is_empty (trim command)
    || run_guard_command inputs command job.workspace_root
        (unwrap_or (get env_by_agent job.agent_id) []) timeout

unfoldable pub guard_passes : TickInputs → Dict (Dict Text) → ℕ → CronJob → Bool
unfolding guarded
guard_passes inputs env_by_agent default_guard_timeout job =
    guarded inputs env_by_agent default_guard_timeout job job.guard_command

unfoldable pub cron_message : Text → GatewayChannelKind → CronJob → InboundMessage
cron_message trace_id source_channel job = record {
  trace_id = trace_id;
  source_channel = source_channel;
  target_agent_id = job.agent_id;
  session_key = lit "agent:" ++ job.agent_id ++ lit ":cron:" ++ job.id ++ lit ":" ++ trace_id;
  source_message_id = none;
  channel_id = job.channel_id;
  guild_id = job.guild_id;
  is_dm = job.is_dm;
  user_id = lit "system";
  username = lit "cron";
  mentioned_bot = false;
  invoke = true;
  content =
      lit "[SCHEDULED CRON EVENT]\nJob ID: "
      ++ job.id
      ++ lit "\nDescription: "
      ++ job.description
      ++ lit "\nSchedule: "
      ++ job.schedule
      ++ lit "\n\n"
      ++ job.prompt;
}

-- The messages that a tick sends, each with its job, and the store after it.
abbrev pub Ticked : Type 0
Ticked = List (CronJob × InboundMessage) × CronStore

abbrev before : List (CronJob × InboundMessage) → Ticked → Ticked
before sent (more, store) = (sent ++ more, store)

module _ {Schedule : Type 0} (schedules : Schedules Schedule) (inputs : TickInputs)
    (env_by_agent : Dict (Dict Text)) (default_guard_timeout now : ℕ) where
  unfoldable pub send : CronJob → CronStore → Option GatewayChannelKind → Ticked
  send job store none = ([], store)
  send job store (some source_channel) = if inputs.send_fails job then ([], store) else (
    (job, cron_message (inputs.trace_id job) source_channel job) ∷ [],
    (update_last_fired (inputs.on_update job) store job.id now).1,
  )

  -- One round of the loop over the jobs.
  unfoldable pub fire : CronJob → CronStore → Ticked
  unfolding send
  fire job store =
      if should_fire schedules job now && guard_passes inputs env_by_agent default_guard_timeout job
      then send job store (parse_source_channel job.source_channel)
      else ([], store)

  unfoldable pub fire_all : List CronJob → CronStore → Ticked
  unfolding fire
  fire_all [] store = ([], store)
  fire_all (job ∷ jobs) store =
      let (sent, store') = fire job store in before sent (fire_all jobs store')

  unfoldable pub tick_jobs : CronStore → Result (List CronJob) → Ticked
  unfolding fire_all
  tick_jobs store (err e) = ([], store)
  tick_jobs store (ok jobs) = fire_all jobs store

  unfoldable pub run_tick : CronStore → Ticked
  unfolding tick_jobs
  run_tick store =
      if inputs.lock_poisoned
      then ([], store)
      else tick_jobs store (list_all_enabled inputs.on_list store)
