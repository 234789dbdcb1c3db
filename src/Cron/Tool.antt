-- ===== src/Cron/Tool.antt =====
-- `CronTool` of src/tools/builtin/cron/mod.rs. What serde reads of the arguments, the lock, the new id and
-- the clock are inputs; the `cron` library is a parameter (`Schedules`).
use simple_claw.Base.{
  ℕ, zero, suc, Text, lit, List, ◌++◌, Option, none, some, Bool, true, false, ◌⊎◌, inl, inr, words,
  leb, eqb, trim, is_empty, show, if◌then◌else◌,
}
use simple_claw.Error.{tool, Result, ok, err, ◌>>=◌, ok_or}
use simple_claw.Channels.{GatewayChannelKind, discord}
use simple_claw.Runs.{CompletionRoute}
use simple_claw.Cron.{CronJob, CronStore, create_job, delete_job, list_jobs, count_jobs_for_agent}

-- What is used of the `cron` library: a schedule's text, and the first time of it after a given one.
pub record Schedules (Schedule : Type 0) : Type 0 where
  pub from_str : Text → Text ⊎ Schedule
  pub after : Schedule → ℕ → Option ℕ

module _ {Schedule : Type 0} (schedules : Schedules Schedule) where
  five_fields : Text → Text ⊎ Schedule → Text ⊎ Schedule
  unfolding words
  five_fields raw (inr schedule) = inr schedule
  five_fields raw (inl error) =
      if eqb (words false raw) 5 then schedules.from_str (lit "0 " ++ raw) else inl error

  unfoldable pub parse_schedule : Text → Text ⊎ Schedule
  unfolding five_fields
  parse_schedule raw = five_fields raw (schedules.from_str raw)

pub record CronToolConfig : Type 0 where
  pub max_jobs_per_agent : Option ℕ
  pub guard_timeout_seconds : Option ℕ

pub data CronAction : Type 0 where
  create delete list : CronAction

pub record CronArgs : Type 0 where
  pub action : CronAction
  pub schedule : Option Text
  pub description : Option Text
  pub prompt : Option Text
  pub guard_command : Option Text
  pub id : Option Text
  pub query : Option Text

-- What is used of `ToolExecEnv`, with the paths as texts.
pub record CronContext : Type 0 where
  pub agent_id : Text
  pub user_id : Text
  pub workspace_root : Text
  pub completion_route : Option CompletionRoute

-- The fields of the JSON object that is answered.
pub data CronAnswer : Type 0 where
  created : CronJob → CronAnswer
  deleted : Bool → Text → CronAnswer
  jobs : List CronJob → CronAnswer

-- What fails in a call: the lock, and the statements.
pub record CronFaults : Type 0 where
  pub poisoned : Bool
  pub on_count : Option Text
  pub on_statement : Option Text

abbrev kept : Text → Option Text
kept t = if is_empty t then none else some t

-- `.map(str::trim).filter(|value| !value.is_empty())`
unfoldable pub trimmed : Option Text → Option Text
trimmed none = none
trimmed (some t) = kept (trim t)

abbrev pub unwrap_or {ℓ} : {A : Type ℓ} → Option A → A → A
unwrap_or none a = a
unwrap_or (some b) a = b

abbrev at_least_one : ℕ → ℕ
at_least_one zero = 1
at_least_one (suc n) = suc n

abbrev lock_store : CronFaults → Result (Unit {0})
lock_store faults = if faults.poisoned then err (tool (lit "cron store lock poisoned")) else ok tt

source_channel_text : GatewayChannelKind → Text
source_channel_text discord = lit "discord"

checked_schedule : {Schedule : Type 0} → Text → Text ⊎ Schedule → Result (Unit {0})
checked_schedule schedule (inr _) = ok tt
checked_schedule schedule (inl error) =
    err (tool (lit "invalid cron schedule '" ++ schedule ++ lit "': " ++ error))

answered {ℓ} :
    {A : Type ℓ} → (A → CronAnswer) → Result A × CronStore → Result CronAnswer × CronStore
answered answer (ok a, store) = (ok (answer a), store)
answered answer (err e, store) = (err e, store)

unfoldable pub stored : CronFaults → CronStore → Result CronJob → Result CronAnswer × CronStore
unfolding answered
stored faults store (err e) = (err e, store)
stored faults store (ok job) =
    answered (λ _. created job) (create_job faults.on_statement store job)

unfoldable pub delete_of :
    CronContext → CronFaults → CronStore → Option Text → Result CronAnswer × CronStore
unfolding answered
delete_of ctx faults store none = (err (tool (lit "cron delete requires non-empty id")), store)
delete_of ctx faults store (some id) =
    if faults.poisoned
    then (err (tool (lit "cron store lock poisoned")), store)
    else answered (λ found. deleted found id) (delete_job faults.on_statement store id ctx.agent_id)

module _ {Schedule : Type 0} (schedules : Schedules Schedule) (like : Text → Text → Bool) where
  -- The job that `CronAction::Create` stores, with the checks before it.
  unfoldable pub new_job :
      CronToolConfig → CronContext → CronFaults → Text → ℕ → CronStore → CronArgs → Result CronJob
  unfolding checked_schedule source_channel_text trimmed parse_schedule
  new_job config ctx faults id now store args =
      let max_jobs = unwrap_or config.max_jobs_per_agent 50 in
      ok_or ctx.completion_route
        (tool (lit "cron create unavailable: completion route context is missing"))
      >>= λ route.
          ok_or (trimmed args.schedule) (tool (lit "cron create requires non-empty schedule"))
          >>= λ schedule. checked_schedule schedule (parse_schedule schedules schedule) >>= λ _.
              ok_or (trimmed args.description)
                (tool (lit "cron create requires non-empty description"))
              >>= λ description.
                  ok_or (trimmed args.prompt) (tool (lit "cron create requires non-empty prompt"))
                  >>= λ prompt. lock_store faults >>= λ _.
                      count_jobs_for_agent faults.on_count store ctx.agent_id >>= λ current_count.
                      if leb max_jobs current_count
                      then err (
                          tool (
                            lit "cron create rejected: max jobs per agent ("
                            ++ show max_jobs
                            ++ lit ") reached"))
                      else ok (record {
                        id = id;
                        agent_id = ctx.agent_id;
                        schedule = schedule;
                        description = description;
                        prompt = prompt;
                        guard_command = trimmed args.guard_command;
                        workspace_root = ctx.workspace_root;
                        channel_id = route.channel_id;
                        guild_id = route.guild_id;
                        source_channel = source_channel_text route.source_channel;
                        is_dm = route.is_dm;
                        created_by = ctx.user_id;
                        created_at = now;
                        last_fired_at = none;
                        guard_timeout_seconds =
                            at_least_one (unwrap_or config.guard_timeout_seconds 10);
                        enabled = true;
                      })

  unfoldable pub act :
      CronToolConfig
      → CronContext
      → CronFaults
      → Text
      → ℕ
      → CronStore
      → CronArgs
      → CronAction
      → Result CronAnswer × CronStore
  unfolding new_job stored delete_of trimmed
  act config ctx faults id now store args create =
      stored faults store (new_job config ctx faults id now store args)
  act config ctx faults id now store args delete = delete_of ctx faults store (trimmed args.id)
  act config ctx faults id now store args list = (
    (lock_store faults >>= λ _.
        list_jobs like faults.on_statement store ctx.agent_id (trimmed args.query) >>= λ found.
        ok (jobs found)),
    store,
  )

  -- `execute`; `args` is what serde makes of the text, or its error.
  unfoldable pub execute :
      CronToolConfig
      → CronContext
      → CronFaults
      → Text
      → ℕ
      → CronStore
      → Text ⊎ CronArgs
      → Result CronAnswer × CronStore
  unfolding act
  execute config ctx faults id now store (inl error) =
      (err (tool (lit "cron args must be valid JSON object: " ++ error)), store)
  execute config ctx faults id now store (inr args) =
      act config ctx faults id now store args args.action
