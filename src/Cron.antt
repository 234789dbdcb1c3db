-- ===== src/Cron.antt =====
-- src/tools/builtin/cron/store.rs: the table of scheduled jobs. The rows stand in the order in which they
-- were inserted; a statement that fails changes nothing, and its failure is an input. Times are numbers
-- of nanoseconds.
pub mod Tool
pub mod Scheduler
pub mod Bound
pub mod Fires
mod Tests
use simple_claw.Base.{
  ℕ, ◌+◌, ◌-◌, Text, lit, List, [], ◌∷◌, ◌++◌, map, Option, none, some, Bool, true, false, not,
  ◌&&◌, ◌||◌, ◌==◌, ltb, leb, length, count, any, sort_by, if◌then◌else◌,
}
use simple_claw.Error.{FrameworkError, db, Result, ok, err}

pub record CronJob : Type 0 where
  pub id : Text
  pub agent_id : Text
  pub schedule : Text
  pub description : Text
  pub prompt : Text
  pub guard_command : Option Text
  pub workspace_root : Text
  pub channel_id : Text
  pub guild_id : Option Text
  pub source_channel : Text
  pub is_dm : Bool
  pub created_by : Text
  pub created_at : ℕ
  pub last_fired_at : Option ℕ
  pub guard_timeout_seconds : ℕ
  pub enabled : Bool

abbrev pub CronStore : Type 0
CronStore = List CronJob

-- A statement of the database, unless it fails.
abbrev pub run_statement {ℓ} : {A : Type ℓ} → Option Text → A → Result A
run_statement none a = ok a
run_statement (some message) a = err (db message)

abbrev pub has_id : Text → CronJob → Bool
has_id id job = job.id == id

-- `id` is the primary key.
unfoldable pub create_job : Option Text → CronStore → CronJob → Result (Unit {0}) × CronStore
create_job (some message) store job = (err (db message), store)
create_job none store job =
    if any (has_id job.id) store
    then (err (db (lit "UNIQUE constraint failed: cron_jobs.id")), store)
    else (ok tt, store ++ job ∷ [])

abbrev pub is_of : Text → Text → CronJob → Bool
is_of id agent_id job = has_id id job && job.agent_id == agent_id

unfoldable pub without : (CronJob → Bool) → CronStore → CronStore
without p [] = []
without p (job ∷ store) = let rest = without p store in if p job then rest else job ∷ rest

unfoldable pub delete_job : Option Text → CronStore → Text → Text → Result Bool × CronStore
unfolding without
delete_job (some message) store id agent_id = (err (db message), store)
delete_job none store id agent_id =
    (ok (any (is_of id agent_id) store), without (is_of id agent_id) store)

unfoldable pub filter_jobs : (CronJob → Bool) → CronStore → List CronJob
filter_jobs p [] = []
filter_jobs p (job ∷ store) = let rest = filter_jobs p store in if p job then job ∷ rest else rest

-- `like` is SQL's `lower(column) LIKE ?2`, whose pattern holds the query.
matches : (Text → Text → Bool) → Option Text → CronJob → Bool
matches like none job = true
matches like (some query) job =
    like job.id query
    || like job.schedule query
    || like job.description query
    || like job.prompt query

newer : CronJob → CronJob → Bool
newer a b = leb b.created_at a.created_at

unfoldable pub list_jobs :
    (Text → Text → Bool) → Option Text → CronStore → Text → Option Text → Result (List CronJob)
unfolding filter_jobs matches newer
list_jobs like fault store agent_id query =
    run_statement fault (
      sort_by newer (filter_jobs (λ job. job.agent_id == agent_id && matches like query job) store))

unfoldable pub list_all_enabled : Option Text → CronStore → Result (List CronJob)
unfolding filter_jobs
list_all_enabled fault store = run_statement fault (filter_jobs (λ job. job.enabled) store)

unfoldable pub fired : Text → ℕ → CronJob → CronJob
fired id timestamp job =
    if has_id id job then record job { last_fired_at = some timestamp } else job

unfoldable pub update_last_fired :
    Option Text → CronStore → Text → ℕ → Result (Unit {0}) × CronStore
unfolding fired
update_last_fired (some message) store id timestamp = (err (db message), store)
update_last_fired none store id timestamp = (ok tt, map (fired id timestamp) store)

unfoldable pub count_jobs_for_agent : Option Text → CronStore → Text → Result ℕ
count_jobs_for_agent fault store agent_id =
    run_statement fault (count (λ job. job.agent_id == agent_id) store)
