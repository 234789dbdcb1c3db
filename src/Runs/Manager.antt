-- ===== src/Runs/Manager.antt =====
-- `AsyncToolRunManager` of src/tools/async_tool_manager.rs: starting and evicting
-- runs. A method holds the lock throughout, and is one step.
use simple_claw.Base.{
  ℕ, ◌+◌, ◌-◌, ◌%◌, ◌^◌, Text, lit, show, show_i64, List, [], ◌∷◌, ◌++◌, length, take, Option, none,
  some, Bool, false, not, leb, if◌then◌else◌, sort_by,
}
use simple_claw.Base.Dict
use simple_claw.Base.Dict.{Dict}
use simple_claw.Error.{tool, Result, ok, err, ◌>>◌}
use simple_claw.Runs.{
  process, delegated, running, is_running, AsyncToolRunEntry, StartedAsyncToolRun,
}

pub record AsyncToolRunManager : Type 0 where
  pub runs : Dict AsyncToolRunEntry
  pub counter : ℕ

unfoldable pub new : AsyncToolRunManager
new = record { runs = []; counter = 1 }

abbrev pub max_completed : ℕ
max_completed = 64

-- Whether a run has ended: its status is not `Running`.
unfoldable pub ended : AsyncToolRunEntry → Bool
unfolding is_running
ended e = not (is_running e.status)

abbrev or_else : Option ℕ → ℕ → ℕ
or_else none t = t
or_else (some t) _ = t

-- The runs that ended, with the instants by which they are evicted.
unfoldable pub completed_runs : Dict AsyncToolRunEntry → List (Text × ℕ)
unfolding ended
completed_runs [] = []
completed_runs ((id, e) ∷ m) =
    let rest = completed_runs m in
    if ended e then (id, or_else e.finished_at e.started_at) ∷ rest else rest

unfoldable pub remove_all : Dict AsyncToolRunEntry → List (Text × ℕ) → Dict AsyncToolRunEntry
remove_all m [] = m
remove_all m ((id, t) ∷ ids) = remove_all (Dict.remove m id) ids

abbrev pub earlier : Text × ℕ → Text × ℕ → Bool
earlier a b = leb a.1 b.1

-- The runs that `auto_evict` removes: none, as long as at most 64 ended.
unfoldable pub evicted : Dict AsyncToolRunEntry → List (Text × ℕ)
unfolding completed_runs
evicted m =
    let completed = completed_runs m in
    take (length completed - max_completed) (sort_by earlier completed)

unfoldable pub auto_evict : Dict AsyncToolRunEntry → Dict AsyncToolRunEntry
unfolding evicted remove_all
auto_evict m = remove_all m (evicted m)

-- What starting a process meets outside: the clock, the directory for logs, and the outcomes of
-- making it, of making the two logs, and of starting the command, which gives a pid.
pub record Launch : Type 0 where
  pub millis : ℕ
  pub started_at : ℕ
  pub base : Text
  pub create_dir_all : Option Text
  pub create_file : Text → Option Text
  pub spawn : Result ℕ

check_io : Text → Option Text → Result {0} Unit
check_io what none = ok tt
check_io what (some e) = err (tool (what ++ e))

abbrev pub run_id_of : ℕ → ℕ → Text
run_id_of millis seq = lit "async-tool-run-" ++ show_i64 millis ++ b'-' ∷ show seq

abbrev pub log_path : Launch → Text → Text → Text
log_path l run_id suffix = l.base ++ b'/' ∷ run_id ++ suffix

-- `fetch_add`: the next number, whether or not the start succeeds.
abbrev counted : AsyncToolRunManager → AsyncToolRunManager
counted self = record self { counter = (self.counter + 1) % 2 ^ 64 }

insert_run : AsyncToolRunManager → Text → AsyncToolRunEntry → AsyncToolRunManager
unfolding auto_evict
insert_run self run_id entry = record self {
  runs = auto_evict (Dict.insert self.runs run_id entry);
}

unfoldable pub process_entry : Launch → Text → Text → Text → Text → Text → ℕ → AsyncToolRunEntry
process_entry l run_id tool_name command agent_id session_key pid = record {
  tool_name = tool_name;
  kind = process;
  summary = command;
  agent_id = agent_id;
  session_key = session_key;
  status = running;
  started_at = l.started_at;
  finished_at = none;
  claimed = false;
  process_state = some (record {
    command = command;
    pid = some pid;
    stdout_path = log_path l run_id (lit ".stdout.log");
    stderr_path = log_path l run_id (lit ".stderr.log");
    exit_code = none;
  });
  delegated_state = none;
}

-- The logs are made and the command started, in the order of the code's `?`s.
unfoldable pub launched : Launch → Text → Result ℕ
unfolding check_io
launched l run_id = do
  check_io (lit "exec failed to create temp dir: ") l.create_dir_all
  check_io (lit "exec failed to create stdout log: ")
      (l.create_file (log_path l run_id (lit ".stdout.log")))
  check_io (lit "exec failed to create stderr log: ")
      (l.create_file (log_path l run_id (lit ".stderr.log")))
  l.spawn

start_launched :
    AsyncToolRunManager
    → Launch
    → Text
    → (Text × Text)
    → (Text × Text)
    → Result ℕ
    → Result StartedAsyncToolRun × AsyncToolRunManager
unfolding insert_run process_entry
start_launched self l run_id (tool_name, command) (agent_id, session_key) (err e) = (err e, self)
start_launched self l run_id (tool_name, command) (agent_id, session_key) (ok pid) = (
  ok (record { run_id = run_id; tool_name = tool_name; kind = process }),
  insert_run self run_id (process_entry l run_id tool_name command agent_id session_key pid),
)

-- The pairs are the tool and its command, and the agent and its session.
unfoldable pub start_process :
    AsyncToolRunManager
    → Launch
    → (Text × Text)
    → (Text × Text)
    → Result StartedAsyncToolRun × AsyncToolRunManager
unfolding start_launched launched
start_process self l what whose =
    let run_id = run_id_of l.millis self.counter in
    start_launched (counted self) l run_id what whose (launched l run_id)

-- The same steps, where the command that `spawn` starts is the prepared one.
unfoldable pub start_prepared_process :
    AsyncToolRunManager
    → Launch
    → Text × Text
    → Text × Text
    → Result StartedAsyncToolRun × AsyncToolRunManager
unfolding start_process
start_prepared_process self l what whose = start_process self l what whose

unfoldable pub delegated_entry : ℕ → Text → Text → Text → Text → AsyncToolRunEntry
delegated_entry started_at tool_name request agent_id session_key = record {
  tool_name = tool_name;
  kind = delegated;
  summary = request;
  agent_id = agent_id;
  session_key = session_key;
  status = running;
  started_at = started_at;
  finished_at = none;
  claimed = false;
  process_state = none;
  delegated_state = some (record { request = request; reply = none; error = none });
}

-- The two instants are the one in the run id and the start.
unfoldable pub start_delegated :
    AsyncToolRunManager
    → (ℕ × ℕ)
    → (Text × Text)
    → (Text × Text)
    → StartedAsyncToolRun × AsyncToolRunManager
unfolding insert_run delegated_entry
start_delegated self (millis, started_at) (tool_name, request) (agent_id, session_key) =
    let run_id = run_id_of millis self.counter in
    (
      record { run_id = run_id; tool_name = tool_name; kind = delegated },
      insert_run (counted self) run_id
          (delegated_entry started_at tool_name request agent_id session_key),
    )
