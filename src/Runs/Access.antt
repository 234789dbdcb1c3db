-- ===== src/Runs/Access.antt =====
-- Reading and killing runs, of one's own session where the method asks for it, in
-- src/tools/async_tool_manager.rs.
use simple_claw.Base.{Text, lit, List, [], ◌∷◌, ◌++◌, Bool, leb, if◌then◌else◌, sort_by}
use simple_claw.Base.Dict
use simple_claw.Base.Dict.{Dict}
use simple_claw.Error.{FrameworkError, tool, Result, ok, err, ◌>>=◌, ok_or}
use simple_claw.Runs.{
  AsyncToolRunEntry, AsyncToolRunSnapshot, Tails, snapshot, belongs_to, Killing, kill,
}
use simple_claw.Runs.Manager.{AsyncToolRunManager}

unfoldable pub get : Tails → AsyncToolRunManager → Text → Result AsyncToolRunSnapshot
get tail self run_id = do
  entry ← ok_or (Dict.get self.runs run_id) (tool (lit "unknown async tool run_id: " ++ run_id))
  ok (snapshot tail entry run_id)

abbrev pub unknown_run : Text → FrameworkError
unknown_run run_id = tool (lit "unknown background run_id: " ++ run_id)

unfoldable pub own_entry : AsyncToolRunManager → Text → Text → Text → Result AsyncToolRunEntry
unfolding belongs_to
own_entry self run_id agent_id session_key = do
  entry ← ok_or (Dict.get self.runs run_id) (unknown_run run_id)
  if belongs_to entry agent_id session_key then ok entry else err (unknown_run run_id)

unfoldable pub get_for_session :
    Tails → AsyncToolRunManager → Text → Text → Text → Result AsyncToolRunSnapshot
unfolding own_entry
get_for_session tail self run_id agent_id session_key = do
  entry ← own_entry self run_id agent_id session_key
  ok (snapshot tail entry run_id)

unfoldable pub own_snapshots :
    Tails → Text → Text → Dict AsyncToolRunEntry → List AsyncToolRunSnapshot
unfolding belongs_to
own_snapshots tail agent_id session_key [] = []
own_snapshots tail agent_id session_key ((id, e) ∷ m) =
    let rest = own_snapshots tail agent_id session_key m in
    if belongs_to e agent_id session_key then snapshot tail e id ∷ rest else rest

abbrev pub started_later : AsyncToolRunSnapshot → AsyncToolRunSnapshot → Bool
started_later a b = leb b.started_at a.started_at

unfoldable pub list_for_session :
    Tails → AsyncToolRunManager → Text → Text → List AsyncToolRunSnapshot
unfolding own_snapshots
list_for_session tail self agent_id session_key =
    sort_by started_later (own_snapshots tail agent_id session_key self.runs)

after_kill :
    Tails
    → AsyncToolRunManager
    → Text
    → Result AsyncToolRunEntry
    → Result AsyncToolRunSnapshot × AsyncToolRunManager
after_kill tail self run_id (err e) = (err e, self)
after_kill tail self run_id (ok entry) =
    (ok (snapshot tail entry run_id), record self { runs = Dict.insert self.runs run_id entry })

unfoldable pub kill_for_session :
    Tails
    → Killing
    → AsyncToolRunManager
    → Text
    → Text
    → Text
    → Result AsyncToolRunSnapshot × AsyncToolRunManager
unfolding after_kill own_entry
kill_for_session tail k self run_id agent_id session_key =
    after_kill tail self run_id (own_entry self run_id agent_id session_key >>= kill k)
