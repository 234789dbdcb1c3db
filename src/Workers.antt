-- ===== src/Workers.antt =====
-- src/run/session.rs: one worker task per session key. The lock makes each access to the map one
-- step; the steps of the tasks and of the callers interleave in any order (`Event`). An unbounded
-- channel is named by the worker that receives from it, and its queue is a field of the task.
pub mod Serial
pub mod Delivery
pub mod Gaps
mod Tests
use simple_claw.Base.{
  ℕ, ◌+◌, ◌%◌, ◌^◌, Text, List, [], ◌∷◌, ◌++◌, Option, none, some, Bool, true, false, eqb,
  if◌then◌else◌,
}
use simple_claw.Base.Dict
use simple_claw.Base.Dict.{Dict}

-- The phases of a worker task: waiting in `recv`, in the handler, past the loop, past its own
-- removal from the map, and ended with its receiver dropped.
pub data Phase : Type 0 where
  receiving handling stopped retired closed : Phase

-- `accepted` and `handled` are the messages so far, in order; they are no fields of the program's.
pub record Task (T : Type 0) : Type 0 where
  pub key : Text
  pub phase : Phase
  pub queue : List T
  pub accepted : List T
  pub handled : List T

pub record SessionWorker : Type 0 where
  pub id : ℕ
  pub tx : ℕ

-- The coordinator, and the tasks that it has spawned, by worker id.
pub record System (T : Type 0) : Type 0 where
  pub workers : Dict SessionWorker
  pub next_worker_id : ℕ
  pub tasks : ℕ → Option (Task T)

-- Whether the receiver is still there.
unfoldable pub accepts : Phase → Bool
accepts closed = false
accepts _ = true

module _ {T : Type 0} where
  unfoldable pub new : System T
  new = record { workers = []; next_worker_id = 1; tasks = λ _. none }

  abbrev pub set_task : System T → ℕ → Task T → System T
  set_task s i t = record s { tasks = λ j. if eqb j i then some t else s.tasks j }

  abbrev pub spawned : Text → Task T
  spawned key = record { key = key; phase = receiving; queue = []; accepted = []; handled = [] }

  sender_from : System T → Text → Option SessionWorker → ℕ × System T
  sender_from s key (some existing) = (existing.tx, s)
  sender_from s key none =
      let worker_id = s.next_worker_id in
      (
        worker_id,
        set_task
            (record s {
              workers = Dict.insert s.workers key (record { id = worker_id; tx = worker_id });
              next_worker_id = (worker_id + 1) % 2 ^ 64;
            })
            worker_id (spawned key),
      )

  -- The channel to send on is returned; its name is the worker's id.
  unfoldable pub worker_sender_for_key : System T → Text → ℕ × System T
  unfolding sender_from
  worker_sender_for_key s key = sender_from s key (Dict.get s.workers key)

  unfoldable pub remove : System T → Text → System T
  remove s key = record s { workers = Dict.remove s.workers key }

  abbrev remove_entry : System T → Text → ℕ → Option SessionWorker → System T
  remove_entry s key expected none = s
  remove_entry s key expected (some entry) =
      if eqb entry.id expected then record s { workers = Dict.remove s.workers key } else s

  unfoldable pub remove_worker_if_matches : System T → Text → ℕ → System T
  remove_worker_if_matches s key expected = remove_entry s key expected (Dict.get s.workers key)

  send_to : System T → ℕ → T → Option (Task T) → Bool × System T
  unfolding accepts
  send_to s i message none = (false, s)
  send_to s i message (some t) =
      if accepts t.phase
      then (
        true,
        set_task s i
            (record t { queue = t.queue ++ message ∷ []; accepted = t.accepted ++ message ∷ [] }),
      )
      else (false, s)

  -- `tx.send(payload)` fails when the receiver was dropped, and only then.
  unfoldable pub send : System T → ℕ → T → Bool × System T
  unfolding send_to
  send s i message = send_to s i message (s.tasks i)

  -- A step of the worker task itself. An idle time-out, or the end of the channel, is possible only
  -- with an empty queue.
  receive : Task T → List T → Task T
  receive t [] = t
  receive t (message ∷ rest) = record t {
    phase = handling;
    queue = rest;
    handled = t.handled ++ message ∷ [];
  }

  stop : Task T → List T → Task T
  stop t [] = record t { phase = stopped }
  stop t (message ∷ rest) = t

  takes_in : Task T → Phase → Task T
  unfolding receive
  takes_in t receiving = receive t t.queue
  takes_in t _ = t

  idles_in : Task T → Phase → Task T
  unfolding stop
  idles_in t receiving = stop t t.queue
  idles_in t _ = t

  finishes_in : Task T → Phase → Task T
  finishes_in t handling = record t { phase = receiving }
  finishes_in t _ = t

  closes_in : Task T → Phase → Task T
  closes_in t retired = record t { phase = closed }
  closes_in t _ = t

  abbrev on_task : System T → ℕ → (Task T → Task T) → Option (Task T) → System T
  on_task s i f none = s
  on_task s i f (some t) = set_task s i (f t)

  retires_in : System T → ℕ → Task T → Phase → System T
  unfolding remove_worker_if_matches
  retires_in s i t stopped =
      set_task (remove_worker_if_matches s t.key i) i (record t { phase = retired })
  retires_in s i t _ = s

  abbrev retire : System T → ℕ → Option (Task T) → System T
  retire s i none = s
  retire s i (some t) = retires_in s i t t.phase

  abbrev evict : System T → Text → ℕ → Option (Task T) → System T
  evict s key i none = s
  evict s key i (some t) = if accepts t.phase then s else remove_worker_if_matches s key i

-- The steps: a caller gets a sender, sends, drops the entry of a worker whose channel was closed, or
-- removes a key; a worker takes a message, ends its handler, stops, retires its entry, and ends.
pub data Event (T : Type 0) : Type 0 where
  acquires : Text → Event T
  sends : ℕ → T → Event T
  evicts : Text → ℕ → Event T
  removes : Text → Event T
  takes finishes idles retires closes : ℕ → Event T

module _ {T : Type 0} where
  unfoldable pub step : System T → Event T → System T
  unfolding worker_sender_for_key send remove takes_in finishes_in idles_in closes_in retires_in
      remove_worker_if_matches accepts
  step s (acquires key) = (worker_sender_for_key s key).1
  step s (sends i message) = (send s i message).1
  step s (evicts key i) = evict s key i (s.tasks i)
  step s (removes key) = remove s key
  step s (takes i) = on_task s i (λ t. takes_in t t.phase) (s.tasks i)
  step s (finishes i) = on_task s i (λ t. finishes_in t t.phase) (s.tasks i)
  step s (idles i) = on_task s i (λ t. idles_in t t.phase) (s.tasks i)
  step s (retires i) = retire s i (s.tasks i)
  step s (closes i) = on_task s i (λ t. closes_in t t.phase) (s.tasks i)

  unfoldable pub run : System T → List (Event T) → System T
  unfolding step
  run s [] = s
  run s (e ∷ es) = run (step s e) es

  -- One round of the loop of `dispatch`: `gap` is what happens between the lookup and the send.
  attempt : System T → Text → T → List (Event T) → Bool × System T
  unfolding worker_sender_for_key send run remove_worker_if_matches
  attempt s key message gap =
      let (i, s₁) = worker_sender_for_key s key in
      let (sent, s₂) = send (run s₁ gap) i message in
      if sent then (true, s₂) else (false, remove_worker_if_matches s₂ key i)

  retry : Bool × System T → Text → T → List (Event T) → Bool × System T
  unfolding attempt
  retry (true, s) key message gap = (true, s)
  retry (false, s) key message gap = attempt s key message gap

  unfoldable pub dispatch : System T → Text → T → List (Event T) → List (Event T) → Bool × System T
  unfolding attempt retry
  dispatch s key message gap gap' = retry (attempt s key message gap) key message gap'
