-- ===== src/Workers/Gaps.antt =====
-- When `dispatch` reports success, and two gaps: a worker past its loop still takes messages, and a
-- removal from outside lets a second worker start beside a live one.
use simple_claw.Base.{
  ℕ, ◌+◌, ◌<◌, ◌≤◌, ◌^◌, ◌≡◌, ◌≢◌, Text, List, [], ◌∷◌, Option, none, some, Bool, true, false,
  arith, length, Option-cases, inl, inr,
}
use simple_claw.Base.Dict
use simple_claw.Base.Dict.{get-remove, get-insert}
use simple_claw.Workers.Serial.{worker, is_active}
use simple_claw.Workers.{
  Phase, receiving, handling, stopped, Task, SessionWorker, System, Event, acquires, removes, step,
  run, spawned, send, dispatch,
}

abbrev pub is_ended : Phase → Bool
is_ended receiving = false
is_ended handling = false
is_ended _ = true

module _ {T : Type 0} where
  -- The task is past its loop, and its handler has had these messages.
  abbrev pub EndedWith : List T → Option (Task T) → Type 0
  EndedWith h none = ⊥
  EndedWith h (some t) = (is_ended t.phase ≡ true) × (t.handled ≡ h)

  record Ended (n i : ℕ) (h : List T) (s : System T) : Type 0 where
    at_end : EndedWith h (s.tasks i)
    given : i < s.next_worker_id
    bound : s.next_worker_id ≤ n

  step-Ended :
      (n i : ℕ) (h : List T) (s : System T) (e : Event T)
      → n + 1 < 2 ^ 64
      → Ended n i h s
      → Ended (n + 1) i h (step s e)
  unfolding step
  step-Ended n i h s (removes key) b v = record {
    at_end = v.at_end;
    given = v.given;
    bound = omega arith;
  }
  step-Ended n i h s e b v = record {
    at_end = ground arith;
    given = ground arith;
    bound = ground arith;
  }

  run-Ended :
      (es : List (Event T)) (n i : ℕ) (h : List T) (s : System T)
      → n + length es < 2 ^ 64
      → Ended n i h s
      → EndedWith h ((run s es).tasks i)
  unfolding run
  run-Ended [] n i h s b v = v.at_end
  run-Ended (e ∷ es) n i h s b v =
      run-Ended es (n + 1) i h (step s e) (omega arith) (step-Ended n i h s e (omega arith) v)

-- While the worker of a key is past its loop and has not yet dropped its receiver, as after an idle
-- time-out and until it has removed its entry, `dispatch` reports success, and whatever happens
-- afterwards that worker's handler never gets the message, nor any other: what it has handled stays
-- as it was. (Ids are taken not to wrap.)
pub dispatch-loses :
    {T : Type 0} (s : System T) (key : Text) (m : T) (gap' : List (Event T)) (i : ℕ) (t : Task T)
    → Dict.get s.workers key ≡ some (worker i)
    → s.tasks i ≡ some t
    → t.phase ≡ stopped
    → i < s.next_worker_id
    → (dispatch s key m [] gap' ≡ (true, (send s i m).1))
      × ((es : List (Event T))
          → s.next_worker_id + length es < 2 ^ 64
          → EndedWith t.handled ((run (send s i m).1 es).tasks i))
unfolding dispatch
dispatch-loses s key m gap' i t there e p given = (
  ground arith,
  λ es b.
      run-Ended es s.next_worker_id i t.handled (send s i m).1 b
        (record { at_end = ground arith; given = ground arith; bound = ground arith }),
)

-- When a key is removed while its worker is live, the next lookup of the key starts another worker
-- with the same key, and the first one is still live.
pub removal_overlaps :
    {T : Type 0} (s : System T) (key : Text) (i : ℕ) (t : Task T)
    → s.tasks i ≡ some t
    → t.key ≡ key
    → is_active t.phase ≡ true
    → i < s.next_worker_id
    → let s' = step (step s (removes key)) (acquires key) in
      (s'.tasks i ≡ some t)
      × (s'.tasks s.next_worker_id ≡ some (spawned key))
      × (i ≢ s.next_worker_id)
unfolding step
removal_overlaps s key i t e k a given =
    let gone = get-remove s.workers key key in
    (ground (arith, gone), ground (arith, gone), omega arith)

-- The entry of the key names the channel of its own worker.
abbrev pub IsLinked : {T : Type 0} → System T → Text → Type 0
IsLinked s key = (w : SessionWorker) → Dict.get s.workers key ≡ some w → w.id ≡ w.tx

-- When nothing else happens between the lookups and the sends, `dispatch` hands the message over,
-- at the latest in its second attempt.
pub dispatch_alone :
    {T : Type 0} (s : System T) (key : Text) (m : T)
    → IsLinked s key
    → (dispatch s key m [] []).0 ≡ true
unfolding dispatch
dispatch_alone s key m linked = elim (Option-cases (Dict.get s.workers key)) [
  | inl absent ↦ ground arith
  | inr (w, there) ↦ ground (arith, linked w, get-remove s.workers key key)
]
