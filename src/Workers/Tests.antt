-- ===== src/Workers/Tests.antt =====
-- Runs of the session workers, and the theorems at concrete inputs.
use simple_claw.Base.{ℕ, Text, ◌≡◌, refl, [], ◌∷◌, List, some, true, arith, lit, text_discrete}
use simple_claw.Base.Dict
use simple_claw.Workers.{
  handling, stopped, Task, System, Event, acquires, sends, takes, finishes, idles, retires, closes,
  new, run, dispatch, spawned,
}
use simple_claw.Workers.Serial.{NoRemovals, run-serial}
use simple_claw.Workers.Gaps.{IsLinked}

abbrev key : Text
key = lit "agent:default:main:session:1"

abbrev events : List (Event ℕ)
events =
    acquires key
    ∷ sends 1 10
    ∷ takes 1
    ∷ acquires key
    ∷ sends 1 11
    ∷ finishes 1
    ∷ sends 1 12
    ∷ takes 1
    ∷ []

abbrev busy : Task ℕ
busy = record {
  key = key;
  phase = handling;
  queue = 12 ∷ [];
  accepted = 10 ∷ 11 ∷ 12 ∷ [];
  handled = 10 ∷ 11 ∷ [];
}

runs :
    ((run new events).tasks 1 ≡ some busy)
    × ((dispatch (run new events) key 13 [] []).0 ≡ true)
    × ((run {T = ℕ} new (acquires key ∷ idles 1 ∷ retires 1 ∷ closes 1 ∷ acquires key ∷ [])).tasks 2
        ≡ some (spawned key))
unfolding run new dispatch lit text_discrete Dict.get Dict.insert Dict.remove
runs = (refl, refl, refl)

keeps_entries : NoRemovals events
keeps_entries = omega arith

run-serial_example : ◌≡◌ {A = ℕ} 1 1
run-serial_example =
    run-serial events 1 1 busy busy (omega arith) keeps_entries runs.0 runs.0 refl refl refl

abbrev idle_events : List (Event ℕ)
idle_events = acquires key ∷ sends 1 10 ∷ takes 1 ∷ finishes 1 ∷ idles 1 ∷ []

-- A worker that has idled out and has not yet removed its entry.
abbrev idled : System ℕ
idled = run new idle_events

abbrev idle_task : Task ℕ
idle_task = record { key = key; phase = stopped; queue = []; accepted = 10 ∷ []; handled = 10 ∷ [] }

abbrev working : System ℕ
working = run new events

idled-IsLinked : IsLinked idled key
unfolding run new lit text_discrete Dict.get Dict.insert
idled-IsLinked w e = ground arith
