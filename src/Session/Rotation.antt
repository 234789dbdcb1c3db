-- ===== src/Session/Rotation.antt =====
-- The store of active sessions against its abstract view: a count of the rotations of each scope.
use simple_claw.Base.{
  ℕ, ◌+◌, ◌^◌, ◌<◌, Text, ◌≡◌, refl, ◌≢◌, List, [], ◌∷◌, Option, none, some, arith, ◌==◌,
  if◌then◌else◌,
}
use native.Mathlib.Nat.{zero-add, add-zero}
use simple_claw.Base.Dict
use simple_claw.Base.Dict.{get-insert}
use simple_claw.Error.{FrameworkError, ok, err}
use simple_claw.Session.{
  SessionStore, SessionRow, Faults, no_faults, empty_store, format_session_id, current_or_create,
  rotate,
}

-- A call, with the statements of it that fail.
pub data Call : Type 0 where
  current rotates : Faults → Text → Call

-- Calls are served in order; the store goes on from where a call has failed.
unfoldable pub step : SessionStore → Call → SessionStore
step s (current f k) = (current_or_create f [] s k).1
step s (rotates f k) = (rotate f [] s k).1

unfoldable pub run : SessionStore → List Call → SessionStore
unfolding step
run s [] = s
run s (c ∷ cs) = run (step s c) cs

rotations_by : Faults → ℕ
rotations_by f = elim f.on_select [ some m ↦ 0 | none ↦ elim f.on_write [ some m ↦ 0 | none ↦ 1 ] ]

rotations_in : Text → Call → ℕ
unfolding rotations_by
rotations_in k (current f j) = 0
rotations_in k (rotates f j) = if j == k then rotations_by f else 0

-- How often a scope is rotated, by the calls that do not fail.
unfoldable pub rotations : Text → List Call → ℕ
unfolding rotations_in
rotations k [] = 0
rotations k (c ∷ cs) = rotations_in k c + rotations k cs

-- The scope has rotated `n` times: it has no row yet, or the row of session `n + 1`.
abbrev AtRow : Text → ℕ → Option SessionRow → Type 0
AtRow k n none = n ≡ 0
AtRow k n (some row) =
    (row.active_session_id ≡ format_session_id k (n + 1)) × (row.active_sequence ≡ n + 1)

abbrev pub HasRotated : SessionStore → Text → ℕ → Type 0
HasRotated s k n = AtRow k n (Dict.get s.active_sessions k)

step-HasRotated :
    (s : SessionStore) (c : Call) (k : Text) (n : ℕ)
    → n + 2 < 2 ^ 63
    → HasRotated s k n
    → HasRotated (step s c) k (rotations_in k c + n)
unfolding step rotations_in current_or_create rotate
step-HasRotated s (current f j) k n b h = grind (arith, get-insert)
step-HasRotated s (rotates f j) k n b h = grind (arith, get-insert)

run-HasRotated :
    (cs : List Call) (s : SessionStore) (k : Text) (n : ℕ)
    → rotations k cs + n + 2 < 2 ^ 63
    → HasRotated s k n
    → HasRotated (run s cs) k (rotations k cs + n)
unfolding run rotations
run-HasRotated [] s k n b h = rw zero-add h
run-HasRotated (c ∷ cs) s k n b h = rw regroup (
    run-HasRotated cs (step s c) k (rotations_in k c + n) (omega arith)
      (step-HasRotated s c k n (omega arith) h))
  where
    regroup : rotations_in k c + rotations k cs + n ≡ rotations k cs + (rotations_in k c + n)
    regroup = omega arith

history :
    (cs : List Call) (k : Text)
    → rotations k cs + 2 < 2 ^ 63
    → HasRotated (run empty_store cs) k (rotations k cs)
unfolding empty_store Dict.get
history cs k b =
    rw (← add-zero (rotations k cs)) (run-HasRotated cs empty_store k 0 (omega arith) refl)

-- After any calls on an empty store, on whatever scopes and with whatever faults, a lookup that does not fail
-- gives the session of a scope that is numbered by the rotations of the scope that did not fail, counted from
-- 1, as long as there are fewer than 2 ^ 63 - 2 of them.
pub current_or_create-run :
    (cs : List Call) (now k : Text)
    → rotations k cs + 2 < 2 ^ 63
    → (current_or_create no_faults now (run empty_store cs) k).0
      ≡ ok (format_session_id k (rotations k cs + 1))
unfolding current_or_create
current_or_create-run cs now k b = ground (arith, history cs k b)

-- After any calls with fewer than 2 ^ 63 - 2 rotations of the scope, a rotation that does not fail reports the scope's session as the previous one, starts the session
-- with the next number, and leaves every other scope's row as it was.
pub rotate-run :
    (cs : List Call) (now k j : Text)
    → rotations k cs + 2 < 2 ^ 63
    → j ≢ k
    → let s = run empty_store cs in
      ((rotate no_faults now s k).0
        ≡ ok (record {
          previous_session_id = format_session_id k (rotations k cs + 1);
          session_id = format_session_id k (rotations k cs + 2);
        }))
      × ((current_or_create no_faults now (rotate no_faults now s k).1 k).0
          ≡ ok (format_session_id k (rotations k cs + 2)))
      × (Dict.get (rotate no_faults now s k).1.active_sessions j ≡ Dict.get s.active_sessions j)
unfolding rotate current_or_create
rotate-run cs now k j b ne = grind (arith, history cs k b, get-insert)

-- A call that fails, at either of its statements, leaves the store as it was.
pub failed_call-keeps :
    (f : Faults) (now k : Text) (s : SessionStore) (e : FrameworkError)
    → ((current_or_create f now s k).0 ≡ err e → (current_or_create f now s k).1 ≡ s)
      × ((rotate f now s k).0 ≡ err e → (rotate f now s k).1 ≡ s)
unfolding rotate current_or_create
failed_call-keeps f now k s e = ground arith
