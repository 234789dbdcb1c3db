-- ===== src/Session/Tests.antt =====
-- Runs of the session store, and the theorems at concrete inputs.
use simple_claw.Base.{
  Text, ◌≡◌, refl, ◌≢◌, [], ◌∷◌, List, none, some, Bool, true, false, arith, lit, text_discrete,
  show_i64,
}
use simple_claw.Base.Dict
use simple_claw.Channels.{discord}
use simple_claw.Error.{ok}
use simple_claw.Session.{
  build_session_scope_key, format_session_id, current_or_create, rotate, empty_store, no_faults,
  Faults,
}
use simple_claw.Session.Keys.{build_session_scope_key-injective}
use simple_claw.Session.Rotation.{Call, current, rotates, run, rotations, current_or_create-run}

abbrev scope : Text
scope = lit "agent:default:discord:123"

abbrev other : Text
other = lit "agent:default:main"

abbrev locked : Faults
locked = record { on_select = none; on_write = some (lit "database is locked") }

-- The second rotation of the scope fails.
abbrev calls : List Call
calls =
    current no_faults scope
    ∷ rotates no_faults scope
    ∷ rotates no_faults other
    ∷ rotates locked scope
    ∷ rotates no_faults scope
    ∷ []

runs :
    (build_session_scope_key (lit "default") true discord (lit "123") ≡ other)
    × (build_session_scope_key (lit "default") false discord (lit "123") ≡ scope)
    × ((current_or_create no_faults [] empty_store scope).0
        ≡ ok (lit "agent:default:discord:123:session:1"))
    × ((current_or_create no_faults [] (run empty_store calls) scope).0
        ≡ ok (lit "agent:default:discord:123:session:3"))
unfolding build_session_scope_key current_or_create format_session_id rotate run empty_store
    show_i64 lit text_discrete Dict.get Dict.insert
runs = (refl, refl, refl, refl)

build_session_scope_key-injective_example :
    (lit "a" ≡ lit "a") × (◌≡◌ {A = Bool} false false) × (false ≡ false → lit "1" ≡ lit "1")
unfolding lit
build_session_scope_key-injective_example =
    build_session_scope_key-injective (lit "a") (lit "a") false false discord discord (lit "1")
      (lit "1") (omega arith) (omega arith) refl

current_or_create-run_example :
    (current_or_create no_faults [] (run empty_store calls) scope).0
    ≡ ok (format_session_id scope 3)
unfolding rotations lit text_discrete
current_or_create-run_example = current_or_create-run calls [] scope (omega arith)

differs : other ≢ scope
unfolding lit
differs = ground arith
