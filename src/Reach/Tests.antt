-- ===== src/Reach/Tests.antt =====
-- A run of the program of src/server.py, from the start.
use pjsua_mcp.Prelude.{true, some, [], ◌≡◌, refl}
use pjsua_mcp.Dict.{get, set}
use pjsua_mcp.State.{Sys, start}
use pjsua_mcp.Calls.Tracked.{IsTracked}
use pjsua_mcp.Reach.Ops.{Op}
use pjsua_mcp.Reach.{run, Reach, at_start, step, reachable-IsTracked}
use pjsua_mcp.Engine.{initialize, open_transport}
use pjsua_mcp.Phones.{add_phone}
use pjsua_mcp.Calls.Lifecycle.{on_phone_added}
use pjsua_mcp.Calls.Clients.{PlacesFresh}
use pjsua_mcp.Fixtures.{talking, settings}

-- The engine starts, a phone is added, and a call is placed.
abbrev running : Sys
running = run talking Op.initialize start

abbrev added : Sys
added = run talking (Op.add_phone "alice" settings true) running

added-Reach : Reach talking added
added-Reach =
    step (Op.add_phone "alice" settings true) running tt (step Op.initialize start tt at_start)

no_calls : added.calls.calls ≡ []
unfolding initialize add_phone open_transport on_phone_added get set
no_calls = refl

added-PlacesFresh : PlacesFresh talking added
unfolding get
added-PlacesFresh t ci e = rw no_calls refl

abbrev placed : Sys
placed = run talking (Op.make_call "sip:bob@example.com" (some "alice")) added

reachable-IsTracked_example : IsTracked placed.calls
reachable-IsTracked_example =
    reachable-IsTracked talking placed
      (step (Op.make_call "sip:bob@example.com" (some "alice")) added added-PlacesFresh added-Reach)
