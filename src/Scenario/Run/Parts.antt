-- ===== src/Scenario/Run/Parts.antt =====
-- The result of `ScenarioRunner.run` of src/scenario_engine/orchestrator.py, its stop conditions, and what it
-- takes from outside: the clock, the ids that `uuid4` gives, what the registry says of a phone, what an
-- action does and whether it returns, and the sweep for artifacts.
use pjsua_mcp.Prelude.{
  ℕ, Bool, true, false, Option, none, some, List, [], ◌∷◌, ◌++◌, nat_eq, if◌then◌else◌,
}
use pjsua_mcp.Text.{Text, codes}
use pjsua_mcp.Dict.{set}
use pjsua_mcp.Bus.{Bus, subscribe, unsubscribe}
use pjsua_mcp.Scenario.Value.{
  Value, str, end, item, Items, Fields, lookup, or_nothing, truthy, iterate,
}
use pjsua_mcp.Scenario.Matching.{Event}
use pjsua_mcp.Scenario.Hooks.{new_runtime, texts_of, match_of}
use pjsua_mcp.Scenario.Timeline.{TimelineEntry, new_timeline, new_recorder, start, stop}
use pjsua_mcp.Scenario.Run.{RunError, Run, Running, Step}

-- `status`
pub data Status : Type 0 where
  ok timeout error : Status

-- `reason`
pub data Reason : Type 0 where
  stop_on_matched full_duration preflight_failed : Reason
  timed_out : ℕ → Reason

-- `ScenarioResult`, without the time that has passed
pub record ScenarioResult : Type 0 where
  pub status : Status
  pub reason : Reason
  pub timeline : List TimelineEntry
  pub errors : List RunError
  pub artifacts : Fields

abbrev pub new_run : Text → Run
new_run t = record {
  recorder = new_recorder (new_timeline t);
  runtime = new_runtime;
  stops = [];
  results = [];
  stop_future = none;
  errors = [];
  ticks = 1;
  drawn = 0;
}

abbrev pub items_from : List Value → Items
items_from [] = end
items_from (v ∷ vs) = item v (items_from vs)

-- `recorder.start()` and `recorder.stop()`, in the state of a run
abbrev pub start_recorder : Running → Running
start_recorder (bus, run) =
    let s = start (bus, run.recorder) in (s.0, record run { recorder = s.1 })

abbrev pub stop_recorder : Running → Running
stop_recorder (bus, run) = let s = stop (bus, run.recorder) in (s.0, record run { recorder = s.1 })

abbrev pub fail : RunError → Run → Run
fail e run = record run { errors = run.errors ++ e ∷ [] }

-- The types of a condition; a value that cannot be subscribed is taken to raise.
abbrev pub stop_types : Value → Option (List Text)
stop_types (str t) = some (t ∷ [])
stop_types v = elim (iterate v) [ none ↦ none | some vs ↦ texts_of vs ]

abbrev pub subscribe_types : Fields → List Text → Running → Running
subscribe_types spec types (bus, run) =
    let (sub_id, bus') = subscribe types false bus in
    (bus', record run { stops = set run.stops sub_id spec })

-- The predicates and the types of a condition, where neither raises
abbrev pub subscribed : Option Fields → Option (List Text) → Fields → Running → Bool × Running
subscribed (some match) (some types) spec s = (true, subscribe_types spec types s)
subscribed _ _ spec s = (false, s)

abbrev pub event_of : Fields → Value
event_of spec = or_nothing (lookup (codes "event") spec)

-- One round of the loop over `stop_on`: whether it returns, and the state
unfoldable pub subscribe_stop : Fields → Running → Bool × Running
unfolding lookup
subscribe_stop spec s =
    let match = match_of (or_nothing (lookup (codes "match") spec)) in
    if truthy (event_of spec)
    then subscribed match (stop_types (event_of spec)) spec s
    else (true, s)

abbrev pub unless_raised : Bool × Running → Bool × Running → Bool × Running
unless_raised (true, s) rest = rest
unless_raised (false, s) rest = (false, s)

-- The loop over `stop_on`: whether no condition has raised, and the state
unfoldable pub subscribe_stops : List Fields → Running → Bool × Running
unfolding subscribe_stop
subscribe_stops [] s = (true, s)
subscribe_stops (spec ∷ specs) s =
    let r = subscribe_stop spec s in let rest = subscribe_stops specs r.1 in unless_raised r rest

-- `for sid in stop_sub_ids`
abbrev pub unsubscribe_all : List ℕ → Bus → Bus
unsubscribe_all [] bus = bus
unsubscribe_all (id ∷ ids) bus = unsubscribe_all ids (unsubscribe id bus)

-- `ScenarioRunner(…)`: what a run takes from outside. `handler` is what an action does at a time: whether
-- it returns, and the steps that happen until then. `withdraws` are the subscriptions that the callback of
-- another subscriber, such as a hook of another run, cancels at an event.
pub record Outside : Type 0 where
  pub clock : ℕ → Text
  pub offset_ms : Text → Text → Text
  pub re_search : Text → Text → Option Bool
  pub withdraws : ℕ → Event → List ℕ
  pub fresh : ℕ → Text
  pub get_registration_info : Text → Option Fields
  pub handler : Text → Fields → ℕ → Bool × List Step
  pub explain : Text → Fields
  pub collect_artifacts : List Value → Option Fields
  pub has_roots : Bool
