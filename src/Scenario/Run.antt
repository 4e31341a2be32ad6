-- ===== src/Scenario/Run.antt =====
-- `ScenarioRunner.run` of src/scenario_engine/orchestrator.py over the event bus: the state of a run, and the
-- steps that happen to it, in the order in which the threads and the coroutines touch the bus and the
-- timeline. The clock and the arithmetic of times, and `re.search`, are parameters.
pub mod Parts
pub mod Phases
pub mod Whole
pub mod Ownership
pub mod Arming
pub mod Acting
pub mod Shrinking
pub mod OnceIds
pub mod Others
pub mod Leaving
pub mod Restored
pub mod Earned
pub mod Stopping
pub mod Refusing
pub mod Tests
use pjsua_mcp.Prelude.{
  ℕ, ◌+◌, Bool, true, false, not, ◌||◌, Option, none, some, List, [], ◌∷◌, ◌++◌, nat_eq, ◌==◌,
  if◌then◌else◌,
}
use pjsua_mcp.Text.{Text, codes}
use pjsua_mcp.Dict.{Dict, get, has}
use pjsua_mcp.Bus.{Bus, unsubscribe, emit}
use pjsua_mcp.Scenario.Value.{Value, Fields, no_more, dict, lookup, or_nothing, truthy, value_beq}
use pjsua_mcp.Scenario.Matching.{Event, is_nothing, attribute, event_matches_predicates}
use pjsua_mcp.Scenario.Actions.{Outcome}
use pjsua_mcp.Scenario.Validator.{Issue}
use pjsua_mcp.Scenario.Hooks.{HookRuntime, callback}
use pjsua_mcp.Scenario.Timeline.{TimelineRecorder, on_event, record_action, record_meta}

-- `errors`: the stage and its subject; the texts of exceptions are left out.
pub data RunError : Type 0 where
  in_validation : Issue → RunError
  in_scenario_hooks : Fields → RunError
  in_initial_actions : Outcome → RunError
  in_artifacts : RunError

-- The locals of `run`. `stops` has the condition that the handler of a subscription is for, and its
-- keys are `stop_sub_ids`; `results` are the events that `set_result` has been scheduled with, and
-- `ticks` counts the readings of the clock, `drawn` the ids that `uuid4` has given.
pub record Run : Type 0 where
  pub recorder : TimelineRecorder
  pub runtime : HookRuntime
  pub stops : Dict ℕ Fields
  pub results : List Event
  pub stop_future : Option Event
  pub errors : List RunError
  pub ticks : ℕ
  pub drawn : ℕ

abbrev pub Running : Type 0
Running = Bus × Run

-- What happens while a run waits: an event is emitted, by pjsua or by an action; an action is recorded;
-- a checkpoint or a log line is; or the loop takes a turn and carries out what was scheduled. The
-- subscription of a `wait_until`, which an action may hold while it waits, is left out.
pub data Step : Type 0 where
  emitted : Event → Step
  acted : Text → Option Text → Option ℕ → Fields → Option Text → Option Text → Step
  noted : Text → Fields → Step
  turned : Step

-- `unsubscribe`, of each
unfoldable pub withdraw : List ℕ → Bus → Bus
withdraw [] bus = bus
withdraw (id ∷ ids) bus = withdraw ids (unsubscribe id bus)

-- `expected is not None and actual != expected`
abbrev pub differs : Value → Value → Bool
differs expected actual = if is_nothing expected then false else not (value_beq actual expected)

-- The first of what was scheduled is the result; a later `set_result` raises in the loop.
abbrev first_result : List Event → Option Event → Option Event
first_result [] future = future
first_result (ev ∷ evs) none = some ev
first_result (ev ∷ evs) (some e) = some e

-- A subscription, where there is one, has the id.
abbrev pub is_sub : Option ℕ → ℕ → Bool
is_sub none id = false
is_sub (some i) id = i == id

abbrev pub turn : Run → Run
turn run = record run { results = []; stop_future = first_result run.results run.stop_future }

module _ (clock : ℕ → Text) (offset_ms : Text → Text → Text) (re_search : Text → Text → Option Bool)
    (withdraws : ℕ → Event → List ℕ) where
  -- `dict(spec.get("match") or {})`, of a condition that has been subscribed
  abbrev predicates_of : Value → Fields
  predicates_of (dict fs) = fs
  predicates_of v = no_more

  -- The three tests of a stop handler; where the last raises, the bus catches it.
  unfoldable pub stop_matches : Fields → Event → Bool
  unfolding lookup value_beq event_matches_predicates
  stop_matches spec ev =
      let match = predicates_of (or_nothing (lookup (codes "match") spec)) in
      if differs (or_nothing (lookup (codes "phone_id") spec)) (attribute ev (codes "phone_id"))
      then false
      else if differs (or_nothing (lookup (codes "call_id") spec)) (attribute ev (codes "call_id"))
      then false
      else elim (event_matches_predicates re_search ev match) [ some true ↦ true | _ ↦ false ]

  -- `stop_future.done()`
  abbrev pub schedule_result : Option Event → Bool → Event → Run → Run
  schedule_result (some e) matched ev run = run
  schedule_result none matched ev run =
      if matched then record run { results = run.results ++ ev ∷ [] } else run

  -- `handler` of `make_stop_handler`
  abbrev pub stop_handler : Fields → Event → Run → Run
  stop_handler spec ev run = schedule_result run.stop_future (stop_matches spec ev) ev run

  -- A callback of the run: a stop handler, or else one of a hook. Another subscriber of the bus has none
  -- of these: its callback leaves the run alone, and may cancel subscriptions.
  abbrev pub hook_or_stop : Option Fields → ℕ → Event → Running → Running
  hook_or_stop (some spec) sub_id ev (bus, run) = (bus, stop_handler spec ev run)
  hook_or_stop none sub_id ev (bus, run) =
      let s = callback re_search sub_id ev (bus, run.runtime) in
      let ids = if has run.runtime.callbacks sub_id then [] else withdraws sub_id ev in
      (withdraw ids s.0, record run { runtime = s.1 })

  -- What the callback of a subscription does.
  unfoldable pub dispatch : ℕ → Event → Running → Running
  unfolding callback stop_matches get withdraw
  dispatch sub_id ev (bus, run) =
      let other = hook_or_stop (get run.stops sub_id) sub_id ev (bus, run) in
      if is_sub run.recorder.sub_id sub_id
      then (bus, record run { recorder = on_event offset_ms ev run.recorder })
      else other

  -- `emit` of the bus, for the events of a run
  unfoldable pub publish : Event → Running → Running
  unfolding emit dispatch
  publish ev s = emit (λ (ev : Event). ev.type) dispatch ev s

  -- `recorder.record_meta`
  abbrev pub note_meta : Text → Fields → Run → Run
  note_meta type payload run =
      let rec = record_meta offset_ms type payload (clock run.ticks) run.recorder in
      record run { recorder = rec; ticks = run.ticks + 1 }

  abbrev pub note_action :
      Text → Option Text → Option ℕ → Fields → Option Text → Option Text → Run → Run
  note_action action phone call payload hook_id pattern_name run =
      let now = clock run.ticks in
      let rec =
        record_action offset_ms action phone call payload hook_id pattern_name now run.recorder in
      record run { recorder = rec; ticks = run.ticks + 1 }

  unfoldable pub step : Step → Running → Running
  unfolding publish
  step (emitted ev) s = publish ev s
  step (acted name phone call payload hook_id pattern_name) (bus, run) =
      (bus, note_action name phone call payload hook_id pattern_name run)
  step (noted type payload) (bus, run) = (bus, note_meta type payload run)
  step turned (bus, run) = (bus, turn run)

  abbrev pub steps : List Step → Running → Running
  steps [] s = s
  steps (x ∷ xs) s = steps xs (step x s)
