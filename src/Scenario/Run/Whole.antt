-- ===== src/Scenario/Run/Whole.antt =====
-- `ScenarioRunner.run` of src/scenario_engine/orchestrator.py as a whole: what comes before its phases, the
-- cleanup after them, and the result.
use pjsua_mcp.Prelude.{
  Bool, true, false, Option, none, some, List, [], ◌∷◌, ◌++◌, map, nat_eq, if◌then◌else◌,
}
use pjsua_mcp.Text.{Text, codes}
use pjsua_mcp.Text.Integer.{pos}
use pjsua_mcp.Dict.{keys}
use pjsua_mcp.Bus.{Bus, unsubscribe}
use pjsua_mcp.Scenario.Value.{str, list, Fields, no_more, field, show_int}
use pjsua_mcp.Scenario.Validator.{Scenario, Issue, validate_scenario}
use pjsua_mcp.Scenario.Hooks.{remove_all}
use pjsua_mcp.Scenario.Timeline.{start, stop}
use pjsua_mcp.Scenario.Run.{in_validation, in_artifacts, Running, Step, publish}
use pjsua_mcp.Scenario.Run.Parts.{
  Outside, Reason, ScenarioResult, Status, error, full_duration, items_from, new_run, ok,
  preflight_failed, start_recorder, stop_on_matched, stop_recorder, subscribe_stops, timed_out,
  timeout, unsubscribe_all,
}
use pjsua_mcp.Scenario.Run.Phases.{
  arm_spec, arm_specs, await_end, emit_now, initial_actions, meta_now, replay, replay_one,
}

module _ (o : Outside) where
  abbrev pub remove_hooks : Running → Running
  remove_hooks (bus, run) =
      let s = remove_all (bus, run.runtime) in (s.0, record run { runtime = s.1 })

  abbrev pub drop_stops : Running → Running
  drop_stops (bus, run) = (unsubscribe_all (keys run.stops) bus, run)

  -- "Cleanup", with the data of the event that ends the run
  unfoldable pub cleanup : Fields → Running → Running
  unfolding unsubscribe remove_all publish stop
  cleanup payload s =
      let s' = emit_now o (codes "scenario.stopped") none payload (remove_hooks (drop_stops s)) in
      stop_recorder (meta_now o (codes "scenario.stopped") payload s')

  abbrev status_text : Status → Text
  status_text ok = codes "ok"
  status_text timeout = codes "timeout"
  status_text error = codes "error"

  abbrev reason_text : Reason → Text
  reason_text stop_on_matched = codes "stop_on matched"
  reason_text full_duration = codes "full duration (no stop_on defined)"
  reason_text preflight_failed = codes "pre-flight validation failed"
  reason_text (timed_out ms) = codes "timeout after " ++ (show_int (pos ms) ++ codes "ms")

  abbrev pub outcome_data : Status × Reason → Fields
  outcome_data (status, reason) =
      field (codes "status") (str (status_text status))
        (field (codes "reason") (str (reason_text reason)) no_more)

  abbrev pub started_data : Scenario → Fields
  started_data scn = field (codes "name") (str scn.name) no_more

  abbrev scenario_data : Scenario → Fields
  scenario_data scn =
      field (codes "name") (str scn.name)
        (field (codes "phones") (list (items_from scn.phones)) no_more)

  abbrev pub begin : Scenario → Running → Running
  begin scn s = meta_now o (codes "scenario.started") (scenario_data scn) (start_recorder s)

  -- Everything from the start of the recorder to the subscription of the stop conditions.
  unfoldable pub set_up : Scenario → Running → Bool × Running
  unfolding start arm_spec subscribe_stops
  set_up scn s = subscribe_stops scn.stop_on (arm_specs o scn.hooks (begin scn s))

  -- Everything after that, before the cleanup.
  unfoldable pub act : Scenario → List Step → Running → (Status × Reason) × Running
  unfolding replay_one publish initial_actions await_end
  act scn xs s =
      let s' =
        emit_now o (codes "scenario.started") none (started_data scn) (replay o scn.phones s) in
      await_end o scn xs (initial_actions o scn.initial_actions s')

  unfoldable pub carry_out : Scenario → List Step → Running → (Status × Reason) × Running
  unfolding act cleanup
  carry_out scn xs s = let r = act scn xs s in (r.0, cleanup (outcome_data r.0) r.1)

  abbrev pub swept : Option Fields → ScenarioResult → ScenarioResult
  swept none r = record r { errors = r.errors ++ in_artifacts ∷ [] }
  swept (some found) r = record r { artifacts = found }

  abbrev pub result_of : Scenario → (Status × Reason) × Running → ScenarioResult
  result_of scn ((status, reason), (bus, run)) =
      let r : ScenarioResult = record {
        status = status;
        reason = reason;
        timeline = run.recorder.timeline.entries;
        errors = run.errors;
        artifacts = no_more;
      } in
      elim scn.phones [
        | [] ↦ r
        | pid ∷ pids ↦ if o.has_roots then swept (o.collect_artifacts scn.phones) r else r
      ]

  abbrev pub finished : Scenario → List Step → Bool × Running → Option ScenarioResult × Running
  finished scn xs (false, s) = (none, s)
  finished scn xs (true, s) = let end = carry_out scn xs s in (some (result_of scn end), end.1)

  -- The branch that "the pre-flight validation failed"
  unfoldable pub refuse : Scenario → List Issue → Running → ScenarioResult × Running
  unfolding start stop
  refuse scn issues s =
      let payload = o.explain (codes "scenario.validation_failed") in
      let s' = meta_now o (codes "scenario.validation_failed") payload (start_recorder s) in
      let r : ScenarioResult = record {
        status = error;
        reason = preflight_failed;
        timeline = s'.1.recorder.timeline.entries;
        errors = map in_validation issues;
        artifacts = no_more;
      } in
      (r, stop_recorder s')

  abbrev pub checked :
      Option (List Issue) → Scenario → List Step → Running → Option ScenarioResult × Running
  checked none scn xs s = (none, s)
  checked (some []) scn xs s = finished scn xs (set_up scn s)
  checked (some (i ∷ is)) scn xs s = let (r, s') = refuse scn (i ∷ is) s in (some r, s')

  -- `run`: the result, or none where it raises, and the state afterwards. The steps are those that
  -- happen while it waits for a stop condition or for its time to be over.
  unfoldable pub run : Bool → Scenario → List Step → Bus → Option ScenarioResult × Running
  unfolding validate_scenario set_up carry_out refuse
  run skip_validation scn xs bus =
      let s : Running = (bus, new_run (o.clock 0)) in
      let report = if skip_validation then some [] else validate_scenario scn in
      checked report scn xs s
