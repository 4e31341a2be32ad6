-- ===== src/Scenario/Run/Phases.antt =====
-- The phases of `ScenarioRunner.run` of src/scenario_engine/orchestrator.py, up to the end of the wait.
use pjsua_mcp.Prelude.{
  ℕ, ◌+◌, Bool, true, false, Option, none, some, List, [], ◌∷◌, nat_eq, or_else, if◌then◌else◌,
}
use pjsua_mcp.Text.{Text, codes}
use pjsua_mcp.Text.Integer.{pos}
use pjsua_mcp.Bus.{Bus}
use pjsua_mcp.Scenario.Value.{
  Value, bool, int, str, Fields, no_more, field, lookup, or_nothing, truthy,
}
use pjsua_mcp.Scenario.Matching.{Event, Hook}
use pjsua_mcp.Scenario.Actions.{Outcome, done, execute}
use pjsua_mcp.Scenario.Validator.{Scenario}
use pjsua_mcp.Scenario.Hooks.{HookRuntime, arm}
use pjsua_mcp.Scenario.Run.{
  in_scenario_hooks, in_initial_actions, Running, Step, publish, note_meta, step, steps,
}
use pjsua_mcp.Scenario.Run.Parts.{
  Outside, Reason, Status, fail, full_duration, ok, stop_on_matched, timed_out, timeout,
}

module _ (o : Outside) where
  abbrev pub emit_now : Text → Option Text → Fields → Running → Running
  emit_now type phone payload (bus, run) =
      let ev : Event = record {
        type = type;
        timestamp = o.clock run.ticks;
        phone_id = phone;
        call_id = none;
        payload = payload;
      } in
      publish o.clock o.offset_ms o.re_search o.withdraws ev
        (bus, record run { ticks = run.ticks + 1 })

  abbrev pub meta_now : Text → Fields → Running → Running
  meta_now type payload (bus, run) =
      (bus, note_meta o.clock o.offset_ms o.re_search o.withdraws type payload run)

  abbrev pub armed_or_failed : Fields → Option (Bus × HookRuntime) → Running → Running
  armed_or_failed spec none (bus, run) = (bus, fail (in_scenario_hooks spec) run)
  armed_or_failed spec (some (bus', rt)) (bus, run) = (bus', record run { runtime = rt })

  -- The body of the loop that arms the hooks.
  unfoldable pub arm_spec : Fields → Running → Running
  unfolding arm
  arm_spec spec (bus, run) =
      armed_or_failed spec (arm (o.fresh run.drawn) (codes "<scenario>") spec (bus, run.runtime))
        (bus, record run { drawn = run.drawn + 1 })

  abbrev pub arm_specs : List Fields → Running → Running
  arm_specs [] s = s
  arm_specs (spec ∷ specs) s = arm_specs specs (arm_spec spec s)

  -- The data of the event that is emitted again for a phone that is registered.
  abbrev pub synthetic : Fields → Fields
  synthetic info =
      field (codes "status_code") (or_else (lookup (codes "status_code") info) (int (pos 200))) (
        field (codes "reason") (or_else (lookup (codes "reason") info) (str [])) (
          field (codes "expires") (or_else (lookup (codes "expires") info) (int (pos 0)))
            (field (codes "synthetic") (bool true) no_more)))

  abbrev pub replay_info : Text → Option Fields → Running → Running
  replay_info pid none s = s
  replay_info pid (some info) s =
      if truthy (or_nothing (lookup (codes "is_registered") info))
      then emit_now (codes "reg.success") (some pid) (synthetic info) s
      else s

  -- The body of the replay; of a phone that is no text the registry knows nothing.
  unfoldable pub replay_one : Value → Running → Running
  unfolding lookup publish
  replay_one (str pid) s = replay_info pid (o.get_registration_info pid) s
  replay_one _ s = s

  abbrev pub replay : List Value → Running → Running
  replay [] s = s
  replay (pid ∷ pids) s = replay pids (replay_one pid s)

  -- A handler's steps, and whether it returns.
  abbrev pub perform : Text → Fields → Running → Bool × Running
  perform name args (bus, run) =
      let (returned, xs) = o.handler name args run.ticks in
      let s : Running = (bus, record run { ticks = run.ticks + 1 }) in
      (returned, steps o.clock o.offset_ms o.re_search o.withdraws xs s)

  -- `fake_hook` and `fake_event`
  abbrev pub fake_hook : List Value → Hook
  fake_hook actions = record {
    hook_id = codes "<init>";
    when = [];
    on_phone = none;
    match = no_more;
    then_actions = actions;
    once = true;
    pattern_name = codes "<scenario>";
    sub_id = none;
  }

  abbrev pub fake_event : Text → Event
  fake_event now = record {
    type = codes "scenario.started";
    timestamp = now;
    phone_id = none;
    call_id = none;
    payload = no_more;
  }

  abbrev pub after_actions : Outcome × Running → Running
  after_actions (done, s) = s
  after_actions (out, (bus, run)) =
      meta_now (codes "initial.error") (o.explain (codes "initial.error"))
        (bus, fail (in_initial_actions out) run)

  abbrev pub run_actions : List Value → Running → Outcome × Running
  run_actions actions s =
      execute perform (λ type. meta_now type (o.explain type)) actions (fake_hook actions)
        (fake_event (o.clock s.1.ticks)) s

  -- The initial actions.
  unfoldable pub initial_actions : List Value → Running → Running
  unfolding execute step
  initial_actions [] s = s
  initial_actions (a ∷ actions) s = after_actions (run_actions (a ∷ actions) s)

  -- The future that is done is the result at once.
  abbrev pub unless_stopped : Option Event → Running → Bool × Running → Bool × Running
  unless_stopped none s rest = rest
  unless_stopped (some ev) s rest = (true, s)

  -- `asyncio.wait_for(stop_future, …)`: the steps end where the time is over.
  unfoldable pub await_stop : List Step → Running → Bool × Running
  unfolding step
  await_stop [] s = unless_stopped s.1.stop_future s (false, s)
  await_stop (x ∷ xs) s =
      let rest = await_stop xs (step o.clock o.offset_ms o.re_search o.withdraws x s) in
      unless_stopped s.1.stop_future s rest

  abbrev pub stopped_or_timeout : ℕ → Bool → Status × Reason
  stopped_or_timeout ms true = (ok, stop_on_matched)
  stopped_or_timeout ms false = (timeout, timed_out ms)

  -- With no stop condition a run takes its full time.
  abbrev pub awaited : List Fields → ℕ → Running → Bool × Running → (Status × Reason) × Running
  awaited [] ms s r = ((ok, full_duration), s)
  awaited (spec ∷ specs) ms s (stopped, s') = (stopped_or_timeout ms stopped, s')

  -- "Await stop condition or timeout"
  unfoldable pub await_end : Scenario → List Step → Running → (Status × Reason) × Running
  unfolding await_stop
  await_end scn xs s =
      let s' = steps o.clock o.offset_ms o.re_search o.withdraws xs s in
      awaited scn.stop_on scn.timeout_ms s' (await_stop xs s)
