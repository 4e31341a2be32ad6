-- ===== src/Scenario/Run/Acting.antt =====
-- What every step of a scenario keeps, it keeps while it acts and waits.
use pjsua_mcp.Prelude.{
  ℕ, ◌+◌, Bool, true, false, Option, none, some, List, [], ◌∷◌, Option-cases, inl, inr, if_holds,
}
use pjsua_mcp.Text.{Text, codes}
use pjsua_mcp.Scenario.Value.{
  Value, nothing, bool, int, str, list, dict, other, Fields, lookup, or_nothing, truthy,
}
use pjsua_mcp.Scenario.Matching.{Event, Hook}
use pjsua_mcp.Scenario.Actions.{
  Outcome, done, bad_spec, unknown_action, failed, go_on, normalize_action, has_handler, after_call,
  call_handler, execute_one, execute, with_defaults,
}
use pjsua_mcp.Scenario.Validator.{Scenario}
use pjsua_mcp.Scenario.Run.{
  RunError, in_initial_actions, Running, Step, emitted, noted, step, steps,
}
use pjsua_mcp.Scenario.Run.Parts.{Outside, fail}
use pjsua_mcp.Scenario.Run.Phases.{
  emit_now, meta_now, perform, run_actions, after_actions, initial_actions, replay_info, synthetic,
  unless_stopped, awaited, replay_one, replay, await_stop, await_end, fake_hook, fake_event,
}
use pjsua_mcp.Scenario.Run.Whole.{act, started_data}

-- What every handler and every record keeps, a list of actions keeps.
module _ {W : Type 0} (I : W → Type 0) (handler : Text → Fields → W → Bool × W)
    (meta : Text → W → W)
    (handler-keeps : (name : Text) (args : Fields) (w : W) → I w → I (handler name args w).1)
    (meta-keeps : (type : Text) (w : W) → I w → I (meta type w)) where
  after_call-keeps : (r : Bool × W) → I r.1 → I (after_call handler meta r).1
  after_call-keeps (true, w) h = h
  after_call-keeps (false, w) h = meta-keeps (codes "action.failed") w h

  call_handler-keeps :
      (name : Text) (args : Fields) (w : W) → I w → I (call_handler handler meta name args w).1
  call_handler-keeps name args w h =
      if_holds (λ (r : Outcome × W). I r.1) (has_handler name)
        (after_call-keeps (handler name args w) (handler-keeps name args w h))
        (meta-keeps (codes "action.unknown") w h)

  execute_one-keeps :
      (spec : Value) (hook : Hook) (ev : Event) (w : W)
      → I w
      → I (execute_one handler meta spec hook ev w).1
  unfolding execute_one
  execute_one-keeps spec hook ev w h = elim (Option-cases (normalize_action spec)) [
    | inl e ↦ rw (e, execute_one) (meta-keeps (codes "action.error") w h)
    | inr ((name, args), e) ↦
        rw (e, execute_one) (call_handler-keeps name (with_defaults hook ev args) w h)
  ]

  go_on-keeps :
      (out : Outcome) (w : W) (rest : Outcome × W) → I w → I rest.1 → I (go_on out w rest).1
  go_on-keeps done w rest h k = k
  go_on-keeps bad_spec w rest h k = h
  go_on-keeps unknown_action w rest h k = h
  go_on-keeps failed w rest h k = h

  execute-keeps :
      (specs : List Value) (hook : Hook) (ev : Event) (w : W)
      → I w
      → I (execute handler meta specs hook ev w).1
  unfolding execute
  execute-keeps [] hook ev w h = h
  execute-keeps (spec ∷ specs) hook ev w h =
      let r = execute_one handler meta spec hook ev w in
      let k = execute_one-keeps spec hook ev w h in
      go_on-keeps r.0 r.1 (execute handler meta specs hook ev r.1) k
        (execute-keeps specs hook ev r.1 k)

-- A predicate of the run that the steps keep, and so do the clock and the list of errors.
pub record IsLasting (o : Outside) (I : Running → Type 0) : Type 0 where
  pub step_keeps :
      (x : Step) (s : Running) → I s → I (step o.clock o.offset_ms o.re_search o.withdraws x s)
  pub tick_keeps : (s : Running) → I s → I (s.0, record s.1 { ticks = s.1.ticks + 1 })
  pub fail_keeps : (e : RunError) (s : Running) → I s → I (s.0, fail e s.1)

module _ (o : Outside) (I : Running → Type 0) (lasts : IsLasting o I) where
  steps-keeps :
      (xs : List Step) (s : Running)
      → I s
      → I (steps o.clock o.offset_ms o.re_search o.withdraws xs s)
  steps-keeps [] s h = h
  steps-keeps (x ∷ xs) s h =
      steps-keeps xs (step o.clock o.offset_ms o.re_search o.withdraws x s) (lasts.step_keeps x s h)

  emit_now-keeps :
      (type : Text) (phone : Option Text) (payload : Fields) (s : Running)
      → I s
      → I (emit_now o type phone payload s)
  unfolding step
  emit_now-keeps type phone payload (bus, run) h =
      let ev : Event = record {
        type = type;
        timestamp = o.clock run.ticks;
        phone_id = phone;
        call_id = none;
        payload = payload;
      } in
      lasts.step_keeps (emitted ev) (bus, record run { ticks = run.ticks + 1 })
        (lasts.tick_keeps (bus, run) h)

  replay_info-keeps :
      (pid : Text) (info : Option Fields) (s : Running) → I s → I (replay_info o pid info s)
  replay_info-keeps pid none s h = h
  replay_info-keeps pid (some info) s h =
      if_holds I (truthy (or_nothing (lookup (codes "is_registered") info)))
        (emit_now-keeps (codes "reg.success") (some pid) (synthetic o info) s h) h

  replay_one-keeps : (pid : Value) (s : Running) → I s → I (replay_one o pid s)
  unfolding replay_one
  replay_one-keeps (str pid) s h = replay_info-keeps pid (o.get_registration_info pid) s h
  replay_one-keeps nothing s h = h
  replay_one-keeps (bool b) s h = h
  replay_one-keeps (int n) s h = h
  replay_one-keeps (list vs) s h = h
  replay_one-keeps (dict fs) s h = h
  replay_one-keeps (other t) s h = h

  replay-keeps : (pids : List Value) (s : Running) → I s → I (replay o pids s)
  replay-keeps [] s h = h
  replay-keeps (pid ∷ pids) s h = replay-keeps pids (replay_one o pid s) (replay_one-keeps pid s h)

  perform-keeps : (name : Text) (args : Fields) (s : Running) → I s → I (perform o name args s).1
  perform-keeps name args (bus, run) h =
      let xs = (o.handler name args run.ticks).1 in
      steps-keeps xs (bus, record run { ticks = run.ticks + 1 }) (lasts.tick_keeps (bus, run) h)

  run_actions-keeps : (actions : List Value) (s : Running) → I s → I (run_actions o actions s).1
  unfolding step
  run_actions-keeps actions s h =
      execute-keeps I (perform o) (λ type. meta_now o type (o.explain type)) perform-keeps
        (λ type s h. lasts.step_keeps (noted type (o.explain type)) s h) actions
        (fake_hook o actions) (fake_event o (o.clock s.1.ticks)) s h

  failed_keeps :
      (out : Outcome) (s : Running)
      → I s
      → I (
          meta_now o
            (codes "initial.error")
            (o.explain (codes "initial.error"))
            (s.0, fail (in_initial_actions out) s.1))
  unfolding step
  failed_keeps out s h =
      lasts.step_keeps (noted (codes "initial.error") (o.explain (codes "initial.error")))
        (s.0, fail (in_initial_actions out) s.1) (lasts.fail_keeps (in_initial_actions out) s h)

  after_actions-keeps : (r : Outcome × Running) → I r.1 → I (after_actions o r)
  after_actions-keeps (done, s) h = h
  after_actions-keeps (bad_spec, s) h = failed_keeps bad_spec s h
  after_actions-keeps (unknown_action, s) h = failed_keeps unknown_action s h
  after_actions-keeps (failed, s) h = failed_keeps failed s h

  initial_actions-keeps :
      (actions : List Value) (s : Running) → I s → I (initial_actions o actions s)
  unfolding initial_actions
  initial_actions-keeps [] s h = h
  initial_actions-keeps (a ∷ actions) s h =
      after_actions-keeps (run_actions o (a ∷ actions) s) (run_actions-keeps (a ∷ actions) s h)

  unless_stopped-keeps :
      (future : Option Event) (s : Running) (rest : Bool × Running)
      → I s
      → I rest.1
      → I (unless_stopped o future s rest).1
  unless_stopped-keeps none s rest h k = k
  unless_stopped-keeps (some ev) s rest h k = h

  await_stop-keeps : (xs : List Step) (s : Running) → I s → I (await_stop o xs s).1
  unfolding await_stop
  await_stop-keeps [] s h = unless_stopped-keeps s.1.stop_future s (false, s) h h
  await_stop-keeps (x ∷ xs) s h =
      let s' = step o.clock o.offset_ms o.re_search o.withdraws x s in
      unless_stopped-keeps s.1.stop_future s (await_stop o xs s') h
        (await_stop-keeps xs s' (lasts.step_keeps x s h))

  awaited-keeps :
      (stops : List Fields) (ms : ℕ) (s : Running) (r : Bool × Running)
      → I s
      → I r.1
      → I (awaited o stops ms s r).1
  awaited-keeps [] ms s r h k = h
  awaited-keeps (spec ∷ specs) ms s r h k = k

  await_end-keeps :
      (scn : Scenario) (xs : List Step) (s : Running) → I s → I (await_end o scn xs s).1
  unfolding await_end
  await_end-keeps scn xs s h =
      awaited-keeps scn.stop_on scn.timeout_ms
        (steps o.clock o.offset_ms o.re_search o.withdraws xs s) (await_stop o xs s)
        (steps-keeps xs s h) (await_stop-keeps xs s h)

  pub acting-keeps : (scn : Scenario) (xs : List Step) (s : Running) → I s → I (act o scn xs s).1
  unfolding act
  acting-keeps scn xs s h =
      let s' = replay o scn.phones s in
      let started = codes "scenario.started" in
      let s'' = emit_now o started none (started_data o scn) s' in
      await_end-keeps scn xs (initial_actions o scn.initial_actions s'') (
        initial_actions-keeps scn.initial_actions s''
          (emit_now-keeps started none (started_data o scn) s' (replay-keeps scn.phones s h)))
