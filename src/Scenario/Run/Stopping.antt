-- ===== src/Scenario/Run/Stopping.antt =====
-- Why a scenario stops: what its conditions say of the event that ended it.
use pjsua_mcp.Prelude.{
  not, Bool-cases, inl, inr, ◌&&◌, any, or_else, ℕ, is_some, ◌+◌, ◌≡◌, refl, sym, ap, ◌∙◌, Bool,
  true, false, Option, none, some, List, [], ◌∷◌, arith, nat_eq, if◌then◌else◌,
}
use pjsua_mcp.Text.{Text, codes}
use pjsua_mcp.Bus.{Bus}
use pjsua_mcp.Scenario.Value.{Value, Fields, dict, no_more, lookup, or_nothing, value_beq}
use pjsua_mcp.Scenario.Matching.{Event, is_nothing, attribute, event_matches_predicates}
use pjsua_mcp.Scenario.Timeline.{stop}
use pjsua_mcp.Scenario.Validator.{Scenario, Issue, validate_scenario}
use pjsua_mcp.Scenario.Run.{Run, differs, stop_matches, Running, Step, step, steps}
use pjsua_mcp.Scenario.Run.Shrinking.{publish-Shrinks}
use pjsua_mcp.Scenario.Run.Acting.{acting-keeps}
use pjsua_mcp.Scenario.Run.Parts.{
  Outside, preflight_failed, new_run, ScenarioResult, Status, Reason, stop_on_matched,
}
use pjsua_mcp.Scenario.Run.Phases.{
  replay, initial_actions, emit_now, await_stop, await_end, unless_stopped, awaited,
}
use pjsua_mcp.Scenario.Run.Whole.{
  refuse, result_of, checked, finished, outcome_data, started_data, remove_hooks, drop_stops,
  set_up, act, cleanup, carry_out, run,
}
use pjsua_mcp.Scenario.Run.Earned.{Passing, IsEarned, IsEarned-IsLasting, set_up-IsEarned}

abbrev reason_of : Option ScenarioResult → Reason
reason_of none = preflight_failed
reason_of (some r) = r.reason

module _ (o : Outside) (scn : Scenario) where
  -- The wait ends well with the result.
  unless_stopped-result :
      (future : Option Event) (s : Running) (rest : Bool × Running)
      → s.1.stop_future ≡ future
      → (rest.0 ≡ true → is_some rest.1.1.stop_future ≡ true)
      → (unless_stopped o future s rest).0 ≡ true
      → is_some (unless_stopped o future s rest).1.1.stop_future ≡ true
  unless_stopped-result none s rest p h e = h e
  unless_stopped-result (some ev) s rest p h e = ap is_some p

  await_stop-result :
      (xs : List Step) (s : Running)
      → (await_stop o xs s).0 ≡ true
      → is_some (await_stop o xs s).1.1.stop_future ≡ true
  unfolding await_stop
  await_stop-result [] s =
      unless_stopped-result s.1.stop_future s (false, s) refl (λ e. ground (arith, e))
  await_stop-result (x ∷ xs) s =
      let s' = step o.clock o.offset_ms o.re_search o.withdraws x s in
      unless_stopped-result s.1.stop_future s (await_stop o xs s') refl (await_stop-result xs s')

  awaited-result :
      (stops : List Fields) (ms : ℕ) (s : Running) (r : Bool × Running)
      → (r.0 ≡ true → is_some r.1.1.stop_future ≡ true)
      → (awaited o stops ms s r).0.1 ≡ stop_on_matched
      → is_some (awaited o stops ms s r).1.1.stop_future ≡ true
  awaited-result [] ms s r h e = ground (arith, e)
  awaited-result (spec ∷ specs) ms s (true, s') h e = h refl
  awaited-result (spec ∷ specs) ms s (false, s') h e = ground (arith, e)

  cleanup-stop_future :
      (payload : Fields) (s : Running) → (cleanup o payload s).1.stop_future ≡ s.1.stop_future
  unfolding cleanup stop
  cleanup-stop_future payload s =
      let s' = remove_hooks o (drop_stops o s) in
      let ev : Event = record {
        type = codes "scenario.stopped";
        timestamp = o.clock s'.1.ticks;
        phone_id = none;
        call_id = none;
        payload = payload;
      } in
      (publish-Shrinks o.clock o.offset_ms o.re_search o.withdraws ev
        (s'.0, record s'.1 { ticks = s'.1.ticks + 1 })).2

  -- A condition that asks for nothing here, or for this value.
  abbrev asks : Value → Value → Bool
  asks wanted found = if is_nothing wanted then true else value_beq found wanted

  abbrev match_fields : Value → Fields
  match_fields (dict fs) = fs
  match_fields v = no_more

  -- The event has the phone, the call and the fields of the condition.
  abbrev fulfils : Event → Fields → Bool
  fulfils ev spec =
      asks (or_nothing (lookup (codes "phone_id") spec)) (attribute ev (codes "phone_id"))
      && asks (or_nothing (lookup (codes "call_id") spec)) (attribute ev (codes "call_id"))
      && or_else
          (event_matches_predicates o.re_search ev
            (match_fields (or_nothing (lookup (codes "match") spec))))
          false

  -- An event that has ended a run.
  abbrev pub IsEndedBy : Run → Type 0
  IsEndedBy r = (ev : Event) × (r.stop_future ≡ some ev) × (any (fulfils ev) scn.stop_on ≡ true)

  asks_lem : (wanted found : Value) → differs wanted found ≡ not (asks wanted found)
  asks_lem wanted found = elim (Bool-cases (is_nothing wanted)) [
    | inl e ↦ rw e refl
    | inr e ↦ rw e refl
  ]

  three_tests :
      {a b : Bool} (a' b' : Bool)
      → a ≡ not a'
      → b ≡ not b'
      → (r : Option Bool)
      → (if a then false else if b then false else elim r [ some true ↦ true | _ ↦ false ])
        ≡ (a' && b' && or_else r false)
  three_tests a' b' h k none = ground (arith, h, k)
  three_tests a' b' h k (some r) = ground (arith, h, k)

  fulfils_lem :
      (ev : Event) (spec : Fields)
      → stop_matches o.clock o.offset_ms o.re_search o.withdraws spec ev ≡ fulfils ev spec
  unfolding stop_matches
  fulfils_lem ev spec =
      let match = match_fields (or_nothing (lookup (codes "match") spec)) in
      three_tests _ _
        (asks_lem (or_nothing (lookup (codes "phone_id") spec)) (attribute ev (codes "phone_id")))
        (asks_lem (or_nothing (lookup (codes "call_id") spec)) (attribute ev (codes "call_id")))
        (event_matches_predicates o.re_search ev match)

  any-fulfils :
      (ev : Event) (specs : List Fields)
      → any (λ spec. stop_matches o.clock o.offset_ms o.re_search o.withdraws spec ev) specs
        ≡ any (fulfils ev) specs
  any-fulfils ev [] = refl
  any-fulfils ev (spec ∷ specs) = rw (fulfils_lem ev spec, any-fulfils ev specs)

  ended :
      (future : Option Event) (r : Run)
      → r.stop_future ≡ future
      → is_some future ≡ true
      → Passing o scn future
      → IsEndedBy r
  ended none r p e h = ground (arith, e)
  ended (some ev) r p e h = (ev, p, sym (any-fulfils ev scn.stop_on) ∙ h)

  reason-result_of :
      (why : Status × Reason) (s : Running) → (result_of o scn (why, s)).reason ≡ why.1
  reason-result_of why s = ground (arith)

  carry_out-ended :
      (xs : List Step) (s : Running)
      → IsEarned o scn s
      → (carry_out o scn xs s).0.1 ≡ stop_on_matched
      → IsEndedBy (carry_out o scn xs s).1.1
  unfolding carry_out act await_end
  carry_out-ended xs s h e =
      let r = act o scn xs s in
      let k = acting-keeps o (IsEarned o scn) (IsEarned-IsLasting o scn) scn xs s h in
      let s' =
        emit_now o (codes "scenario.started") none (started_data o scn) (replay o scn.phones s) in
      let s'' = initial_actions o scn.initial_actions s' in
      let there =
        awaited-result scn.stop_on scn.timeout_ms
          (steps o.clock o.offset_ms o.re_search o.withdraws xs s'') (await_stop o xs s'')
          (await_stop-result xs s'') e in
      ended r.1.1.stop_future (carry_out o scn xs s).1.1
        (cleanup-stop_future (outcome_data o r.0) r.1) there k.2

  finished-ended :
      (xs : List Step) (r : Bool × Running) (result : ScenarioResult)
      → IsEarned o scn r.1
      → (finished o scn xs r).0 ≡ some result
      → result.reason ≡ stop_on_matched
      → IsEndedBy (finished o scn xs r).1.1
  finished-ended xs (false, s) result h e q = ground (arith, e)
  finished-ended xs (true, s) result h e q =
      let c = carry_out o scn xs s in
      let same : some (result_of o scn c) ≡ some result = e in
      carry_out-ended xs s h (sym (reason-result_of c.0 c.1) ∙ ap reason_of same ∙ q)

  reason-refuse :
      (issues : List Issue) (bus : Bus) (t : Text)
      → (refuse o scn issues (bus, new_run t)).0.reason ≡ preflight_failed
  unfolding refuse
  reason-refuse issues bus t = refl

  checked-ended :
      (report : Option (List Issue)) (xs : List Step) (bus : Bus) (t : Text)
      (result : ScenarioResult)
      → (checked o report scn xs (bus, new_run t)).0 ≡ some result
      → result.reason ≡ stop_on_matched
      → IsEndedBy (checked o report scn xs (bus, new_run t)).1.1
  checked-ended none xs bus t result e q = ground (arith, e)
  checked-ended (some []) xs bus t result e q =
      finished-ended xs (set_up o scn (bus, new_run t)) result (set_up-IsEarned o scn t bus) e q
  checked-ended (some (i ∷ is)) xs bus t result e q =
      let no : preflight_failed ≡ stop_on_matched =
        sym (reason-refuse (i ∷ is) bus t) ∙ ap reason_of e ∙ q in
      ground (arith, no)

-- A scenario whose result says that a stop condition was matched was ended by an event of which the
-- following holds for one of its conditions: the event has the phone of the condition, if that names one,
-- and its call, if it names one, and the predicates of its "match" hold of the event without raising. Of
-- the event's type, which the bus has tested, nothing is said.
pub run-stops :
    (o : Outside) (skip_validation : Bool) (scn : Scenario) (xs : List Step) (bus : Bus)
    (result : ScenarioResult)
    → (run o skip_validation scn xs bus).0 ≡ some result
    → result.reason ≡ stop_on_matched
    → IsEndedBy o scn (run o skip_validation scn xs bus).1.1
unfolding run
run-stops o skip_validation scn xs bus result e q =
    checked-ended o scn (if skip_validation then some [] else validate_scenario scn) xs bus
      (o.clock 0) result e q
