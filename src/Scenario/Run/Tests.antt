-- ===== src/Scenario/Run/Tests.antt =====
-- Runs of scenarios at concrete inputs.
use pjsua_mcp.Prelude.{
  ℕ, zero, suc, ap, arith, ◌≡◌, refl, is_some, Bool, true, false, Option, none, some, List, [], ◌∷◌,
  nat_eq, if◌then◌else◌,
}
use pjsua_mcp.Text.{Text, codes}
use pjsua_mcp.Dict.{get, has, set, pop, pop_all}
use pjsua_mcp.Bus.{
  Subscription, Bus, star_prefix, matches_one, subscribe, unsubscribe, emit, deliver,
}
use pjsua_mcp.Scenario.Value.{
  str, list, end, item, Fields, no_more, field, lookup, str_of, value_beq,
}
use pjsua_mcp.Scenario.Matching.{
  Event, value_matches, split_dots, event_matches_predicates, hook_matches,
}
use pjsua_mcp.Scenario.Validator.{
  Scenario, validate_scenario, is_known_event, is_known_action, check_action_spec, event_issues,
  action_issues, thens_of, check_hook, hook_issues, stop_issues, initial_action, unknown_name,
}
use pjsua_mcp.Scenario.Run.{Step, emitted, acted, turned, publish, dispatch, step, stop_matches}
use pjsua_mcp.Scenario.Hooks.{hook_of, arm, arm_hook, callback, remove, remove_all}
use pjsua_mcp.Scenario.Actions.{normalize_action, has_handler, execute, execute_one}
use pjsua_mcp.Scenario.Timeline.{start, stop}
use pjsua_mcp.Scenario.Run.Arming.{IsDistinct}
use pjsua_mcp.Scenario.Run.Others.{IsOn}
use pjsua_mcp.Scenario.Run.Leaving.{run-IsOn}
use pjsua_mcp.Scenario.Run.Restored.{run-IsRestored}
use pjsua_mcp.Scenario.Run.Stopping.{IsEndedBy, run-stops}
use pjsua_mcp.Scenario.Run.Refusing.{recorder, refused, run-refuses, run-leaks}
use pjsua_mcp.Scenario.Run.Parts.{
  Outside, ScenarioResult, Reason, ok, stop_on_matched, full_duration, preflight_failed, timed_out,
  subscribe_stops, subscribe_stop,
}
use pjsua_mcp.Scenario.Run.Phases.{arm_spec, replay_one, initial_actions, await_end, await_stop}
use pjsua_mcp.Scenario.Run.Whole.{run, set_up, carry_out, act, cleanup}

abbrev tail : Text → Text
tail [] = []
tail (c ∷ t) = t

abbrev ended : Event
ended = record {
  type = codes "call.state.disconnected";
  timestamp = codes "1.0";
  phone_id = some (codes "a");
  call_id = some 3;
  payload = no_more;
}

-- "When a call of the phone a ends"
abbrev on_a : Fields
on_a =
    field (codes "event") (str (codes "call.state.disconnected"))
      (field (codes "phone_id") (str (codes "a")) no_more)

-- The n-th id has n letters.
abbrev letters : ℕ → Text
letters zero = []
letters (suc n) = b'i' ∷ letters n

letters-IsDistinct : IsDistinct letters
letters-IsDistinct zero zero e = refl
letters-IsDistinct zero (suc n) e = ground (arith, e)
letters-IsDistinct (suc m) zero e = ground (arith, e)
letters-IsDistinct (suc m) (suc n) e = ap suc (letters-IsDistinct m n (ap tail e))

-- An action makes a record, and the call ends.
abbrev hang_up_steps : Text → Fields → ℕ → Bool × List Step
hang_up_steps name args now =
    (true, acted name (some (codes "a")) none no_more none none ∷ emitted ended ∷ [])

abbrev outside : Outside
outside = record {
  clock = letters;
  offset_ms = λ ts t0. ts;
  re_search = λ pattern t. none;
  fresh = letters;
  get_registration_info = λ pid. none;
  handler = hang_up_steps;
  explain = λ type. no_more;
  collect_artifacts = λ phones. none;
  has_roots = false;
  withdraws = λ id ev. 9 ∷ [];
}

-- A hook, a condition, and an action.
abbrev scenario : Scenario
scenario = record {
  name = codes "s";
  description = [];
  phones = str (codes "a") ∷ [];
  hooks =
      field (codes "when") (str (codes "dtmf.in"))
        (field (codes "then") (list (item (str (codes "hangup")) end)) no_more)
      ∷ [];
  initial_actions = str (codes "hangup_all") ∷ [];
  stop_on = on_a ∷ [];
  timeout_ms = 1000;
}

abbrev no_result : ScenarioResult
no_result = record {
  status = ok;
  reason = stop_on_matched;
  timeline = [];
  errors = [];
  artifacts = no_more;
}

abbrev result_or : Option ScenarioResult → ScenarioResult
result_or none = no_result
result_or (some r) = r

given : (o : Option ScenarioResult) → is_some o ≡ true → o ≡ some (result_or o)
given none e = ground (arith, e)
given (some r) e = refl

-- A bus with the subscription of another.
abbrev others : Bus
others = record {
  subs =
      (1, record { sub_id = 1; patterns = codes "reg.*" ∷ []; once = false; active = true }) ∷ [];
  next_id = 2;
}

abbrev the_result : ScenarioResult
the_result = result_or (run outside true scenario (turned ∷ []) others).0

abbrev reason_text : Reason → ℕ
reason_text stop_on_matched = 1
reason_text full_duration = 2
reason_text preflight_failed = 3
reason_text (timed_out ms) = 4

checked : validate_scenario scenario ≡ some []
unfolding validate_scenario hook_issues check_hook event_issues is_known_event star_prefix str_of
    lookup thens_of action_issues check_action_spec normalize_action is_known_action stop_issues
checked = refl

-- The action makes an event that the condition wants; the loop takes its turn, and the run has ended:
-- of four subscriptions only that of another is left.
stopped :
    (is_some (run outside true scenario (turned ∷ []) others).0 ≡ true)
    × (the_result.reason ≡ stop_on_matched)
    × (has (run outside true scenario (turned ∷ []) others).1.0.subs 1 ≡ true)
    × (has (run outside true scenario (turned ∷ []) others).1.0.subs 2 ≡ false)
unfolding run set_up start subscribe subscribe_stops subscribe_stop arm_spec arm hook_of arm_hook
    lookup str_of thens_of carry_out act replay_one publish emit deliver dispatch get set pop
    pop_all callback hook_matches event_matches_predicates value_matches value_beq split_dots
    matches_one star_prefix initial_actions execute execute_one normalize_action has_handler step
    await_end await_stop cleanup unsubscribe remove_all remove stop stop_matches
stopped = (refl, refl, refl, refl)

-- Without the turn of the loop its time is over.
late : (result_or (run outside true scenario [] others).0).reason ≡ timed_out 1000
unfolding run set_up start subscribe subscribe_stops subscribe_stop arm_spec arm hook_of arm_hook
    lookup str_of thens_of carry_out act replay_one publish emit deliver dispatch get set pop
    pop_all callback hook_matches event_matches_predicates value_matches value_beq split_dots
    matches_one star_prefix initial_actions execute execute_one normalize_action has_handler step
    await_end await_stop cleanup unsubscribe remove_all remove stop stop_matches
late = refl

run-IsRestored_example : has others.subs 1 ≡ true
run-IsRestored_example =
    run-IsRestored outside true scenario (turned ∷ []) others the_result 1 letters-IsDistinct
      (given (run outside true scenario (turned ∷ []) others).0 stopped.0) stopped.2

abbrev of_another : Subscription
of_another = record { sub_id = 1; patterns = codes "reg.*" ∷ []; once = false; active = true }

others-IsOn : IsOn 1 of_another others
unfolding get
others-IsOn = record { there = refl; lasting = refl; given = λ k. ground arith }

run-IsOn_example : IsOn 1 of_another (run outside true scenario (turned ∷ []) others).1.0
run-IsOn_example =
    run-IsOn 1 of_another outside true scenario (turned ∷ []) others (λ i ev. refl) others-IsOn

run-stops_example : IsEndedBy outside scenario (run outside true scenario (turned ∷ []) others).1.1
run-stops_example =
    run-stops outside true scenario (turned ∷ []) others the_result
      (given (run outside true scenario (turned ∷ []) others).0 stopped.0) stopped.1

abbrev misspelt : Scenario
misspelt = record scenario { initial_actions = str (codes "anwser") ∷ [] }

found : validate_scenario misspelt ≡ some (initial_action 0 (unknown_name (codes "anwser")) ∷ [])
unfolding validate_scenario hook_issues check_hook event_issues is_known_event star_prefix str_of
    lookup thens_of action_issues check_action_spec normalize_action is_known_action stop_issues
found = refl

run-refuses_example :
    let issue = initial_action 0 (unknown_name (codes "anwser")) in
    let (result, s) = run outside false misspelt [] others in
    (result ≡ some (refused outside issue [])) × (get s.0.subs 1 ≡ get others.subs 1)
run-refuses_example =
    run-refuses outside misspelt [] others (initial_action 0 (unknown_name (codes "anwser"))) [] 1
      found

-- A condition whose predicates are no dictionary passes the validation.
abbrev malformed : Scenario
malformed = record scenario { stop_on = field (codes "match") (str (codes "x")) on_a ∷ [] }

raised :
    ((if false then some [] else validate_scenario malformed) ≡ some [])
    × ((run outside false malformed [] others).0 ≡ none)
unfolding run set_up start subscribe subscribe_stops subscribe_stop arm_spec arm hook_of arm_hook
    lookup str_of thens_of carry_out act replay_one publish emit deliver dispatch get set pop
    pop_all callback hook_matches event_matches_predicates value_matches value_beq split_dots
    matches_one star_prefix initial_actions execute execute_one normalize_action has_handler step
    await_end await_stop cleanup unsubscribe remove_all remove stop stop_matches validate_scenario
    hook_issues check_hook event_issues is_known_event action_issues check_action_spec
    is_known_action stop_issues
raised = (refl, refl)

run-leaks_example : get (run outside false malformed [] others).1.0.subs 2 ≡ some (recorder others)
run-leaks_example = run-leaks outside false malformed [] others raised.0 raised.1
