-- ===== src/Scenario/Tests.antt =====
-- Scenarios of src/scenario_engine at concrete inputs.
use pjsua_mcp.Prelude.{ℕ, ◌+◌, ◌*◌, ◌≡◌, refl, Bool, true, Option, none, some, [], ◌∷◌, nat_eq, All}
use pjsua_mcp.Text.{Text, codes}
use pjsua_mcp.Bus.{star_prefix, matches_one}
use pjsua_mcp.Text.Scan.{number, span, strip, lstrip, rstrip}
use pjsua_mcp.Text.Regex.{run, greedy}
use pjsua_mcp.Text.Integer.{ℤ, pos, int_of_text}
use pjsua_mcp.Scenario.Value.{
  int, str, list, dict, end, item, Fields, no_more, field, lookup, str_of, value_beq,
}
use pjsua_mcp.Scenario.Matching.{
  Event, Hook, value_matches, split_dots, event_matches_predicates, hook_matches,
}
use pjsua_mcp.Scenario.Actions.{with_defaults, normalize_action, execute}
use pjsua_mcp.Scenario.Validator.{
  Scenario, is_known_event, is_known_action, check_action_spec, event_issues, action_issues,
  thens_of, check_hook, hook_issues, stop_issues, validate_scenario, initial_action, unknown_name,
}
use pjsua_mcp.Scenario.Commands.{reject_call}
use pjsua_mcp.Scenario.Durations.{parse_ms}
use pjsua_mcp.Scenario.Handlers.{command_of}
use pjsua_mcp.Scenario.Targets.{IsFor, command_of-on_phone}
use pjsua_mcp.Scenario.Hooks.{new_runtime, hook_of, arm, arm_hook, emit_events}
use pjsua_mcp.Scenario.Firing.{new_bus, is_wanted, firings, arm-emit_events}
use pjsua_mcp.Scenario.Validation.{is_carried_out, runs_hook, validate_scenario-executes}

abbrev never : Text → Text → Option Bool
never pattern t = none

abbrev hang_up : Fields
hang_up =
    field (codes "when") (str (codes "call.state.*"))
      (field (codes "then") (list (item (str (codes "hangup")) end)) no_more)

abbrev scenario : Scenario
scenario = record {
  name = codes "s";
  description = [];
  phones = str (codes "a") ∷ [];
  hooks = hang_up ∷ [];
  initial_actions = dict (field (codes "wait") (str (codes "2s")) no_more) ∷ [];
  stop_on = field (codes "event") (str (codes "reg.success")) no_more ∷ [];
  timeout_ms = 1000;
}

checked : validate_scenario scenario ≡ some []
unfolding validate_scenario hook_issues check_hook event_issues is_known_event star_prefix str_of
    lookup thens_of action_issues check_action_spec normalize_action is_known_action stop_issues
checked = refl

-- A name that no handler has.
refused :
    validate_scenario (record scenario { initial_actions = str (codes "anwser") ∷ [] })
    ≡ some (initial_action 0 (unknown_name (codes "anwser")) ∷ [])
unfolding validate_scenario hook_issues check_hook event_issues is_known_event star_prefix str_of
    lookup thens_of action_issues check_action_spec normalize_action is_known_action stop_issues
refused = refl

abbrev event : Event
event = record {
  type = codes "call.state.confirmed";
  timestamp = codes "1.0";
  phone_id = some (codes "a");
  call_id = some 3;
  payload = field (codes "headers") (dict (field (codes "To") (str (codes "b")) no_more)) no_more;
}

abbrev hook : Hook
hook = record {
  hook_id = codes "h";
  when = codes "call.state.*" ∷ [];
  on_phone = some (codes "a");
  match =
      field (codes "headers.To") (str (codes "b")) (field (codes "call_id") (int (pos 3)) no_more);
  then_actions = str (codes "hangup") ∷ [];
  once = true;
  pattern_name = codes "<scenario>";
  sub_id = some 1;
}

-- A field of the data by its dotted path, and one of the event itself.
matched : hook_matches never hook event ≡ some true
unfolding hook_matches event_matches_predicates value_matches value_beq split_dots lookup
matched = refl

-- A handler that counts its calls, and a timeline of meta records that is not kept.
abbrev count_call : Text → Fields → ℕ → Bool × ℕ
count_call name args n = (true, n + 1)

abbrev keep_nothing : Text → ℕ → ℕ
keep_nothing type n = n

validate_scenario-executes_example :
    All (λ h. runs_hook count_call keep_nothing hook event 0 h ≡ true) (hang_up ∷ [])
    × (is_carried_out (execute count_call keep_nothing scenario.initial_actions hook event 0).0
        ≡ true)
validate_scenario-executes_example =
    validate_scenario-executes count_call keep_nothing scenario hook event 0 checked

abbrev armed_hook : Hook
armed_hook = record {
  hook_id = codes "h";
  when = codes "call.state.*" ∷ [];
  on_phone = none;
  match = no_more;
  then_actions = str (codes "hangup") ∷ [];
  once = true;
  pattern_name = codes "<scenario>";
  sub_id = none;
}

abbrev registered : Event
registered = record event { type = codes "reg.success" }

-- Of three events the first does not use the hook up, and the third finds it gone.
fired_once : firings never armed_hook (registered ∷ event ∷ event ∷ []) ≡ (codes "h", event) ∷ []
unfolding is_wanted matches_one star_prefix hook_matches event_matches_predicates
fired_once = refl

arm-emit_events_example :
    let s = arm_hook armed_hook (new_bus, new_runtime) in
    (arm (codes "h") (codes "<scenario>") hang_up (new_bus, new_runtime) ≡ some s)
    × ((emit_events never (registered ∷ event ∷ event ∷ []) s).1.scheduled
        ≡ firings never armed_hook (registered ∷ event ∷ event ∷ []))
unfolding hook_of lookup thens_of
arm-emit_events_example =
    arm-emit_events never (codes "h") (codes "<scenario>") hang_up armed_hook
      (registered ∷ event ∷ event ∷ []) refl

-- The forms of a duration, and an action with the defaults of its hook.
abbrev no_fractions : Text → ℤ
no_fractions t = pos (number t * 1000)

waited :
    (parse_ms no_fractions (str (codes " 2 s")) ≡ some (pos 2000))
    × (parse_ms no_fractions (str (codes "500ms")) ≡ some (pos 500))
    × (parse_ms no_fractions (str (codes "soon")) ≡ none)
unfolding parse_ms run greedy strip lstrip rstrip span int_of_text
waited = (refl, refl, refl)

busy :
    command_of no_fractions (codes "reject") (with_defaults hook event no_more)
    ≡ some (reject_call (str (codes "a")) (int (pos 3)) (pos 486))
unfolding command_of lookup
busy = refl

command_of-on_phone_example : IsFor (str (codes "a")) (
    command_of no_fractions
      (codes "hangup")
      (with_defaults hook (record event { phone_id = some (codes "b") }) no_more))
unfolding lookup
command_of-on_phone_example =
    command_of-on_phone no_fractions (codes "hangup") no_more hook
      (record event { phone_id = some (codes "b") }) b'a' [] refl refl
