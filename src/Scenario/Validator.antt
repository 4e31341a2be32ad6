-- ===== src/Scenario/Validator.antt =====
-- `validate_scenario` of src/scenario_engine/validator.py, for a `Scenario`; what a report says of an
-- issue is its constructor. Where `list(v)` raises, so does the validation.
use pjsua_mcp.Prelude.{
  ℕ, ◌+◌, Bool, true, not, ◌&&◌, ◌||◌, Option, none, some, List, [], ◌∷◌, ◌++◌, map, nat_eq, ◌==◌,
  contains, any, if◌then◌else◌,
}
use pjsua_mcp.Text.{Text, text_eq, codes, starts_with}
use pjsua_mcp.Bus.{star_prefix}
use pjsua_mcp.Scenario.Value.{Value, str, Fields, lookup, or_nothing, truthy, iterate, str_of}
use pjsua_mcp.Scenario.Matching.{is_nothing}
use pjsua_mcp.Scenario.Actions.{normalize_action}

-- `Scenario` of src/scenario_engine/orchestrator.py
pub record Scenario : Type 0 where
  pub name : Text
  pub description : Text
  pub phones : List Value
  pub hooks : List Fields
  pub initial_actions : List Value
  pub stop_on : List Fields
  pub timeout_ms : ℕ

-- `KNOWN_EVENT_PREFIXES`
abbrev known_event_prefixes : List Text
known_event_prefixes = map codes (
    "reg." ∷ "call.state." ∷ "dtmf." ∷ "im." ∷ "scenario." ∷ "user." ∷ "timer." ∷ "sip.request."
    ∷ "sip.response." ∷ "media." ∷ [])

-- `KNOWN_ACTIONS`
abbrev pub known_actions : List Text
known_actions = map codes (
    "answer" ∷ "hangup" ∷ "hangup_all" ∷ "reject" ∷ "hold" ∷ "unhold" ∷ "send_dtmf"
    ∷ "blind_transfer" ∷ "attended_transfer" ∷ "conference" ∷ "make_call" ∷ "play_audio"
    ∷ "stop_audio" ∷ "send_message" ∷ "set_codecs" ∷ "wait" ∷ "wait_until" ∷ "emit" ∷ "checkpoint"
    ∷ "log" ∷ [])

-- `name in KNOWN_ACTIONS`
unfoldable pub is_known_action : Text → Bool
is_known_action name = contains name known_actions

-- `p.rstrip(".")`
abbrev rstrip_dots : Text → Text
rstrip_dots [] = []
rstrip_dots (c ∷ t) = let rest = rstrip_dots t in if rest == [] && c == b'.' then [] else c ∷ rest

abbrev is_under : Text → Text → Bool
is_under base p = starts_with base (rstrip_dots p) || base ++ b'.' ∷ [] == p

-- `_is_known_event`
unfoldable pub is_known_event : Text → Bool
unfolding star_prefix
is_known_event ev = if ev == codes "*" then true else elim (star_prefix ev) [
  | some base ↦ any (is_under base) known_event_prefixes || base == codes "scenario"
  | none ↦ any (λ p. starts_with ev p) known_event_prefixes
]

-- What is wrong with an action.
pub data ActionIssue : Type 0 where
  bad_action_spec : ActionIssue
  unknown_name : Text → ActionIssue

-- `_check_action_spec`
unfoldable pub check_action_spec : Value → Text × Option ActionIssue
unfolding normalize_action is_known_action
check_action_spec spec = elim (normalize_action spec) [
  | none ↦ ([], some bad_action_spec)
  | some (name, args) ↦ (name, if is_known_action name then none else some (unknown_name name))
]

-- `issues`; a hook, a step, a stop condition and an initial action are known by their index.
pub data Issue : Type 0 where
  missing_when : ℕ → Issue
  unknown_event : ℕ → Value → Issue
  hook_action : ℕ → ℕ → ActionIssue → Issue
  stop_event : ℕ → Value → Issue
  initial_action : ℕ → ActionIssue → Issue

unfoldable pub event_issues : (Value → Issue) → List Value → List Issue
unfolding is_known_event str_of
event_issues issue [] = []
event_issues issue (w ∷ ws) =
    let rest = event_issues issue ws in if is_known_event (str_of w) then rest else issue w ∷ rest

-- The actions of a list, from step `j` on.
unfoldable pub action_issues : (ℕ → ActionIssue → Issue) → ℕ → List Value → List Issue
unfolding check_action_spec
action_issues issue j [] = []
action_issues issue j (spec ∷ specs) =
    let rest = action_issues issue (j + 1) specs in
    elim (check_action_spec spec).1 [ none ↦ rest | some e ↦ issue j e ∷ rest ]

-- `[when] if isinstance(when, str) else list(when)`
abbrev pub whens_of : Value → Option (List Value)
whens_of (str t) = some (str t ∷ [])
whens_of v = iterate v

-- `h.get("then", []) or []`, as a list
unfoldable pub thens_of : Fields → Option (List Value)
unfolding lookup
thens_of h = let v = or_nothing (lookup (codes "then") h) in if truthy v then iterate v else some []

-- `_check_hook`; `none` where it raises
unfoldable pub check_hook : ℕ → Fields → Option (List Issue)
unfolding event_issues action_issues lookup thens_of
check_hook i h =
    let when = or_nothing (lookup (codes "when") h) in
    if not (truthy when) then some (missing_when i ∷ []) else elim (whens_of when) [
      | none ↦ none
      | some whens ↦ elim (thens_of h) [
        | none ↦ none
        | some specs ↦
            some (event_issues (unknown_event i) whens ++ action_issues (hook_action i) 0 specs)
      ]
    ]

-- The loop over the hooks, from the i-th on.
unfoldable pub hook_issues : ℕ → List Fields → Option (List Issue)
unfolding check_hook
hook_issues i [] = some []
hook_issues i (h ∷ hooks) = elim (check_hook i h) [
  | none ↦ none
  | some found ↦ elim (hook_issues (i + 1) hooks) [ none ↦ none | some rest ↦ some (found ++ rest) ]
]

-- The loop over the stop conditions.
unfoldable pub stop_issues : ℕ → List Fields → List Issue
unfolding is_known_event str_of lookup
stop_issues i [] = []
stop_issues i (s ∷ stops) =
    let rest = stop_issues (i + 1) stops in
    let ev = or_nothing (lookup (codes "event") s) in
    if is_nothing ev || is_known_event (str_of ev) then rest else stop_event i ev ∷ rest

-- `validate_scenario`: the issues; the status is "ok" where there are none.
unfoldable pub validate_scenario : Scenario → Option (List Issue)
unfolding hook_issues stop_issues action_issues
validate_scenario scn = elim (hook_issues 0 scn.hooks) [
  | none ↦ none
  | some found ↦
      some
        (found ++ (stop_issues 0 scn.stop_on ++ action_issues initial_action 0 scn.initial_actions))
]
