-- ===== src/Scenario/Actions.antt =====
-- The specifications of actions of src/scenario_engine/action_executor.py, in their several forms.
use pjsua_mcp.Prelude.{
  ℕ, Bool, true, false, Option, none, some, List, [], ◌∷◌, map, nat_eq, ◌==◌, contains,
  if◌then◌else◌,
}
use pjsua_mcp.Text.{Text, text_eq, codes}
use pjsua_mcp.Text.Integer.{pos}
use pjsua_mcp.Scenario.Matching.{Hook, Event}
use pjsua_mcp.Scenario.Value.{
  Value, nothing, int, str, dict, Fields, no_more, field, lookup, str_of,
}

-- `{k: v for k, v in spec.items() if k != "action"}`
unfoldable pub without : Text → Fields → Fields
without key no_more = no_more
without key (field k v fs) = let rest = without key fs in if k == key then rest else field k v rest

abbrev args_of : Value → Fields
args_of nothing = no_more
args_of (dict fs) = fs
args_of v = field (codes "value") v no_more

-- A dictionary with no key `action`.
abbrev pub of_single : Fields → Option (Text × Fields)
of_single (field name v no_more) = some (name, args_of v)
of_single _ = none

-- `normalize_action`: the name and the arguments; `none` where it raises
unfoldable pub normalize_action : Value → Option (Text × Fields)
unfolding lookup without str_of
normalize_action (str t) = some (t, no_more)
normalize_action (dict fs) = elim (lookup (codes "action") fs) [
  | none ↦ of_single fs
  | some name ↦ some (str_of name, without (codes "action") fs)
]
normalize_action _ = none

-- The keys of `ActionExecutor._dispatch`.
abbrev pub dispatch_names : List Text
dispatch_names = map codes (
    "answer" ∷ "hangup" ∷ "hangup_all" ∷ "reject" ∷ "hold" ∷ "unhold" ∷ "send_dtmf"
    ∷ "blind_transfer" ∷ "attended_transfer" ∷ "conference" ∷ "make_call" ∷ "play_audio"
    ∷ "stop_audio" ∷ "send_message" ∷ "set_codecs" ∷ "wait" ∷ "wait_until" ∷ "emit" ∷ "checkpoint"
    ∷ "log" ∷ [])

-- `self._dispatch.get(name)` is there.
unfoldable pub has_handler : Text → Bool
has_handler name = contains name dispatch_names

-- How a list of actions ends: all are done, or one has raised.
pub data Outcome : Type 0 where
  done bad_spec unknown_action failed : Outcome

-- `args[key] = value`, where the key is not there
abbrev pub with_default : Text → Value → Fields → Fields
with_default key v no_more = field key v no_more
with_default key v (field k w fs) =
    if k == key then field k w fs else field k w (with_default key v fs)

abbrev pub text_value : Option Text → Value
text_value none = nothing
text_value (some t) = str t

-- `hook.on_phone or event.phone_id`
abbrev pub default_phone : Option Text → Option Text → Option Text
default_phone (some (c ∷ t)) phone = some (c ∷ t)
default_phone _ phone = phone

abbrev pub with_call_id : Option ℕ → Fields → Fields
with_call_id none args = args
with_call_id (some n) args = with_default (codes "call_id") (int (pos n)) args

-- "Inherit defaults from hook+event"
abbrev pub with_defaults : Hook → Event → Fields → Fields
with_defaults hook ev args =
    let phone = text_value (default_phone hook.on_phone ev.phone_id) in
    with_call_id ev.call_id (with_default (codes "phone_id") phone args)

-- The loop goes on after an action that is done; any other end is an exception.
abbrev pub go_on {ℓ} : {W : Type ℓ} → Outcome → W → Outcome × W → Outcome × W
go_on done w rest = rest
go_on out w rest = (out, w)

-- The handlers, one for each name of `_dispatch`: what a handler does to the world, and whether it
-- returns. A meta record of the timeline is known by its type.
module _ {W : Type 0} (handler : Text → Fields → W → Bool × W) (record_meta : Text → W → W) where
  abbrev pub after_call : Bool × W → Outcome × W
  after_call (true, w) = (done, w)
  after_call (false, w) = (failed, record_meta (codes "action.failed") w)

  abbrev pub call_handler : Text → Fields → W → Outcome × W
  call_handler name args w =
      if has_handler name
      then after_call (handler name args w)
      else (unknown_action, record_meta (codes "action.unknown") w)

  -- The body of the loop.
  unfoldable pub execute_one : Value → Hook → Event → W → Outcome × W
  unfolding normalize_action has_handler
  execute_one spec hook ev w = elim (normalize_action spec) [
    | none ↦ (bad_spec, record_meta (codes "action.error") w)
    | some (name, args) ↦ call_handler name (with_defaults hook ev args) w
  ]

  -- `execute`
  unfoldable pub execute : List Value → Hook → Event → W → Outcome × W
  unfolding execute_one
  execute [] hook ev w = (done, w)
  execute (spec ∷ specs) hook ev w =
      let (out, w') = execute_one spec hook ev w in
      let rest = execute specs hook ev w' in go_on out w' rest
