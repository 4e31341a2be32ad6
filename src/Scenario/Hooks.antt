-- ===== src/Scenario/Hooks.antt =====
-- `HookRuntime` of src/scenario_engine/hook_runtime.py over the event bus. A callback keeps its `Hook`
-- object after the runtime has dropped it, so the objects are a store of their own. What is handed to
-- the event loop is a row of hooks and events, the newest last.
use pjsua_mcp.Prelude.{
  ℕ, Bool, true, false, not, Option, none, some, List, [], ◌∷◌, ◌++◌, nat_eq, ◌==◌, keep, contains,
  or_else, if◌then◌else◌,
}
use pjsua_mcp.Text.{Text, text_eq, codes}
use pjsua_mcp.Dict.{Dict, get, set}
use pjsua_mcp.Bus.{Bus, subscribe, unsubscribe, emit}
use pjsua_mcp.Scenario.Value.{
  Value, nothing, bool, str, list, dict, Fields, no_more, lookup, or_nothing, items_of, truthy,
  str_of,
}
use pjsua_mcp.Scenario.Matching.{Event, Hook, hook_matches}
use pjsua_mcp.Scenario.Validator.{thens_of}

-- `HookRuntime`: the ids in `_hooks`, the objects, which object the callback of a subscription has, and
-- what has been handed to the loop.
pub record HookRuntime : Type 0 where
  pub hooks : List Text
  pub objects : Dict Text Hook
  pub callbacks : Dict ℕ Text
  pub scheduled : List (Text × Event)

abbrev pub new_runtime : HookRuntime
new_runtime = record { hooks = []; objects = []; callbacks = []; scheduled = [] }

abbrev cons_text : Value → Option (List Text) → Option (List Text)
cons_text (str t) (some ts) = some (t ∷ ts)
cons_text _ _ = none

-- The texts of a list; one with another element, which the validation refuses, is taken to raise.
abbrev pub texts_of : List Value → Option (List Text)
texts_of [] = some []
texts_of (v ∷ vs) = cons_text v (texts_of vs)

abbrev when_of : Value → Option (List Text)
when_of (str t) = some (t ∷ [])
when_of (list vs) = texts_of (items_of vs)
when_of _ = none

abbrev on_phone_of : Value → Option Text
on_phone_of nothing = none
on_phone_of (str []) = none
on_phone_of v = some (str_of v)

-- `dict(spec.get("match") or {})`; a value that is no dictionary is taken to raise.
abbrev pub match_of : Value → Option Fields
match_of (dict fs) = some fs
match_of v = if truthy v then none else some no_more

-- The hook that `arm` makes of a specification; `none` where it raises.
unfoldable pub hook_of : Text → Text → Fields → Option Hook
unfolding lookup str_of thens_of
hook_of hook_id pattern_name spec = elim (when_of (or_nothing (lookup (codes "when") spec))) [
  | none ↦ none
  | some when ↦ elim (match_of (or_nothing (lookup (codes "match") spec))) [
    | none ↦ none
    | some match ↦ elim (thens_of spec) [
      | none ↦ none
      | some specs ↦ some (record {
        hook_id = hook_id;
        when = when;
        on_phone = on_phone_of (or_nothing (lookup (codes "on_phone") spec));
        match = match;
        then_actions = specs;
        once = truthy (or_else (lookup (codes "once") spec) (bool true));
        pattern_name = pattern_name;
        sub_id = none;
      })
    ]
  ]
]

-- The hook subscribes, with `once` off on the bus, and is kept.
unfoldable pub arm_hook : Hook → Bus × HookRuntime → Bus × HookRuntime
unfolding subscribe set
arm_hook hook (bus, rt) =
    let (sub_id, bus') = subscribe hook.when false bus in
    (
      bus',
      record rt {
        hooks = rt.hooks ++ hook.hook_id ∷ [];
        objects = set rt.objects hook.hook_id (record hook { sub_id = some sub_id });
        callbacks = set rt.callbacks sub_id hook.hook_id;
      },
    )

-- `arm`, with the fresh id that it draws; `none` where it raises, and then nothing has changed.
unfoldable pub arm : Text → Text → Fields → Bus × HookRuntime → Option (Bus × HookRuntime)
unfolding hook_of arm_hook
arm hook_id pattern_name spec s = elim (hook_of hook_id pattern_name spec) [
  | none ↦ none
  | some hook ↦ some (arm_hook hook s)
]

-- The subscription of a hook is cancelled, if it has one.
abbrev pub cancel : Option ℕ → Bus → Bus
cancel none bus = bus
cancel (some sub_id) bus = unsubscribe sub_id bus

-- "If once=True, detach AFTER a confirmed match"
abbrev pub detach : Hook → Bus × HookRuntime → Bus × HookRuntime
detach hook (bus, rt) =
    if hook.once
    then (
      cancel hook.sub_id bus,
      record rt { objects = set rt.objects hook.hook_id (record hook { sub_id = none }) },
    )
    else (bus, rt)

abbrev pub schedule : Hook → Event → Bus × HookRuntime → Bus × HookRuntime
schedule hook ev (bus, rt) =
    (bus, record rt { scheduled = rt.scheduled ++ (hook.hook_id, ev) ∷ [] })

module _ (re_search : Text → Text → Option Bool) where
  abbrev pub fire : Option Bool → Hook → Event → Bus × HookRuntime → Bus × HookRuntime
  fire (some true) hook ev s = schedule hook ev (detach hook s)
  fire _ hook ev s = s

  abbrev pub fire_object : Option Hook → Event → Bus × HookRuntime → Bus × HookRuntime
  fire_object none ev s = s
  fire_object (some hook) ev s = fire (hook_matches re_search hook ev) hook ev s

  -- The object that a callback has.
  abbrev pub object_of : ℕ → HookRuntime → Option Hook
  object_of sub_id rt = elim (get rt.callbacks sub_id) [ none ↦ none | some id ↦ get rt.objects id ]

  -- `callback`; where matching raises, the bus catches it.
  unfoldable pub callback : ℕ → Event → Bus × HookRuntime → Bus × HookRuntime
  unfolding hook_matches unsubscribe get set
  callback sub_id ev s = fire_object (object_of sub_id s.1) ev s

  -- `emit` of the bus, where its subscribers are hooks.
  unfoldable pub emit_event : Event → Bus × HookRuntime → Bus × HookRuntime
  unfolding emit callback
  emit_event ev s = emit (λ (ev : Event). ev.type) callback ev s

  -- A row of events.
  abbrev pub emit_events : List Event → Bus × HookRuntime → Bus × HookRuntime
  emit_events [] s = s
  emit_events (ev ∷ evs) s = emit_events evs (emit_event ev s)

abbrev pub sub_of : Option Hook → Option ℕ
sub_of none = none
sub_of (some hook) = hook.sub_id

-- `remove`
unfoldable pub remove : Text → Bus × HookRuntime → Bus × HookRuntime
unfolding unsubscribe get
remove hook_id (bus, rt) =
    if contains hook_id rt.hooks
    then (
      cancel (sub_of (get rt.objects hook_id)) bus,
      record rt { hooks = keep (λ id. not (id == hook_id)) rt.hooks },
    )
    else (bus, rt)

-- `remove_all`, over the ids that were there when it began
abbrev pub remove_each : List Text → Bus × HookRuntime → Bus × HookRuntime
remove_each [] s = s
remove_each (id ∷ ids) s = remove_each ids (remove id s)

unfoldable pub remove_all : Bus × HookRuntime → Bus × HookRuntime
unfolding remove
remove_all s = remove_each s.1.hooks s
