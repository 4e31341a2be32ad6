-- ===== src/Bus.antt =====
-- `EventBus` of src/scenario_engine/event_bus.py: subscriptions to types of events, and the delivery of
-- an event. What a callback does is a parameter: it may change the bus and the rest of the world, and
-- an exception of a callback is caught, so it is a function. The lock and `wait_for`, which waits for
-- a time, are not modelled.
pub mod Delivery
pub mod Matching
pub mod Tests
use pjsua_mcp.Prelude.{
  ℕ, ◌+◌, String, Bool, true, false, ◌&&◌, ◌||◌, Option, none, some, List, [], ◌∷◌, ◌++◌, nat_eq,
  ◌==◌, keep, any, if◌then◌else◌,
}
use pjsua_mcp.Text.{Text, text_eq, starts_with}
use pjsua_mcp.Dict.{Dict, get, set, pop, pop_all}

-- `Subscription`; its callback is known by its id, and `active` is false only after it has left the
-- table.
pub record Subscription : Type 0 where
  pub sub_id : ℕ
  pub patterns : List Text
  pub once : Bool
  pub active : Bool

-- `EventBus`
pub record Bus : Type 0 where
  pub subs : Dict ℕ Subscription
  pub next_id : ℕ

-- `p[:-2]` where `p.endswith(".*")`
unfoldable pub star_prefix : Text → Option Text
star_prefix [] = none
star_prefix (a ∷ []) = none
star_prefix (a ∷ b ∷ []) = if a == 46 && b == 42 then some [] else none
star_prefix (a ∷ b ∷ c ∷ p) =
    let rest = star_prefix (b ∷ c ∷ p) in elim rest [ none ↦ none | some q ↦ some (a ∷ q) ]

-- One pattern of `_matches`.
unfoldable pub matches_one : Text → Text → Bool
unfolding star_prefix
matches_one event_type p = if p == 42 ∷ [] then true else elim (star_prefix p) [
  | none ↦ p == event_type
  | some prefix ↦ event_type == prefix || starts_with event_type (prefix ++ 46 ∷ [])
]

-- `_matches`
abbrev pub matches : List Text → Text → Bool
matches patterns event_type = any (matches_one event_type) patterns

-- `subscribe`: the new id, and the bus
unfoldable pub subscribe : List Text → Bool → Bus → ℕ × Bus
subscribe patterns once bus =
    let sub : Subscription = record {
      sub_id = bus.next_id;
      patterns = patterns;
      once = once;
      active = true;
    } in
    (bus.next_id, record { subs = set bus.subs bus.next_id sub; next_id = bus.next_id + 1 })

-- `unsubscribe`
unfoldable pub unsubscribe : ℕ → Bus → Bus
unsubscribe sub_id bus = record bus { subs = pop bus.subs sub_id }

abbrev pub wants : Text → Subscription → Bool
wants event_type sub = sub.active && matches sub.patterns event_type

abbrev pub subscriptions : Dict ℕ Subscription → List Subscription
subscriptions [] = []
subscriptions ((id, sub) ∷ d) = sub ∷ subscriptions d

-- Those that an event is delivered to: they are chosen before the first callback runs.
abbrev pub receivers : Text → Bus → List Subscription
receivers event_type bus = keep (wants event_type) (subscriptions bus.subs)

abbrev pub once_ids : List Subscription → List ℕ
once_ids [] = []
once_ids (sub ∷ subs) = let rest = once_ids subs in if sub.once then sub.sub_id ∷ rest else rest

-- `type_of` is the type of an event.
module _ {E W : Type 0} (type_of : E → Text) (callback : ℕ → E → Bus × W → Bus × W) where
  unfoldable pub deliver : E → List Subscription → Bus × W → Bus × W
  deliver event [] s = s
  deliver event (sub ∷ subs) s = deliver event subs (callback sub.sub_id event s)

  -- `emit`
  unfoldable pub emit : E → Bus × W → Bus × W
  unfolding deliver
  emit event s =
      let subs = receivers (type_of event) s.0 in
      let (bus, w) = deliver event subs s in
      (record bus { subs = pop_all bus.subs (once_ids subs) }, w)
