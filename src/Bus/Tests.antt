-- ===== src/Bus/Tests.antt =====
-- The bus of src/scenario_engine/event_bus.py at concrete inputs.
use pjsua_mcp.Prelude.{
  ℕ, ◌≡◌, refl, true, false, none, some, [], ◌∷◌, map, nat_eq, ◌==◌, ◌&&◌, any, keep, if◌then◌else◌,
}
use pjsua_mcp.Text.{Text, text_eq}
use pjsua_mcp.Dict.{get, has, pop, pop_all}
use pjsua_mcp.Bus.{Bus, matches_one, subscribe, unsubscribe, emit}
use pjsua_mcp.Bus.Delivery.{note, is_meant, newest_first, emit_lem, IsBelow, subscribe_lem}

abbrev empty : Bus
empty = record { subs = []; next_id = 1 }

-- One subscription to a type, for one event, and one to everything.
abbrev two_subscribers : Bus
two_subscribers = record {
  subs =
      (1, record { sub_id = 1; patterns = (7 ∷ 46 ∷ 42 ∷ []) ∷ []; once = true; active = true })
      ∷ (2, record { sub_id = 2; patterns = (42 ∷ []) ∷ []; once = false; active = true })
      ∷ [];
  next_id = 3;
}

-- Events that are their type.
abbrev own_type : Text → Text
own_type t = t

emit_lem_example :
    let meant = keep (is_meant (7 ∷ 46 ∷ 8 ∷ [])) (map (λ entry. entry.1) two_subscribers.subs) in
    let (bus', log') = emit own_type (note own_type) (7 ∷ 46 ∷ 8 ∷ []) (two_subscribers, []) in
    (log' ≡ newest_first (map (λ sub. (sub.sub_id, 7 ∷ 46 ∷ 8 ∷ [])) meant) [])
    × (get bus'.subs 1 ≡ (
        if any (λ sub. sub.once && sub.sub_id == 1) meant
        then none
        else get two_subscribers.subs 1))
    × (bus'.next_id ≡ two_subscribers.next_id)
emit_lem_example = emit_lem own_type (7 ∷ 46 ∷ 8 ∷ []) two_subscribers [] 1

-- It is the subscription for one event that goes.
emitted_once :
    get (emit own_type (note own_type) (7 ∷ 46 ∷ 8 ∷ []) (two_subscribers, [])).0.subs 1 ≡ none
unfolding emit matches_one get pop_all pop
emitted_once = refl

empty-IsBelow : IsBelow empty
unfolding get
empty-IsBelow k = refl

subscribe_lem_example :
    let (id, bus') = subscribe ((42 ∷ []) ∷ []) false empty in
    (has empty.subs id ≡ false)
    × (get bus'.subs id
        ≡ some (record { sub_id = id; patterns = (42 ∷ []) ∷ []; once = false; active = true }))
    × IsBelow bus'
    × ((j : ℕ) → get (unsubscribe id bus').subs j ≡ get empty.subs j)
subscribe_lem_example = subscribe_lem ((42 ∷ []) ∷ []) false empty empty-IsBelow
