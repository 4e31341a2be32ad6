-- ===== src/Scenario/Firing.antt =====
-- When a hook of src/scenario_engine/hook_runtime.py fires.
use mathlib.Core.List.{append-nil, append_assoc}
use pjsua_mcp.Prelude.{
  ℕ, ◌≡◌, refl, sym, ap, ◌∙◌, Bool, true, false, ◌&&◌, Option, none, some, List, [], ◌∷◌, ◌++◌,
  nat_eq, ◌==◌, keep, map, Bool-cases, Option-cases, inl, inr, if◌then◌else◌,
}
use pjsua_mcp.Text.{Text, text_eq}
use pjsua_mcp.Dict.{get, set, pop, pop_all}
use pjsua_mcp.Bus.{Subscription, Bus, matches, matches_one, subscribe, unsubscribe, emit, deliver}
use pjsua_mcp.Scenario.Value.{Fields}
use pjsua_mcp.Scenario.Matching.{Event, Hook, hook_matches}
use pjsua_mcp.Scenario.Hooks.{
  HookRuntime, new_runtime, hook_of, arm, arm_hook, callback, emit_event, emit_events,
}

-- `EventBus()`
abbrev pub new_bus : Bus
new_bus = record { subs = []; next_id = 1 }

abbrev is_yes : Option Bool → Bool
is_yes (some true) = true
is_yes _ = false

abbrev pub first_only {ℓ} : {A : Type ℓ} → List A → List A
first_only [] = []
first_only (x ∷ xs) = x ∷ []

abbrev subscription : Hook → Subscription
subscription hook = record { sub_id = 1; patterns = hook.when; once = false; active = true }

-- The hook's only subscription is there, and what has been scheduled.
abbrev armed : Hook → List (Text × Event) → Bus × HookRuntime
armed hook sch = (
  record { subs = (1, subscription hook) ∷ []; next_id = 2 },
  record {
    hooks = hook.hook_id ∷ [];
    objects = (hook.hook_id, record hook { sub_id = some 1 }) ∷ [];
    callbacks = (1, hook.hook_id) ∷ [];
    scheduled = sch;
  },
)

-- The hook has fired for its one event.
abbrev spent : Hook → List (Text × Event) → Bus × HookRuntime
spent hook sch = (
  record { subs = []; next_id = 2 },
  record {
    hooks = hook.hook_id ∷ [];
    objects = (hook.hook_id, record hook { sub_id = none }) ∷ [];
    callbacks = (1, hook.hook_id) ∷ [];
    scheduled = sch;
  },
)

arm_hook-new : (hook : Hook) → arm_hook hook (new_bus, new_runtime) ≡ armed hook []
unfolding arm_hook subscribe set
arm_hook-new hook = refl

module _ (re_search : Text → Text → Option Bool) where
  -- The hook wants an event: a pattern matches its type, and the hook its phone and its fields.
  unfoldable pub is_wanted : Hook → Event → Bool
  unfolding hook_matches matches_one
  is_wanted hook ev = matches hook.when ev.type && is_yes (hook_matches re_search hook ev)

  emit_event-spent :
      (hook : Hook) (sch : List (Text × Event)) (ev : Event)
      → emit_event re_search ev (spent hook sch) ≡ spent hook sch
  unfolding emit_event emit deliver pop_all
  emit_event-spent hook sch ev = refl

  -- The object in the store matches as the hook did.
  hook_matches-sub_id :
      (hook : Hook) (sub_id : Option ℕ) (ev : Event)
      → hook_matches re_search (record hook { sub_id = sub_id }) ev ≡ hook_matches re_search hook ev
  unfolding hook_matches
  hook_matches-sub_id hook sub_id ev = refl

  -- What an event leaves of the armed hook, by whether it is wanted and whether the hook is for once.
  abbrev after : Bool → Bool → Hook → Event → List (Text × Event) → Bus × HookRuntime
  after wanted once hook ev sch =
      let more = sch ++ (hook.hook_id, ev) ∷ [] in
      if wanted then if once then spent hook more else armed hook more else armed hook sch

  emit_event-armed :
      (hook : Hook) (sch : List (Text × Event)) (ev : Event)
      → emit_event re_search ev (armed hook sch) ≡ after (is_wanted hook ev) hook.once hook ev sch
  unfolding is_wanted emit_event emit deliver pop_all callback get set unsubscribe pop
  emit_event-armed hook sch ev =
      let same : (hook.hook_id == hook.hook_id) ≡ true =
        (text_eq.beq_iff hook.hook_id hook.hook_id).1 refl in
      let like = hook_matches-sub_id hook (some 1) ev in
      elim (Bool-cases (matches hook.when ev.type)) [
        | inr m ↦ rw m refl
        | inl m ↦ elim (Option-cases (hook_matches re_search hook ev)) [
          | inl o ↦ rw (m, same, like, o) refl
          | inr (false, o) ↦ rw (m, same, like, o) refl
          | inr (true, o) ↦ elim (Bool-cases hook.once) [
            | inr n ↦ rw (m, same, like, o, n) refl
            | inl n ↦ rw (m, same, like, o, n, same) refl
          ]
        ]
      ]

  emit_events-spent :
      (hook : Hook) (sch : List (Text × Event)) (evs : List Event)
      → emit_events re_search evs (spent hook sch) ≡ spent hook sch
  emit_events-spent hook sch [] = refl
  emit_events-spent hook sch (ev ∷ evs) =
      ap (emit_events re_search evs) (emit_event-spent hook sch ev) ∙ emit_events-spent hook sch evs

  -- The events that a hook is to fire for, with its id.
  abbrev pub firings : Hook → List Event → List (Text × Event)
  firings hook evs =
      let wanted = keep (is_wanted hook) evs in
      map (λ ev. (hook.hook_id, ev)) (if hook.once then first_only wanted else wanted)

  firings-skip :
      (hook : Hook) (ev : Event) (evs : List Event)
      → is_wanted hook ev ≡ false
      → firings hook (ev ∷ evs) ≡ firings hook evs
  firings-skip hook ev evs d = rw d refl

  firings-once :
      (hook : Hook) (ev : Event) (evs : List Event)
      → is_wanted hook ev ≡ true
      → hook.once ≡ true
      → firings hook (ev ∷ evs) ≡ (hook.hook_id, ev) ∷ []
  firings-once hook ev evs d n = rw (d, n) refl

  firings-go_on :
      (hook : Hook) (ev : Event) (evs : List Event)
      → is_wanted hook ev ≡ true
      → hook.once ≡ false
      → firings hook (ev ∷ evs) ≡ (hook.hook_id, ev) ∷ firings hook evs
  firings-go_on hook ev evs d n = simp (d, n) refl

  scheduled-armed :
      (hook : Hook) (sch : List (Text × Event)) (evs : List Event)
      → (emit_events re_search evs (armed hook sch)).1.scheduled ≡ sch ++ firings hook evs
  scheduled-armed hook sch [] = elim (Bool-cases hook.once) [
    | inl n ↦ rw n (sym (append-nil sch))
    | inr n ↦ rw n (sym (append-nil sch))
  ]
  scheduled-armed hook sch (ev ∷ evs) =
      let more = sch ++ (hook.hook_id, ev) ∷ [] in
      let rest : Bus × HookRuntime → List (Text × Event) =
        λ s. (emit_events re_search evs s).1.scheduled in
      ap rest (emit_event-armed hook sch ev) ∙ elim (Bool-cases (is_wanted hook ev)) [
        | inr d ↦
            ap (λ b. rest (after b hook.once hook ev sch)) d
            ∙ scheduled-armed hook sch evs
            ∙ ap (λ l. sch ++ l) (sym (firings-skip hook ev evs d))
        | inl d ↦ ap (λ b. rest (after b hook.once hook ev sch)) d ∙ elim (Bool-cases hook.once) [
          | inl n ↦
              ap (λ b. rest (after true b hook ev sch)) n
              ∙ ap (λ (s : Bus × HookRuntime). s.1.scheduled) (emit_events-spent hook more evs)
              ∙ ap (λ l. sch ++ l) (sym (firings-once hook ev evs d n))
          | inr n ↦
              ap (λ b. rest (after true b hook ev sch)) n
              ∙ scheduled-armed hook more evs
              ∙ append_assoc sch ((hook.hook_id, ev) ∷ []) (firings hook evs)
              ∙ ap (λ l. sch ++ l) (sym (firings-go_on hook ev evs d n))
        ]
      ]

  -- A hook that is armed on a new bus is handed to the event loop, with each event, in their order:
  -- for every event that it wants where it is not for once, and otherwise for the first of these and
  -- no other; an event that it does not want does not use it up.
  pub arm-emit_events :
      (hook_id pattern_name : Text) (spec : Fields) (hook : Hook) (evs : List Event)
      → hook_of hook_id pattern_name spec ≡ some hook
      → let s = arm_hook hook (new_bus, new_runtime) in
        (arm hook_id pattern_name spec (new_bus, new_runtime) ≡ some s)
        × ((emit_events re_search evs s).1.scheduled ≡ firings hook evs)
  unfolding arm
  arm-emit_events hook_id pattern_name spec hook evs h = (
    rw (h, arm) refl,
    ap (λ s. (emit_events re_search evs s).1.scheduled) (arm_hook-new hook)
        ∙ scheduled-armed hook [] evs,
  )
