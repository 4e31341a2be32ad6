-- ===== src/Scenario/Run/Ownership.antt =====
-- Whose the subscriptions on the bus are while a scenario runs: each was there before, or is the
-- recorder's, a stop condition's, or that of a hook that the runtime still has.
use pjsua_mcp.Prelude.{
  ℕ, ◌≡◌, refl, ap, ◌∙◌, Bool, true, false, ◌&&◌, ◌||◌, Option, none, some, List, [], ◌∷◌, arith,
  nat_eq, contains, Option-cases, inl, inr, if_holds, if◌then◌else◌,
}
use pjsua_mcp.Text.{Text, text_eq}
use pjsua_mcp.Dict.{Dict, get, has, set, pop_all, get-set, get-pop, get-pop_all}
use pjsua_mcp.Bus.{Subscription, Bus, unsubscribe, deliver, emit, once_ids, receivers}
use pjsua_mcp.Scenario.Value.{Fields}
use pjsua_mcp.Scenario.Matching.{Event, Hook, hook_matches}
use pjsua_mcp.Scenario.Hooks.{HookRuntime, callback, cancel, object_of, fire_object, fire, schedule}
use pjsua_mcp.Scenario.Run.{
  Run, Running, Step, emitted, acted, noted, turned, is_sub, stop_matches, schedule_result,
  withdraw, hook_or_stop, dispatch, publish, step, steps,
}

abbrev pub object_has : Option Hook → ℕ → Bool
object_has none id = false
object_has (some hook) id = is_sub hook.sub_id id

-- The subscription is of a hook that the runtime has, and the hook knows it.
abbrev pub of_callback : Option Text → List Text → Dict Text Hook → ℕ → Bool
of_callback none hooks objects id = false
of_callback (some hid) hooks objects id = contains hid hooks && object_has (get objects hid) id

abbrev pub hook_owns : HookRuntime → ℕ → Bool
hook_owns rt id = of_callback (get rt.callbacks id) rt.hooks rt.objects id

abbrev pub owns : Option ℕ → Dict ℕ Fields → HookRuntime → ℕ → Bool
owns rec stops rt id = is_sub rec id || (has stops id || hook_owns rt id)

-- A hook is kept under its own id.
abbrev pub IsNamed : HookRuntime → Type 0
IsNamed rt = (hid : Text) (hook : Hook) → get rt.objects hid ≡ some hook → hook.hook_id ≡ hid

abbrev pub IsHeld : Bus → Bus → Option ℕ → Dict ℕ Fields → HookRuntime → Type 0
IsHeld before bus rec stops rt =
    (id : ℕ) → has bus.subs id ≡ true → (has before.subs id || owns rec stops rt id) ≡ true

abbrev pub IsOurs : Bus → Running → Type 0
IsOurs before (bus, run) =
    IsHeld before bus run.recorder.sub_id run.stops run.runtime × IsNamed run.runtime

-- What a hook that fires does to the objects.
abbrev without_sub : Hook → HookRuntime → HookRuntime
without_sub hook rt = record rt {
  objects = set rt.objects hook.hook_id (record hook { sub_id = none });
}

IsNamed-without_sub : (hook : Hook) (rt : HookRuntime) → IsNamed rt → IsNamed (without_sub hook rt)
IsNamed-without_sub hook rt h hid k e = ground (
  arith,
  get-set rt.objects hook.hook_id hid (record hook { sub_id = none }),
  text_eq.beq_iff hook.hook_id hid,
  h hid k,
)

cancel-none :
    (id : ℕ) (o : Option ℕ) (bus : Bus)
    → has (cancel o bus).subs id ≡ true
    → (has bus.subs id ≡ true) × (is_sub o id ≡ false)
unfolding unsubscribe
cancel-none id none bus e = (e, refl)
cancel-none id (some i) bus e = ground (arith, get-pop bus.subs i id)

hook_owns-without_sub :
    (hook : Hook) (rt : HookRuntime) (id : ℕ)
    → get rt.objects hook.hook_id ≡ some hook
    → is_sub hook.sub_id id ≡ false
    → hook_owns (without_sub hook rt) id ≡ hook_owns rt id
hook_owns-without_sub hook rt id e n = elim (Option-cases (get rt.callbacks id)) [
  | inl c ↦ rw c refl
  | inr (hid, c) ↦ ground (
    arith,
    c,
    e,
    n,
    get-set rt.objects hook.hook_id hid (record hook { sub_id = none }),
    text_eq.beq_iff hook.hook_id hid,
  )
]

withdrawn :
    (ids : List ℕ) (bus : Bus) (id : ℕ)
    → has (withdraw ids bus).subs id ≡ true
    → has bus.subs id ≡ true
unfolding withdraw unsubscribe
withdrawn [] bus id k = k
withdrawn (i ∷ ids) bus id k =
    ground (arith, withdrawn ids (unsubscribe i bus) id k, get-pop bus.subs i id)

module _ (before : Bus) where
  detach-IsHeld :
      (rec : Option ℕ) (stops : Dict ℕ Fields) (hook : Hook) (bus : Bus) (rt : HookRuntime)
      → get rt.objects hook.hook_id ≡ some hook
      → IsHeld before bus rec stops rt
      → IsHeld before (cancel hook.sub_id bus) rec stops (without_sub hook rt)
  detach-IsHeld rec stops hook bus rt e h id k =
      let (there, n) = cancel-none id hook.sub_id bus k in
      ap (λ b. has before.subs id || (is_sub rec id || (has stops id || b)))
        (hook_owns-without_sub hook rt id e n)
      ∙ h id there

  -- What is claimed of the bus and the runtime, with the rest of the run fixed.
  abbrev IsKept : Option ℕ → Dict ℕ Fields → Bus × HookRuntime → Type 0
  IsKept rec stops (bus, rt) = IsHeld before bus rec stops rt × IsNamed rt

  module _ (re_search : Text → Text → Option Bool) (rec : Option ℕ) (stops : Dict ℕ Fields) where
    fire-IsKept :
        (found : Option Bool) (hook : Hook) (ev : Event) (s : Bus × HookRuntime)
        → get s.1.objects hook.hook_id ≡ some hook
        → IsKept rec stops s
        → IsKept rec stops (fire re_search found hook ev s)
    fire-IsKept none hook ev s e h = h
    fire-IsKept (some false) hook ev s e h = h
    fire-IsKept (some true) hook ev (bus, rt) e h =
        if_holds (λ s. IsKept rec stops (schedule hook ev s)) hook.once
          (detach-IsHeld rec stops hook bus rt e h.0, IsNamed-without_sub hook rt h.1) h

    fire_object-IsKept :
        (o : Option Hook) (ev : Event) (s : Bus × HookRuntime)
        → ((hook : Hook) → o ≡ some hook → get s.1.objects hook.hook_id ≡ some hook)
        → IsKept rec stops s
        → IsKept rec stops (fire_object re_search o ev s)
    fire_object-IsKept none ev s e h = h
    fire_object-IsKept (some hook) ev s e h =
        fire-IsKept (hook_matches re_search hook ev) hook ev s (e hook refl) h

    object_of-named :
        (sub_id : ℕ) (rt : HookRuntime) (hook : Hook)
        → IsNamed rt
        → object_of re_search sub_id rt ≡ some hook
        → get rt.objects hook.hook_id ≡ some hook
    object_of-named sub_id rt hook h e = elim (Option-cases (get rt.callbacks sub_id)) [
      | inl c ↦ ground (arith, c, e)
      | inr (hid, c) ↦ ground (arith, c, e, h hid hook)
    ]

    callback-IsKept :
        (sub_id : ℕ) (ev : Event) (s : Bus × HookRuntime)
        → IsKept rec stops s
        → IsKept rec stops (callback re_search sub_id ev s)
    unfolding callback
    callback-IsKept sub_id ev s h =
        fire_object-IsKept (object_of re_search sub_id s.1) ev s
          (λ hook e. object_of-named sub_id s.1 hook h.1 e) h

  module _ (clock : ℕ → Text) (offset_ms : Text → Text → Text)
      (re_search : Text → Text → Option Bool) (withdraws : ℕ → Event → List ℕ) where
    schedule_result-IsOurs :
        (future : Option Event) (matched : Bool) (ev : Event) (bus : Bus) (run : Run)
        → IsOurs before (bus, run)
        → IsOurs before
            (bus, schedule_result clock offset_ms re_search withdraws future matched ev run)
    schedule_result-IsOurs (some e) matched ev bus run h = h
    schedule_result-IsOurs none matched ev bus run h =
        if_holds (λ r. IsOurs before (bus, r)) matched h h

    hook_or_stop-IsOurs :
        (o : Option Fields) (sub_id : ℕ) (ev : Event) (s : Running)
        → IsOurs before s
        → IsOurs before (hook_or_stop clock offset_ms re_search withdraws o sub_id ev s)
    hook_or_stop-IsOurs (some spec) sub_id ev (bus, run) h =
        schedule_result-IsOurs run.stop_future
          (stop_matches clock offset_ms re_search withdraws spec ev) ev bus run h
    hook_or_stop-IsOurs none sub_id ev (bus, run) h =
        let s = callback re_search sub_id ev (bus, run.runtime) in
        let ids = if has run.runtime.callbacks sub_id then [] else withdraws sub_id ev in
        let k =
          callback-IsKept re_search run.recorder.sub_id run.stops sub_id ev (bus, run.runtime) h in
        (λ id there. k.0 id (withdrawn ids s.0 id there), k.1)

    dispatch-IsOurs :
        (sub_id : ℕ) (ev : Event) (s : Running)
        → IsOurs before s
        → IsOurs before (dispatch clock offset_ms re_search withdraws sub_id ev s)
    unfolding dispatch
    dispatch-IsOurs sub_id ev (bus, run) h =
        if_holds (IsOurs before) (is_sub run.recorder.sub_id sub_id) h
          (hook_or_stop-IsOurs (get run.stops sub_id) sub_id ev (bus, run) h)

    deliver-IsOurs :
        (ev : Event) (subs : List Subscription) (s : Running)
        → IsOurs before s
        → IsOurs before (
            deliver
              (λ (ev : Event). ev.type)
              (dispatch clock offset_ms re_search withdraws)
              ev
              subs
              s)
    unfolding deliver
    deliver-IsOurs ev [] s h = h
    deliver-IsOurs ev (sub ∷ subs) s h =
        deliver-IsOurs ev subs (dispatch clock offset_ms re_search withdraws sub.sub_id ev s)
          (dispatch-IsOurs sub.sub_id ev s h)

    pop_all-IsOurs :
        (ids : List ℕ) (bus : Bus) (run : Run)
        → IsOurs before (bus, run)
        → IsOurs before (record bus { subs = pop_all bus.subs ids }, run)
    pop_all-IsOurs ids bus run h =
        (λ id k. ground (arith, k, get-pop_all bus.subs ids id, h.0 id), h.1)

    pub publish-IsOurs :
        (ev : Event) (s : Running)
        → IsOurs before s
        → IsOurs before (publish clock offset_ms re_search withdraws ev s)
    unfolding publish emit
    publish-IsOurs ev s h =
        let subs = receivers ev.type s.0 in
        let s' =
          deliver (λ (ev : Event). ev.type) (dispatch clock offset_ms re_search withdraws) ev subs
            s in
        pop_all-IsOurs (once_ids subs) s'.0 s'.1 (deliver-IsOurs ev subs s h)

    pub step-IsOurs :
        (x : Step) (s : Running)
        → IsOurs before s
        → IsOurs before (step clock offset_ms re_search withdraws x s)
    unfolding step
    step-IsOurs (emitted ev) s h = publish-IsOurs ev s h
    step-IsOurs (acted name phone call payload hook_id pattern_name) s h = h
    step-IsOurs (noted type payload) s h = h
    step-IsOurs turned s h = h

    pub steps-IsOurs :
        (xs : List Step) (s : Running)
        → IsOurs before s
        → IsOurs before (steps clock offset_ms re_search withdraws xs s)
    steps-IsOurs [] s h = h
    steps-IsOurs (x ∷ xs) s h =
        steps-IsOurs xs (step clock offset_ms re_search withdraws x s) (step-IsOurs x s h)
