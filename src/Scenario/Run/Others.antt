-- ===== src/Scenario/Run/Others.antt =====
-- A subscription of another stays as it is while a scenario runs.
use pjsua_mcp.Prelude.{
  ℕ, ◌+◌, ◌≡◌, refl, sym, ap, ◌∙◌, Bool, true, false, ◌&&◌, Option, none, some, List, [], ◌∷◌,
  arith, nat_eq, ◌==◌, contains, Option-cases, Bool-cases, inl, inr, if_holds, if◌then◌else◌,
}
use pjsua_mcp.Text.{Text, text_eq}
use pjsua_mcp.Dict.{get, has, set, pop_all, get-set, get-pop, get-pop_all}
use pjsua_mcp.Bus.{
  Subscription, Bus, subscriptions, matches, receivers, once_ids, subscribe, unsubscribe, deliver,
  emit,
}
use pjsua_mcp.Scenario.Value.{Fields}
use pjsua_mcp.Scenario.Matching.{Event, Hook, hook_matches}
use pjsua_mcp.Scenario.Hooks.{
  HookRuntime, callback, sub_of, cancel, object_of, fire_object, fire, schedule,
}
use pjsua_mcp.Scenario.Run.{
  Run, Running, Step, emitted, acted, noted, turned, is_sub, stop_matches, schedule_result,
  withdraw, hook_or_stop, dispatch, publish, step,
}
use pjsua_mcp.Scenario.Run.Acting.{IsLasting}
use pjsua_mcp.Scenario.Run.Parts.{Outside}
use pjsua_mcp.Scenario.Run.OnceIds.{once_ids-keep, once_ids-pop, once_ids-pop_all, once_ids-set}

module _ (id : ℕ) (sub : Subscription) where
  -- The subscription is on the bus, no subscription for one event has its id, and its id has been given.
  pub record IsOn (bus : Bus) : Type 0 where
    pub there : get bus.subs id ≡ some sub
    pub lasting : contains id (once_ids (subscriptions bus.subs)) ≡ false
    pub given : (k : ℕ) → (bus.next_id + k == id) ≡ false

  -- It is no hook's.
  abbrev pub IsForeign : HookRuntime → Type 0
  IsForeign rt =
      (hid : Text) (hook : Hook) → get rt.objects hid ≡ some hook → is_sub hook.sub_id id ≡ false

  pub unsubscribe-IsOn :
      (i : ℕ) (bus : Bus) → (i == id) ≡ false → IsOn bus → IsOn (unsubscribe i bus)
  unfolding unsubscribe
  unsubscribe-IsOn i bus n h = record {
    there = ground (arith, n, get-pop bus.subs i id, h.there);
    lasting = once_ids-pop i id bus.subs h.lasting;
    given = h.given;
  }

  withdraw-IsOn :
      (ids : List ℕ) (bus : Bus) → contains id ids ≡ false → IsOn bus → IsOn (withdraw ids bus)
  unfolding withdraw
  withdraw-IsOn [] bus n h = h
  withdraw-IsOn (i ∷ ids) bus n h =
      withdraw-IsOn ids (unsubscribe i bus) (ground (arith, n))
        (unsubscribe-IsOn i bus (ground (arith, n)) h)

  pub cancel-IsOn :
      (o : Option ℕ) (bus : Bus) → is_sub o id ≡ false → IsOn bus → IsOn (cancel o bus)
  cancel-IsOn none bus n h = h
  cancel-IsOn (some i) bus n h = unsubscribe-IsOn i bus n h

  pub subscribe-IsOn :
      (types : List Text) (bus : Bus)
      → IsOn bus
      → IsOn (subscribe types false bus).1 × ((bus.next_id == id) ≡ false)
  unfolding subscribe
  subscribe-IsOn types bus h =
      let new : Subscription = record {
        sub_id = bus.next_id;
        patterns = types;
        once = false;
        active = true;
      } in
      let now : bus.next_id + 0 ≡ bus.next_id = omega arith in
      let n : (bus.next_id == id) ≡ false = ap (λ m. m == id) (sym now) ∙ h.given 0 in
      let later : (k : ℕ) → bus.next_id + 1 + k ≡ bus.next_id + (1 + k) = λ k. omega arith in
      (
        record {
          there = ground (arith, n, get-set bus.subs bus.next_id id new, h.there);
          lasting = once_ids-set bus.next_id id new bus.subs refl h.lasting;
          given = λ k. ap (λ m. m == id) (later k) ∙ h.given (1 + k);
        },
        n,
      )

  abbrev Stays : Bus × HookRuntime → Type 0
  Stays (bus, rt) = IsOn bus × IsForeign rt

  pub IsForeign-set :
      (hid : Text) (hook : Hook) (rt : HookRuntime)
      → is_sub hook.sub_id id ≡ false
      → IsForeign rt
      → IsForeign (record rt { objects = set rt.objects hid hook })
  IsForeign-set hid hook rt n h k other e = elim (Bool-cases (hid == k)) [
    | inr d ↦ h k other (
        sym (get-set rt.objects hid k hook ∙ ap (λ b. if b then some hook else get rt.objects k) d)
        ∙ e)
    | inl d ↦
        let same : some hook ≡ some other =
          sym
            (get-set rt.objects hid k hook ∙ ap (λ b. if b then some hook else get rt.objects k) d)
          ∙ e in
        sym (ap (λ o. is_sub (sub_of o) id) same) ∙ n
  ]

  module _ (re_search : Text → Text → Option Bool) where
    fire-Stays :
        (found : Option Bool) (hook : Hook) (ev : Event) (s : Bus × HookRuntime)
        → is_sub hook.sub_id id ≡ false
        → Stays s
        → Stays (fire re_search found hook ev s)
    fire-Stays none hook ev s n h = h
    fire-Stays (some false) hook ev s n h = h
    fire-Stays (some true) hook ev (bus, rt) n h =
        if_holds (λ s. Stays (schedule hook ev s)) hook.once
          (
            cancel-IsOn hook.sub_id bus n h.0,
            IsForeign-set hook.hook_id (record hook { sub_id = none }) rt refl h.1,
          )
          h

    fire_object-Stays :
        (o : Option Hook) (ev : Event) (s : Bus × HookRuntime)
        → ((hook : Hook) → o ≡ some hook → is_sub hook.sub_id id ≡ false)
        → Stays s
        → Stays (fire_object re_search o ev s)
    fire_object-Stays none ev s n h = h
    fire_object-Stays (some hook) ev s n h =
        fire-Stays (hook_matches re_search hook ev) hook ev s (n hook refl) h

    object_of-foreign :
        (sub_id : ℕ) (rt : HookRuntime) (hook : Hook)
        → IsForeign rt
        → object_of re_search sub_id rt ≡ some hook
        → is_sub hook.sub_id id ≡ false
    object_of-foreign sub_id rt hook h e = elim (Option-cases (get rt.callbacks sub_id)) [
      | inl c ↦ ground (arith, c, e)
      | inr (hid, c) ↦ ground (arith, c, e, h hid hook)
    ]

    callback-Stays :
        (sub_id : ℕ) (ev : Event) (s : Bus × HookRuntime)
        → Stays s
        → Stays (callback re_search sub_id ev s)
    unfolding callback
    callback-Stays sub_id ev s h =
        fire_object-Stays (object_of re_search sub_id s.1) ev s
          (λ hook e. object_of-foreign sub_id s.1 hook h.1 e) h

  -- It is on the bus, and neither the recorder's nor a stop condition's nor a hook's.
  abbrev pub IsLeft : Running → Type 0
  IsLeft (bus, run) =
      IsOn bus
      × IsForeign run.runtime
      × (is_sub run.recorder.sub_id id ≡ false)
      × (has run.stops id ≡ false)

  module _ (o : Outside)
      (quiet : (i : ℕ) (ev : Event) → contains id (o.withdraws i ev) ≡ false) where
    schedule_result-IsLeft :
        (future : Option Event) (matched : Bool) (ev : Event) (bus : Bus) (run : Run)
        → IsLeft (bus, run)
        → IsLeft
            (bus, schedule_result o.clock o.offset_ms o.re_search o.withdraws future matched ev run)
    schedule_result-IsLeft (some e) matched ev bus run h = h
    schedule_result-IsLeft none matched ev bus run h = if_holds (λ r. IsLeft (bus, r)) matched h h

    hook_or_stop-IsLeft :
        (spec : Option Fields) (sub_id : ℕ) (ev : Event) (s : Running)
        → IsLeft s
        → IsLeft (hook_or_stop o.clock o.offset_ms o.re_search o.withdraws spec sub_id ev s)
    hook_or_stop-IsLeft (some spec) sub_id ev (bus, run) h =
        schedule_result-IsLeft run.stop_future
          (stop_matches o.clock o.offset_ms o.re_search o.withdraws spec ev) ev bus run h
    hook_or_stop-IsLeft none sub_id ev (bus, run) h =
        let k = callback-Stays o.re_search sub_id ev (bus, run.runtime) (h.0, h.1) in
        let s = callback o.re_search sub_id ev (bus, run.runtime) in
        let ids = if has run.runtime.callbacks sub_id then [] else o.withdraws sub_id ev in
        let n =
          if_holds (λ ids. contains id ids ≡ false) (has run.runtime.callbacks sub_id) refl
            (quiet sub_id ev) in
        (withdraw-IsOn ids s.0 n k.0, k.1, h.2, h.3)

    dispatch-IsLeft :
        (sub_id : ℕ) (ev : Event) (s : Running)
        → IsLeft s
        → IsLeft (dispatch o.clock o.offset_ms o.re_search o.withdraws sub_id ev s)
    unfolding dispatch
    dispatch-IsLeft sub_id ev (bus, run) h =
        if_holds IsLeft (is_sub run.recorder.sub_id sub_id) h
          (hook_or_stop-IsLeft (get run.stops sub_id) sub_id ev (bus, run) h)

    deliver-IsLeft :
        (ev : Event) (subs : List Subscription) (s : Running)
        → IsLeft s
        → IsLeft (
            deliver
              (λ (ev : Event). ev.type)
              (dispatch o.clock o.offset_ms o.re_search o.withdraws)
              ev
              subs
              s)
    unfolding deliver
    deliver-IsLeft ev [] s h = h
    deliver-IsLeft ev (sub ∷ subs) s h =
        deliver-IsLeft ev subs
          (dispatch o.clock o.offset_ms o.re_search o.withdraws sub.sub_id ev s)
          (dispatch-IsLeft sub.sub_id ev s h)

    pop_all-IsOn :
        (ids : List ℕ) (bus : Bus)
        → contains id ids ≡ false
        → IsOn bus
        → IsOn (record bus { subs = pop_all bus.subs ids })
    pop_all-IsOn ids bus n h = record {
      there = ground (arith, n, get-pop_all bus.subs ids id, h.there);
      lasting = once_ids-pop_all ids id bus.subs h.lasting;
      given = h.given;
    }

    pub publish-IsLeft :
        (ev : Event) (s : Running)
        → IsLeft s
        → IsLeft (publish o.clock o.offset_ms o.re_search o.withdraws ev s)
    unfolding publish emit
    publish-IsLeft ev s h =
        let subs = receivers ev.type s.0 in
        let s' =
          deliver (λ (ev : Event). ev.type) (dispatch o.clock o.offset_ms o.re_search o.withdraws)
            ev subs s in
        let k = deliver-IsLeft ev subs s h in
        let n =
          once_ids-keep (λ (sub : Subscription). sub.active && matches sub.patterns ev.type) id
            (subscriptions s.0.subs) h.0.lasting in
        (pop_all-IsOn (once_ids subs) s'.0 n k.0, k.1, k.2, k.3)

    step-IsLeft :
        (x : Step) (s : Running)
        → IsLeft s
        → IsLeft (step o.clock o.offset_ms o.re_search o.withdraws x s)
    unfolding step
    step-IsLeft (emitted ev) s h = publish-IsLeft ev s h
    step-IsLeft (acted name phone call payload hook_id pattern_name) s h = h
    step-IsLeft (noted type payload) s h = h
    step-IsLeft turned s h = h

    pub IsLeft-IsLasting : IsLasting o IsLeft
    IsLeft-IsLasting = record {
      step_keeps = step-IsLeft;
      tick_keeps = λ s h. h;
      fail_keeps = λ e s h. h;
    }
