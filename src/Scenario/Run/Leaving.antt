-- ===== src/Scenario/Run/Leaving.antt =====
-- A run takes no subscription away that is not its own.
use pjsua_mcp.Prelude.{
  ℕ, ◌+◌, ◌≡◌, refl, sym, ◌∙◌, subst, Bool, true, false, Option, none, some, List, [], ◌∷◌, arith,
  nat_eq, contains, inl, inr, if_holds, if◌then◌else◌,
}
use pjsua_mcp.Text.{Text, text_eq, codes}
use pjsua_mcp.Dict.{get, keys, get-set, contains-keys}
use pjsua_mcp.Bus.{Subscription, Bus, subscribe, unsubscribe}
use pjsua_mcp.Scenario.Value.{Fields, lookup, or_nothing, truthy}
use pjsua_mcp.Scenario.Matching.{Event, Hook}
use pjsua_mcp.Scenario.Hooks.{
  HookRuntime, new_runtime, match_of, arm_hook, sub_of, remove, remove_each, remove_all,
}
use pjsua_mcp.Scenario.Timeline.{TimelineRecorder, start, stop, stop_from}
use pjsua_mcp.Scenario.Validator.{Scenario, Issue, validate_scenario}
use pjsua_mcp.Scenario.Run.{Running, Step, is_sub}
use pjsua_mcp.Scenario.Run.Acting.{acting-keeps}
use pjsua_mcp.Scenario.Run.Arming.{arm-cases}
use pjsua_mcp.Scenario.Run.Others.{
  IsOn, IsForeign, IsLeft, unsubscribe-IsOn, cancel-IsOn, subscribe-IsOn, IsForeign-set,
  publish-IsLeft, IsLeft-IsLasting,
}
use pjsua_mcp.Scenario.Run.Parts.{
  Outside, new_run, start_recorder, stop_recorder, subscribed, event_of, stop_types, unless_raised,
  subscribe_stop, subscribe_stops, unsubscribe_all,
}
use pjsua_mcp.Scenario.Run.Phases.{armed_or_failed, arm_spec, arm_specs, emit_now, meta_now}
use pjsua_mcp.Scenario.Run.Whole.{
  begin, set_up, act, drop_stops, remove_hooks, cleanup, outcome_data, carry_out, finished, refuse,
  checked, run,
}

module _ (id : ℕ) (sub : Subscription) where
  no_object-IsForeign : IsForeign id sub new_runtime
  unfolding get
  no_object-IsForeign hid hook e = ground (arith, e)

  start_recorder-IsLeft :
      (t : Text) (bus : Bus) → IsOn id sub bus → IsLeft id sub (start_recorder (bus, new_run t))
  unfolding start get
  start_recorder-IsLeft t bus h =
      let k = subscribe-IsOn id sub (codes "*" ∷ []) bus h in (k.0, no_object-IsForeign, k.1, refl)

  subscribed-IsLeft :
      (match : Option Fields) (types : Option (List Text)) (spec : Fields) (s : Running)
      → IsLeft id sub s
      → IsLeft id sub (subscribed match types spec s).1
  unfolding subscribe
  subscribed-IsLeft none types spec s h = h
  subscribed-IsLeft (some match) none spec s h = h
  subscribed-IsLeft (some match) (some types) spec (bus, r) h =
      let k = subscribe-IsOn id sub types bus h.0 in
      (k.0, h.1, h.2, ground (arith, k.1, h.3, get-set r.stops bus.next_id id spec))

  unless_raised-IsLeft :
      (r rest : Bool × Running)
      → IsLeft id sub r.1
      → IsLeft id sub rest.1
      → IsLeft id sub (unless_raised r rest).1
  unless_raised-IsLeft (true, s) rest h k = k
  unless_raised-IsLeft (false, s) rest h k = h

  subscribe_stop-IsLeft :
      (spec : Fields) (s : Running) → IsLeft id sub s → IsLeft id sub (subscribe_stop spec s).1
  unfolding subscribe_stop
  subscribe_stop-IsLeft spec s h =
      let match = match_of (or_nothing (lookup (codes "match") spec)) in
      if_holds (λ (r : Bool × Running). IsLeft id sub r.1) (truthy (event_of spec))
        (subscribed-IsLeft match (stop_types (event_of spec)) spec s h) h

  subscribe_stops-IsLeft :
      (specs : List Fields) (s : Running)
      → IsLeft id sub s
      → IsLeft id sub (subscribe_stops specs s).1
  unfolding subscribe_stops
  subscribe_stops-IsLeft [] s h = h
  subscribe_stops-IsLeft (spec ∷ specs) s h =
      let r = subscribe_stop spec s in
      let k = subscribe_stop-IsLeft spec s h in
      unless_raised-IsLeft r (subscribe_stops specs r.1) k (subscribe_stops-IsLeft specs r.1 k)

  unsubscribe_all-IsOn :
      (ids : List ℕ) (bus : Bus)
      → contains id ids ≡ false
      → IsOn id sub bus
      → IsOn id sub (unsubscribe_all ids bus)
  unsubscribe_all-IsOn [] bus n h = h
  unsubscribe_all-IsOn (i ∷ ids) bus n h =
      unsubscribe_all-IsOn ids (unsubscribe i bus) (ground (arith, n))
        (unsubscribe-IsOn id sub i bus (ground (arith, n)) h)

  sub_of-foreign :
      (o : Option Hook)
      → ((hook : Hook) → o ≡ some hook → is_sub hook.sub_id id ≡ false)
      → is_sub (sub_of o) id ≡ false
  sub_of-foreign none n = refl
  sub_of-foreign (some hook) n = n hook refl

  -- The bus after the hooks, which keep their objects, are removed.
  remove_each-IsOn :
      (ids : List Text) (s : Bus × HookRuntime)
      → IsOn id sub s.0 × IsForeign id sub s.1
      → IsOn id sub (remove_each ids s).0 × IsForeign id sub (remove_each ids s).1
  unfolding remove
  remove_each-IsOn [] s h = h
  remove_each-IsOn (hid ∷ ids) (bus, rt) h =
      let n = sub_of-foreign (get rt.objects hid) (λ hook e. h.1 hid hook e) in
      remove_each-IsOn ids (remove hid (bus, rt)) (
        if_holds (λ (s : Bus × HookRuntime). IsOn id sub s.0 × IsForeign id sub s.1)
          (contains hid rt.hooks) (cancel-IsOn id sub (sub_of (get rt.objects hid)) bus n h.0, h.1)
          h)

  stop_from-IsOn :
      (o : Option ℕ) (bus : Bus) (rec : TimelineRecorder)
      → is_sub o id ≡ false
      → IsOn id sub bus
      → IsOn id sub (stop_from o (bus, rec)).0
  stop_from-IsOn none bus rec n h = h
  stop_from-IsOn (some i) bus rec n h = unsubscribe-IsOn id sub i bus n h

  stop_recorder-IsOn : (s : Running) → IsLeft id sub s → IsOn id sub (stop_recorder s).0
  unfolding stop
  stop_recorder-IsOn s h = stop_from-IsOn s.1.recorder.sub_id s.0 s.1.recorder h.2 h.0

  module _ (o : Outside)
      (quiet : (i : ℕ) (ev : Event) → contains id (o.withdraws i ev) ≡ false) where
    arm_spec-IsLeft :
        (spec : Fields) (s : Running) → IsLeft id sub s → IsLeft id sub (arm_spec o spec s)
    unfolding arm_spec arm_hook
    arm_spec-IsLeft spec (bus, r) h =
        let P : Option (Bus × HookRuntime) → Type 0 =
          λ a. IsLeft id sub (armed_or_failed o spec a (bus, record r { drawn = r.drawn + 1 })) in
        elim (arm-cases (o.fresh r.drawn) (codes "<scenario>") spec (bus, r.runtime)) [
          | inl e ↦ subst P (sym e) h
          | inr (hook, i, e) ↦
              let k = subscribe-IsOn id sub hook.when bus h.0 in
              let armed : Hook = record hook { sub_id = some bus.next_id } in
              subst P (sym e)
                (k.0, IsForeign-set id sub hook.hook_id armed r.runtime k.1 h.1, h.2, h.3)
        ]

    arm_specs-IsLeft :
        (specs : List Fields) (s : Running) → IsLeft id sub s → IsLeft id sub (arm_specs o specs s)
    arm_specs-IsLeft [] s h = h
    arm_specs-IsLeft (spec ∷ specs) s h =
        arm_specs-IsLeft specs (arm_spec o spec s) (arm_spec-IsLeft spec s h)

    cleanup-IsOn :
        (payload : Fields) (s : Running) → IsLeft id sub s → IsOn id sub (cleanup o payload s).0
    unfolding cleanup remove_all
    cleanup-IsOn payload (bus, r) h =
        let n = contains-keys r.stops id ∙ h.3 in
        let bus' = unsubscribe_all (keys r.stops) bus in
        let removed =
          remove_each-IsOn r.runtime.hooks (bus', r.runtime)
            (unsubscribe_all-IsOn (keys r.stops) bus n h.0, h.1) in
        let s = remove_hooks o (drop_stops o (bus, r)) in
        let ev : Event = record {
          type = codes "scenario.stopped";
          timestamp = o.clock s.1.ticks;
          phone_id = none;
          call_id = none;
          payload = payload;
        } in
        let s' = emit_now o (codes "scenario.stopped") none payload s in
        stop_recorder-IsOn (meta_now o (codes "scenario.stopped") payload s') (
          publish-IsLeft id sub o quiet ev (s.0, record s.1 { ticks = s.1.ticks + 1 })
            (removed.0, removed.1, h.2, h.3))

    carry_out-IsOn :
        (scn : Scenario) (xs : List Step) (s : Running)
        → IsLeft id sub s
        → IsOn id sub (carry_out o scn xs s).1.0
    unfolding carry_out
    carry_out-IsOn scn xs s h =
        let r = act o scn xs s in
        cleanup-IsOn (outcome_data o r.0) r.1
          (acting-keeps o (IsLeft id sub) (IsLeft-IsLasting id sub o quiet) scn xs s h)

    set_up-IsLeft :
        (scn : Scenario) (t : Text) (bus : Bus)
        → IsOn id sub bus
        → IsLeft id sub (set_up o scn (bus, new_run t)).1
    unfolding set_up
    set_up-IsLeft scn t bus h =
        let s = begin o scn (bus, new_run t) in
        subscribe_stops-IsLeft scn.stop_on (arm_specs o scn.hooks s)
          (arm_specs-IsLeft scn.hooks s (start_recorder-IsLeft t bus h))

    finished-IsOn :
        (scn : Scenario) (xs : List Step) (r : Bool × Running)
        → IsLeft id sub r.1
        → IsOn id sub (finished o scn xs r).1.0
    finished-IsOn scn xs (false, s) h = h.0
    finished-IsOn scn xs (true, s) h = carry_out-IsOn scn xs s h

    refuse-IsOn :
        (scn : Scenario) (issues : List Issue) (t : Text) (bus : Bus)
        → IsOn id sub bus
        → IsOn id sub (refuse o scn issues (bus, new_run t)).1.0
    unfolding refuse
    refuse-IsOn scn issues t bus h =
        let payload = o.explain (codes "scenario.validation_failed") in
        let s = start_recorder (bus, new_run t) in
        stop_recorder-IsOn (meta_now o (codes "scenario.validation_failed") payload s)
          (start_recorder-IsLeft t bus h)

    checked-IsOn :
        (report : Option (List Issue)) (scn : Scenario) (xs : List Step) (t : Text) (bus : Bus)
        → IsOn id sub bus
        → IsOn id sub (checked o report scn xs (bus, new_run t)).1.0
    checked-IsOn none scn xs t bus h = h
    checked-IsOn (some []) scn xs t bus h =
        finished-IsOn scn xs (set_up o scn (bus, new_run t)) (set_up-IsLeft scn t bus h)
    checked-IsOn (some (i ∷ is)) scn xs t bus h = refuse-IsOn scn (i ∷ is) t bus h

  -- A subscription that was on the bus, under an id that has been given out and that no subscription for
  -- one event has, and that the callbacks of other subscribers do not cancel, is there unchanged after a
  -- run, whatever the run does, also where it raises.
  pub run-IsOn :
      (o : Outside) (skip_validation : Bool) (scn : Scenario) (xs : List Step) (bus : Bus)
      → ((i : ℕ) (ev : Event) → contains id (o.withdraws i ev) ≡ false)
      → IsOn id sub bus
      → IsOn id sub (run o skip_validation scn xs bus).1.0
  unfolding run
  run-IsOn o skip_validation scn xs bus quiet h =
      checked-IsOn o quiet (if skip_validation then some [] else validate_scenario scn) scn xs
        (o.clock 0) bus h
