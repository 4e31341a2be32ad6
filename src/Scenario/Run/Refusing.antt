-- ===== src/Scenario/Run/Refusing.antt =====
-- Scenarios that are refused before they run, and those that raise while their stop conditions are
-- subscribed.
use pjsua_mcp.Prelude.{
  ℕ, ◌+◌, ◌≤◌, ◌<◌, ◌≡◌, refl, sym, ap, ◌∙◌, subst, Bool, true, false, Option, none, some, List, [],
  ◌∷◌, map, arith, nat_eq, ◌==◌, inl, inr, if_holds, if◌then◌else◌,
}
use pjsua_mcp.Text.{Text, codes}
use pjsua_mcp.Dict.{get, set, get-set, get-pop}
use pjsua_mcp.Bus.{Subscription, Bus, subscribe, unsubscribe}
use pjsua_mcp.Scenario.Value.{Fields, no_more, lookup, or_nothing, truthy}
use pjsua_mcp.Scenario.Hooks.{HookRuntime, match_of, arm_hook}
use pjsua_mcp.Scenario.Timeline.{TimelineEntry, of_meta, start, stop}
use pjsua_mcp.Scenario.Validator.{Scenario, Issue, validate_scenario}
use pjsua_mcp.Scenario.Run.{Running, Step, in_validation}
use pjsua_mcp.Scenario.Run.Arming.{arm-cases}
use pjsua_mcp.Scenario.Run.Parts.{
  Outside, ScenarioResult, error, preflight_failed, new_run, subscribed, event_of, unless_raised,
  stop_types, subscribe_stop, subscribe_stops,
}
use pjsua_mcp.Scenario.Run.Phases.{armed_or_failed, arm_spec, arm_specs}
use pjsua_mcp.Scenario.Run.Whole.{begin, set_up, finished, checked, refuse, run}

-- The recorder's subscription.
abbrev pub recorder : Bus → Subscription
recorder bus = record {
  sub_id = bus.next_id;
  patterns = codes "*" ∷ [];
  once = false;
  active = true;
}

-- The one entry in the timeline of a scenario that is refused.
abbrev pub refusal : Outside → TimelineEntry
refusal o = record {
  kind = of_meta;
  ts = o.clock 1;
  ts_offset_ms = o.offset_ms (o.clock 1) (o.clock 0);
  type = codes "scenario.validation_failed";
  phone_id = none;
  call_id = none;
  payload = o.explain (codes "scenario.validation_failed");
  hook_id = none;
  pattern_name = none;
}

abbrev pub refused : Outside → Issue → List Issue → ScenarioResult
refused o i is = record {
  status = error;
  reason = preflight_failed;
  timeline = refusal o ∷ [];
  errors = map in_validation (i ∷ is);
  artifacts = no_more;
}

-- A scenario in which the validation finds an issue ends at once with the status "error" and with those
-- issues as its errors, in their order, whatever its hooks and actions are and whatever happens
-- meanwhile: its timeline has one entry, and of the subscriptions only that of the id that the recorder
-- drew can be another than before, which is not there any more.
pub run-refuses :
    (o : Outside) (scn : Scenario) (xs : List Step) (bus : Bus) (i : Issue) (is : List Issue)
    (id : ℕ)
    → validate_scenario scn ≡ some (i ∷ is)
    → let (result, s) = run o false scn xs bus in
      (result ≡ some (refused o i is))
      × (get s.0.subs id ≡ (if bus.next_id == id then none else get bus.subs id))
unfolding run refuse start stop subscribe unsubscribe
run-refuses o scn xs bus i is id e =
    let P : Option (List Issue) → Type 0 = λ report.
      let (result, s) = checked o report scn xs (bus, new_run (o.clock 0)) in
      (result ≡ some (refused o i is))
      × (get s.0.subs id ≡ (if bus.next_id == id then none else get bus.subs id)) in
    subst P (sym e) (
      refl,
      ground (
        arith,
        get-pop (set bus.subs bus.next_id (recorder bus)) bus.next_id id,
        get-set bus.subs bus.next_id id (recorder bus),
      ),
    )

-- What is subscribed under an id that has been drawn stays, and the next id does not go back.
abbrev IsMore : Bus → Bus → Type 0
IsMore bus bus' =
    (bus.next_id ≤ bus'.next_id)
    × ((id : ℕ) → id < bus.next_id → get bus'.subs id ≡ get bus.subs id)

IsMore-refl : (bus : Bus) → IsMore bus bus
IsMore-refl bus = (omega arith, λ id k. refl)

IsMore-trans : (a b c : Bus) → IsMore a b → IsMore b c → IsMore a c
IsMore-trans a b c h k =
    (ground (arith, h.0, k.0), λ id l. k.1 id (ground (arith, h.0, l)) ∙ h.1 id l)

subscribe-IsMore : (types : List Text) (bus : Bus) → IsMore bus (subscribe types false bus).1
unfolding subscribe
subscribe-IsMore types bus =
    let sub : Subscription = record {
      sub_id = bus.next_id;
      patterns = types;
      once = false;
      active = true;
    } in
    (
      ground arith,
      λ id k. ground (arith, k, get-set bus.subs bus.next_id id sub, nat_eq.beq_iff bus.next_id id),
    )

subscribed-IsMore :
    (match : Option Fields) (types : Option (List Text)) (spec : Fields) (s : Running)
    → IsMore s.0 (subscribed match types spec s).1.0
subscribed-IsMore none types spec s = IsMore-refl s.0
subscribed-IsMore (some match) none spec s = IsMore-refl s.0
subscribed-IsMore (some match) (some types) spec s = subscribe-IsMore types s.0

unless_raised-IsMore :
    (bus : Bus) (r rest : Bool × Running)
    → IsMore bus r.1.0
    → IsMore bus rest.1.0
    → IsMore bus (unless_raised r rest).1.0
unless_raised-IsMore bus (true, s) rest h k = k
unless_raised-IsMore bus (false, s) rest h k = h

subscribe_stop-IsMore : (spec : Fields) (s : Running) → IsMore s.0 (subscribe_stop spec s).1.0
unfolding subscribe_stop
subscribe_stop-IsMore spec s =
    let match = match_of (or_nothing (lookup (codes "match") spec)) in
    if_holds (λ (r : Bool × Running). IsMore s.0 r.1.0) (truthy (event_of spec))
      (subscribed-IsMore match (stop_types (event_of spec)) spec s) (IsMore-refl s.0)

subscribe_stops-IsMore :
    (specs : List Fields) (s : Running) → IsMore s.0 (subscribe_stops specs s).1.0
unfolding subscribe_stops
subscribe_stops-IsMore [] s = IsMore-refl s.0
subscribe_stops-IsMore (spec ∷ specs) s =
    let r = subscribe_stop spec s in
    let h = subscribe_stop-IsMore spec s in
    unless_raised-IsMore s.0 r (subscribe_stops specs r.1) h
      (IsMore-trans s.0 r.1.0 (subscribe_stops specs r.1).1.0 h (subscribe_stops-IsMore specs r.1))

module _ (o : Outside) where
  arm_spec-IsMore : (spec : Fields) (s : Running) → IsMore s.0 (arm_spec o spec s).0
  unfolding arm_spec arm_hook
  arm_spec-IsMore spec (bus, run) =
      let P : Option (Bus × HookRuntime) → Type 0 =
        λ a. IsMore bus (armed_or_failed o spec a (bus, record run { drawn = run.drawn + 1 })).0 in
      elim (arm-cases (o.fresh run.drawn) (codes "<scenario>") spec (bus, run.runtime)) [
        | inl e ↦ subst P (sym e) (IsMore-refl bus)
        | inr (hook, i, e) ↦ subst P (sym e) (subscribe-IsMore hook.when bus)
      ]

  arm_specs-IsMore : (specs : List Fields) (s : Running) → IsMore s.0 (arm_specs o specs s).0
  arm_specs-IsMore [] s = IsMore-refl s.0
  arm_specs-IsMore (spec ∷ specs) s =
      let s' = arm_spec o spec s in
      IsMore-trans s.0 s'.0 (arm_specs o specs s').0 (arm_spec-IsMore spec s)
        (arm_specs-IsMore specs s')

  set_up-recorder :
      (scn : Scenario) (t : Text) (bus : Bus)
      → get (set_up o scn (bus, new_run t)).1.0.subs bus.next_id ≡ some (recorder bus)
  unfolding set_up start subscribe
  set_up-recorder scn t bus =
      let s = begin o scn (bus, new_run t) in
      let s' = arm_specs o scn.hooks s in
      let r = subscribe_stops scn.stop_on s' in
      let h =
        IsMore-trans s.0 s'.0 r.1.0 (arm_specs-IsMore scn.hooks s)
          (subscribe_stops-IsMore scn.stop_on s') in
      h.1 bus.next_id (omega arith)
      ∙ get-set bus.subs bus.next_id bus.next_id (recorder bus)
      ∙ ap (λ b. if b then some (recorder bus) else get bus.subs bus.next_id)
          ((nat_eq.beq_iff bus.next_id bus.next_id).1 refl)

  finished-raises :
      (scn : Scenario) (xs : List Step) (r : Bool × Running)
      → (finished o scn xs r).0 ≡ none
      → (finished o scn xs r).1 ≡ r.1
  finished-raises scn xs (false, s) e = refl
  finished-raises scn xs (true, s) e = ground (arith, e)

-- A run that raises after it has passed the validation, or without one, leaves the recorder's
-- subscription behind, under the id that it drew: active, to "*", and not for one event only.
pub run-leaks :
    (o : Outside) (skip_validation : Bool) (scn : Scenario) (xs : List Step) (bus : Bus)
    → (if skip_validation then some [] else validate_scenario scn) ≡ some []
    → (run o skip_validation scn xs bus).0 ≡ none
    → get (run o skip_validation scn xs bus).1.0.subs bus.next_id ≡ some (recorder bus)
unfolding run
run-leaks o skip_validation scn xs bus v e =
    let P : Option (List Issue) → Type 0 = λ report.
      let (result, s) = checked o report scn xs (bus, new_run (o.clock 0)) in
      result ≡ none → get s.0.subs bus.next_id ≡ some (recorder bus) in
    let r = set_up o scn (bus, new_run (o.clock 0)) in
    subst P (sym v)
      (λ raises.
        ap (λ (s : Running). get s.0.subs bus.next_id) (finished-raises o scn xs r raises)
        ∙ set_up-recorder o scn (o.clock 0) bus)
      e
