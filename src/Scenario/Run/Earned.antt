-- ===== src/Scenario/Run/Earned.antt =====
-- While a scenario runs, what its stop handlers schedule, and the result that it waits for, is an event that
-- one of its conditions wants.
use pjsua_mcp.Prelude.{
  ℕ, ◌+◌, ◌≡◌, refl, sym, ap, ◌∙◌, subst, Bool, true, false, Option, none, some, List, [], ◌∷◌,
  ◌++◌, arith, nat_eq, ◌==◌, any, All, Bool-cases, inl, inr, if_holds, if◌then◌else◌,
}
use pjsua_mcp.Text.{Text, codes}
use pjsua_mcp.Dict.{Dict, get, set, get-set}
use pjsua_mcp.Bus.{Subscription, Bus, subscribe, deliver, emit, receivers}
use pjsua_mcp.Scenario.Value.{Fields, lookup, or_nothing, truthy}
use pjsua_mcp.Scenario.Matching.{Event}
use pjsua_mcp.Scenario.Hooks.{HookRuntime, match_of}
use pjsua_mcp.Scenario.Timeline.{start}
use pjsua_mcp.Scenario.Validator.{Scenario}
use pjsua_mcp.Scenario.Run.{
  Run, Running, Step, emitted, acted, noted, turned, is_sub, stop_matches, schedule_result,
  first_result, hook_or_stop, dispatch, publish, step,
}
use pjsua_mcp.Scenario.Run.Arming.{arm-cases}
use pjsua_mcp.Scenario.Run.Acting.{IsLasting}
use pjsua_mcp.Scenario.Run.Parts.{
  Outside, new_run, subscribe_types, subscribed, event_of, unless_raised, stop_types,
  subscribe_stop, subscribe_stops,
}
use pjsua_mcp.Scenario.Run.Phases.{arm_spec, arm_specs, armed_or_failed}
use pjsua_mcp.Scenario.Run.Whole.{begin, set_up, run}

module _ (o : Outside) (scn : Scenario) where
  -- Some condition of the scenario has its phone, its call and its fields matched.
  abbrev pub passes : Event → Bool
  passes ev =
      any (λ spec. stop_matches o.clock o.offset_ms o.re_search o.withdraws spec ev) scn.stop_on

  abbrev Allowed : Fields → Type 0
  Allowed spec =
      (ev : Event)
      → stop_matches o.clock o.offset_ms o.re_search o.withdraws spec ev ≡ true
      → passes ev ≡ true

  abbrev AllowedBy : Option Fields → Type 0
  AllowedBy none = Unit
  AllowedBy (some spec) = Allowed spec

  abbrev pub Passing : Option Event → Type 0
  Passing none = Unit
  Passing (some ev) = passes ev ≡ true

  abbrev AllowedStops : Dict ℕ Fields → Type 0
  AllowedStops stops = (id : ℕ) (spec : Fields) → get stops id ≡ some spec → Allowed spec

  -- What has been scheduled, and what has ended the run, passes.
  abbrev pub IsEarned : Running → Type 0
  IsEarned (bus, run) =
      AllowedStops run.stops × All (λ ev. passes ev ≡ true) run.results × Passing run.stop_future

  All-append :
      (evs : List Event) (ev : Event)
      → All (λ ev. passes ev ≡ true) evs
      → passes ev ≡ true
      → All (λ ev. passes ev ≡ true) (evs ++ ev ∷ [])
  All-append [] ev h k = (k, tt)
  All-append (e ∷ evs) ev h k = (h.0, All-append evs ev h.1 k)

  schedule_result-IsEarned :
      (future : Option Event) (matched : Bool) (ev : Event) (bus : Bus) (run : Run)
      → (matched ≡ true → passes ev ≡ true)
      → IsEarned (bus, run)
      → IsEarned
          (bus, schedule_result o.clock o.offset_ms o.re_search o.withdraws future matched ev run)
  schedule_result-IsEarned (some e) matched ev bus run p h = h
  schedule_result-IsEarned none true ev bus run p h =
      (h.0, All-append run.results ev h.1 (p refl), h.2)
  schedule_result-IsEarned none false ev bus run p h = h

  hook_or_stop-IsEarned :
      (spec : Option Fields) (sub_id : ℕ) (ev : Event) (s : Running)
      → ((f : Fields) → spec ≡ some f → Allowed f)
      → IsEarned s
      → IsEarned (hook_or_stop o.clock o.offset_ms o.re_search o.withdraws spec sub_id ev s)
  hook_or_stop-IsEarned none sub_id ev s p h = h
  hook_or_stop-IsEarned (some spec) sub_id ev (bus, run) p h =
      schedule_result-IsEarned run.stop_future
        (stop_matches o.clock o.offset_ms o.re_search o.withdraws spec ev) ev bus run
        (p spec refl ev) h

  dispatch-IsEarned :
      (sub_id : ℕ) (ev : Event) (s : Running)
      → IsEarned s
      → IsEarned (dispatch o.clock o.offset_ms o.re_search o.withdraws sub_id ev s)
  unfolding dispatch
  dispatch-IsEarned sub_id ev (bus, run) h =
      if_holds IsEarned (is_sub run.recorder.sub_id sub_id) h (
        hook_or_stop-IsEarned (get run.stops sub_id) sub_id ev (bus, run) (λ f e. h.0 sub_id f e) h)

  deliver-IsEarned :
      (ev : Event) (subs : List Subscription) (s : Running)
      → IsEarned s
      → IsEarned (
          deliver
            (λ (ev : Event). ev.type)
            (dispatch o.clock o.offset_ms o.re_search o.withdraws)
            ev
            subs
            s)
  unfolding deliver
  deliver-IsEarned ev [] s h = h
  deliver-IsEarned ev (sub ∷ subs) s h =
      deliver-IsEarned ev subs
        (dispatch o.clock o.offset_ms o.re_search o.withdraws sub.sub_id ev s)
        (dispatch-IsEarned sub.sub_id ev s h)

  first_result-Passing :
      (evs : List Event) (future : Option Event)
      → All (λ ev. passes ev ≡ true) evs
      → Passing future
      → Passing (first_result evs future)
  first_result-Passing [] future h k = k
  first_result-Passing (ev ∷ evs) none h k = h.0
  first_result-Passing (ev ∷ evs) (some e) h k = k

  step-IsEarned :
      (x : Step) (s : Running)
      → IsEarned s
      → IsEarned (step o.clock o.offset_ms o.re_search o.withdraws x s)
  unfolding step publish emit
  step-IsEarned (emitted ev) s h = deliver-IsEarned ev (receivers ev.type s.0) s h
  step-IsEarned (acted name phone call payload hook_id pattern_name) s h = h
  step-IsEarned (noted type payload) s h = h
  step-IsEarned turned (bus, run) h =
      (h.0, tt, first_result-Passing run.results run.stop_future h.1 h.2)

  pub IsEarned-IsLasting : IsLasting o IsEarned
  IsEarned-IsLasting = record {
    step_keeps = step-IsEarned;
    tick_keeps = λ s h. h;
    fail_keeps = λ e s h. h;
  }

  Allowed-set :
      (stops : Dict ℕ Fields) (new id : ℕ) (spec f : Fields)
      → Allowed spec
      → AllowedStops stops
      → get (set stops new spec) id ≡ some f
      → Allowed f
  Allowed-set stops new id spec f p h e = elim (Bool-cases (new == id)) [
    | inl b ↦
        let same : some spec ≡ some f =
          sym (get-set stops new id spec ∙ ap (λ b. if b then some spec else get stops id) b) ∙ e in
        subst (λ (o : Option Fields). AllowedBy o) same p
    | inr b ↦
        h id f
          (sym (get-set stops new id spec ∙ ap (λ b. if b then some spec else get stops id) b) ∙ e)
  ]

  subscribe_types-IsEarned :
      (spec : Fields) (types : List Text) (s : Running)
      → Allowed spec
      → IsEarned s
      → IsEarned (subscribe_types spec types s)
  unfolding subscribe
  subscribe_types-IsEarned spec types (bus, r) p h =
      (λ id f e. Allowed-set r.stops bus.next_id id spec f p h.0 e, h.1, h.2)

  subscribed-IsEarned :
      (match : Option Fields) (types : Option (List Text)) (spec : Fields) (s : Running)
      → Allowed spec
      → IsEarned s
      → IsEarned (subscribed match types spec s).1
  subscribed-IsEarned none types spec s p h = h
  subscribed-IsEarned (some match) none spec s p h = h
  subscribed-IsEarned (some match) (some types) spec s p h =
      subscribe_types-IsEarned spec types s p h

  subscribe_stop-IsEarned :
      (spec : Fields) (s : Running) → Allowed spec → IsEarned s → IsEarned (subscribe_stop spec s).1
  unfolding subscribe_stop
  subscribe_stop-IsEarned spec s p h =
      let match = match_of (or_nothing (lookup (codes "match") spec)) in
      if_holds (λ (r : Bool × Running). IsEarned r.1) (truthy (event_of spec))
        (subscribed-IsEarned match (stop_types (event_of spec)) spec s p h) h

  unless_raised-IsEarned :
      (r rest : Bool × Running) → IsEarned r.1 → IsEarned rest.1 → IsEarned (unless_raised r rest).1
  unless_raised-IsEarned (true, s) rest h k = k
  unless_raised-IsEarned (false, s) rest h k = h

  subscribe_stops-IsEarned :
      (specs : List Fields) (s : Running)
      → All Allowed specs
      → IsEarned s
      → IsEarned (subscribe_stops specs s).1
  unfolding subscribe_stops
  subscribe_stops-IsEarned [] s p h = h
  subscribe_stops-IsEarned (spec ∷ specs) s p h =
      let r = subscribe_stop spec s in
      let k = subscribe_stop-IsEarned spec s p.0 h in
      unless_raised-IsEarned r (subscribe_stops specs r.1) k
        (subscribe_stops-IsEarned specs r.1 p.1 k)

  -- What no hook changes: the conditions, and what has been scheduled.
  arm_spec-IsEarned : (spec : Fields) (s : Running) → IsEarned s → IsEarned (arm_spec o spec s)
  unfolding arm_spec
  arm_spec-IsEarned spec (bus, r) h =
      let P : Option (Bus × HookRuntime) → Type 0 =
        λ a. IsEarned (armed_or_failed o spec a (bus, record r { drawn = r.drawn + 1 })) in
      elim (arm-cases (o.fresh r.drawn) (codes "<scenario>") spec (bus, r.runtime)) [
        | inl e ↦ subst P (sym e) h
        | inr (hook, i, e) ↦ subst P (sym e) h
      ]

  arm_specs-IsEarned :
      (specs : List Fields) (s : Running) → IsEarned s → IsEarned (arm_specs o specs s)
  arm_specs-IsEarned [] s h = h
  arm_specs-IsEarned (spec ∷ specs) s h =
      arm_specs-IsEarned specs (arm_spec o spec s) (arm_spec-IsEarned spec s h)

  -- Every condition of the scenario is allowed.
  any-mine :
      (specs : List Fields)
      → ((ev : Event)
          → any (λ spec. stop_matches o.clock o.offset_ms o.re_search o.withdraws spec ev) specs
            ≡ true
          → passes ev ≡ true)
      → All Allowed specs
  any-mine [] h = tt
  any-mine (spec ∷ specs) h =
      (λ ev k. h ev (ground (arith, k)), any-mine specs (λ ev k. h ev (ground (arith, k))))

  pub set_up-IsEarned : (t : Text) (bus : Bus) → IsEarned (set_up o scn (bus, new_run t)).1
  unfolding set_up start get
  set_up-IsEarned t bus =
      let s = begin o scn (bus, new_run t) in
      subscribe_stops-IsEarned scn.stop_on (arm_specs o scn.hooks s)
        (any-mine scn.stop_on (λ ev k. k))
        (arm_specs-IsEarned scn.hooks s (λ id f e ev k. ground (arith, e), tt, tt))
