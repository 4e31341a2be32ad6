-- ===== src/Scenario/Run/Arming.antt =====
-- The subscriptions that a scenario makes before its first action are its own.
use pjsua_mcp.Prelude.{
  ℕ, ◌+◌, ◌≡◌, refl, ap, ◌∙◌, Bool, true, false, Option, none, some, List, [], ◌∷◌, ◌++◌, arith,
  nat_eq, ◌==◌, contains, contains-append, sym, subst, Option-cases, Bool-cases, ◌⊎◌, inl, inr,
  if_holds,
}
use pjsua_mcp.Text.{Text, text_eq, codes}
use pjsua_mcp.Dict.{Dict, get, has, set, get-set}
use pjsua_mcp.Bus.{Subscription, Bus, subscribe}
use pjsua_mcp.Scenario.Value.{Fields, lookup, or_nothing, truthy}
use pjsua_mcp.Scenario.Matching.{Hook}
use pjsua_mcp.Scenario.Hooks.{HookRuntime, new_runtime, hook_of, arm, arm_hook, match_of}
use pjsua_mcp.Scenario.Timeline.{start}
use pjsua_mcp.Scenario.Validator.{Scenario}
use pjsua_mcp.Scenario.Run.{Run, Running}
use pjsua_mcp.Scenario.Run.Ownership.{IsHeld, IsNamed, IsOurs, hook_owns, owns}
use pjsua_mcp.Scenario.Run.Parts.{
  Outside, start_recorder, subscribe_types, subscribe_stop, subscribe_stops, subscribed, event_of,
  unless_raised, new_run, stop_types,
}
use pjsua_mcp.Scenario.Run.Phases.{armed_or_failed, arm_spec, arm_specs}
use pjsua_mcp.Scenario.Run.Whole.{begin, set_up}

-- A hook that is armed owns its subscription, and those that were there keep theirs.
hook_owns-arm_hook :
    (hook : Hook) (bus : Bus) (rt : HookRuntime) (id : ℕ)
    → contains hook.hook_id rt.hooks ≡ false
    → let s = arm_hook hook (bus, rt) in
      (hook_owns s.1 bus.next_id ≡ true)
      × ((bus.next_id == id) ≡ false → hook_owns rt id ≡ true → hook_owns s.1 id ≡ true)
unfolding arm_hook subscribe
hook_owns-arm_hook hook bus rt id fresh =
    let hook' : Hook = record hook { sub_id = some bus.next_id } in
    (
      ground (
        arith,
        get-set rt.callbacks bus.next_id bus.next_id hook.hook_id,
        get-set rt.objects hook.hook_id hook.hook_id hook',
        contains-append hook.hook_id rt.hooks (hook.hook_id ∷ []),
        text_eq.beq_iff hook.hook_id hook.hook_id,
        nat_eq.beq_iff bus.next_id bus.next_id,
      ),
      λ n k. elim (Option-cases (get rt.callbacks id)) [
        | inl c ↦ ground (arith, c, k)
        | inr (hid, c) ↦ ground (
          arith,
          c,
          k,
          n,
          fresh,
          get-set rt.callbacks bus.next_id id hook.hook_id,
          get-set rt.objects hook.hook_id hid hook',
          contains-append hid rt.hooks (hook.hook_id ∷ []),
          text_eq.beq_iff hook.hook_id hid,
        )
      ],
    )

-- A new subscription is there, and no other is.
abbrev IsNew : ℕ → Bus → Bus → Type 0
IsNew new bus bus' = (id : ℕ) → (new == id) ≡ false → has bus'.subs id ≡ has bus.subs id

subscribe-IsNew :
    (types : List Text) (bus : Bus) → IsNew bus.next_id bus (subscribe types false bus).1
unfolding subscribe
subscribe-IsNew types bus id n =
    let sub : Subscription = record {
      sub_id = bus.next_id;
      patterns = types;
      once = false;
      active = true;
    } in
    ground (arith, n, get-set bus.subs bus.next_id id sub)

module _ (before : Bus) where
  -- A new owner of the new subscription, which takes no subscription from another.
  IsHeld-grows :
      (rec rec' : Option ℕ) (stops stops' : Dict ℕ Fields) (rt rt' : HookRuntime) (bus bus' : Bus)
      → IsNew bus.next_id bus bus'
      → owns rec' stops' rt' bus.next_id ≡ true
      → ((id : ℕ)
          → (bus.next_id == id) ≡ false
          → owns rec stops rt id ≡ true
          → owns rec' stops' rt' id ≡ true)
      → IsHeld before bus rec stops rt
      → IsHeld before bus' rec' stops' rt'
  IsHeld-grows rec rec' stops stops' rt rt' bus bus' new mine kept h id k =
      elim (Bool-cases (bus.next_id == id)) [
        | inl e ↦
            let same : owns rec' stops' rt' id ≡ true =
              ap (owns rec' stops' rt') (sym ((nat_eq.beq_iff bus.next_id id).0 e)) ∙ mine in
            ground (arith, same)
        | inr n ↦ ground (arith, h id (sym (new id n) ∙ k), kept id n)
      ]

  arm_hook-IsHeld :
      (rec : Option ℕ) (stops : Dict ℕ Fields) (hook : Hook) (bus : Bus) (rt : HookRuntime)
      → contains hook.hook_id rt.hooks ≡ false
      → IsHeld before bus rec stops rt
      → let s = arm_hook hook (bus, rt) in IsHeld before s.0 rec stops s.1
  unfolding arm_hook
  arm_hook-IsHeld rec stops hook bus rt fresh h =
      let s = arm_hook hook (bus, rt) in
      IsHeld-grows rec rec stops stops rt s.1 bus s.0 (subscribe-IsNew hook.when bus)
        (ground (arith, (hook_owns-arm_hook hook bus rt 0 fresh).0))
        (λ id n k. ground (arith, k, (hook_owns-arm_hook hook bus rt id fresh).1 n)) h

  arm_hook-IsNamed :
      (hook : Hook) (bus : Bus) (rt : HookRuntime)
      → IsNamed rt
      → IsNamed (arm_hook hook (bus, rt)).1
  unfolding arm_hook subscribe
  arm_hook-IsNamed hook bus rt h hid k e = ground (
    arith,
    e,
    get-set rt.objects hook.hook_id hid (record hook { sub_id = some bus.next_id }),
    text_eq.beq_iff hook.hook_id hid,
    h hid k,
  )

  subscribe_types-IsOurs :
      (spec : Fields) (types : List Text) (s : Running)
      → IsOurs before s
      → IsOurs before (subscribe_types spec types s)
  unfolding subscribe
  subscribe_types-IsOurs spec types (bus, run) h = (
    IsHeld-grows run.recorder.sub_id run.recorder.sub_id run.stops (set run.stops bus.next_id spec)
        run.runtime run.runtime bus (subscribe types false bus).1 (subscribe-IsNew types bus)
        (ground (
          arith,
          get-set run.stops bus.next_id bus.next_id spec,
          nat_eq.beq_iff bus.next_id bus.next_id,
        ))
        (λ id n k. ground (arith, k, n, get-set run.stops bus.next_id id spec)) h.0,
    h.1,
  )

  subscribed-IsOurs :
      (match : Option Fields) (types : Option (List Text)) (spec : Fields) (s : Running)
      → IsOurs before s
      → IsOurs before (subscribed match types spec s).1
  subscribed-IsOurs none types spec s h = h
  subscribed-IsOurs (some match) none spec s h = h
  subscribed-IsOurs (some match) (some types) spec s h = subscribe_types-IsOurs spec types s h

  unless_raised-IsOurs :
      (r rest : Bool × Running)
      → IsOurs before r.1
      → IsOurs before rest.1
      → IsOurs before (unless_raised r rest).1
  unless_raised-IsOurs (true, s) rest h k = k
  unless_raised-IsOurs (false, s) rest h k = h

  subscribe_stop-IsOurs :
      (spec : Fields) (s : Running) → IsOurs before s → IsOurs before (subscribe_stop spec s).1
  unfolding subscribe_stop
  subscribe_stop-IsOurs spec s h =
      let match = match_of (or_nothing (lookup (codes "match") spec)) in
      if_holds (λ (r : Bool × Running). IsOurs before r.1) (truthy (event_of spec))
        (subscribed-IsOurs match (stop_types (event_of spec)) spec s h) h

  pub subscribe_stops-IsOurs :
      (specs : List Fields) (s : Running)
      → IsOurs before s
      → IsOurs before (subscribe_stops specs s).1
  unfolding subscribe_stops
  subscribe_stops-IsOurs [] s h = h
  subscribe_stops-IsOurs (spec ∷ specs) s h =
      let r = subscribe_stop spec s in
      let k = subscribe_stop-IsOurs spec s h in
      unless_raised-IsOurs r (subscribe_stops specs r.1) k (subscribe_stops-IsOurs specs r.1 k)

no_object : (hid : Text) (hook : Hook) → get {V = Hook} [] hid ≡ some hook → hook.hook_id ≡ hid
unfolding get
no_object hid hook e = ground (arith, e)

-- The recorder is the first to subscribe.
pub start_recorder-IsOurs : (t : Text) (bus : Bus) → IsOurs bus (start_recorder (bus, new_run t))
unfolding start
start_recorder-IsOurs t bus = (
  IsHeld-grows bus none (some bus.next_id) [] [] new_runtime new_runtime bus
      (subscribe (codes "*" ∷ []) false bus).1 (subscribe-IsNew (codes "*" ∷ []) bus)
      (ground (arith, nat_eq.beq_iff bus.next_id bus.next_id)) (λ id n k. ground (arith, k, n))
      (λ id k. ground (arith, k)),
  λ hid hook e. no_object hid hook e,
)

-- The next ids that are drawn are of no hook.
abbrev pub IsFresh : Outside → Run → Type 0
IsFresh o run = (n : ℕ) → contains (o.fresh (run.drawn + n)) run.runtime.hooks ≡ false

-- `uuid4` gives no id twice.
abbrev pub IsDistinct : (ℕ → Text) → Type 0
IsDistinct fresh = (m n : ℕ) → fresh m ≡ fresh n → m ≡ n

hook_of-hook_id :
    (id pattern_name : Text) (spec : Fields) (hook : Hook)
    → hook_of id pattern_name spec ≡ some hook
    → hook.hook_id ≡ id
unfolding hook_of
hook_of-hook_id id pattern_name spec hook e = ground (arith, e)

-- Arming raises, or arms a hook with the id that was drawn.
pub arm-cases :
    (id pattern_name : Text) (spec : Fields) (s : Bus × HookRuntime)
    → (arm id pattern_name spec s ≡ none)
      ⊎ ((hook : Hook) × (hook.hook_id ≡ id)
          × (arm id pattern_name spec s ≡ some (arm_hook hook s)))
unfolding arm
arm-cases id pattern_name spec s = elim (Option-cases (hook_of id pattern_name spec)) [
  | inl e ↦ inl (rw (e, arm) refl)
  | inr (hook, e) ↦ inr (hook, hook_of-hook_id id pattern_name spec hook e, rw (e, arm) refl)
]

fresh-grows :
    (o : Outside) (drawn : ℕ) (hooks : List Text) (id : Text)
    → IsDistinct o.fresh
    → ((n : ℕ) → contains (o.fresh (drawn + n)) hooks ≡ false)
    → id ≡ o.fresh drawn
    → (n : ℕ) → contains (o.fresh (drawn + 1 + n)) (hooks ++ id ∷ []) ≡ false
fresh-grows o drawn hooks id d fresh e n =
    let later : drawn + 1 + n ≡ drawn + (1 + n) = omega arith in
    let rest : contains (o.fresh (drawn + 1 + n)) hooks ≡ false =
      ap (λ k. contains (o.fresh k) hooks) later ∙ fresh (1 + n) in
    ground (
      arith,
      rest,
      contains-append (o.fresh (drawn + 1 + n)) hooks (id ∷ []),
      text_eq.beq_iff id (o.fresh (drawn + 1 + n)),
      d drawn (drawn + 1 + n),
      e,
    )

module _ (before : Bus) (o : Outside) where
  arm_spec-IsOurs :
      (spec : Fields) (s : Running)
      → IsDistinct o.fresh
      → IsOurs before s × IsFresh o s.1
      → let s' = arm_spec o spec s in IsOurs before s' × IsFresh o s'.1
  unfolding arm_spec arm_hook subscribe
  arm_spec-IsOurs spec (bus, run) d (h, fresh) =
      let id = o.fresh run.drawn in
      let run' : Run = record run { drawn = run.drawn + 1 } in
      let later : (n : ℕ) → run.drawn + 1 + n ≡ run.drawn + (1 + n) = λ n. omega arith in
      let fresh-later : (n : ℕ) → contains (o.fresh (run.drawn + 1 + n)) run.runtime.hooks ≡ false =
        λ n. ap (λ k. contains (o.fresh k) run.runtime.hooks) (later n) ∙ fresh (1 + n) in
      let now : run.drawn ≡ run.drawn + 0 = omega arith in
      let unused = ap (λ k. contains (o.fresh k) run.runtime.hooks) now ∙ fresh 0 in
      let P : Option (Bus × HookRuntime) → Type 0 =
        λ a. let s' = armed_or_failed o spec a (bus, run') in IsOurs before s' × IsFresh o s'.1 in
      elim (arm-cases id (codes "<scenario>") spec (bus, run.runtime)) [
        | inl e ↦ subst P (sym e) (h, λ n. fresh-later n)
        | inr (hook, i, e) ↦ subst P (sym e) (
          (
            arm_hook-IsHeld before run.recorder.sub_id run.stops hook bus run.runtime
                (ap (λ t. contains t run.runtime.hooks) i ∙ unused) h.0,
            arm_hook-IsNamed before hook bus run.runtime h.1,
          ),
          fresh-grows o run.drawn run.runtime.hooks hook.hook_id d fresh i,
        )
      ]

  pub arm_specs-IsOurs :
      (specs : List Fields) (s : Running)
      → IsDistinct o.fresh
      → IsOurs before s × IsFresh o s.1
      → IsOurs before (arm_specs o specs s)
  arm_specs-IsOurs [] s d h = h.0
  arm_specs-IsOurs (spec ∷ specs) s d h =
      arm_specs-IsOurs specs (arm_spec o spec s) d (arm_spec-IsOurs spec s d h)

  pub set_up-IsOurs :
      (scn : Scenario) (t : Text)
      → IsDistinct o.fresh
      → IsOurs before (set_up o scn (before, new_run t)).1
  unfolding set_up start
  set_up-IsOurs scn t d =
      subscribe_stops-IsOurs before scn.stop_on
        (arm_specs o scn.hooks (begin o scn (before, new_run t)))
        (arm_specs-IsOurs scn.hooks (begin o scn (before, new_run t)) d
          (start_recorder-IsOurs t before, λ n. refl))
