-- ===== src/Scenario/Run/Restored.antt =====
-- What is left of a scenario on the event bus when it has run.
use pjsua_mcp.Prelude.{
  ℕ, ◌+◌, ◌≡◌, refl, sym, ap, ◌∙◌, Bool, true, false, not, ◌||◌, Option, none, some, List, [], ◌∷◌,
  arith, nat_eq, ◌==◌, contains, contains-keep, keep, Option-cases, Bool-cases, inl, inr, if_holds,
  if◌then◌else◌,
}
use pjsua_mcp.Text.{Text, text_eq, codes}
use pjsua_mcp.Dict.{Dict, get, has, keys, get-pop, contains-keys}
use pjsua_mcp.Bus.{Bus, subscribe, unsubscribe}
use pjsua_mcp.Scenario.Value.{Fields}
use pjsua_mcp.Scenario.Matching.{Event, Hook}
use pjsua_mcp.Scenario.Hooks.{HookRuntime, cancel, sub_of, remove, remove_each, remove_all}
use pjsua_mcp.Scenario.Timeline.{TimelineRecorder, start, stop, stop_from}
use pjsua_mcp.Scenario.Validator.{Scenario, Issue, validate_scenario}
use pjsua_mcp.Scenario.Run.{Running, Step, is_sub}
use pjsua_mcp.Scenario.Run.Ownership.{IsHeld, IsOurs, step-IsOurs, hook_owns, object_has}
use pjsua_mcp.Scenario.Run.Arming.{IsDistinct, start_recorder-IsOurs, set_up-IsOurs}
use pjsua_mcp.Scenario.Run.Acting.{IsLasting, acting-keeps}
use pjsua_mcp.Scenario.Run.Shrinking.{publish-Shrinks, cancel-IsPart}
use pjsua_mcp.Scenario.Run.Parts.{
  Outside, ScenarioResult, unsubscribe_all, stop_recorder, new_run, start_recorder,
}
use pjsua_mcp.Scenario.Run.Phases.{emit_now, meta_now}
use pjsua_mcp.Scenario.Run.Whole.{
  drop_stops, remove_hooks, cleanup, act, carry_out, outcome_data, refuse, finished, checked,
  set_up, run,
}

has-unsubscribe_all :
    (ids : List ℕ) (bus : Bus) (id : ℕ)
    → has (unsubscribe_all ids bus).subs id ≡ (if contains id ids then false else has bus.subs id)
unfolding unsubscribe
has-unsubscribe_all [] bus id = refl
has-unsubscribe_all (i ∷ ids) bus id =
    ground (arith, has-unsubscribe_all ids (unsubscribe i bus) id, get-pop bus.subs i id)

sub_of-object_has : (o : Option Hook) (id : ℕ) → object_has o id ≡ is_sub (sub_of o) id
sub_of-object_has none id = refl
sub_of-object_has (some hook) id = refl

cancel-is_sub :
    (id : ℕ) (o : Option ℕ) (bus : Bus) → has (cancel o bus).subs id ≡ true → is_sub o id ≡ false
unfolding unsubscribe
cancel-is_sub id none bus k = refl
cancel-is_sub id (some i) bus k = ground (arith, get-pop bus.subs i id)

abbrev without_hook : Text → HookRuntime → HookRuntime
without_hook hook_id rt = record rt { hooks = keep (λ id. not (id == hook_id)) rt.hooks }

hook_owns-without_hook :
    (hook_id : Text) (rt : HookRuntime) (id : ℕ)
    → is_sub (sub_of (get rt.objects hook_id)) id ≡ false
    → hook_owns (without_hook hook_id rt) id ≡ hook_owns rt id
hook_owns-without_hook hook_id rt id n = elim (Option-cases (get rt.callbacks id)) [
  | inl c ↦ rw c refl
  | inr (hid, c) ↦
      let other : (hid == hook_id) ≡ true → object_has (get rt.objects hid) id ≡ false = λ e.
        sub_of-object_has (get rt.objects hid) id
        ∙ ap (λ t. is_sub (sub_of (get rt.objects t)) id) ((text_eq.beq_iff hid hook_id).0 e)
        ∙ n in
      ground (arith, c, other, contains-keep (λ t. not (t == hook_id)) hid rt.hooks)
]

contains-without_hook :
    (hook_id t : Text) (rt : HookRuntime)
    → contains t (without_hook hook_id rt).hooks
      ≡ (if hook_id == t then false else contains t rt.hooks)
contains-without_hook hook_id t rt = ground (
  arith,
  contains-keep (λ id. not (id == hook_id)) t rt.hooks,
  text_eq.beq_iff t hook_id,
  text_eq.beq_iff hook_id t,
)

contains-remove :
    (hook_id t : Text) (s : Bus × HookRuntime)
    → contains t (remove hook_id s).1.hooks ≡ (if hook_id == t then false else contains t s.1.hooks)
unfolding remove
contains-remove hook_id t (bus, rt) = elim (Bool-cases (contains hook_id rt.hooks)) [
  | inl e ↦ rw e (contains-without_hook hook_id t rt)
  | inr e ↦
      let gone : (hook_id == t) ≡ true → contains t rt.hooks ≡ false =
        λ p. ap (λ t. contains t rt.hooks) (sym ((text_eq.beq_iff hook_id t).0 p)) ∙ e in
      rw e (ground (arith, gone))
]

contains-remove_each :
    (ids : List Text) (t : Text) (s : Bus × HookRuntime)
    → contains t (remove_each ids s).1.hooks
      ≡ (if contains t ids then false else contains t s.1.hooks)
contains-remove_each [] t s = refl
contains-remove_each (id ∷ ids) t s =
    ground (arith, contains-remove_each ids t (remove id s), contains-remove id t s)

hook_owns-none :
    (rt : HookRuntime) (id : ℕ)
    → ((t : Text) → contains t rt.hooks ≡ false)
    → hook_owns rt id ≡ false
hook_owns-none rt id n = elim (Option-cases (get rt.callbacks id)) [
  | inl c ↦ rw c refl
  | inr (hid, c) ↦ ground (arith, c, n hid)
]

if_false : (b : Bool) → (if b then false else b) ≡ false
if_false true = refl
if_false false = refl

module _ (before : Bus) (rec : Option ℕ) where
  drop_stops-IsHeld :
      (stops : Dict ℕ Fields) (bus : Bus) (rt : HookRuntime)
      → IsHeld before bus rec stops rt
      → IsHeld before (unsubscribe_all (keys stops) bus) rec [] rt
  unfolding get
  drop_stops-IsHeld stops bus rt h id k =
      ground (arith, k, h id, has-unsubscribe_all (keys stops) bus id, contains-keys stops id)

  remove-IsHeld :
      (hook_id : Text) (s : Bus × HookRuntime)
      → IsHeld before s.0 rec [] s.1
      → let s' = remove hook_id s in IsHeld before s'.0 rec [] s'.1
  unfolding remove
  remove-IsHeld hook_id (bus, rt) h =
      let o = sub_of (get rt.objects hook_id) in
      if_holds (λ (s : Bus × HookRuntime). IsHeld before s.0 rec [] s.1) (contains hook_id rt.hooks)
        (λ id k.
          ap (λ b. has before.subs id || (is_sub rec id || b))
            (hook_owns-without_hook hook_id rt id (cancel-is_sub id o bus k))
          ∙ h id (cancel-IsPart o bus id k))
        h

  remove_each-IsHeld :
      (ids : List Text) (s : Bus × HookRuntime)
      → IsHeld before s.0 rec [] s.1
      → let s' = remove_each ids s in IsHeld before s'.0 rec [] s'.1
  remove_each-IsHeld [] s h = h
  remove_each-IsHeld (id ∷ ids) s h = remove_each-IsHeld ids (remove id s) (remove-IsHeld id s h)

  -- When all hooks have been removed, only the recorder's subscription is left.
  remove_all-recorder :
      (s : Bus × HookRuntime) (id : ℕ)
      → IsHeld before s.0 rec [] s.1
      → has (remove_all s).0.subs id ≡ true
      → (has before.subs id || is_sub rec id) ≡ true
  unfolding remove_all get
  remove_all-recorder s id h k =
      let s' = remove_each s.1.hooks s in
      let none_left : (t : Text) → contains t s'.1.hooks ≡ false =
        λ t. contains-remove_each s.1.hooks t s ∙ if_false (contains t s.1.hooks) in
      ground (arith, remove_each-IsHeld s.1.hooks s h id k, hook_owns-none s'.1 id none_left)

-- What is still there when the recorder has stopped was not the recorder's.
stop_from-gone :
    (o : Option ℕ) (bus : Bus) (rec : TimelineRecorder) (id : ℕ)
    → has (stop_from o (bus, rec)).0.subs id ≡ true
    → (has bus.subs id ≡ true) × (is_sub o id ≡ false)
unfolding unsubscribe
stop_from-gone none bus rec id k = (k, refl)
stop_from-gone (some i) bus rec id k = ground (arith, k, get-pop bus.subs i id)

stop_recorder-gone :
    (s : Running) (id : ℕ)
    → has (stop_recorder s).0.subs id ≡ true
    → (has s.0.subs id ≡ true) × (is_sub s.1.recorder.sub_id id ≡ false)
unfolding stop
stop_recorder-gone s id k = stop_from-gone s.1.recorder.sub_id s.0 s.1.recorder id k

module _ (before : Bus) (o : Outside) where
  cleanup_lem :
      (payload : Fields) (s : Running) (id : ℕ)
      → IsOurs before s
      → has (cleanup o payload s).0.subs id ≡ true
      → has before.subs id ≡ true
  unfolding cleanup
  cleanup_lem payload (bus, run) id h k =
      let rec = run.recorder.sub_id in
      let held = drop_stops-IsHeld before rec run.stops bus run.runtime h.0 in
      let bus' = unsubscribe_all (keys run.stops) bus in
      let s = remove_hooks o (drop_stops o (bus, run)) in
      let s' = emit_now o (codes "scenario.stopped") none payload s in
      let gone = stop_recorder-gone (meta_now o (codes "scenario.stopped") payload s') id k in
      let ev : Event = record {
        type = codes "scenario.stopped";
        timestamp = o.clock s.1.ticks;
        phone_id = none;
        call_id = none;
        payload = payload;
      } in
      let part =
        publish-Shrinks o.clock o.offset_ms o.re_search o.withdraws ev
          (s.0, record s.1 { ticks = s.1.ticks + 1 }) in
      let left = remove_all-recorder before rec (bus', run.runtime) id held (part.0 id gone.0) in
      let other : is_sub rec id ≡ false = ap (λ r. is_sub r id) (sym part.1) ∙ gone.1 in
      ground (arith, left, other)

  IsOurs-IsLasting : IsLasting o (IsOurs before)
  IsOurs-IsLasting = record {
    step_keeps = step-IsOurs before o.clock o.offset_ms o.re_search o.withdraws;
    tick_keeps = λ s h. h;
    fail_keeps = λ e s h. h;
  }

  carry_out_lem :
      (scn : Scenario) (xs : List Step) (s : Running) (id : ℕ)
      → IsOurs before s
      → has (carry_out o scn xs s).1.0.subs id ≡ true
      → has before.subs id ≡ true
  unfolding carry_out
  carry_out_lem scn xs s id h k =
      let r = act o scn xs s in
      cleanup_lem (outcome_data o r.0) r.1 id
        (acting-keeps o (IsOurs before) IsOurs-IsLasting scn xs s h) k

  refuse-IsPart :
      (scn : Scenario) (issues : List Issue) (t : Text) (id : ℕ)
      → has (refuse o scn issues (before, new_run t)).1.0.subs id ≡ true
      → has before.subs id ≡ true
  unfolding refuse get start subscribe
  refuse-IsPart scn issues t id k =
      let payload = o.explain (codes "scenario.validation_failed") in
      let s = start_recorder (before, new_run t) in
      let gone =
        stop_recorder-gone (meta_now o (codes "scenario.validation_failed") payload s) id k in
      ground (arith, (start_recorder-IsOurs t before).0 id gone.0, gone.1)

  finished-IsPart :
      (scn : Scenario) (xs : List Step) (r : Bool × Running) (result : ScenarioResult) (id : ℕ)
      → IsOurs before r.1
      → (finished o scn xs r).0 ≡ some result
      → has (finished o scn xs r).1.0.subs id ≡ true
      → has before.subs id ≡ true
  finished-IsPart scn xs (false, s) result id h e k = ground (arith, e)
  finished-IsPart scn xs (true, s) result id h e k = carry_out_lem scn xs s id h k

  checked-IsPart :
      (report : Option (List Issue)) (scn : Scenario) (xs : List Step) (t : Text)
      (result : ScenarioResult) (id : ℕ)
      → IsDistinct o.fresh
      → (checked o report scn xs (before, new_run t)).0 ≡ some result
      → has (checked o report scn xs (before, new_run t)).1.0.subs id ≡ true
      → has before.subs id ≡ true
  checked-IsPart none scn xs t result id d e k = k
  checked-IsPart (some []) scn xs t result id d e k =
      finished-IsPart scn xs (set_up o scn (before, new_run t)) result id
        (set_up-IsOurs before o scn t d) e k
  checked-IsPart (some (i ∷ is)) scn xs t result id d e k = refuse-IsPart scn (i ∷ is) t id k

-- Where the ids that hooks are given are distinct and no action is a `wait_until`, a scenario that gives a
-- result leaves no subscription of its own on the bus, whatever its hooks, its other actions and the events
-- meanwhile: what is subscribed afterwards was so before. (The subscription that a `wait_until` has while
-- it waits is no step of the model.)
pub run-IsRestored :
    (o : Outside) (skip_validation : Bool) (scn : Scenario) (xs : List Step) (bus : Bus)
    (result : ScenarioResult) (id : ℕ)
    → IsDistinct o.fresh
    → (run o skip_validation scn xs bus).0 ≡ some result
    → has (run o skip_validation scn xs bus).1.0.subs id ≡ true
    → has bus.subs id ≡ true
unfolding run
run-IsRestored o skip_validation scn xs bus result id d e k =
    checked-IsPart bus o (if skip_validation then some [] else validate_scenario scn) scn xs
      (o.clock 0) result id d e k
