-- ===== src/Scenario/Run/Shrinking.antt =====
-- An event that is emitted while a scenario runs adds no subscription and leaves the recorder its own, and the
-- result that the run waits for as it is.
use pjsua_mcp.Prelude.{
  ℕ, ◌≡◌, refl, ◌∙◌, Bool, true, false, Option, none, some, List, [], ◌∷◌, arith, nat_eq, if_holds,
  if◌then◌else◌,
}
use pjsua_mcp.Text.{Text}
use pjsua_mcp.Dict.{get, has, pop_all, get-pop, get-pop_all}
use pjsua_mcp.Bus.{Subscription, Bus, unsubscribe, deliver, emit, once_ids, receivers}
use pjsua_mcp.Scenario.Value.{Fields}
use pjsua_mcp.Scenario.Matching.{Event, Hook, hook_matches}
use pjsua_mcp.Scenario.Hooks.{HookRuntime, callback, cancel, object_of, fire_object, fire, schedule}
use pjsua_mcp.Scenario.Run.{
  Run, withdraw, Running, is_sub, stop_matches, schedule_result, hook_or_stop, dispatch, publish,
}

-- No subscription is new.
abbrev pub IsPart : Bus → Bus → Type 0
IsPart bus bus' = (id : ℕ) → has bus'.subs id ≡ true → has bus.subs id ≡ true

abbrev pub Shrinks : Running → Running → Type 0
Shrinks s s' =
    IsPart s.0 s'.0
    × (s'.1.recorder.sub_id ≡ s.1.recorder.sub_id)
    × (s'.1.stop_future ≡ s.1.stop_future)

pub unsubscribe-IsPart : (i : ℕ) (bus : Bus) → IsPart bus (unsubscribe i bus)
unfolding unsubscribe
unsubscribe-IsPart i bus id k = ground (arith, k, get-pop bus.subs i id)

pub cancel-IsPart : (o : Option ℕ) (bus : Bus) → IsPart bus (cancel o bus)
cancel-IsPart none bus id k = k
cancel-IsPart (some i) bus id k = unsubscribe-IsPart i bus id k

pub withdraw-IsPart : (ids : List ℕ) (bus : Bus) → IsPart bus (withdraw ids bus)
unfolding withdraw
withdraw-IsPart [] bus id k = k
withdraw-IsPart (i ∷ ids) bus id k =
    unsubscribe-IsPart i bus id (withdraw-IsPart ids (unsubscribe i bus) id k)

module _ (re_search : Text → Text → Option Bool) where
  fire-IsPart :
      (found : Option Bool) (hook : Hook) (ev : Event) (s : Bus × HookRuntime)
      → IsPart s.0 (fire re_search found hook ev s).0
  fire-IsPart none hook ev s = λ id k. k
  fire-IsPart (some false) hook ev s = λ id k. k
  fire-IsPart (some true) hook ev (bus, rt) =
      if_holds (λ s. IsPart bus (schedule hook ev s).0) hook.once (cancel-IsPart hook.sub_id bus)
        (λ id k. k)

  fire_object-IsPart :
      (o : Option Hook) (ev : Event) (s : Bus × HookRuntime)
      → IsPart s.0 (fire_object re_search o ev s).0
  fire_object-IsPart none ev s = λ id k. k
  fire_object-IsPart (some hook) ev s = fire-IsPart (hook_matches re_search hook ev) hook ev s

  callback-IsPart :
      (sub_id : ℕ) (ev : Event) (s : Bus × HookRuntime)
      → IsPart s.0 (callback re_search sub_id ev s).0
  unfolding callback
  callback-IsPart sub_id ev s = fire_object-IsPart (object_of re_search sub_id s.1) ev s

module _ (clock : ℕ → Text) (offset_ms : Text → Text → Text) (re_search : Text → Text → Option Bool)
    (withdraws : ℕ → Event → List ℕ) where
  schedule_result-Shrinks :
      (future : Option Event) (matched : Bool) (ev : Event) (bus : Bus) (run : Run)
      → Shrinks
          (bus, run)
          (bus, schedule_result clock offset_ms re_search withdraws future matched ev run)
  schedule_result-Shrinks (some e) matched ev bus run = (λ id k. k, refl, refl)
  schedule_result-Shrinks none matched ev bus run =
      if_holds (λ r. Shrinks (bus, run) (bus, r)) matched (λ id k. k, refl, refl)
        (λ id k. k, refl, refl)

  hook_or_stop-Shrinks :
      (o : Option Fields) (sub_id : ℕ) (ev : Event) (s : Running)
      → Shrinks s (hook_or_stop clock offset_ms re_search withdraws o sub_id ev s)
  hook_or_stop-Shrinks (some spec) sub_id ev (bus, run) =
      schedule_result-Shrinks run.stop_future
        (stop_matches clock offset_ms re_search withdraws spec ev) ev bus run
  hook_or_stop-Shrinks none sub_id ev (bus, run) =
      let s = callback re_search sub_id ev (bus, run.runtime) in
      let ids = if has run.runtime.callbacks sub_id then [] else withdraws sub_id ev in
      (
        λ id k.
            callback-IsPart re_search sub_id ev (bus, run.runtime) id
              (withdraw-IsPart ids s.0 id k),
        refl,
        refl,
      )

  dispatch-Shrinks :
      (sub_id : ℕ) (ev : Event) (s : Running)
      → Shrinks s (dispatch clock offset_ms re_search withdraws sub_id ev s)
  unfolding dispatch
  dispatch-Shrinks sub_id ev (bus, run) =
      if_holds (Shrinks (bus, run)) (is_sub run.recorder.sub_id sub_id) (λ id k. k, refl, refl)
        (hook_or_stop-Shrinks (get run.stops sub_id) sub_id ev (bus, run))

  deliver-Shrinks :
      (ev : Event) (subs : List Subscription) (s : Running)
      → Shrinks s (
          deliver
            (λ (ev : Event). ev.type)
            (dispatch clock offset_ms re_search withdraws)
            ev
            subs
            s)
  unfolding deliver
  deliver-Shrinks ev [] s = (λ id k. k, refl, refl)
  deliver-Shrinks ev (sub ∷ subs) s =
      let s' = dispatch clock offset_ms re_search withdraws sub.sub_id ev s in
      let one = dispatch-Shrinks sub.sub_id ev s in
      let rest = deliver-Shrinks ev subs s' in
      (λ id k. one.0 id (rest.0 id k), rest.1 ∙ one.1, rest.2 ∙ one.2)

  pop_all-IsPart :
      (ids : List ℕ) (bus : Bus) → IsPart bus (record bus { subs = pop_all bus.subs ids })
  pop_all-IsPart ids bus id k = ground (arith, k, get-pop_all bus.subs ids id)

  pub publish-Shrinks :
      (ev : Event) (s : Running) → Shrinks s (publish clock offset_ms re_search withdraws ev s)
  unfolding publish emit
  publish-Shrinks ev s =
      let subs = receivers ev.type s.0 in
      let s' =
        deliver (λ (ev : Event). ev.type) (dispatch clock offset_ms re_search withdraws) ev subs
          s in
      let h = deliver-Shrinks ev subs s in
      (λ id k. h.0 id (pop_all-IsPart (once_ids subs) s'.0 id k), h.1, h.2)
