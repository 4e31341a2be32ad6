-- ===== src/Calls/Events.antt =====
-- What the SIP library and the poll loop make `CallManager` do (src/call_manager.py) keeps its
-- tables in agreement.
use pjsua_mcp.Prelude.{
  ℕ, String, ◌≡◌, refl, ◌∙◌, Bool, true, false, Option, List, [], ◌∷◌, arith, nat_eq, string_eq,
  push, Option-cases, Bool-cases, inl, inr, if◌then◌else◌,
}
use pjsua_mcp.Dict.{get}
use pjsua_mcp.Exec.{Result, ok, err}
use pjsua_mcp.Pj.{Pj, CallInfo}
use pjsua_mcp.Call.Data.{Leg, Info}
use pjsua_mcp.Call.Callbacks.{on_call_state, on_call_media_state, is_disconnected}
use pjsua_mcp.Call.Identity.{on_call_state-IsOf, on_call_media_state-IsOf}
use pjsua_mcp.State.{Sys, is_capturing}
use pjsua_mcp.Capture.{start_for_phone, stop_for_phone}
use pjsua_mcp.Calls.Lookup.{leg_of, put_leg, update_calls}
use pjsua_mcp.Calls.AutoCapture.{
  register_call_active, count_down, queue_stop_if, set_capture_enabled, process_start, process_stop,
  process_starts, process_stops, process_auto_captures,
}
use pjsua_mcp.Calls.Lifecycle.{
  remove_stale, forget_phone, on_phone_dropped, on_call_disconnected, call_state_changed,
  call_media_changed, answer_one, answer_each, process_auto_answers, after_state, history_of,
  emptied, all_pending,
}
use pjsua_mcp.Calls.Tracked.{remove_stale-IsTracked, forget_phone-IsTracked}
use pjsua_mcp.Calls.Keeping.{Tracks, same_tables-IsTracked, put_leg-Tracks}

-- A step of `CallManager` that leaves the three tables alone.
pub record SameTables (s s' : Sys) : Type 0 where
  pub calls : s'.calls.calls ≡ s.calls.calls
  pub owners : s'.calls.call_phone ≡ s.calls.call_phone
  pub queues : s'.calls.incoming_queue ≡ s.calls.incoming_queue

pub SameTables-Tracks : {s s' : Sys} → SameTables s s' → Tracks s → Tracks s'
SameTables-Tracks {s} {s'} e = same_tables-IsTracked s.calls s'.calls e.calls e.owners e.queues

register_call_active_tables :
    (p : String) (cid : ℕ) (s : Sys) → SameTables s (register_call_active p cid s)
unfolding register_call_active
register_call_active_tables p cid s = ground arith

pub count_down_tables : (p : String) (s : Sys) → SameTables s (count_down p s).1
unfolding count_down
count_down_tables p s = ground arith

pub queue_stop_if_tables : (b : Bool) (p : String) (s : Sys) → SameTables s (queue_stop_if b p s)
unfolding queue_stop_if
queue_stop_if_tables b p s = ground arith

pub set_capture_enabled_tables :
    (p : String) (b : Bool) (s : Sys) → SameTables s (set_capture_enabled p b s).1
unfolding set_capture_enabled
set_capture_enabled_tables p b s = ground arith

pub on_call_disconnected-Tracks :
    (pj : Pj) (info : Info) (s : Sys) → Tracks s → Tracks (on_call_disconnected pj info s)
unfolding on_call_disconnected
on_call_disconnected-Tracks pj info s h =
    let s1 =
      update_calls (λ c. record c { call_history = push 100 c.call_history (history_of pj info s) })
        s in
    let s2 = update_calls remove_stale s1 in
    let (last, s3) = count_down info.phone_id s2 in
    let h1 : Tracks s1 = record {
      proper_calls = h.proper_calls;
      proper_owners = h.proper_owners;
      owner_agrees = h.owner_agrees;
      queued = h.queued;
    } in
    SameTables-Tracks {s = s3} (queue_stop_if_tables last info.phone_id s3) (
      SameTables-Tracks {s = s2} (count_down_tables info.phone_id s2)
        (remove_stale-IsTracked s1.calls h1))

pub on_phone_dropped-Tracks : (p : String) (s : Sys) → Tracks s → Tracks (on_phone_dropped p s)
unfolding on_phone_dropped
on_phone_dropped-Tracks p s h =
    let s' = update_calls (forget_phone p) s in
    let h' = forget_phone-IsTracked p s.calls h in
    elim (Bool-cases (is_capturing p s')) [
      | inl e ↦
          rw (e, on_phone_dropped)
            (record {
              proper_calls = h'.proper_calls;
              proper_owners = h'.proper_owners;
              owner_agrees = h'.owner_agrees;
              queued = h'.queued;
            })
      | inr e ↦ rw (e, on_phone_dropped) h'
    ]

after_state-Tracks :
    (pj : Pj) (ci : CallInfo) (leg : Leg) (s : Sys) → Tracks s → Tracks (after_state pj ci leg s)
after_state-Tracks pj ci leg s h = elim (Bool-cases (is_disconnected ci.state)) [
  | inl e ↦ rw e (on_call_disconnected-Tracks pj leg.call.info s h)
  | inr e ↦ rw e h
]

call_state_from :
    (pj : Pj) (leg : Leg) (s : Sys) (r : Result CallInfo)
    → Tracks s
    → Tracks (elim r [ ok ci ↦ after_state pj ci leg s | err e ↦ s ])
call_state_from pj leg s (ok ci) h = after_state-Tracks pj ci leg s h
call_state_from pj leg s (err e) h = h

pub call_state_changed-Tracks :
    (pj : Pj) (cid : ℕ) (s : Sys) → Tracks s → Tracks (call_state_changed pj cid s)
unfolding call_state_changed
call_state_changed-Tracks pj cid s h = elim (Option-cases (get s.calls.calls cid)) [
  | inl e ↦ rw (e, call_state_changed) h
  | inr (c, e) ↦
      let (r, leg) = on_call_state pj (leg_of cid c s) in
      rw (e, call_state_changed)
        (call_state_from pj leg (put_leg cid leg s) r (
          put_leg-Tracks cid c leg s e ((on_call_state-IsOf pj c.phone_id).at (leg_of cid c s) refl)
            h))
]

call_media_from :
    (b : Bool) (p : String) (cid : ℕ) (s : Sys)
    → Tracks s
    → Tracks (if b then register_call_active p cid s else s)
call_media_from true p cid s h = SameTables-Tracks {s = s} (register_call_active_tables p cid s) h
call_media_from false p cid s h = h

pub call_media_changed-Tracks :
    (pj : Pj) (cid : ℕ) (s : Sys) → Tracks s → Tracks (call_media_changed pj cid s)
unfolding call_media_changed
call_media_changed-Tracks pj cid s h = elim (Option-cases (get s.calls.calls cid)) [
  | inl e ↦ rw (e, call_media_changed) h
  | inr (c, e) ↦
      let (r, leg) = on_call_media_state pj (leg_of cid c s) in
      rw (e, call_media_changed)
        (call_media_from leg.activated leg.call.phone_id cid (put_leg cid leg s) (
          put_leg-Tracks cid c leg s e
            ((on_call_media_state-IsOf pj c.phone_id).at (leg_of cid c s) refl) h))
]

calls-answer_one : (cid : ℕ) (s : Sys) → (answer_one cid s).calls ≡ s.calls
unfolding answer_one
calls-answer_one cid s = ground arith

calls-answer_each : (cids : List ℕ) (s : Sys) → (answer_each cids s).calls ≡ s.calls
unfolding answer_each
calls-answer_each [] s = refl
calls-answer_each (cid ∷ cids) s =
    calls-answer_each cids (answer_one cid s) ∙ calls-answer_one cid s

pub process_auto_answers-Tracks : (s : Sys) → Tracks s → Tracks (process_auto_answers s)
unfolding process_auto_answers
process_auto_answers-Tracks s h =
    let c = record s.calls { auto_answer_pending = emptied s.calls.auto_answer_pending } in
    let s' = record s { calls = c } in
    let e = calls-answer_each (all_pending s.calls.auto_answer_pending) s' in
    rw e (record {
      proper_calls = h.proper_calls;
      proper_owners = h.proper_owners;
      owner_agrees = h.owner_agrees;
      queued = h.queued;
    })

calls-process_start :
    (pj : Pj) (p : String) (cid : Option ℕ) (s : Sys) → (process_start pj p cid s).calls ≡ s.calls
unfolding process_start start_for_phone
calls-process_start pj p cid s = ground arith

calls-process_stop : (pj : Pj) (p : String) (s : Sys) → (process_stop pj p s).calls ≡ s.calls
unfolding process_stop stop_for_phone
calls-process_stop pj p s = ground arith

pub calls-process_starts :
    (pj : Pj) (q : List (String × Option ℕ)) (s : Sys) → (process_starts pj q s).calls ≡ s.calls
unfolding process_starts
calls-process_starts pj [] s = refl
calls-process_starts pj ((p, cid) ∷ q) s =
    calls-process_starts pj q (process_start pj p cid s) ∙ calls-process_start pj p cid s

pub calls-process_stops :
    (pj : Pj) (q : List String) (s : Sys) → (process_stops pj q s).calls ≡ s.calls
unfolding process_stops
calls-process_stops pj [] s = refl
calls-process_stops pj (p ∷ q) s =
    calls-process_stops pj q (process_stop pj p s) ∙ calls-process_stop pj p s

pub process_auto_captures_tables : (pj : Pj) (s : Sys) → SameTables s (process_auto_captures pj s)
unfolding process_auto_captures
process_auto_captures_tables pj s =
    let s' = update_calls (λ c. record c { pending_start = []; pending_stop = [] }) s in
    ground (
      arith,
      calls-process_starts pj s.calls.pending_start s',
      calls-process_stops pj s.calls.pending_stop (process_starts pj s.calls.pending_start s'),
    )
