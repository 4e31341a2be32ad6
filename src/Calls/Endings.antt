-- ===== src/Calls/Endings.antt =====
-- What is left in `CallManager` (src/call_manager.py) after a call or a phone has gone.
use pjsua_mcp.Prelude.{
  ℕ, ◌≤◌, String, ◌≡◌, refl, true, false, not, ◌&&◌, none, some, arith, nat_eq, string_eq, ◌==◌,
  length, length-push, push, contains, contains-keep, if◌then◌else◌,
}
use pjsua_mcp.Dict.{get, has, pop_all, get-set, get-pop, get-pop_all}
use pjsua_mcp.Exec.{ok}
use pjsua_mcp.Pj.{Pj, CallInfo, disconnected}
use pjsua_mcp.Call.Data.{SipCall, Leg, Info}
use pjsua_mcp.Call.Callbacks.{on_call_state}
use pjsua_mcp.State.{Sys}
use pjsua_mcp.Calls.Lookup.{owned_by, update_calls, leg_of, put_leg}
use pjsua_mcp.Calls.AutoCapture.{count_down, queue_stop_if}
use pjsua_mcp.Calls.Lifecycle.{
  calls_of, on_phone_dropped, stale_calls, remove_stale, history_of, on_call_disconnected,
  call_state_changed,
}
use pjsua_mcp.Calls.Tables.{contains-calls_of, over_at, contains-stale_calls, get-restrict}
use pjsua_mcp.Calls.Tracked.{queue_of}
use pjsua_mcp.Calls.Keeping.{Tracks, put_leg-Tracks}
use pjsua_mcp.Calls.Events.{count_down_tables, queue_stop_if_tables}
use pjsua_mcp.Call.Identity.{on_call_state-IsOf}

-- What `_on_call_disconnected` leaves of the tables.
pub record IsSwept (s s' : Sys) : Type 0 where
  pub calls_left :
      (cid : ℕ)
      → get s'.calls.calls cid ≡ (if over_at s.calls.calls cid then none else get s.calls.calls cid)
  pub owners_left :
      (cid : ℕ)
      → get s'.calls.call_phone cid
        ≡ (if over_at s.calls.calls cid then none else get s.calls.call_phone cid)
  pub queues_left :
      (phone : String) (cid : ℕ)
      → contains cid (queue_of s'.calls phone) ≡ (
          contains cid (queue_of s.calls phone)
          && has s.calls.calls cid
          && not (over_at s.calls.calls cid))

remove_stale-IsSwept : (s : Sys) → Tracks s → IsSwept s (update_calls remove_stale s)
remove_stale-IsSwept s h =
    let gone = stale_calls s.calls.calls in
    let left = pop_all s.calls.calls gone in
    record {
      calls_left = λ cid. ground (
        arith,
        get-pop_all s.calls.calls gone cid,
        contains-stale_calls s.calls.calls cid h.proper_calls,
      );
      owners_left = λ cid. ground (
        arith,
        get-pop_all s.calls.call_phone gone cid,
        contains-stale_calls s.calls.calls cid h.proper_calls,
      );
      queues_left = λ p cid. ground (
        arith,
        get-restrict left s.calls.incoming_queue p,
        contains-keep (has left) cid (queue_of s.calls p),
        get-pop_all s.calls.calls gone cid,
        contains-stale_calls s.calls.calls cid h.proper_calls,
      );
    }

-- When a call has disconnected, exactly the calls whose last known state is "DISCONNECTED" go from
-- the tables of calls and of owners and from the queues of incoming calls, and every other entry
-- stays as it was.
pub on_call_disconnected-IsSwept :
    (pj : Pj) (info : Info) (s : Sys) → Tracks s → IsSwept s (on_call_disconnected pj info s)
unfolding on_call_disconnected
on_call_disconnected-IsSwept pj info s h =
    let s1 =
      update_calls (λ c. record c { call_history = push 100 c.call_history (history_of pj info s) })
        s in
    let s2 = update_calls remove_stale s1 in
    let (last, s3) = count_down info.phone_id s2 in
    let swept = remove_stale-IsSwept s h in
    let a = count_down_tables info.phone_id s2 in
    let b = queue_stop_if_tables last info.phone_id s3 in
    record {
      calls_left = λ cid. ground (arith, a.calls, b.calls, swept.calls_left cid);
      owners_left = λ cid. ground (arith, a.owners, b.owners, swept.owners_left cid);
      queues_left = λ p cid. ground (arith, a.queues, b.queues, swept.queues_left p cid);
    }

ends-on_call_state :
    (pj : Pj) (s : Leg) (ci : CallInfo)
    → pj.call_info s.trace s.call.id ≡ some ci
    → ci.state ≡ disconnected
    → ((on_call_state pj s).0 ≡ ok ci)
      × ((on_call_state pj s).1.call.info.state ≡ some disconnected)
unfolding on_call_state
ends-on_call_state pj s ci e d = ground arith

history-on_call_disconnected :
    (pj : Pj) (info : Info) (s : Sys)
    → (on_call_disconnected pj info s).calls.call_history
      ≡ push 100 s.calls.call_history (history_of pj info s)
unfolding on_call_disconnected count_down queue_stop_if
history-on_call_disconnected pj info s = ground arith

-- Nothing of the call is left in the tables, and the history is no longer than it may be.
pub record IsForgotten (cid : ℕ) (s : Sys) : Type 0 where
  pub no_object : has s.calls.calls cid ≡ false
  pub no_owner : has s.calls.call_phone cid ≡ false
  pub not_queued : (phone : String) → contains cid (queue_of s.calls phone) ≡ false
  pub short_history : length s.calls.call_history ≤ 100

swept-IsForgotten :
    (pj : Pj) (cid : ℕ) (info : Info) (s : Sys)
    → over_at s.calls.calls cid ≡ true
    → Tracks s
    → IsForgotten cid (on_call_disconnected pj info s)
swept-IsForgotten pj cid info s over h =
    let swept = on_call_disconnected-IsSwept pj info s h in
    record {
      no_object = ground (arith, swept.calls_left cid);
      no_owner = ground (arith, swept.owners_left cid);
      not_queued = λ p. ground (arith, swept.queues_left p cid);
      short_history =
          rw (history-on_call_disconnected pj info s)
            (length-push 100 s.calls.call_history (history_of pj info s));
    }

-- When the library reports that a tracked call has disconnected, nothing of the call is left: no
-- object, no owner, no place in any phone's queue of incoming calls; and the history has at most 100 entries.
pub disconnected-IsForgotten :
    (pj : Pj) (cid : ℕ) (c : SipCall) (ci : CallInfo) (s : Sys)
    → Tracks s
    → get s.calls.calls cid ≡ some c
    → pj.call_info s.trace c.id ≡ some ci
    → ci.state ≡ disconnected
    → IsForgotten cid (call_state_changed pj cid s)
unfolding call_state_changed
disconnected-IsForgotten pj cid c ci s h e i d =
    let leg = (on_call_state pj (leg_of cid c s)).1 in
    let s1 = put_leg cid leg s in
    let (ok_ci, over) = ends-on_call_state pj (leg_of cid c s) ci i d in
    let h1 =
      put_leg-Tracks cid c leg s e ((on_call_state-IsOf pj c.phone_id).at (leg_of cid c s) refl)
        h in
    let f =
      swept-IsForgotten pj cid leg.call.info s1
        (ground (arith, get-set s.calls.calls cid cid leg.call)) h1 in
    rw (e, ok_ci, d, call_state_changed)
      (record {
        no_object = f.no_object;
        no_owner = f.no_owner;
        not_queued = f.not_queued;
        short_history = f.short_history;
      })

-- What `_on_phone_dropped` leaves.
pub record IsWithout (phone : String) (s s' : Sys) : Type 0 where
  pub calls_left :
      (cid : ℕ)
      → get s'.calls.calls cid
        ≡ (if owned_by phone s.calls.call_phone cid then none else get s.calls.calls cid)
  pub owners_left :
      (cid : ℕ)
      → get s'.calls.call_phone cid
        ≡ (if owned_by phone s.calls.call_phone cid then none else get s.calls.call_phone cid)
  pub queues_left :
      (q : String)
      → get s'.calls.incoming_queue q ≡ (if phone == q then none else get s.calls.incoming_queue q)
  pub pending_left :
      (q : String)
      → get s'.calls.auto_answer_pending q
        ≡ (if phone == q then none else get s.calls.auto_answer_pending q)
  pub counts_left :
      (q : String)
      → get s'.calls.active_calls q ≡ (if phone == q then none else get s.calls.active_calls q)

-- When a phone is dropped, exactly its own calls, its queue, its pending auto-answers and its count
-- of active calls go from the tables of `CallManager`, and whatever belongs to other phones stays.
pub on_phone_dropped-IsWithout :
    (phone : String) (s : Sys) → Tracks s → IsWithout phone s (on_phone_dropped phone s)
unfolding on_phone_dropped
on_phone_dropped-IsWithout phone s h =
    let gone = calls_of phone s.calls.call_phone in
    record {
      calls_left = λ cid. ground (
        arith,
        get-pop_all s.calls.calls gone cid,
        contains-calls_of phone s.calls.call_phone cid h.proper_owners,
      );
      owners_left = λ cid. ground (
        arith,
        get-pop_all s.calls.call_phone gone cid,
        contains-calls_of phone s.calls.call_phone cid h.proper_owners,
      );
      queues_left = λ q. ground (arith, get-pop s.calls.incoming_queue phone q);
      pending_left = λ q. ground (arith, get-pop s.calls.auto_answer_pending phone q);
      counts_left = λ q. ground (arith, get-pop s.calls.active_calls phone q);
    }
