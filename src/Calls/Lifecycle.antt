-- ===== src/Calls/Lifecycle.antt =====
-- Calls and phones that come and go, in `CallManager` of src/call_manager.py.
use pjsua_mcp.Prelude.{
  ℕ, String, Bool, true, false, Option, none, some, List, [], ◌∷◌, ◌++◌, nat_eq, string_eq, ◌==◌,
  or_else, push, keep, if◌then◌else◌,
}
use pjsua_mcp.Dict.{Dict, get, set, pop, pop_all, has, setdefault}
use pjsua_mcp.Exec.{ok, err}
use pjsua_mcp.Pj.{Pj, CallInfo, answer, emit_call_state}
use pjsua_mcp.Call.Data.{Info, SipCall, Leg, new_call}
use pjsua_mcp.Call.Callbacks.{is_disconnected, on_call_state, on_call_media_state}
use pjsua_mcp.State.{Sys, Calls, PhoneConfig, History, Owner, attempt, is_capturing}
use pjsua_mcp.Calls.Lookup.{update_calls, leg_of, put_leg}
use pjsua_mcp.Calls.AutoCapture.{queue_stop, register_call_active, count_down, queue_stop_if}

-- `_track_sip_call_id`
unfoldable pub track_sip_call_id : String → String → ℕ → String → Sys → Sys
track_sip_call_id sip_call_id phone cid remote s =
    let owner : Owner = record { phone_id = phone; pjsua_call_id = cid; remote_uri = remote } in
    if sip_call_id == ""
    then s
    else update_calls (λ c. record c { call_id_index = set c.call_id_index sip_call_id owner }) s

-- `_on_phone_added`
unfoldable pub on_phone_added : String → Sys → Sys
on_phone_added phone s = elim (get s.phones.accounts phone) [
  | none ↦ s
  | some acc ↦
      let s' = record s {
        phones = record s.phones {
          accounts = set s.phones.accounts phone (record acc { has_handler = true });
        };
      } in
      update_calls
        (λ c. record c {
          incoming_queue = setdefault c.incoming_queue phone [];
          auto_answer_pending = setdefault c.auto_answer_pending phone [];
        })
        s'
]

-- `[cid for cid, pid in self._call_phone.items() if pid == phone_id]`
abbrev pub calls_of : String → Dict ℕ String → List ℕ
calls_of phone [] = []
calls_of phone ((cid, p) ∷ d) =
    let rest = calls_of phone d in if p == phone then cid ∷ rest else rest

abbrev pub forget_phone : String → Calls → Calls
forget_phone phone c =
    let stale = calls_of phone c.call_phone in
    record c {
      incoming_queue = pop c.incoming_queue phone;
      auto_answer_pending = pop c.auto_answer_pending phone;
      active_calls = pop c.active_calls phone;
      call_phone = pop_all c.call_phone stale;
      calls = pop_all c.calls stale;
    }

-- `_on_phone_dropped`
unfoldable pub on_phone_dropped : String → Sys → Sys
on_phone_dropped phone s =
    let s' = update_calls (forget_phone phone) s in
    if is_capturing phone s' then queue_stop phone s' else s'

-- `self._d.setdefault(phone_id, []).append(cid)`
abbrev pub enqueue : String → ℕ → Dict String (List ℕ) → Dict String (List ℕ)
enqueue phone cid d = set d phone (or_else (get d phone) [] ++ cid ∷ [])

abbrev pub recording_wanted : Option PhoneConfig → Bool
recording_wanted none = true
recording_wanted (some cfg) = cfg.recording_enabled

abbrev pub codecs_wanted : Option PhoneConfig → Option (List String)
codecs_wanted none = none
codecs_wanted (some cfg) = cfg.codecs

abbrev pub auto_answers : Option PhoneConfig → Bool
auto_answers none = false
auto_answers (some cfg) = cfg.auto_answer

-- A new `SipCall` of the phone, with the phone's settings.
abbrev pub call_for : String → ℕ → Bool → Sys → SipCall
call_for phone cid inbound s =
    let cfg = get s.phones.configs phone in
    new_call cid phone inbound (recording_wanted cfg) (codecs_wanted cfg)

abbrev pub add_call : String → ℕ → SipCall → Calls → Calls
add_call phone cid call c = record c {
  calls = set c.calls cid call;
  call_phone = set c.call_phone cid phone;
}

abbrev pub track_info : Pj → String → ℕ → Sys → Sys
track_info pj phone cid s = elim (pj.call_info s.trace cid) [
  | none ↦ s
  | some ci ↦ track_sip_call_id ci.call_id_string phone cid ci.remote_uri s
]

-- `_on_incoming_call`
unfoldable pub on_incoming_call : Pj → String → ℕ → Sys → Sys
unfolding track_sip_call_id
on_incoming_call pj phone cid s =
    let auto = auto_answers (get s.phones.configs phone) in
    let s' =
      update_calls
        (λ c. record (add_call phone cid (call_for phone cid true s) c) {
          incoming_queue = enqueue phone cid c.incoming_queue;
          auto_answer_pending =
              if auto then enqueue phone cid c.auto_answer_pending else c.auto_answer_pending;
        })
        s in
    if has s.phones.accounts phone then track_info pj phone cid s' else s

-- `SipAccount.onIncomingCall`: the account's handler, if it is set.
unfoldable pub account_incoming_call : Pj → String → ℕ → Sys → Sys
unfolding on_incoming_call
account_incoming_call pj phone cid s = elim (get s.phones.accounts phone) [
  | none ↦ s
  | some acc ↦ if acc.has_handler then on_incoming_call pj phone cid s else s
]

-- The pending auto-answers of every phone in order, and the queues that are left empty.
abbrev pub all_pending : Dict String (List ℕ) → List ℕ
all_pending [] = []
all_pending ((phone, queue) ∷ d) = queue ++ all_pending d

abbrev pub emptied : Dict String (List ℕ) → Dict String (List ℕ)
emptied [] = []
emptied ((phone, queue) ∷ d) = (phone, []) ∷ emptied d

-- a call that is gone is passed over; an exception is only logged
unfoldable pub answer_one : ℕ → Sys → Sys
answer_one cid s = if has s.calls.calls cid then attempt (answer cid 200) s else s

unfoldable pub answer_each : List ℕ → Sys → Sys
unfolding answer_one
answer_each [] s = s
answer_each (cid ∷ cids) s = answer_each cids (answer_one cid s)

-- `process_auto_answers`
unfoldable pub process_auto_answers : Sys → Sys
unfolding answer_each
process_auto_answers s =
    answer_each (all_pending s.calls.auto_answer_pending)
      (update_calls (λ c. record c { auto_answer_pending = emptied c.auto_answer_pending }) s)

-- The ids of the calls whose cached state is "DISCONNECTED".
abbrev pub is_over : SipCall → Bool
is_over call = elim call.info.state [ none ↦ false | some st ↦ is_disconnected st ]

abbrev pub stale_calls : Dict ℕ SipCall → List ℕ
stale_calls [] = []
stale_calls ((cid, call) ∷ d) =
    let rest = stale_calls d in if is_over call then cid ∷ rest else rest

abbrev pub restrict : Dict ℕ SipCall → Dict String (List ℕ) → Dict String (List ℕ)
restrict calls [] = []
restrict calls ((phone, queue) ∷ d) = (phone, keep (has calls) queue) ∷ restrict calls d

abbrev pub remove_stale : Calls → Calls
remove_stale c =
    let stale = stale_calls c.calls in
    let left = pop_all c.calls stale in
    record c {
      calls = left;
      call_phone = pop_all c.call_phone stale;
      incoming_queue = restrict left c.incoming_queue;
    }

abbrev pub history_of : Pj → Info → Sys → History
history_of pj info s = record {
  phone_id = info.phone_id;
  remote_uri = info.remote_uri;
  duration = info.duration;
  last_status = info.last_status;
  last_status_text = info.last_status_text;
  codec = info.codec;
  recording_file = info.recording_file;
  timestamp = pj.now s.trace;
}

-- `_on_call_disconnected`
unfoldable pub on_call_disconnected : Pj → Info → Sys → Sys
unfolding count_down queue_stop_if push
on_call_disconnected pj info s =
    let h = history_of pj info s in
    let s1 = update_calls (λ c. record c { call_history = push 100 c.call_history h }) s in
    let (is_last, s2) = count_down info.phone_id (update_calls remove_stale s1) in
    queue_stop_if is_last info.phone_id s2

-- `SipCall.onCallState`: the call's own part, the manager's part after a disconnect, the event. An
-- id that is not tracked has no object that could be called back.
abbrev pub after_state : Pj → CallInfo → Leg → Sys → Sys
after_state pj ci leg s =
    let s' = if is_disconnected ci.state then on_call_disconnected pj leg.call.info s else s in
    attempt (emit_call_state leg.call.phone_id leg.call.inbound ci) s'

unfoldable pub call_state_changed : Pj → ℕ → Sys → Sys
unfolding on_call_state on_call_disconnected
call_state_changed pj cid s = elim (get s.calls.calls cid) [
  | none ↦ s
  | some c ↦
      let (r, leg) = on_call_state pj (leg_of cid c s) in
      let s' = put_leg cid leg s in elim r [ ok ci ↦ after_state pj ci leg s' | err e ↦ s' ]
]

-- `SipCall.onCallMediaState`. What `_register_call_active` does and what the call does to itself and
-- to the trace are apart, so the callback is made after the call's own part. The library's `ci.id`,
-- which the callback is given, is the id of the call.
unfoldable pub call_media_changed : Pj → ℕ → Sys → Sys
unfolding on_call_media_state register_call_active
call_media_changed pj cid s = elim (get s.calls.calls cid) [
  | none ↦ s
  | some c ↦
      let (r, leg) = on_call_media_state pj (leg_of cid c s) in
      let s' = put_leg cid leg s in
      if leg.activated then register_call_active leg.call.phone_id cid s' else s'
]

-- `cleanup`
unfoldable pub clear_calls : Calls → Calls
clear_calls c = record c {
  calls = [];
  call_phone = [];
  active_calls = [];
  incoming_queue = emptied c.incoming_queue;
  auto_answer_pending = emptied c.auto_answer_pending;
  pending_start = [];
  pending_stop = [];
}
