-- ===== src/Calls/Clients.antt =====
-- What clients ask of `CallManager` (src/call_manager.py) keeps its tables in agreement.
use pjsua_mcp.Prelude.{
  ℕ, String, ◌≡◌, refl, sym, subst, true, false, Option, none, some, List, [], ◌∷◌, arith, nat_eq,
  string_eq, Option-cases, Bool-cases, inl, inr, if◌then◌else◌,
}
use pjsua_mcp.Dict.{get, has}
use pjsua_mcp.Exec.{Result, ok, err}
use pjsua_mcp.Exec.Keeps.{Keeps}
use pjsua_mcp.Pj.{Pj, Trace, CallInfo, Action, call}
use pjsua_mcp.Call.Data.{SipCall}
use pjsua_mcp.State.{Sys, attempt}
use pjsua_mcp.Calls.Lookup.{update_calls}
use pjsua_mcp.Calls.Lifecycle.{
  call_for, add_call, track_sip_call_id, track_info, on_incoming_call, account_incoming_call,
  auto_answers, enqueue,
}
use pjsua_mcp.Calls.Operations.{
  ensure_incoming_handler, require_account, place_call, register_outgoing, place_and_register,
  make_call, answer_call, reject_call, blind_transfer, transfer_legs, attended_transfer, hang_up,
  hang_up_one, hang_up_each, calls_in_scope, active_calls_of, hangup_all,
}
use pjsua_mcp.Calls.Tracked.{IsTracked, incoming-IsTracked, placed-IsTracked}
use pjsua_mcp.Calls.Keeping.{Tracks, after_resolve_phone, tracking}
use pjsua_mcp.Calls.Events.{SameTables, SameTables-Tracks}

track_sip_call_id_tables :
    (i p : String) (cid : ℕ) (r : String) (s : Sys) → SameTables s (track_sip_call_id i p cid r s)
unfolding track_sip_call_id
track_sip_call_id_tables i p cid r s = ground arith

pub track_sip_call_id-Tracks :
    (i p : String) (cid : ℕ) (r : String) (s : Sys)
    → Tracks s
    → Tracks (track_sip_call_id i p cid r s)
track_sip_call_id-Tracks i p cid r s =
    SameTables-Tracks {s = s} (track_sip_call_id_tables i p cid r s)

track_info_tables :
    (pj : Pj) (p : String) (cid : ℕ) (s : Sys) → SameTables s (track_info pj p cid s)
unfolding track_sip_call_id
track_info_tables pj p cid s = ground arith

-- An incoming call has an id that no tracked call has.
pub on_incoming_call-Tracks :
    (pj : Pj) (p : String) (cid : ℕ) (s : Sys)
    → has s.calls.calls cid ≡ false
    → Tracks s
    → Tracks (on_incoming_call pj p cid s)
unfolding on_incoming_call
on_incoming_call-Tracks pj p cid s fresh h =
    let c = s.calls in
    let auto = auto_answers (get s.phones.configs p) in
    let pending = if auto then enqueue p cid c.auto_answer_pending else c.auto_answer_pending in
    let call = call_for p cid true s in
    let s' =
      update_calls
        (λ c. record (add_call p cid call c) {
          incoming_queue = enqueue p cid c.incoming_queue;
          auto_answer_pending =
              if auto then enqueue p cid c.auto_answer_pending else c.auto_answer_pending;
        })
        s in
    elim (Bool-cases (has s.phones.accounts p)) [
      | inl e ↦
          rw (e, on_incoming_call)
            (SameTables-Tracks {s = s'} (track_info_tables pj p cid s')
              (incoming-IsTracked p cid call pending c refl fresh h))
      | inr e ↦ rw (e, on_incoming_call) h
    ]

pub account_incoming_call-Tracks :
    (pj : Pj) (p : String) (cid : ℕ) (s : Sys)
    → has s.calls.calls cid ≡ false
    → Tracks s
    → Tracks (account_incoming_call pj p cid s)
unfolding account_incoming_call
account_incoming_call-Tracks pj p cid s fresh h = elim (Option-cases (get s.phones.accounts p)) [
  | inl e ↦ rw (e, account_incoming_call) h
  | inr (acc, e) ↦ elim (Bool-cases acc.has_handler) [
    | inl b ↦ rw (e, b, account_incoming_call) (on_incoming_call-Tracks pj p cid s fresh h)
    | inr b ↦ rw (e, b, account_incoming_call) h
  ]
]

ensure_incoming_handler_tables : (p : String) (s : Sys) → SameTables s (ensure_incoming_handler p s)
unfolding ensure_incoming_handler
ensure_incoming_handler_tables p s = ground arith

pub ensure_incoming_handler-Tracks :
    (p : String) (s : Sys) → Tracks s → Tracks (ensure_incoming_handler p s)
ensure_incoming_handler-Tracks p s = SameTables-Tracks {s = s} (ensure_incoming_handler_tables p s)

pub require_account-Tracks : (pj : Pj) (p : String) → Keeps Tracks (require_account pj p)
unfolding require_account
require_account-Tracks pj p = search tracking depth 12

attempt-Tracks : (a : Action) (s : Sys) → Tracks s → Tracks (attempt a s)
attempt-Tracks a s h = h

ruleset clients = (tracking, ensure_incoming_handler-Tracks, require_account-Tracks, attempt-Tracks)

pub answer_call-Tracks :
    (pj : Pj) (p : Option String) (cid : Option ℕ) (code : ℕ)
    → Keeps Tracks (answer_call pj p cid code)
unfolding answer_call
answer_call-Tracks pj p cid code = search clients depth 12

pub reject_call-Tracks :
    (pj : Pj) (p : Option String) (cid : Option ℕ) (code : ℕ)
    → Keeps Tracks (reject_call pj p cid code)
unfolding reject_call
reject_call-Tracks pj p cid code = search clients depth 12

pub blind_transfer-Tracks :
    (pj : Pj) (dest : String) (p : Option String) (cid : Option ℕ)
    → Keeps Tracks (blind_transfer pj dest p cid)
unfolding blind_transfer
blind_transfer-Tracks pj dest p cid = search clients depth 12

pub hang_up-Tracks :
    (pj : Pj) (p : Option String) (cid : Option ℕ) → Keeps Tracks (hang_up pj p cid)
unfolding hang_up
hang_up-Tracks pj p cid = search clients depth 12

pub transfer_legs-Tracks :
    (p : String) (active : List ℕ) (src dst : Option ℕ)
    → Keeps Tracks (transfer_legs p active src dst)
unfolding transfer_legs
transfer_legs-Tracks p active (some src) (some dst) = search clients depth 12
transfer_legs-Tracks p (a ∷ b ∷ more) none dst = search clients
transfer_legs-Tracks p (a ∷ b ∷ more) (some src) none = search clients
transfer_legs-Tracks p (a ∷ []) none dst = search clients
transfer_legs-Tracks p (a ∷ []) (some src) none = search clients
transfer_legs-Tracks p [] none dst = search clients
transfer_legs-Tracks p [] (some src) none = search clients

active_calls_of-Tracks : (pj : Pj) (p : String) → Keeps Tracks (active_calls_of pj p)
active_calls_of-Tracks pj p = record { at = λ s h. h }

pub attended_transfer-Tracks :
    (pj : Pj) (p : Option String) (src dst : Option ℕ)
    → Keeps Tracks (attended_transfer pj p src dst)
unfolding attended_transfer
attended_transfer-Tracks pj p src dst =
    search (clients, transfer_legs-Tracks, active_calls_of-Tracks) depth 12

hang_up_each-Tracks :
    (pj : Pj) (cids : List ℕ) (s : Sys) → Tracks s → Tracks (hang_up_each pj cids s)
unfolding hang_up_each
hang_up_each-Tracks pj [] s h = h
hang_up_each-Tracks pj (cid ∷ cids) s h =
    let s' = hang_up_one pj cid s in
    hang_up_each-Tracks pj cids s' (SameTables-Tracks {s = s} {s' = s'} (ground arith) h)

pub hangup_all-Tracks :
    (pj : Pj) (p : Option String) (s : Sys) → Tracks s → Tracks (hangup_all pj p s)
unfolding hangup_all
hangup_all-Tracks pj p s = hang_up_each-Tracks pj (calls_in_scope p s) s

-- What `getInfo` says of a call that has been placed is an id that no tracked call has.
abbrev pub PlacesFresh : Pj → Sys → Type 0
PlacesFresh pj s =
    (t : Trace) (ci : CallInfo)
    → pj.call_info t (pj.placed_call t) ≡ some ci
    → has s.calls.calls ci.id ≡ false

abbrev Placed : String → Sys → Result (SipCall × CallInfo) → Sys → Type 0
Placed phone s (err e) s' = s'.calls ≡ s.calls
Placed phone s (ok (made, ci)) s' =
    (s'.calls ≡ s.calls) × (made.phone_id ≡ phone) × (has s.calls.calls ci.id ≡ false)

place_call-Placed :
    (pj : Pj) (dest phone : String) (s : Sys)
    → PlacesFresh pj s
    → let (r, s') = place_call pj dest phone s in Placed phone s r s'
unfolding place_call
place_call-Placed pj dest phone s fresh =
    let t : Trace = call phone dest ∷ s.trace in
    elim (Option-cases (pj.call_info t (pj.placed_call t))) [
      | inl e ↦ ground arith
      | inr (ci, e) ↦ ground (arith, fresh t ci e)
    ]

register_outgoing-Tracks :
    (dest phone : String) (made : SipCall) (ci : CallInfo) (s : Sys)
    → made.phone_id ≡ phone
    → has s.calls.calls ci.id ≡ false
    → Tracks s
    → Tracks (register_outgoing dest phone (made, ci) s)
unfolding register_outgoing
register_outgoing-Tracks dest phone made ci s e fresh h =
    track_sip_call_id-Tracks ci.call_id_string phone ci.id _
      (update_calls (add_call phone ci.id (record made { id = ci.id })) s)
      (placed-IsTracked phone ci.id (record made { id = ci.id }) s.calls e fresh h)

finish_call-Tracks :
    (pj : Pj) (dest phone : String) (s s' : Sys) (r : Result (SipCall × CallInfo))
    → Placed phone s r s'
    → Tracks s
    → Tracks
        (elim r as (λ _. Result CallInfo × Sys) [
          | ok made ↦ (ok made.1, register_outgoing dest phone made s')
          | err e ↦ (err e, s')
        ]).1
finish_call-Tracks pj dest phone s s' (err e) same h = subst IsTracked (sym same) h
finish_call-Tracks pj dest phone s s' (ok (made, ci)) (same, e, fresh) h =
    register_outgoing-Tracks dest phone made ci s' e
      (subst (λ c. has c.calls ci.id ≡ false) (sym same) fresh) (subst IsTracked (sym same) h)

place_and_register-Tracks :
    (pj : Pj) (dest phone : String) (s : Sys)
    → PlacesFresh pj s
    → Tracks s
    → Tracks (place_and_register pj dest phone s).1
unfolding place_and_register
place_and_register-Tracks pj dest phone s fresh h =
    let (r, s') = place_call pj dest phone s in
    finish_call-Tracks pj dest phone s s' r (place_call-Placed pj dest phone s fresh) h

-- A call that is placed gets an id that no tracked call has.
pub make_call-Tracks :
    (pj : Pj) (dest : String) (p : Option String) (s : Sys)
    → PlacesFresh pj s
    → Tracks s
    → Tracks (make_call pj dest p s).1
unfolding make_call
make_call-Tracks pj dest p s fresh h =
    after_resolve_phone (λ x. Tracks x.1) p (place_and_register pj dest) s
      (λ phone. place_and_register-Tracks pj dest phone s fresh h) h
