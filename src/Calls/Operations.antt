-- ===== src/Calls/Operations.antt =====
-- What a client asks of a call, in `CallManager` of src/call_manager.py.
use pjsua_mcp.Prelude.{
  ℕ, String, Bool, true, false, not, Option, none, some, List, [], ◌∷◌, nat_eq, string_eq, ◌==◌,
  length, keep, ltb, if◌then◌else◌,
}
use pjsua_mcp.Dict.{Dict, get, set, keys}
use pjsua_mcp.Exec.{
  Exec, Result, ok, err, pj_error, account_invalid, phone_not_found, too_few_calls, raise, raise_if,
  require, modify, pure, gets, ◌>>=◌, ◌>>◌,
}
use pjsua_mcp.Pj.{Pj, CallInfo, call, answer, hangup, transfer, transfer_replaces}
use pjsua_mcp.Call.Data.{SipCall}
use pjsua_mcp.State.{Sys, Account, attempt, issue}
use pjsua_mcp.Calls.Lookup.{
  update_calls, owned_by, resolve_phone, ensure_call_belongs_to, get_call_by_id, get_call,
}
use pjsua_mcp.Calls.Lifecycle.{call_for, add_call, track_sip_call_id}

-- `_ensure_incoming_handler`, for one phone
abbrev pub with_handler : String → Account → Sys → Sys
with_handler phone acc s = record s {
  phones = record s.phones {
    accounts = set s.phones.accounts phone (record acc { has_handler = true });
  };
}

unfoldable pub ensure_incoming_handler : String → Sys → Sys
ensure_incoming_handler phone s = elim (get s.phones.accounts phone) [
  | none ↦ s
  | some acc ↦ with_handler phone acc s
]

-- `getattr(ci, "remoteUri", "") or dest_uri`
abbrev uri_or : String → String → String
uri_or uri dest = if uri == "" then dest else uri

-- the rest of it
unfoldable pub register_outgoing : String → String → SipCall × CallInfo → Sys → Sys
unfolding track_sip_call_id
register_outgoing dest phone (template, ci) s =
    track_sip_call_id ci.call_id_string phone ci.id (uri_or ci.remote_uri dest)
      (update_calls (add_call phone ci.id (record template { id = ci.id })) s)

-- the two legs of `attended_transfer`: those that are named, or the first two active ones
unfoldable pub transfer_legs : String → List ℕ → Option ℕ → Option ℕ → Exec Sys (ℕ × ℕ)
unfolding ensure_call_belongs_to get_call_by_id
transfer_legs phone active (some src) (some dst) = do
  ensure_call_belongs_to phone src
  ensure_call_belongs_to phone dst
  src' ← get_call_by_id src
  dst' ← get_call_by_id dst
  pure (src', dst')
transfer_legs phone (a ∷ b ∷ more) _ _ = pure (a, b)
transfer_legs phone _ _ _ = raise too_few_calls

-- `hangup_all`
abbrev pub in_scope : Option String → Dict ℕ String → ℕ → Bool
in_scope none owners cid = true
in_scope (some phone) owners cid = owned_by phone owners cid

abbrev pub calls_in_scope : Option String → Sys → List ℕ
calls_in_scope phone_id s = keep (in_scope phone_id s.calls.call_phone) (keys s.calls.calls)

module _ (pj : Pj) where
  -- `PhoneRegistry.require_account`
  unfoldable pub require_account : String → Exec Sys Account
  require_account phone = do
    acc ← require (← gets (λ s. get s.phones.accounts phone)) phone_not_found
    valid ← require (← gets (λ s. pj.is_valid s.trace phone)) pj_error
    raise_if (not valid) account_invalid
    pure acc

  -- `call.getInfo()`
  abbrev pub info_of : ℕ → Exec Sys CallInfo
  info_of cid = do require (← gets (λ s. pj.call_info s.trace cid)) pj_error

  -- `make_call`, up to `getInfo` of the call that has been placed: the call object as it was made
  -- before it had an id, and the info. The library is taken not to call back before `makeCall` returns.
  unfoldable pub place_call : String → String → Exec Sys (SipCall × CallInfo)
  unfolding ensure_incoming_handler require_account
  place_call dest phone = do
    modify (ensure_incoming_handler phone)
    require_account phone
    template ← gets (call_for phone 0 false)
    issue pj (call phone dest)
    placed ← gets (λ s. pj.placed_call s.trace)
    ci ← info_of placed
    pure (template, ci)

  unfoldable pub place_and_register : String → String → Exec Sys CallInfo
  unfolding place_call register_outgoing
  place_and_register dest phone = do
    placed ← place_call dest phone
    modify (register_outgoing dest phone placed)
    pure placed.1

  -- `make_call`: what the library says of the new call
  unfoldable pub make_call : String → Option String → Exec Sys CallInfo
  unfolding place_and_register
  make_call dest phone_id = do phone ← resolve_phone phone_id; place_and_register dest phone

  -- `answer_call`
  unfoldable pub answer_call : Option String → Option ℕ → ℕ → Exec Sys CallInfo
  unfolding resolve_phone ensure_incoming_handler get_call
  answer_call phone_id call_id status = do
    phone ← resolve_phone phone_id
    modify (ensure_incoming_handler phone)
    cid ← get_call pj phone call_id true
    issue pj (answer cid status)
    info_of cid

  -- `reject_call`
  unfoldable pub reject_call : Option String → Option ℕ → ℕ → Exec Sys (Unit {0})
  unfolding resolve_phone get_call
  reject_call phone_id call_id status = do
    phone ← resolve_phone phone_id
    cid ← get_call pj phone call_id true
    issue pj (hangup cid status)

  -- `blind_transfer`
  unfoldable pub blind_transfer : String → Option String → Option ℕ → Exec Sys (Unit {0})
  unfolding resolve_phone get_call
  blind_transfer dest phone_id call_id = do
    phone ← resolve_phone phone_id
    cid ← get_call pj phone call_id false
    issue pj (transfer cid dest)

  -- The active calls of the phone; here `isActive` may raise, which ends the method.
  abbrev add_active : ℕ → Option Bool → Result (List ℕ) → Result (List ℕ)
  add_active cid none rest = err pj_error
  add_active cid (some active) (err e) = err e
  add_active cid (some active) (ok others) = ok (if active then cid ∷ others else others)

  unfoldable pub active_among : String → Sys → List ℕ → Result (List ℕ)
  active_among phone s [] = ok []
  active_among phone s (cid ∷ cids) =
      let rest = active_among phone s cids in
      if owned_by phone s.calls.call_phone cid
      then add_active cid (pj.is_active s.trace cid) rest
      else rest

  abbrev pub active_calls_of : String → Exec Sys (List ℕ)
  active_calls_of phone s = (active_among phone s (keys s.calls.calls), s)

  -- `attended_transfer`
  unfoldable pub attended_transfer : Option String → Option ℕ → Option ℕ → Exec Sys (Unit {0})
  unfolding resolve_phone active_among transfer_legs
  attended_transfer phone_id call_id dest_call_id = do
    phone ← resolve_phone phone_id
    active ← active_calls_of phone
    raise_if (ltb (length active) 2) too_few_calls
    (src, dst) ← transfer_legs phone active call_id dest_call_id
    issue pj (transfer_replaces src dst)

  -- `hangup`: an error of the library means that the call has gone already.
  unfoldable pub hang_up : Option String → Option ℕ → Exec Sys (Unit {0})
  unfolding resolve_phone get_call
  hang_up phone_id call_id = do
    phone ← resolve_phone phone_id
    cid ← get_call pj phone call_id false
    modify (attempt (hangup cid 603))

  abbrev pub hang_up_one : ℕ → Sys → Sys
  hang_up_one cid s = elim (pj.is_active s.trace cid) [
    | none ↦ s
    | some active ↦ if active then attempt (hangup cid 603) s else s
  ]

  unfoldable pub hang_up_each : List ℕ → Sys → Sys
  hang_up_each [] s = s
  hang_up_each (cid ∷ cids) s = hang_up_each cids (hang_up_one cid s)

  unfoldable pub hangup_all : Option String → Sys → Sys
  unfolding hang_up_each
  hangup_all phone_id s = hang_up_each (calls_in_scope phone_id s) s
