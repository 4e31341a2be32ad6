-- ===== src/Calls/Lookup.antt =====
-- How `CallManager` of src/call_manager.py finds phones and calls.
use pjsua_mcp.Prelude.{
  ℕ, String, Bool, true, false, not, ◌&&◌, Option, none, some, List, [], ◌∷◌, nat_eq, string_eq,
  ◌==◌, if◌then◌else◌,
}
use pjsua_mcp.Dict.{Dict, get, set, has, keys}
use pjsua_mcp.Exec.{
  Exec, ok, err, phone_id_required, no_active_call, call_not_found, call_of_other_phone, raise,
  raise_if, require, pure, gets, ◌>>=◌, ◌>>◌,
}
use pjsua_mcp.Pj.{Pj, Trace}
use pjsua_mcp.Call.Data.{SipCall, Leg}
use pjsua_mcp.State.{Sys, Calls}
use pjsua_mcp.Capture.{current_pcap_path_for}

abbrev pub default_phone_id : String
default_phone_id = "default"

abbrev pub update_calls : (Calls → Calls) → Sys → Sys
update_calls f s = record s { calls = f s.calls }

-- `self._call_phone.get(cid) == phone_id`
abbrev pub owned_by : String → Dict ℕ String → ℕ → Bool
owned_by phone owners cid = elim (get owners cid) [ none ↦ false | some p ↦ p == phone ]

-- `_resolve_phone`
abbrev pub only_phone : List String → Exec Sys String
only_phone (p ∷ []) = pure p
only_phone _ = raise phone_id_required

unfoldable pub resolve_phone : Option String → Exec Sys String
resolve_phone (some phone) = pure phone
resolve_phone none = do
  accounts ← gets (λ s. s.phones.accounts)
  if has accounts default_phone_id then pure default_phone_id else only_phone (keys accounts)

-- `_ensure_call_belongs_to`
unfoldable pub ensure_call_belongs_to : String → ℕ → Exec Sys (Unit {0})
ensure_call_belongs_to phone cid = do
  owners ← gets (λ s. s.calls.call_phone)
  owner ← require (get owners cid) call_not_found
  raise_if (not (owner == phone)) call_of_other_phone

-- `_get_call_by_id`: the id stands for the call object, which stays in `_calls`.
unfoldable pub get_call_by_id : ℕ → Exec Sys ℕ
get_call_by_id cid = do
  calls ← gets (λ s. s.calls.calls)
  raise_if (not (has calls cid)) call_not_found
  pure cid

-- the first of the ids that belongs to the phone and is active; one that raises is passed over
abbrev active : Pj → Trace → ℕ → Bool
active pj t cid = elim (pj.is_active t cid) [ none ↦ false | some b ↦ b ]

unfoldable pub first_active : Pj → Trace → String → Dict ℕ String → List ℕ → Option ℕ
first_active pj t phone owners [] = none
first_active pj t phone owners (cid ∷ cids) =
    let rest = first_active pj t phone owners cids in
    if owned_by phone owners cid && active pj t cid then some cid else rest

-- `get_active_call_id`
unfoldable pub get_active_call_id : Pj → String → Sys → Option ℕ
unfolding first_active
get_active_call_id pj phone s =
    first_active pj s.trace phone s.calls.call_phone (keys s.calls.calls)

-- `while queue: cid = queue.pop(0); if cid in self._calls: return …`: what is found, and what is left
unfoldable pub pop_queued : Dict ℕ SipCall → List ℕ → Option ℕ × List ℕ
pop_queued calls [] = (none, [])
pop_queued calls (cid ∷ cids) =
    let rest = pop_queued calls cids in if has calls cid then (some cid, cids) else rest

-- The queue of the phone is popped in place; a phone without one has nothing to pop.
unfoldable pub next_incoming : String → Sys → Option ℕ × Sys
unfolding pop_queued
next_incoming phone s = elim (get s.calls.incoming_queue phone) [
  | none ↦ (none, s)
  | some queue ↦
      let (found, left) = pop_queued s.calls.calls queue in
      (found, update_calls (λ c. record c { incoming_queue = set c.incoming_queue phone left }) s)
]

-- The part of `_get_call` for a call that is not named.
unfoldable pub find_active : Pj → String → Exec Sys ℕ
unfolding get_active_call_id
find_active pj phone s = require (get_active_call_id pj phone s) no_active_call s

abbrev pub pop_incoming : String → Exec Sys (Option ℕ)
pop_incoming phone s = let (found, s') = next_incoming phone s in (ok found, s')

abbrev pub or_find_active : Pj → String → Option ℕ → Exec Sys ℕ
or_find_active pj phone none = find_active pj phone
or_find_active pj phone (some cid) = pure cid

unfoldable pub find_incoming : Pj → String → Exec Sys ℕ
unfolding next_incoming find_active
find_incoming pj phone = do found ← pop_incoming phone; or_find_active pj phone found

-- `_get_call`; every caller names the phone.
unfoldable pub get_call : Pj → String → Option ℕ → Bool → Exec Sys ℕ
unfolding ensure_call_belongs_to get_call_by_id find_incoming find_active
get_call pj phone (some cid) from_incoming = do ensure_call_belongs_to phone cid; get_call_by_id cid
get_call pj phone none true = find_incoming pj phone
get_call pj phone none false = find_active pj phone

-- A method of the call object at `cid`, on the call and the trace: `self._calls[cid].m()`. The leg
-- that is left is written back.
abbrev pub leg_of : ℕ → SipCall → Sys → Leg
leg_of cid c s = record {
  call = c;
  trace = s.trace;
  pcap = current_pcap_path_for c.phone_id s;
  activated = false;
}

abbrev pub put_leg : ℕ → Leg → Sys → Sys
put_leg cid leg s = record s {
  calls = record s.calls { calls = set s.calls.calls cid leg.call };
  trace = leg.trace;
}

abbrev pub on_call_object : {A : Type 0} → ℕ → Exec Leg A → Exec Sys A
on_call_object cid m s = elim (get s.calls.calls cid) [
  | none ↦ (err call_not_found, s)
  | some c ↦ let (r, leg) = m (leg_of cid c s) in (r, put_leg cid leg s)
]
