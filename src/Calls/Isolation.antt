-- ===== src/Calls/Isolation.antt =====
-- What one phone can do to the calls of another, in `CallManager` of src/call_manager.py: nothing.
use pjsua_mcp.Prelude.{
  ℕ, String, ◌≡◌, refl, Bool, true, false, ◌&&◌, Option, none, some, List, [], ◌∷◌, arith, nat_eq,
  string_eq, Option-cases, inl, inr, contains,
}
use pjsua_mcp.Dict.{Dict, get, has, keys, contains-keys}
use pjsua_mcp.Exec.{Error, Result, ok, err, call_not_found, call_of_other_phone}
use pjsua_mcp.Pj.{Pj, Trace}
use pjsua_mcp.Call.Data.{SipCall}
use pjsua_mcp.State.{Sys}
use pjsua_mcp.Calls.Lookup.{
  owned_by, ensure_call_belongs_to, get_call_by_id, first_active, get_active_call_id, pop_queued,
  next_incoming, find_active, find_incoming, or_find_active, get_call, resolve_phone,
}
use pjsua_mcp.Calls.Operations.{
  reject_call, blind_transfer, transfer_legs, attended_transfer, hang_up,
}
use pjsua_mcp.Calls.Media.{
  send_dtmf, play_audio, stop_audio, hold_call, unhold_call, check_owned, conference,
}
use pjsua_mcp.Calls.Keeping.{Tracks}

-- A call that the phone owns and that the manager has an object for.
abbrev pub IsOwn : String → ℕ → Sys → Type 0
IsOwn phone cid s = (owned_by phone s.calls.call_phone cid ≡ true) × (has s.calls.calls cid ≡ true)

first_active-IsOwn :
    (pj : Pj) (t : Trace) (phone : String) (owners : Dict ℕ String) (cids : List ℕ) (cid : ℕ)
    → first_active pj t phone owners cids ≡ some cid
    → (owned_by phone owners cid ≡ true) × (contains cid cids ≡ true)
unfolding first_active
first_active-IsOwn pj t phone owners [] cid e = ground arith
first_active-IsOwn pj t phone owners (j ∷ cids) cid e =
    ground (arith, first_active-IsOwn pj t phone owners cids cid, nat_eq.beq_iff j cid)

find_active-IsOwn :
    (pj : Pj) (phone : String) (s s' : Sys) (cid : ℕ)
    → find_active pj phone s ≡ (ok cid, s')
    → IsOwn phone cid s
unfolding find_active get_active_call_id
find_active-IsOwn pj phone s s' cid e = ground (
  arith,
  first_active-IsOwn pj s.trace phone s.calls.call_phone (keys s.calls.calls) cid,
  contains-keys s.calls.calls cid,
)

pop_queued-found :
    (calls : Dict ℕ SipCall) (q : List ℕ) (cid : ℕ)
    → (pop_queued calls q).0 ≡ some cid
    → (has calls cid ≡ true) × (contains cid q ≡ true)
unfolding pop_queued
pop_queued-found calls [] cid e = ground arith
pop_queued-found calls (j ∷ q) cid e =
    ground (arith, pop_queued-found calls q cid, nat_eq.beq_iff j cid)

next_incoming-IsOwn :
    (phone : String) (s : Sys) (cid : ℕ)
    → Tracks s
    → (next_incoming phone s).0 ≡ some cid
    → IsOwn phone cid s
unfolding next_incoming
next_incoming-IsOwn phone s cid h e = elim (Option-cases (get s.calls.incoming_queue phone)) [
  | inl n ↦ ground arith
  | inr (q, n) ↦ ground (arith, pop_queued-found s.calls.calls q cid, h.queued phone cid)
]

tables-next_incoming :
    (phone : String) (s : Sys)
    → ((next_incoming phone s).1.calls.calls ≡ s.calls.calls)
      × ((next_incoming phone s).1.calls.call_phone ≡ s.calls.call_phone)
unfolding next_incoming
tables-next_incoming phone s = ground arith

found_or_active-IsOwn :
    (pj : Pj) (phone : String) (s s1 s' : Sys) (found : Option ℕ) (cid : ℕ)
    → (s1.calls.calls ≡ s.calls.calls) × (s1.calls.call_phone ≡ s.calls.call_phone)
    → ((j : ℕ) → found ≡ some j → IsOwn phone j s)
    → or_find_active pj phone found s1 ≡ (ok cid, s')
    → IsOwn phone cid s
found_or_active-IsOwn pj phone s s1 s' none cid same own e =
    let found = find_active-IsOwn pj phone s1 s' cid e in ground arith
found_or_active-IsOwn pj phone s s1 s' (some j) cid same own e = ground (arith, own j refl)

-- Whatever call a method of a phone works on, named by the client, taken from the queue of incoming
-- calls or found as the active one: if the tables agree, the phone owns that call, and there is an
-- object for it.
pub get_call-IsOwn :
    (pj : Pj) (phone : String) (call_id : Option ℕ) (from_incoming : Bool) (s s' : Sys) (cid : ℕ)
    → Tracks s
    → get_call pj phone call_id from_incoming s ≡ (ok cid, s')
    → IsOwn phone cid s
unfolding get_call find_incoming ensure_call_belongs_to get_call_by_id
get_call-IsOwn pj phone (some j) b s s' cid h e = ground arith
get_call-IsOwn pj phone none false s s' cid h e = find_active-IsOwn pj phone s s' cid e
get_call-IsOwn pj phone none true s s' cid h e =
    found_or_active-IsOwn pj phone s (next_incoming phone s).1 s' (next_incoming phone s).0 cid
      (tables-next_incoming phone s) (λ j. next_incoming-IsOwn phone s j h) e

-- The error that names the reason.
abbrev pub refusal : ℕ → Sys → Error
refusal cid s = elim (get s.calls.call_phone cid) [
  | none ↦ call_not_found
  | some p ↦ call_of_other_phone
]

-- A phone that names a call which it does not own gets the same error from each of the methods
-- `send_dtmf`, `hold`, `unhold`, `hangup`, `reject_call`, `blind_transfer`, `play_audio` and `stop_audio`,
-- and nothing changes: no table, no flag, and nothing is asked of the SIP library.
pub foreign_call_refused :
    (pj : Pj) (phone : String) (cid : ℕ) (s : Sys) (digits : List String) (dest file : String)
    (code : ℕ) (loop : Bool)
    → owned_by phone s.calls.call_phone cid ≡ false
    → let refused = refusal cid s in
      (send_dtmf pj cid digits (some phone) s ≡ (err refused, s))
      × (hold_call pj cid (some phone) s ≡ (err refused, s))
      × (unhold_call pj cid (some phone) s ≡ (err refused, s))
      × (hang_up pj (some phone) (some cid) s ≡ (err refused, s))
      × (reject_call pj (some phone) (some cid) code s ≡ (err refused, s))
      × (blind_transfer pj dest (some phone) (some cid) s ≡ (err refused, s))
      × (play_audio pj file (some phone) (some cid) loop s ≡ (err refused, s))
      × (stop_audio pj (some phone) (some cid) s ≡ (err refused, s))
unfolding send_dtmf hold_call unhold_call hang_up reject_call blind_transfer play_audio stop_audio
    get_call resolve_phone ensure_call_belongs_to
foreign_call_refused pj phone cid s digits dest file code loop h =
    elim (Option-cases (get s.calls.call_phone cid)) [
      | inl e ↦ ground arith
      | inr (p, e) ↦ ground arith
    ]

-- A method that raised, and changed nothing.
abbrev raised : {A : Type 0} → Result A → Bool
raised (ok a) = false
raised (err e) = true

abbrev pub RaisedAt : {A : Type 0} → Sys → Result A × Sys → Type 0
RaisedAt s x = (raised x.0 ≡ true) × (x.1 ≡ s)

check_owned-RaisedAt :
    (phone : String) (cids : List ℕ) (cid : ℕ) (s : Sys)
    → contains cid cids ≡ true
    → owned_by phone s.calls.call_phone cid ≡ false
    → RaisedAt s (check_owned phone cids s)
unfolding check_owned ensure_call_belongs_to
check_owned-RaisedAt phone [] cid s e h = ground arith
check_owned-RaisedAt phone (j ∷ cids) cid s e h =
    ground (arith, check_owned-RaisedAt phone cids cid s, nat_eq.beq_iff j cid)

-- A conference with a call that the phone does not own is refused: nothing changes, and no port is
-- connected.
pub foreign_conference_refused :
    (phone : String) (cids : List ℕ) (cid : ℕ) (s : Sys)
    → contains cid cids ≡ true
    → owned_by phone s.calls.call_phone cid ≡ false
    → RaisedAt s (conference cids (some phone) s)
unfolding conference resolve_phone
foreign_conference_refused phone cids cid s e h =
    ground (arith, check_owned-RaisedAt phone cids cid s e h)

-- An attended transfer that names two legs raises, changes nothing and asks nothing of the library,
-- unless the phone owns both of them.
pub foreign_leg_refused :
    (pj : Pj) (phone : String) (src dst : ℕ) (s : Sys)
    → (owned_by phone s.calls.call_phone src && owned_by phone s.calls.call_phone dst) ≡ false
    → RaisedAt s (attended_transfer pj (some phone) (some src) (some dst) s)
unfolding attended_transfer transfer_legs resolve_phone ensure_call_belongs_to
foreign_leg_refused pj phone src dst s h = ground arith
