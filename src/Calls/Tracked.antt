-- ===== src/Calls/Tracked.antt =====
-- The tables of `CallManager` (src/call_manager.py) agree with each other, whatever happens.
use pjsua_mcp.Prelude.{
  ℕ, String, ◌≡◌, refl, true, false, Option, none, some, List, [], ◌∷◌, ◌++◌, arith, nat_eq,
  string_eq, or_else, contains, contains-append, contains-keep,
}
use pjsua_mcp.Dict.{Dict, get, has, set, pop_all, get-set, get-pop, get-pop_all}
use pjsua_mcp.Dict.Proper.{IsProper, set-IsProper, pop_all-IsProper}
use pjsua_mcp.Call.Data.{SipCall}
use pjsua_mcp.State.{Calls}
use pjsua_mcp.Calls.Lookup.{owned_by}
use pjsua_mcp.Calls.Lifecycle.{
  calls_of, forget_phone, add_call, enqueue, stale_calls, remove_stale, clear_calls,
}
use pjsua_mcp.Calls.Tables.{owned_by_unique, contains-calls_of, get-restrict, get-emptied}

abbrev pub queue_of : Calls → String → List ℕ
queue_of c phone = or_else (get c.incoming_queue phone) []

-- The phone that the call object itself names.
abbrev pub owner_at : Dict ℕ SipCall → ℕ → Option String
owner_at d cid = elim (get d cid) [ none ↦ none | some call ↦ some call.phone_id ]

pub record IsTracked (c : Calls) : Type 0 where
  pub proper_calls : IsProper c.calls
  pub proper_owners : IsProper c.call_phone
  -- the same ids are in both tables, under the phone that the object names
  pub owner_agrees : (cid : ℕ) → owner_at c.calls cid ≡ get c.call_phone cid
  -- what waits in a phone's queue is a call of that phone
  pub queued :
      (phone : String) (cid : ℕ)
      → contains cid (queue_of c phone) ≡ true
      → owned_by phone c.call_phone cid ≡ true

-- A call that is new to the manager, and that its phone may queue.
pub incoming-IsTracked :
    (phone : String) (cid : ℕ) (call : SipCall) (auto : Dict String (List ℕ)) (c : Calls)
    → call.phone_id ≡ phone
    → has c.calls cid ≡ false
    → IsTracked c
    → IsTracked (record (add_call phone cid call c) {
      incoming_queue = enqueue phone cid c.incoming_queue;
      auto_answer_pending = auto;
    })
incoming-IsTracked phone cid call auto c e fresh h = record {
  proper_calls = set-IsProper c.calls cid call h.proper_calls;
  proper_owners = set-IsProper c.call_phone cid phone h.proper_owners;
  owner_agrees = λ j.
      ground
        (arith, get-set c.calls cid j call, get-set c.call_phone cid j phone, h.owner_agrees j);
  queued = λ p j. ground (
    arith,
    get-set c.incoming_queue phone p (queue_of c phone ++ cid ∷ []),
    contains-append j (queue_of c phone) (cid ∷ []),
    get-set c.call_phone cid j phone,
    h.queued p j,
    h.owner_agrees cid,
    nat_eq.beq_iff cid j,
    string_eq.beq_iff phone p,
  );
}

pub placed-IsTracked :
    (phone : String) (cid : ℕ) (call : SipCall) (c : Calls)
    → call.phone_id ≡ phone
    → has c.calls cid ≡ false
    → IsTracked c
    → IsTracked (add_call phone cid call c)
placed-IsTracked phone cid call c e fresh h = record {
  proper_calls = set-IsProper c.calls cid call h.proper_calls;
  proper_owners = set-IsProper c.call_phone cid phone h.proper_owners;
  owner_agrees = λ j.
      ground
        (arith, get-set c.calls cid j call, get-set c.call_phone cid j phone, h.owner_agrees j);
  queued = λ p j. ground (
    arith,
    get-set c.call_phone cid j phone,
    h.queued p j,
    h.owner_agrees cid,
    nat_eq.beq_iff cid j,
  );
}

-- A change of a call object that is there.
pub update-IsTracked :
    (cid : ℕ) (call : SipCall) (c : Calls)
    → owner_at c.calls cid ≡ some call.phone_id
    → IsTracked c
    → IsTracked (record c { calls = set c.calls cid call })
update-IsTracked cid call c e h = record {
  proper_calls = set-IsProper c.calls cid call h.proper_calls;
  proper_owners = h.proper_owners;
  owner_agrees =
      λ j. ground (arith, get-set c.calls cid j call, h.owner_agrees j, nat_eq.beq_iff cid j);
  queued = h.queued;
}

pub forget_phone-IsTracked :
    (phone : String) (c : Calls) → IsTracked c → IsTracked (forget_phone phone c)
forget_phone-IsTracked phone c h =
    let gone = calls_of phone c.call_phone in
    record {
      proper_calls = pop_all-IsProper c.calls gone h.proper_calls;
      proper_owners = pop_all-IsProper c.call_phone gone h.proper_owners;
      owner_agrees = λ j.
          ground
            (arith, get-pop_all c.calls gone j, get-pop_all c.call_phone gone j, h.owner_agrees j);
      queued = λ p j. ground (
        arith,
        get-pop c.incoming_queue phone p,
        get-pop_all c.call_phone gone j,
        contains-calls_of phone c.call_phone j h.proper_owners,
        h.queued p j,
        owned_by_unique p phone c.call_phone j,
        string_eq.beq_iff phone p,
      );
    }

pub remove_stale-IsTracked : (c : Calls) → IsTracked c → IsTracked (remove_stale c)
remove_stale-IsTracked c h =
    let gone = stale_calls c.calls in
    let left = pop_all c.calls gone in
    record {
      proper_calls = pop_all-IsProper c.calls gone h.proper_calls;
      proper_owners = pop_all-IsProper c.call_phone gone h.proper_owners;
      owner_agrees = λ j.
          ground
            (arith, get-pop_all c.calls gone j, get-pop_all c.call_phone gone j, h.owner_agrees j);
      queued = λ p j. ground (
        arith,
        get-restrict left c.incoming_queue p,
        contains-keep (has left) j (queue_of c p),
        get-pop_all c.calls gone j,
        get-pop_all c.call_phone gone j,
        h.queued p j,
        h.owner_agrees j,
      );
    }

pub clear_calls-IsTracked : (c : Calls) → IsTracked (clear_calls c)
unfolding clear_calls get
clear_calls-IsTracked c = record {
  proper_calls = tt;
  proper_owners = tt;
  owner_agrees = λ j. refl;
  queued = λ p j. ground (arith, get-emptied c.incoming_queue p);
}
