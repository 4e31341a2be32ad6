-- ===== src/Calls/Keeping.antt =====
-- Every method of `CallManager` (src/call_manager.py) keeps its tables in agreement.
use pjsua_mcp.Prelude.{
  ℕ, String, ◌≡◌, ◌⊎◌, refl, sym, subst, Bool, true, false, Option, none, some, List, [], ◌∷◌,
  arith, nat_eq, string_eq, contains, Option-cases, inl, inr, Bool-cases,
}
use pjsua_mcp.Dict.{Dict, get, has, keys, get-set}
use pjsua_mcp.Exec.{Exec, Result, ok, err, phone_id_required, ◌>>=◌}
use pjsua_mcp.Exec.Keeps.{Keeps, keeps_rules, Keeps-modify, Keeps-bind}
use pjsua_mcp.Pj.{Pj, Action}
use pjsua_mcp.Call.Data.{SipCall, Leg}
use pjsua_mcp.Call.Identity.{IsOf}
use pjsua_mcp.State.{Sys, Calls, issue}
use pjsua_mcp.Calls.Lookup.{
  default_phone_id, only_phone, resolve_phone, ensure_call_belongs_to, get_call_by_id, pop_queued,
  next_incoming, find_active, find_incoming, pop_incoming, or_find_active, get_call, on_call_object,
  leg_of, put_leg,
}
use pjsua_mcp.Calls.Tracked.{IsTracked, update-IsTracked}

abbrev pub Tracks : Sys → Type 0
Tracks s = IsTracked s.calls

-- The invariant reads three of the tables.
pub same_tables-IsTracked :
    (c c' : Calls)
    → c'.calls ≡ c.calls
    → c'.call_phone ≡ c.call_phone
    → c'.incoming_queue ≡ c.incoming_queue
    → IsTracked c
    → IsTracked c'
same_tables-IsTracked c c' e f g h = record {
  proper_calls = rw e h.proper_calls;
  proper_owners = rw f h.proper_owners;
  owner_agrees = λ cid. rw (e, f) (h.owner_agrees cid);
  queued = λ p cid. rw (f, g) (h.queued p cid);
}

-- What is left of a queue stood in it before.
contains-pop_queued :
    (calls : Dict ℕ SipCall) (q : List ℕ) (cid : ℕ)
    → contains cid (pop_queued calls q).1 ≡ true
    → contains cid q ≡ true
unfolding pop_queued
contains-pop_queued calls [] cid h = h
contains-pop_queued calls (j ∷ q) cid h = ground (arith, contains-pop_queued calls q cid)

pub next_incoming-Tracks : (phone : String) (s : Sys) → Tracks s → Tracks (next_incoming phone s).1
unfolding next_incoming
next_incoming-Tracks phone s h = elim (Option-cases (get s.calls.incoming_queue phone)) [
  | inl e ↦ rw (e, next_incoming) h
  | inr (q, e) ↦
      rw (e, next_incoming)
        (record {
          proper_calls = h.proper_calls;
          proper_owners = h.proper_owners;
          owner_agrees = h.owner_agrees;
          queued = λ p cid. ground (
            arith,
            get-set s.calls.incoming_queue phone p (pop_queued s.calls.calls q).1,
            contains-pop_queued s.calls.calls q cid,
            h.queued p cid,
            h.queued phone cid,
            string_eq.beq_iff phone p,
          );
        })
]

-- A method that reads the state and may raise.
only_phone_cases :
    (ids : List String) (s : Sys)
    → ((phone : String) × (only_phone ids s ≡ (ok phone, s)))
      ⊎ (only_phone ids s ≡ (err phone_id_required, s))
only_phone_cases [] s = inr refl
only_phone_cases (p ∷ []) s = inl (p, refl)
only_phone_cases (p ∷ q ∷ ids) s = inr refl

-- A phone is found or the method raises; nothing changes.
pub resolve_phone_cases :
    (phone_id : Option String) (s : Sys)
    → ((phone : String) × (resolve_phone phone_id s ≡ (ok phone, s)))
      ⊎ (resolve_phone phone_id s ≡ (err phone_id_required, s))
unfolding resolve_phone
resolve_phone_cases (some phone) s = inl (phone, refl)
resolve_phone_cases none s = elim (Bool-cases (has s.phones.accounts default_phone_id)) [
  | inl e ↦ inl (default_phone_id, rw (e, resolve_phone))
  | inr e ↦ rw (e, resolve_phone) (only_phone_cases (keys s.phones.accounts) s)
]

-- What holds of the rest of a method for the phone that is found, and of the error, holds of the
-- method.
pub after_resolve_phone :
    {B : Type 0} (P : Result B × Sys → Type 0) (phone_id : Option String) (k : String → Exec Sys B)
    (s : Sys)
    → ((phone : String) → P (k phone s))
    → P (err phone_id_required, s)
    → P ((resolve_phone phone_id >>= k) s)
after_resolve_phone {B} P phone_id k s found failed =
    let Q : Result String × Sys → Type 0 = λ x.
      P (elim x.0 as (λ _. Result B × Sys) [ ok phone ↦ k phone x.1 | err e ↦ (err e, x.1) ]) in
    elim (resolve_phone_cases phone_id s) [
      | inl (phone, e) ↦ subst Q (sym e) (found phone)
      | inr e ↦ subst Q (sym e) failed
    ]

pub resolve_phone-Tracks : (phone : Option String) → Keeps Tracks (resolve_phone phone)
unfolding resolve_phone
resolve_phone-Tracks none = record { at = λ s h. ground arith }
resolve_phone-Tracks (some p) = record { at = λ s h. h }

pub ensure_call_belongs_to-Tracks :
    (phone : String) (cid : ℕ) → Keeps Tracks (ensure_call_belongs_to phone cid)
unfolding ensure_call_belongs_to
ensure_call_belongs_to-Tracks phone cid = search keeps_rules

pub get_call_by_id-Tracks : (cid : ℕ) → Keeps Tracks (get_call_by_id cid)
unfolding get_call_by_id
get_call_by_id-Tracks cid = search keeps_rules

find_active-Tracks : (pj : Pj) (phone : String) → Keeps Tracks (find_active pj phone)
unfolding find_active
find_active-Tracks pj phone = record { at = λ s h. ground arith }

or_find_active-Tracks :
    (pj : Pj) (phone : String) (found : Option ℕ) → Keeps Tracks (or_find_active pj phone found)
or_find_active-Tracks pj phone none = find_active-Tracks pj phone
or_find_active-Tracks pj phone (some cid) = record { at = λ s h. h }

find_incoming-Tracks : (pj : Pj) (phone : String) → Keeps Tracks (find_incoming pj phone)
unfolding find_incoming
find_incoming-Tracks pj phone =
    Keeps-bind (pop_incoming phone) _ (record { at = next_incoming-Tracks phone })
      (or_find_active-Tracks pj phone)

pub get_call-Tracks :
    (pj : Pj) (phone : String) (call_id : Option ℕ) (from_incoming : Bool)
    → Keeps Tracks (get_call pj phone call_id from_incoming)
unfolding get_call
get_call-Tracks pj phone (some cid) b =
    search (keeps_rules, ensure_call_belongs_to-Tracks, get_call_by_id-Tracks)
get_call-Tracks pj phone none true = find_incoming-Tracks pj phone
get_call-Tracks pj phone none false = find_active-Tracks pj phone

pub issue-Tracks : (pj : Pj) (a : Action) → Keeps Tracks (issue pj a)
issue-Tracks pj a = record { at = λ s h. h }

-- A call object that stays with its phone is written back.
pub put_leg-Tracks :
    (cid : ℕ) (c : SipCall) (leg : Leg) (s : Sys)
    → get s.calls.calls cid ≡ some c
    → IsOf c.phone_id leg
    → Tracks s
    → Tracks (put_leg cid leg s)
put_leg-Tracks cid c leg s e same h = update-IsTracked cid leg.call s.calls (ground arith) h

pub on_call_object-Tracks :
    {A : Type 0} (cid : ℕ) (m : Exec Leg A)
    → ((phone : String) → Keeps (IsOf phone) m)
    → Keeps Tracks (on_call_object cid m)
on_call_object-Tracks cid m k = record {
  at = λ s h. elim (Option-cases (get s.calls.calls cid)) [
    | inl e ↦ rw (e, on_call_object) h
    | inr (c, e) ↦
        rw (e, on_call_object)
          (put_leg-Tracks cid c (m (leg_of cid c s)).1 s e ((k c.phone_id).at (leg_of cid c s) refl)
            h)
  ];
}

pub ruleset tracking = (
  keeps_rules, resolve_phone-Tracks, ensure_call_belongs_to-Tracks, get_call_by_id-Tracks,
  get_call-Tracks, issue-Tracks, on_call_object-Tracks,
)
