-- ===== src/Calls/Tables.antt =====
-- What the comprehensions of `CallManager` (src/call_manager.py) over its dictionaries give.
use pjsua_mcp.Prelude.{
  ℕ, String, ◌≡◌, refl, Bool, true, false, Option, none, some, List, [], ◌∷◌, arith, nat_eq,
  string_eq, contains, keep, Option-cases, inl, inr,
}
use pjsua_mcp.Dict.{Dict, get, has}
use pjsua_mcp.Dict.Proper.{IsProper}
use pjsua_mcp.Call.Data.{SipCall}
use pjsua_mcp.Calls.Lookup.{owned_by}
use pjsua_mcp.Calls.Lifecycle.{calls_of, emptied, restrict, stale_calls, is_over}

-- a call has one owner
pub owned_by_unique :
    (p q : String) (d : Dict ℕ String) (cid : ℕ)
    → owned_by p d cid ≡ true
    → owned_by q d cid ≡ true
    → p ≡ q
owned_by_unique p q d cid hp hq = elim (Option-cases (get d cid)) [
  | inl e ↦ ground arith
  | inr (owner, e) ↦ ground (arith, string_eq.beq_iff owner p, string_eq.beq_iff owner q)
]

-- the calls of a phone are those that it owns
pub contains-calls_of :
    (phone : String) (d : Dict ℕ String) (cid : ℕ)
    → IsProper d
    → contains cid (calls_of phone d) ≡ owned_by phone d cid
unfolding get
contains-calls_of phone [] cid h = refl
contains-calls_of phone ((j, p) ∷ d) cid h =
    ground (arith, contains-calls_of phone d cid h.1, nat_eq.beq_iff j cid)

abbrev pub over_at : Dict ℕ SipCall → ℕ → Bool
over_at d cid = elim (get d cid) [ none ↦ false | some call ↦ is_over call ]

pub contains-stale_calls :
    (d : Dict ℕ SipCall) (cid : ℕ) → IsProper d → contains cid (stale_calls d) ≡ over_at d cid
unfolding get
contains-stale_calls [] cid h = refl
contains-stale_calls ((j, call) ∷ d) cid h =
    ground (arith, contains-stale_calls d cid h.1, nat_eq.beq_iff j cid)

abbrev pub kept : Dict ℕ SipCall → Option (List ℕ) → Option (List ℕ)
kept calls none = none
kept calls (some q) = some (keep (has calls) q)

pub get-restrict :
    (calls : Dict ℕ SipCall) (d : Dict String (List ℕ)) (phone : String)
    → get (restrict calls d) phone ≡ kept calls (get d phone)
unfolding get
get-restrict calls [] phone = refl
get-restrict calls ((p, q) ∷ d) phone = ground (arith, get-restrict calls d phone)

abbrev pub no_entries : Option (List ℕ) → Option (List ℕ)
no_entries none = none
no_entries (some q) = some []

pub get-emptied :
    (d : Dict String (List ℕ)) (phone : String) → get (emptied d) phone ≡ no_entries (get d phone)
unfolding get
get-emptied [] phone = refl
get-emptied ((p, q) ∷ d) phone = ground (arith, get-emptied d phone)
