-- ===== src/Calls/HangUp.antt =====
-- Which calls `CallManager.hangup_all` (src/call_manager.py) hangs up.
use pjsua_mcp.Prelude.{
  ℕ, String, ◌≡◌, Bool, false, ◌&&◌, ◌||◌, Option, none, some, List, [], ◌∷◌, arith, nat_eq,
  string_eq, ◌==◌, contains, contains-keep,
}
use pjsua_mcp.Dict.{has, keys, contains-keys}
use pjsua_mcp.Pj.{Pj, Trace, Action, hangup}
use pjsua_mcp.State.{Sys}
use pjsua_mcp.Calls.Operations.{hang_up_one, hang_up_each, calls_in_scope, in_scope, hangup_all}

-- Whether the library has been asked to hang the call up with 603.
abbrev hangs_up : ℕ → Action → Bool
hangs_up cid (hangup j code) = j == cid && code == 603
hangs_up cid _ = false

abbrev pub was_hung_up : ℕ → Trace → Bool
was_hung_up cid [] = false
was_hung_up cid (a ∷ t) = hangs_up cid a || was_hung_up cid t

abbrev says_active : Option Bool → Bool
says_active none = false
says_active (some b) = b

was_hung_up-hang_up_one :
    (pj : Pj) (j cid : ℕ) (answer : Option Bool) (s : Sys)
    → ((t : Trace) → pj.is_active t cid ≡ answer)
    → was_hung_up cid (hang_up_one pj j s).trace
      ≡ (was_hung_up cid s.trace || (j == cid && says_active answer))
was_hung_up-hang_up_one pj j cid answer s h = ground (arith, h s.trace, nat_eq.beq_iff j cid)

was_hung_up-hang_up_each :
    (pj : Pj) (cids : List ℕ) (cid : ℕ) (answer : Option Bool) (s : Sys)
    → ((t : Trace) → pj.is_active t cid ≡ answer)
    → was_hung_up cid (hang_up_each pj cids s).trace
      ≡ (was_hung_up cid s.trace || (contains cid cids && says_active answer))
unfolding hang_up_each
was_hung_up-hang_up_each pj [] cid answer s h = ground arith
was_hung_up-hang_up_each pj (j ∷ cids) cid answer s h = ground (
  arith,
  was_hung_up-hang_up_each pj cids cid answer (hang_up_one pj j s) h,
  was_hung_up-hang_up_one pj j cid answer s h,
)

-- Hanging up every call, or every call of one phone: a call about which the library keeps giving
-- the same answer is hung up if and only if it is tracked, active and in the scope, or had been
-- hung up before.
pub was_hung_up-hangup_all :
    (pj : Pj) (phone : Option String) (cid : ℕ) (answer : Option Bool) (s : Sys)
    → ((t : Trace) → pj.is_active t cid ≡ answer)
    → was_hung_up cid (hangup_all pj phone s).trace ≡ (
        was_hung_up cid s.trace
        || (has s.calls.calls cid && in_scope phone s.calls.call_phone cid && says_active answer))
unfolding hangup_all
was_hung_up-hangup_all pj phone cid answer s h = ground (
  arith,
  was_hung_up-hang_up_each pj (calls_in_scope phone s) cid answer s h,
  contains-keep (in_scope phone s.calls.call_phone) cid (keys s.calls.calls),
  contains-keys s.calls.calls cid,
)
