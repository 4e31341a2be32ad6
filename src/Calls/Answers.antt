-- ===== src/Calls/Answers.antt =====
-- What `CallManager.process_auto_answers` (src/call_manager.py) answers, and what becomes of the
-- queues of incoming calls.
use pjsua_mcp.Prelude.{
  ℕ, String, ◌≡◌, refl, true, some, List, [], ◌∷◌, ◌++◌, ap, ◌∙◌, none, if◌then◌else◌, arith,
  nat_eq, string_eq, keep, contains, Bool-cases, inl, inr,
}
use pjsua_mcp.Dict.{Dict, get, has}
use pjsua_mcp.Call.Data.{SipCall}
use pjsua_mcp.Pj.{Pj, Trace, answer}
use pjsua_mcp.State.{Sys, attempt}
use pjsua_mcp.Calls.Lookup.{
  owned_by, update_calls, next_incoming, pop_queued, get_call, resolve_phone,
  ensure_call_belongs_to, get_call_by_id,
}
use pjsua_mcp.Calls.Lifecycle.{all_pending, emptied, answer_one, answer_each, process_auto_answers}
use pjsua_mcp.Calls.Operations.{answer_call, ensure_incoming_handler}
use pjsua_mcp.Calls.Tracked.{queue_of}

-- The answers, the newest first.
abbrev pub answered : List ℕ → Trace → Trace
answered [] t = t
answered (cid ∷ cids) t = answered cids (answer cid 200 ∷ t)

answer_each_lem :
    (cids : List ℕ) (s : Sys)
    → answer_each cids s ≡ record s { trace = answered (keep (has s.calls.calls) cids) s.trace }
unfolding answer_each answer_one
answer_each_lem [] s = refl
answer_each_lem (cid ∷ cids) s = elim (Bool-cases (has s.calls.calls cid)) [
  | inl e ↦ rw (e, answer_each) (answer_each_lem cids (attempt (answer cid 200) s))
  | inr e ↦ rw (e, answer_each) (answer_each_lem cids s)
]

-- The answers of every phone's queue, phone by phone in the order of the table.
abbrev pub answered_queues : Dict ℕ SipCall → Dict String (List ℕ) → Trace → Trace
answered_queues calls [] t = t
answered_queues calls ((phone, queue) ∷ d) t =
    answered_queues calls d (answered (keep (has calls) queue) t)

keep-append :
    (calls : Dict ℕ SipCall) (xs ys : List ℕ)
    → keep (has calls) (xs ++ ys) ≡ keep (has calls) xs ++ keep (has calls) ys
keep-append calls [] ys = refl
keep-append calls (x ∷ xs) ys = ground (arith, keep-append calls xs ys)

answered-append : (xs ys : List ℕ) (t : Trace) → answered (xs ++ ys) t ≡ answered ys (answered xs t)
answered-append [] ys t = refl
answered-append (x ∷ xs) ys t = answered-append xs ys (answer x 200 ∷ t)

answered-all_pending :
    (calls : Dict ℕ SipCall) (d : Dict String (List ℕ)) (t : Trace)
    → answered (keep (has calls) (all_pending d)) t ≡ answered_queues calls d t
answered-all_pending calls [] t = refl
answered-all_pending calls ((phone, queue) ∷ d) t =
    ap (λ cids. answered cids t) (keep-append calls queue (all_pending d))
    ∙ answered-append (keep (has calls) queue) (keep (has calls) (all_pending d)) t
    ∙ answered-all_pending calls d (answered (keep (has calls) queue) t)

get-emptied :
    (d : Dict String (List ℕ)) (phone : String)
    → get (emptied d) phone ≡ (if has d phone then some [] else none)
unfolding get
get-emptied [] phone = refl
get-emptied ((p, queue) ∷ d) phone = ground (arith, get-emptied d phone)

-- A poll of the auto-answers asks the library for a 200 for every pending call that is still
-- tracked, phone by phone and in the order in which they came, and for nothing else; every queue is
-- empty afterwards, and only the queues and the trace have changed.
pub process_auto_answers_lem :
    (phone : String) (s : Sys)
    → let s' = process_auto_answers s in
      (s'.trace ≡ answered_queues s.calls.calls s.calls.auto_answer_pending s.trace)
      × (get s'.calls.auto_answer_pending phone
          ≡ (if has s.calls.auto_answer_pending phone then some [] else none))
      × (s' ≡ record s {
        calls = record s.calls { auto_answer_pending = s'.calls.auto_answer_pending };
        trace = s'.trace;
      })
unfolding process_auto_answers
process_auto_answers_lem phone s =
    let d = s.calls.auto_answer_pending in
    let s0 =
      update_calls (λ c. record c { auto_answer_pending = emptied c.auto_answer_pending }) s in
    let e = answer_each_lem (all_pending d) s0 in
    (
      ap (λ (s : Sys). s.trace) e ∙ answered-all_pending s.calls.calls d s.trace,
      ap (λ (s : Sys). get s.calls.auto_answer_pending phone) e ∙ get-emptied d phone,
      rw e,
    )

-- Answering a call by its id, whatever the library says, leaves the call at the head of its phone's
-- queue: the next answer that names no call is for the same call again.
pub answer_by_id_keeps_queue :
    (pj : Pj) (phone : String) (cid code : ℕ) (rest : List ℕ) (s : Sys)
    → get s.calls.incoming_queue phone ≡ some (cid ∷ rest)
    → owned_by phone s.calls.call_phone cid ≡ true
    → has s.calls.calls cid ≡ true
    → let s' = (answer_call pj (some phone) (some cid) code s).1 in
      (contains cid (queue_of s'.calls phone) ≡ true) × ((next_incoming phone s').0 ≡ some cid)
unfolding answer_call resolve_phone get_call ensure_call_belongs_to get_call_by_id
    ensure_incoming_handler next_incoming pop_queued
answer_by_id_keeps_queue pj phone cid code rest s q own there =
    ground (arith, nat_eq.beq_iff cid cid)
