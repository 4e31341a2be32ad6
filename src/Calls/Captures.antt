-- ===== src/Calls/Captures.antt =====
-- The counter of active calls and the queues of captures to start and to stop, in `CallManager` of
-- src/call_manager.py.
use pjsua_mcp.Prelude.{
  ℕ, ◌+◌, ◌-◌, String, ◌≡◌, true, false, not, ◌&&◌, ◌||◌, Option, some, List, [], ◌∷◌, ◌++◌, arith,
  nat_eq, string_eq, ◌==◌, is_some, contains, contains-append, Option-cases, inl, inr,
  if◌then◌else◌,
}
use pjsua_mcp.Dict.{get, has, get-set, get-pop}
use pjsua_mcp.Pj.{Pj, Trace, Action, CapturePath, make_directory, spawn_tcpdump}
use pjsua_mcp.State.{Sys, PhoneConfig, is_capturing}
use pjsua_mcp.Capture.{start_for_phone, stop_for_phone, end_process}
use pjsua_mcp.Calls.Lookup.{update_calls}
use pjsua_mcp.Calls.Events.{calls-process_starts, calls-process_stops}
use pjsua_mcp.Calls.AutoCapture.{
  capture_wanted, count_of, register_call_active, count_down, set_capture_enabled, process_start,
  process_stop, process_starts, process_stops, process_auto_captures,
}

-- The phones of the queue of starts.
abbrev pub starting : List (String × Option ℕ) → List String
starting [] = []
starting ((phone, cid) ∷ q) = phone ∷ starting q

-- A call that becomes active adds one to the count of its phone and to no other; a capture is queued,
-- for that phone and that call, exactly when it is the first one and the phone wants captures.
pub register_call_active_lem :
    (phone q : String) (cid : ℕ) (s : Sys)
    → let s' = register_call_active phone cid s in
      (count_of q s' ≡ (if phone == q then count_of q s + 1 else count_of q s))
      × (s'.calls.pending_start ≡ (
          if count_of phone s == 0 && capture_wanted phone s
          then s.calls.pending_start ++ (phone, some cid) ∷ []
          else s.calls.pending_start))
      × (s'.calls.pending_stop ≡ s.calls.pending_stop)
unfolding register_call_active
register_call_active_lem phone q cid s = ground (
  arith,
  get-set s.calls.active_calls phone q (count_of phone s + 1),
  string_eq.beq_iff phone q,
  nat_eq.beq_iff (count_of phone s) 0,
  nat_eq.beq_iff (count_of phone s + 1) 1,
)

-- A call that ends takes one from the count of its phone, which stops at 0, and from no other; it is
-- said to be the last one exactly when the count was 1, if no phone has an entry of 0.
pub count_down_lem :
    (phone q : String) (s : Sys)
    → has s.calls.active_calls phone ≡ not (count_of phone s == 0)
    → let (is_last, s') = count_down phone s in
      (is_last ≡ (count_of phone s == 1))
      × (count_of q s' ≡ (if phone == q then count_of q s - 1 else count_of q s))
unfolding count_down
count_down_lem phone q s h = ground (
  arith,
  get-set s.calls.active_calls phone q (count_of phone s - 1),
  get-pop s.calls.active_calls phone q,
  string_eq.beq_iff phone q,
  nat_eq.beq_iff (count_of phone s) 0,
  nat_eq.beq_iff (count_of phone s) 1,
)

capturing-process_stop :
    (pj : Pj) (phone q : String) (s : Sys)
    → is_capturing q (process_stop pj phone s) ≡ (is_capturing q s && not (phone == q))
unfolding process_stop stop_for_phone end_process
capturing-process_stop pj phone q s = elim (Option-cases s.captures) [
  | inl e ↦ ground (arith)
  | inr (d, e) ↦ ground (arith, get-pop d phone q, string_eq.beq_iff phone q)
]

capturing-process_stops :
    (pj : Pj) (stops : List String) (q : String) (s : Sys)
    → is_capturing q (process_stops pj stops s) ≡ (is_capturing q s && not (contains q stops))
unfolding process_stops
capturing-process_stops pj [] q s = ground arith
capturing-process_stops pj (phone ∷ stops) q s = ground (
  arith,
  capturing-process_stops pj stops q (process_stop pj phone s),
  capturing-process_stop pj phone q s,
)

-- The library, the file system and the system's processes go along with everything.
abbrev pub AcceptsAll : Pj → Type 0
AcceptsAll pj = (t : Trace) (a : Action) → pj.accepts t a ≡ true

capturing-process_start :
    (pj : Pj) (phone q : String) (cid : Option ℕ) (s : Sys)
    → AcceptsAll pj
    → is_some s.captures ≡ true
    → (is_capturing q (process_start pj phone cid s) ≡ (is_capturing q s || phone == q))
      × (is_some (process_start pj phone cid s).captures ≡ true)
unfolding process_start start_for_phone
capturing-process_start pj phone q cid s all m =
    let path : CapturePath = record { phone_id = phone; call_id = cid; stamp = pj.stamp s.trace } in
    elim (Option-cases s.captures) [
      | inl e ↦ ground arith
      | inr (d, e) ↦ ground (
        arith,
        all s.trace (make_directory phone),
        all (make_directory phone ∷ s.trace) (spawn_tcpdump path),
        get-set d phone q path,
        string_eq.beq_iff phone q,
      )
    ]

capturing-process_starts :
    (pj : Pj) (starts : List (String × Option ℕ)) (q : String) (s : Sys)
    → AcceptsAll pj
    → is_some s.captures ≡ true
    → is_capturing q (process_starts pj starts s)
      ≡ (is_capturing q s || contains q (starting starts))
unfolding process_starts
capturing-process_starts pj [] q s all m = ground arith
capturing-process_starts pj ((phone, cid) ∷ starts) q s all m =
    let (now, still) = capturing-process_start pj phone q cid s all m in
    ground
      (arith, capturing-process_starts pj starts q (process_start pj phone cid s) all still, now)

-- A poll of the capture queues, where nothing fails: a phone is captured afterwards if and only if
-- it was captured before or stands in the queue of starts, and does not stand in the queue of
-- stops. Both queues are empty.
pub process_auto_captures_lem :
    (pj : Pj) (q : String) (s : Sys)
    → AcceptsAll pj
    → is_some s.captures ≡ true
    → let s' = process_auto_captures pj s in
      (is_capturing q s' ≡ (
        (is_capturing q s || contains q (starting s.calls.pending_start))
        && not (contains q s.calls.pending_stop)))
      × (s'.calls.pending_start ≡ [])
      × (s'.calls.pending_stop ≡ [])
unfolding process_auto_captures
process_auto_captures_lem pj q s all m =
    let s1 = update_calls (λ c. record c { pending_start = []; pending_stop = [] }) s in
    let s2 = process_starts pj s.calls.pending_start s1 in
    ground (
      arith,
      capturing-process_stops pj s.calls.pending_stop q s2,
      capturing-process_starts pj s.calls.pending_start q s1 all m,
      calls-process_starts pj s.calls.pending_start s1,
      calls-process_stops pj s.calls.pending_stop s2,
    )

-- Turning the captures of a phone off and on again while one is running, before the next poll: the
-- poll ends the capture, whatever the library answers, although the phone wants captures.
pub off_and_on_stops :
    (pj : Pj) (phone : String) (cfg : PhoneConfig) (s : Sys)
    → get s.phones.configs phone ≡ some cfg
    → is_capturing phone s ≡ true
    → let flipped = (set_capture_enabled phone true (set_capture_enabled phone false s).1).1 in
      (capture_wanted phone flipped ≡ true)
      × (is_capturing phone (process_auto_captures pj flipped) ≡ false)
unfolding set_capture_enabled process_auto_captures
off_and_on_stops pj phone cfg s e running =
    let off = (set_capture_enabled phone false s).1 in
    let on = (set_capture_enabled phone true off).1 in
    let s1 = update_calls (λ c. record c { pending_start = []; pending_stop = [] }) on in
    let s2 = process_starts pj on.calls.pending_start s1 in
    ground (
      arith,
      get-set s.phones.configs phone phone (record cfg { capture_enabled = false }),
      get-set off.phones.configs phone phone (record cfg { capture_enabled = true }),
      capturing-process_stops pj on.calls.pending_stop phone s2,
      contains-append phone s.calls.pending_stop (phone ∷ []),
      string_eq.beq_iff phone phone,
    )
