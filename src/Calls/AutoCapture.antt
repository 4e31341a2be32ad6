-- ===== src/Calls/AutoCapture.antt =====
-- The auto-capture counter and its two queues, in `CallManager` of src/call_manager.py.
use pjsua_mcp.Prelude.{
  ℕ, ◌+◌, ◌-◌, String, Bool, true, false, not, ◌&&◌, Option, none, some, List, [], ◌∷◌, ◌++◌,
  nat_eq, string_eq, ◌==◌, ltb, leb, or_else, is_some, if◌then◌else◌,
}
use pjsua_mcp.Dict.{Dict, get, set, pop}
use pjsua_mcp.Exec.{Exec, ok, err, phone_not_found}
use pjsua_mcp.Pj.{Pj}
use pjsua_mcp.State.{Sys, PhoneConfig, is_capturing}
use pjsua_mcp.Capture.{start_for_phone, stop_for_phone}
use pjsua_mcp.Calls.Lookup.{update_calls}

abbrev pub queue_start : String → Option ℕ → Sys → Sys
queue_start phone cid =
    update_calls λ c. record c { pending_start = c.pending_start ++ (phone, cid) ∷ [] }

abbrev pub queue_stop : String → Sys → Sys
queue_stop phone = update_calls λ c. record c { pending_stop = c.pending_stop ++ phone ∷ [] }

abbrev pub capture_wanted : String → Sys → Bool
capture_wanted phone s = elim (get s.phones.configs phone) [
  | none ↦ false
  | some cfg ↦ cfg.capture_enabled
]

abbrev pub count_of : String → Sys → ℕ
count_of phone s = or_else (get s.calls.active_calls phone) 0

-- `_register_call_active`
unfoldable pub register_call_active : String → ℕ → Sys → Sys
register_call_active phone cid s =
    let n = count_of phone s + 1 in
    let s' = update_calls (λ c. record c { active_calls = set c.active_calls phone n }) s in
    if n == 1 && capture_wanted phone s then queue_start phone (some cid) s' else s'

-- The counter's part of `_on_call_disconnected`: whether this was the last call, and the state.
unfoldable pub count_down : String → Sys → Bool × Sys
count_down phone s = elim (get s.calls.active_calls phone) [
  | none ↦ (false, s)
  | some n ↦
      if leb n 1
      then (true, update_calls (λ c. record c { active_calls = pop c.active_calls phone }) s)
      else (
        false,
        update_calls (λ c. record c { active_calls = set c.active_calls phone (n - 1) }) s,
      )
]

unfoldable pub queue_stop_if : Bool → String → Sys → Sys
queue_stop_if is_last phone s = if is_last && is_capturing phone s then queue_stop phone s else s

-- `next((cid for cid, pid in self._call_phone.items() if pid == phone_id), None)`
abbrev pub first_call_of : String → Dict ℕ String → Option ℕ
first_call_of phone [] = none
first_call_of phone ((cid, p) ∷ d) =
    let rest = first_call_of phone d in if p == phone then some cid else rest

abbrev set_flag : String → PhoneConfig → Bool → Sys → Sys
set_flag phone cfg enabled s = record s {
  phones = record s.phones {
    configs = set s.phones.configs phone (record cfg { capture_enabled = enabled });
  };
}

-- `set_capture_enabled`
unfoldable pub set_capture_enabled : String → Bool → Exec Sys (Unit {0})
set_capture_enabled phone enabled s = elim (get s.phones.configs phone) [
  | none ↦ (err phone_not_found, s)
  | some cfg ↦
      let s' = set_flag phone cfg enabled s in
      let has_active = ltb 0 (count_of phone s') in
      let active_cid = first_call_of phone s'.calls.call_phone in
      (
        ok tt,
        if enabled
            then if has_active && is_some s'.captures && not (is_capturing phone s')
              then queue_start phone active_cid s'
              else s'
            else if is_capturing phone s'
            then queue_stop phone s'
            else s',
      )
]

module _ (pj : Pj) where
  -- One entry of each queue: an exception is only logged.
  unfoldable pub process_start : String → Option ℕ → Sys → Sys
  process_start phone cid s = if is_capturing phone s then s else (start_for_phone pj phone cid s).1

  unfoldable pub process_stop : String → Sys → Sys
  process_stop phone s = if is_capturing phone s then (stop_for_phone pj phone s).1 else s

  unfoldable pub process_starts : List (String × Option ℕ) → Sys → Sys
  unfolding process_start
  process_starts [] s = s
  process_starts ((phone, cid) ∷ q) s = process_starts q (process_start phone cid s)

  unfoldable pub process_stops : List String → Sys → Sys
  unfolding process_stop
  process_stops [] s = s
  process_stops (phone ∷ q) s = process_stops q (process_stop phone s)

  -- `process_auto_captures`: first every start, then every stop. Nothing that they call adds to the
  -- queues, so each is taken whole.
  unfoldable pub process_auto_captures : Sys → Sys
  unfolding process_starts process_stops
  process_auto_captures s =
      let starts = s.calls.pending_start in
      let stops = s.calls.pending_stop in
      let s' = update_calls (λ c. record c { pending_start = []; pending_stop = [] }) s in
      if is_some s.captures then process_stops stops (process_starts starts s') else s
