-- ===== src/Calls/Tests.antt =====
-- `CallManager` of src/call_manager.py at concrete inputs.
use pjsua_mcp.Prelude.{
  ℕ, ◌-◌, true, false, not, ◌&&◌, ◌||◌, none, some, [], ◌∷◌, ◌≡◌, refl, nat_eq, string_eq, ◌==◌,
  contains, if◌then◌else◌,
}
use pjsua_mcp.Dict.{get, set, has}
use pjsua_mcp.Exec.{ok, err}
use pjsua_mcp.Pj.{confirmed, disconnected}
use pjsua_mcp.State.{Sys}
use pjsua_mcp.Calls.Lookup.{
  owned_by, get_call, resolve_phone, next_incoming, find_incoming, pop_queued,
}
use pjsua_mcp.Calls.AutoCapture.{
  count_of, capture_wanted, count_down, set_capture_enabled, process_auto_captures,
}
use pjsua_mcp.State.{is_capturing}
use pjsua_mcp.Calls.Lifecycle.{call_state_changed, process_auto_answers}
use pjsua_mcp.Calls.Operations.{
  make_call, hangup_all, hang_up, reject_call, blind_transfer, in_scope, place_and_register,
  place_call, register_outgoing, require_account, ensure_incoming_handler,
}
use pjsua_mcp.Calls.Media.{
  send_dtmf, hold_call, unhold_call, play_audio, stop_audio, set_recording_enabled,
}
use pjsua_mcp.Calls.Isolation.{IsOwn, get_call-IsOwn, refusal, foreign_call_refused}
use pjsua_mcp.Calls.Endings.{IsForgotten, disconnected-IsForgotten}
use pjsua_mcp.Calls.HangUp.{was_hung_up, was_hung_up-hangup_all}
use pjsua_mcp.Calls.Captures.{starting, count_down_lem, process_auto_captures_lem, off_and_on_stops}
use pjsua_mcp.Calls.Answers.{answered_queues, process_auto_answers_lem}
use pjsua_mcp.Call.Data.{new_call}
use pjsua_mcp.Calls.Outcomes.{
  recording_setting, codecs_setting, make_call_lem, switch_at, set_recording_enabled_lem,
}
use pjsua_mcp.Fixtures.{
  talking, ending, info_in, settings, alice_call, two_phones, two_phones-Tracks,
}

abbrev after_incoming : Sys
after_incoming = (get_call talking "alice" none true two_phones).1

found_incoming : get_call talking "alice" none true two_phones ≡ (ok 1, after_incoming)
unfolding get_call find_incoming next_incoming pop_queued get
found_incoming = refl

get_call-IsOwn_example : IsOwn "alice" 1 two_phones
get_call-IsOwn_example =
    get_call-IsOwn talking "alice" none true two_phones after_incoming 1 two_phones-Tracks
      found_incoming

bobs_call : owned_by "alice" two_phones.calls.call_phone 2 ≡ false
unfolding get
bobs_call = refl

foreign_call_refused_example :
    let refused = refusal 2 two_phones in
    (send_dtmf talking 2 ("1" ∷ []) (some "alice") two_phones ≡ (err refused, two_phones))
    × (hold_call talking 2 (some "alice") two_phones ≡ (err refused, two_phones))
    × (unhold_call talking 2 (some "alice") two_phones ≡ (err refused, two_phones))
    × (hang_up talking (some "alice") (some 2) two_phones ≡ (err refused, two_phones))
    × (reject_call talking (some "alice") (some 2) 486 two_phones ≡ (err refused, two_phones))
    × (blind_transfer talking "sip:x@y" (some "alice") (some 2) two_phones
        ≡ (err refused, two_phones))
    × (play_audio talking "/a.wav" (some "alice") (some 2) true two_phones
        ≡ (err refused, two_phones))
    × (stop_audio talking (some "alice") (some 2) two_phones ≡ (err refused, two_phones))
foreign_call_refused_example =
    foreign_call_refused talking "alice" 2 two_phones ("1" ∷ []) "sip:x@y" "/a.wav" 486 true
      bobs_call

not_both :
    (owned_by "alice" two_phones.calls.call_phone 1
      && owned_by "alice" two_phones.calls.call_phone 2)
    ≡ false
unfolding get
not_both = refl

alice_tracked : get two_phones.calls.calls 1 ≡ some alice_call
unfolding get
alice_tracked = refl

disconnected-IsForgotten_example : IsForgotten 1 (call_state_changed ending 1 two_phones)
disconnected-IsForgotten_example =
    disconnected-IsForgotten ending 1 alice_call (info_in disconnected 1) two_phones
      two_phones-Tracks alice_tracked refl refl

was_hung_up-hangup_all_example :
    was_hung_up 1 (hangup_all talking (some "alice") two_phones).trace ≡ (
      was_hung_up 1 two_phones.trace
      || (has two_phones.calls.calls 1
          && in_scope (some "alice") two_phones.calls.call_phone 1
          && true))
was_hung_up-hangup_all_example =
    was_hung_up-hangup_all talking (some "alice") 1 (some true) two_phones (λ t. refl)

process_auto_captures_lem_example :
    let s' = process_auto_captures talking two_phones in
    (is_capturing "bob" s' ≡ (
      (is_capturing "bob" two_phones || contains "bob" (starting two_phones.calls.pending_start))
      && not (contains "bob" two_phones.calls.pending_stop)))
    × (s'.calls.pending_start ≡ [])
    × (s'.calls.pending_stop ≡ [])
process_auto_captures_lem_example =
    process_auto_captures_lem talking "bob" two_phones (λ t a. refl) refl

alice_counted : has two_phones.calls.active_calls "alice" ≡ not (count_of "alice" two_phones == 0)
unfolding get
alice_counted = refl

count_down_lem_example :
    let (is_last, s') = count_down "alice" two_phones in
    (is_last ≡ (count_of "alice" two_phones == 1))
    × (count_of "alice" s' ≡ count_of "alice" two_phones - 1)
count_down_lem_example = count_down_lem "alice" "alice" two_phones alice_counted

alice_settings : get two_phones.phones.configs "alice" ≡ some settings
unfolding get
alice_settings = refl

alice_captured : is_capturing "alice" two_phones ≡ true
unfolding get
alice_captured = refl

off_and_on_stops_example :
    let flipped =
      (set_capture_enabled "alice" true (set_capture_enabled "alice" false two_phones).1).1 in
    (capture_wanted "alice" flipped ≡ true)
    × (is_capturing "alice" (process_auto_captures talking flipped) ≡ false)
off_and_on_stops_example =
    off_and_on_stops talking "alice" settings two_phones alice_settings alice_captured

process_auto_answers_lem_example :
    let s' = process_auto_answers two_phones in
    let pending = two_phones.calls.auto_answer_pending in
    (s'.trace ≡ answered_queues two_phones.calls.calls pending two_phones.trace)
    × (get s'.calls.auto_answer_pending "alice" ≡ (if has pending "alice" then some [] else none))
    × (s' ≡ record two_phones {
      calls = record two_phones.calls { auto_answer_pending = s'.calls.auto_answer_pending };
      trace = s'.trace;
    })
process_auto_answers_lem_example = process_auto_answers_lem "alice" two_phones

alice_queue : get two_phones.calls.incoming_queue "alice" ≡ some (1 ∷ [])
unfolding get
alice_queue = refl

alice_owns : owned_by "alice" two_phones.calls.call_phone 1 ≡ true
unfolding get
alice_owns = refl

tracked_1 : has two_phones.calls.calls 1 ≡ true
unfolding get
tracked_1 = refl

abbrev after_call : Sys
after_call = (make_call talking "sip:x@y" (some "alice") two_phones).1

call_placed :
    make_call talking "sip:x@y" (some "alice") two_phones ≡ (ok (info_in confirmed 5), after_call)
unfolding make_call place_and_register place_call register_outgoing require_account
    ensure_incoming_handler resolve_phone get set
call_placed = refl

make_call_lem_example :
    let placed = record (new_call 5 "alice" false true none) {
      recording_enabled = recording_setting (get two_phones.phones.configs "alice");
      codecs = codecs_setting (get two_phones.phones.configs "alice");
    } in
    (owned_by "alice" after_call.calls.call_phone 5 ≡ true)
    × (has two_phones.phones.accounts "alice" ≡ true)
    × ((j : ℕ)
        → get after_call.calls.calls j
          ≡ (if 5 == j then some placed else get two_phones.calls.calls j))
make_call_lem_example =
    make_call_lem talking "sip:x@y" "alice" two_phones after_call (info_in confirmed 5) call_placed

set_recording_enabled_lem_example :
    let (touched, s') = set_recording_enabled talking "alice" false two_phones in
    (contains 1 touched
      ≡ (has two_phones.calls.calls 1 && owned_by "alice" two_phones.calls.call_phone 1))
    × (switch_at s' 1 ≡ (if contains 1 touched then some false else switch_at two_phones 1))
    × (get s'.calls.calls 1
        ≡ (if contains 1 touched then get s'.calls.calls 1 else get two_phones.calls.calls 1))
set_recording_enabled_lem_example = set_recording_enabled_lem talking "alice" false 1 two_phones

abbrev after_end : Sys
after_end = call_state_changed ending 1 two_phones
