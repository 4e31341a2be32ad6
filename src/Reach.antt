-- ===== src/Reach.antt =====
-- The server's SIP side as one state machine: what clients ask of `CallManager` and `PhoneRegistry`
-- (src/call_manager.py, src/account_manager.py), what the SIP library reports, and the poll loop, in
-- any order.
pub mod Ops
pub mod Engine
pub mod Tests
use pjsua_mcp.Prelude.{
  ℕ, String, Bool, true, false, Option, none, List, refl, ◌≡◌, ◌⊎◌, nat_eq, string_eq, contains,
  arith,
}
use pjsua_mcp.Dict.{get, has}
use pjsua_mcp.Reach.Ops.{Op}
use pjsua_mcp.Exec.Keeps.{Keeps}
use pjsua_mcp.Pj.{Pj, RegInfo}
use pjsua_mcp.State.{Sys, PhoneConfig, Message, start}
use pjsua_mcp.Engine.{initialize, shutdown}
use pjsua_mcp.Capture.{cleanup, start_for_phone, stop_for_phone}
use pjsua_mcp.Reach.Engine.{
  initialize-Tracks, shutdown-Tracks, start_for_phone-Tracks, stop_for_phone-Tracks, cleanup-Tracks,
}
use pjsua_mcp.Phones.{
  drop_phone, add_phone, unregister_phone, reregister_phone, send_page, drop_all, reg_state_changed,
  message_received, configure, register, unregister,
}
use pjsua_mcp.Phones.Keeping.{
  drop_phone-Tracks, add_phone-Tracks, unregister_phone-Tracks, reregister_phone-Tracks,
  send_page-Tracks, drop_all-Tracks, reg_state_changed-Tracks, message_received-Tracks,
  register-Tracks, unregister-Tracks, configure-Tracks,
}
use pjsua_mcp.Calls.Lookup.{update_calls}
use pjsua_mcp.Calls.AutoCapture.{set_capture_enabled, process_auto_captures}
use pjsua_mcp.Calls.Lifecycle.{
  account_incoming_call, call_state_changed, call_media_changed, process_auto_answers, clear_calls,
}
use pjsua_mcp.Calls.Operations.{
  make_call, answer_call, reject_call, blind_transfer, attended_transfer, hang_up, hangup_all,
}
use pjsua_mcp.Calls.Media.{
  send_dtmf, play_audio, stop_audio, hold_call, unhold_call, conference, set_codecs_for_phone,
  set_recording_enabled,
}
use pjsua_mcp.Calls.Tracked.{IsTracked, clear_calls-IsTracked}
use pjsua_mcp.Calls.Keeping.{Tracks}
use pjsua_mcp.Calls.Events.{
  SameTables-Tracks, set_capture_enabled_tables, process_auto_captures_tables,
  call_state_changed-Tracks, call_media_changed-Tracks, process_auto_answers-Tracks,
}
use pjsua_mcp.Calls.Clients.{
  account_incoming_call-Tracks, PlacesFresh, make_call-Tracks, answer_call-Tracks,
  reject_call-Tracks, blind_transfer-Tracks, hang_up-Tracks, attended_transfer-Tracks,
  hangup_all-Tracks,
}
use pjsua_mcp.Calls.MediaClients.{
  send_dtmf-Tracks, play_audio-Tracks, stop_audio-Tracks, hold_call-Tracks, unhold_call-Tracks,
  conference-Tracks, set_codecs_for_phone-Tracks, set_recording_enabled-Tracks,
}

-- The state after a step. An operation that raises leaves what it has written.
abbrev pub run : Pj → Op → Sys → Sys
run pj Op.initialize s = (initialize pj s).1
run pj Op.shutdown s = shutdown s
run pj (Op.start_capture p cid) s = (start_for_phone pj p cid s).1
run pj (Op.stop_capture p) s = (stop_for_phone pj p s).1
run pj Op.cleanup_captures s = cleanup pj s
run pj (Op.add_phone p cfg r) s = (add_phone pj p cfg r s).1
run pj (Op.drop_phone p) s = (drop_phone pj p s).1
run pj (Op.unregister_phone p) s = (unregister_phone pj p s).1
run pj (Op.reregister_phone p) s = (reregister_phone pj p s).1
run pj (Op.send_page dest body p) s = (send_page pj dest body p s).1
run pj Op.drop_all s = drop_all pj s
run pj (Op.configure cfg) s = configure cfg s
run pj Op.register s = (register pj s).1
run pj Op.unregister s = (unregister pj s).1
run pj (Op.make_call dest p) s = (make_call pj dest p s).1
run pj (Op.answer_call p cid code) s = (answer_call pj p cid code s).1
run pj (Op.reject_call p cid code) s = (reject_call pj p cid code s).1
run pj (Op.hang_up p cid) s = (hang_up pj p cid s).1
run pj (Op.hangup_all p) s = hangup_all pj p s
run pj (Op.blind_transfer dest p cid) s = (blind_transfer pj dest p cid s).1
run pj (Op.attended_transfer p a b) s = (attended_transfer pj p a b s).1
run pj (Op.conference cids p) s = (conference cids p s).1
run pj (Op.send_dtmf cid ds p) s = (send_dtmf pj cid ds p s).1
run pj (Op.play_audio file p cid loop) s = (play_audio pj file p cid loop s).1
run pj (Op.stop_audio p cid) s = (stop_audio pj p cid s).1
run pj (Op.hold_call cid p) s = (hold_call pj cid p s).1
run pj (Op.unhold_call cid p) s = (unhold_call pj cid p s).1
run pj (Op.set_codecs p codecs) s = (set_codecs_for_phone pj p codecs s).1
run pj (Op.set_recording p b) s = (set_recording_enabled pj p b s).1
run pj (Op.set_capture p b) s = (set_capture_enabled p b s).1
run pj Op.clear_calls s = update_calls clear_calls s
run pj (Op.incoming_call p cid) s = account_incoming_call pj p cid s
run pj (Op.call_state cid) s = call_state_changed pj cid s
run pj (Op.call_media cid) s = call_media_changed pj cid s
run pj (Op.reg_state p info) s = reg_state_changed p info s
run pj (Op.instant_message p m) s = message_received p m s
run pj Op.poll_auto_answers s = process_auto_answers s
run pj Op.poll_auto_captures s = process_auto_captures pj s

-- What the SIP library promises of ids: one that it gives to a new call is not that of a call that
-- the program still tracks.
abbrev pub IsFresh : Pj → Op → Sys → Type 0
IsFresh pj (Op.make_call dest p) s = PlacesFresh pj s
IsFresh pj (Op.incoming_call p cid) s = has s.calls.calls cid ≡ false
IsFresh pj _ s = Unit {0}

-- The states that the program can be in.
pub data Reach (pj : Pj) : Sys → Type 0 where
  at_start : Reach pj start
  step : (op : Op) (s : Sys) → IsFresh pj op s → Reach pj s → Reach pj (run pj op s)

start-Tracks : Tracks start
unfolding get
start-Tracks = record {
  proper_calls = tt;
  proper_owners = tt;
  owner_agrees = λ cid. refl;
  queued = λ p cid. ground arith;
}

run-Tracks : (pj : Pj) (op : Op) (s : Sys) → IsFresh pj op s → Tracks s → Tracks (run pj op s)
run-Tracks pj Op.initialize s f h = initialize-Tracks pj s h
run-Tracks pj Op.shutdown s f h = shutdown-Tracks s h
run-Tracks pj (Op.start_capture p cid) s f h = start_for_phone-Tracks pj p cid s h
run-Tracks pj (Op.stop_capture p) s f h = stop_for_phone-Tracks pj p s h
run-Tracks pj Op.cleanup_captures s f h = cleanup-Tracks pj s h
run-Tracks pj (Op.add_phone p cfg r) s f h = (add_phone-Tracks pj p cfg r).at s h
run-Tracks pj (Op.drop_phone p) s f h = drop_phone-Tracks pj p s h
run-Tracks pj (Op.unregister_phone p) s f h = (unregister_phone-Tracks pj p).at s h
run-Tracks pj (Op.reregister_phone p) s f h = (reregister_phone-Tracks pj p).at s h
run-Tracks pj (Op.send_page dest body p) s f h = send_page-Tracks pj dest body p s h
run-Tracks pj Op.drop_all s f h = drop_all-Tracks pj s h
run-Tracks pj (Op.configure cfg) s f h = configure-Tracks cfg s h
run-Tracks pj Op.register s f h = (register-Tracks pj).at s h
run-Tracks pj Op.unregister s f h = unregister-Tracks pj s h
run-Tracks pj (Op.make_call dest p) s f h = make_call-Tracks pj dest p s f h
run-Tracks pj (Op.answer_call p cid code) s f h = (answer_call-Tracks pj p cid code).at s h
run-Tracks pj (Op.reject_call p cid code) s f h = (reject_call-Tracks pj p cid code).at s h
run-Tracks pj (Op.hang_up p cid) s f h = (hang_up-Tracks pj p cid).at s h
run-Tracks pj (Op.hangup_all p) s f h = hangup_all-Tracks pj p s h
run-Tracks pj (Op.blind_transfer dest p cid) s f h = (blind_transfer-Tracks pj dest p cid).at s h
run-Tracks pj (Op.attended_transfer p a b) s f h = (attended_transfer-Tracks pj p a b).at s h
run-Tracks pj (Op.conference cids p) s f h = (conference-Tracks pj cids p).at s h
run-Tracks pj (Op.send_dtmf cid ds p) s f h = (send_dtmf-Tracks pj cid ds p).at s h
run-Tracks pj (Op.play_audio file p cid loop) s f h = (play_audio-Tracks pj file p cid loop).at s h
run-Tracks pj (Op.stop_audio p cid) s f h = (stop_audio-Tracks pj p cid).at s h
run-Tracks pj (Op.hold_call cid p) s f h = (hold_call-Tracks pj cid p).at s h
run-Tracks pj (Op.unhold_call cid p) s f h = (unhold_call-Tracks pj cid p).at s h
run-Tracks pj (Op.set_codecs p codecs) s f h = set_codecs_for_phone-Tracks pj p codecs s h
run-Tracks pj (Op.set_recording p b) s f h = set_recording_enabled-Tracks pj p b s h
run-Tracks pj (Op.set_capture p b) s f h =
    SameTables-Tracks {s = s} (set_capture_enabled_tables p b s) h
run-Tracks pj Op.clear_calls s f h = clear_calls-IsTracked s.calls
run-Tracks pj (Op.incoming_call p cid) s f h = account_incoming_call-Tracks pj p cid s f h
run-Tracks pj (Op.call_state cid) s f h = call_state_changed-Tracks pj cid s h
run-Tracks pj (Op.call_media cid) s f h = call_media_changed-Tracks pj cid s h
run-Tracks pj (Op.reg_state p info) s f h = reg_state_changed-Tracks p info s h
run-Tracks pj (Op.instant_message p m) s f h = message_received-Tracks p m s h
run-Tracks pj Op.poll_auto_answers s f h = process_auto_answers-Tracks s h
run-Tracks pj Op.poll_auto_captures s f h =
    SameTables-Tracks {s = s} (process_auto_captures_tables pj s) h

-- In every state that the program can reach, by any sequence of operations, callbacks and polls,
-- and whatever the SIP library answers, so long as it gives no new call the id of a call that is
-- still tracked: the tables of calls and of owners hold the same ids, each once, under the phone
-- that the call object names, and what waits in a phone's queue is a call of that phone.
pub reachable-IsTracked : (pj : Pj) (s : Sys) → Reach pj s → IsTracked s.calls
reachable-IsTracked pj _ Reach.at_start = start-Tracks
reachable-IsTracked pj _ (Reach.step op s f r) = run-Tracks pj op s f (reachable-IsTracked pj s r)
