-- ===== src/Call/Consistency.antt =====
-- The fields of a `SipCall` that must agree with each other, through every method of the class.
use pjsua_mcp.Prelude.{
  ℕ, String, ◌≡◌, Bool, true, false, some, is_some, arith, Option-cases, inl, inr,
}
use pjsua_mcp.Pj.{Pj}
use pjsua_mcp.Call.Data.{SipCall, Leg}
use pjsua_mcp.Call.Audio.{
  create_recording, start_recording, reconnect_recorder, stop_recording, set_recording,
}
use pjsua_mcp.Call.Playback.{stop_player, play_file, start_default_moh, stop_playback}
use pjsua_mcp.Call.Callbacks.{on_call_state}

pub record IsConsistent (c : SipCall) : Type 0 where
  pub recording_agrees : c.recording_file ≡ c.recorder
  pub shown_recording : c.info.recording_file ≡ c.recorder
  pub playing_agrees : c.player_file ≡ c.player
  pub shown_playing : c.info.playing_file ≡ c.player
  pub needs_audio : is_some c.recorder ≡ true → is_some c.aud_med ≡ true
  pub not_pending : is_some c.recorder ≡ true → c.pending_start ≡ false

module _ (pj : Pj) where
  pub create_recording-IsConsistent :
      (id port : ℕ) (s : Leg)
      → s.call.aud_med ≡ some port
      → IsConsistent s.call
      → IsConsistent (create_recording pj id port s).call
  unfolding create_recording
  create_recording-IsConsistent id port s a h = ground arith

  pub start_recording-IsConsistent :
      (id port : ℕ) (s : Leg)
      → s.call.aud_med ≡ some port
      → IsConsistent s.call
      → IsConsistent (start_recording pj id (some port) s).call
  unfolding start_recording
  start_recording-IsConsistent id port s a h =
      ground (arith, create_recording-IsConsistent id port s)

  pub stop_recording-IsConsistent :
      (s : Leg) → IsConsistent s.call → IsConsistent (stop_recording pj s).call
  unfolding stop_recording
  stop_recording-IsConsistent s h = ground arith

  pub stop_player-IsConsistent :
      (s : Leg) → IsConsistent s.call → IsConsistent (stop_player pj s).call
  unfolding stop_player
  stop_player-IsConsistent s h = ground arith

  pub play_file-IsConsistent :
      (file : String) (loop : Bool) (s : Leg)
      → IsConsistent s.call
      → IsConsistent (play_file pj file loop s).1.call
  unfolding play_file
  play_file-IsConsistent file loop s h = ground arith

  pub reconnect_recorder-IsConsistent :
      (id port : ℕ) (s : Leg)
      → s.call.aud_med ≡ some port
      → IsConsistent s.call
      → IsConsistent (reconnect_recorder pj id port s).call
  unfolding reconnect_recorder
  reconnect_recorder-IsConsistent id port s a h =
      ground (arith, start_recording-IsConsistent id port s a h)

  pub set_recording-IsConsistent :
      (id : ℕ) (enabled : Bool) (s : Leg)
      → IsConsistent s.call
      → IsConsistent (set_recording pj id enabled s).call
  unfolding set_recording
  set_recording-IsConsistent id true s h = elim (Option-cases s.call.aud_med) [
    | inl none_yet ↦ ground arith
    | inr (port, e) ↦
        let s' = record s { call = record s.call { recording_enabled = true } } in
        rw e (start_recording-IsConsistent id port s' e (ground arith))
  ]
  set_recording-IsConsistent id false s h =
      let s' = record s { call = record s.call { recording_enabled = false } } in
      stop_recording-IsConsistent s' (ground arith)

  pub start_default_moh-IsConsistent :
      (s : Leg) → IsConsistent s.call → IsConsistent (start_default_moh pj s).1.call
  unfolding start_default_moh
  start_default_moh-IsConsistent s h =
      ground (arith, play_file-IsConsistent "/app/audio/moh.wav" true s h)

  pub stop_playback-IsConsistent :
      (s : Leg) → IsConsistent s.call → IsConsistent (stop_playback pj s).1.call
  unfolding stop_playback
  stop_playback-IsConsistent s h =
      start_default_moh-IsConsistent (stop_player pj s) (stop_player-IsConsistent s h)

  pub on_call_state-IsConsistent :
      (s : Leg) → IsConsistent s.call → IsConsistent (on_call_state pj s).1.call
  unfolding on_call_state
  on_call_state-IsConsistent s h = ground arith
