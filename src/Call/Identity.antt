-- ===== src/Call/Identity.antt =====
-- No method of a `SipCall` (src/call_manager.py) changes the phone that the call belongs to.
use pjsua_mcp.Prelude.{
  ℕ, String, ◌≡◌, Bool, true, Option, none, some, List, [], ◌∷◌, arith, Option-cases, inl, inr,
}
use pjsua_mcp.Exec.Keeps.{Keeps, Keeps-bind, Keeps-modify, Keeps-if, Keeps-pure}
use pjsua_mcp.Pj.{Pj, Media, connect, call_port, player_port}
use pjsua_mcp.Call.Data.{Leg, attempt}
use pjsua_mcp.Call.Audio.{start_recording, reconnect_recorder, stop_recording, set_recording}
use pjsua_mcp.Call.Playback.{stop_player, play_file, start_default_moh, stop_playback}
use pjsua_mcp.Call.Callbacks.{
  begin_media, finish_media, reconnect_from, reconnect_player, refresh_info, on_call_state,
  on_media, media_loop, on_call_media_state,
}

abbrev pub IsOf : String → Leg → Type 0
IsOf phone s = s.call.phone_id ≡ phone

module _ (pj : Pj) (phone : String) where
  start_recording-IsOf :
      (id : ℕ) (aud : Option ℕ) (s : Leg) → IsOf phone s → IsOf phone (start_recording pj id aud s)
  unfolding start_recording
  start_recording-IsOf id aud s h = ground arith

  reconnect_recorder-IsOf :
      (id port : ℕ) (s : Leg) → IsOf phone s → IsOf phone (reconnect_recorder pj id port s)
  unfolding reconnect_recorder
  reconnect_recorder-IsOf id port s h = ground (arith, start_recording-IsOf id (some port) s)

  stop_recording-IsOf : (s : Leg) → IsOf phone s → IsOf phone (stop_recording pj s)
  unfolding stop_recording
  stop_recording-IsOf s h = ground arith

  pub set_recording-IsOf :
      (id : ℕ) (enabled : Bool) (s : Leg)
      → IsOf phone s
      → IsOf phone (set_recording pj id enabled s)
  unfolding set_recording
  set_recording-IsOf id enabled s h =
      let s' = record s { call = record s.call { recording_enabled = enabled } } in
      ground (arith, start_recording-IsOf id s.call.aud_med s', stop_recording-IsOf s')

  stop_player-IsOf : (s : Leg) → IsOf phone s → IsOf phone (stop_player pj s)
  unfolding stop_player
  stop_player-IsOf s h = ground arith

  pub play_file-IsOf : (file : String) (loop : Bool) → Keeps (IsOf phone) (play_file pj file loop)
  unfolding play_file
  play_file-IsOf file loop = record { at = λ s h. ground arith }

  start_default_moh-IsOf : Keeps (IsOf phone) (start_default_moh pj)
  unfolding start_default_moh
  start_default_moh-IsOf = record {
    at = λ s h. ground (arith, (play_file-IsOf "/app/audio/moh.wav" true).at s h);
  }

  pub stop_playback-IsOf : Keeps (IsOf phone) (stop_playback pj)
  unfolding stop_playback
  stop_playback-IsOf =
      Keeps-bind _ _ (Keeps-modify (stop_player pj) stop_player-IsOf) (λ _. start_default_moh-IsOf)

  pub on_call_state-IsOf : Keeps (IsOf phone) (on_call_state pj)
  unfolding on_call_state
  on_call_state-IsOf = record { at = λ s h. ground arith }

  reconnect_from-IsOf :
      (port : ℕ) (player : Option String) → Keeps (IsOf phone) (reconnect_from pj port player)
  reconnect_from-IsOf port none = start_default_moh-IsOf
  reconnect_from-IsOf port (some file) =
      Keeps-modify (attempt (connect (player_port file) (call_port port))) (λ s h. h)

  refresh_info-IsOf : (m : Media) (s : Leg) → IsOf phone s → IsOf phone (refresh_info pj m s)
  refresh_info-IsOf m s h = ground arith

  on_media-IsOf : (id : ℕ) (m : Media) → Keeps (IsOf phone) (on_media pj id m)
  unfolding on_media finish_media
  on_media-IsOf id m =
      let rest = λ (x : Unit {0}).
        Keeps-bind _ _
          (Keeps-modify (reconnect_recorder pj id m.port) (reconnect_recorder-IsOf id m.port))
          (λ _. Keeps-modify (refresh_info pj m) (refresh_info-IsOf m)) in
      let all =
        Keeps-bind (reconnect_player pj m.port) _
          (record { at = λ s. (reconnect_from-IsOf m.port s.call.player).at s }) rest in
      record { at = λ s h. all.at (begin_media pj m s) (ground arith) }

  media_loop-IsOf : (id : ℕ) (ms : List Media) → Keeps (IsOf phone) (media_loop pj id ms)
  unfolding media_loop
  media_loop-IsOf id [] = Keeps-pure tt
  media_loop-IsOf id (m ∷ ms) =
      let rest = media_loop-IsOf id ms in
      Keeps-if m.is_active_audio _ _
        (λ _. Keeps-bind (on_media pj id m) _ (on_media-IsOf id m) (λ _. rest)) (λ _. rest)

  pub on_call_media_state-IsOf : Keeps (IsOf phone) (on_call_media_state pj)
  unfolding on_call_media_state
  on_call_media_state-IsOf = record {
    at = λ s h. elim (Option-cases (pj.call_info s.trace s.call.id)) [
      | inl e ↦ rw (e, on_call_media_state) h
      | inr (ci, e) ↦ rw (e, on_call_media_state) ((media_loop-IsOf ci.id ci.media).at s h)
    ];
  }
