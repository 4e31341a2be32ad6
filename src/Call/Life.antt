-- ===== src/Call/Life.antt =====
-- The life of one `SipCall` (src/call_manager.py): any sequence of callbacks and of operations keeps
-- its fields consistent and its recordings paired with the tries to write their sidecars.
use pjsua_mcp.Prelude.{
  ℕ, String, ◌≡◌, Bool, true, false, Option, none, some, List, [], ◌∷◌, arith, Option-cases, inl,
  inr,
}
use pjsua_mcp.Exec.Keeps.{Keeps, Keeps-bind, Keeps-modify, Keeps-if, Keeps-pure}
use pjsua_mcp.Pj.{Pj, CapturePath, Media, CallInfo, disconnected, connect, call_port, player_port}
use pjsua_mcp.Call.Data.{Leg, new_call, attempt}
use pjsua_mcp.Call.Audio.{reconnect_recorder, set_recording}
use pjsua_mcp.Call.Playback.{stop_player, play_file, start_default_moh, stop_playback}
use pjsua_mcp.Call.Callbacks.{
  begin_media, finish_media, reconnect_from, reconnect_player, refresh_info, on_call_state,
  on_media, media_loop, on_call_media_state,
}
use pjsua_mcp.Call.Consistency.{
  IsConsistent, reconnect_recorder-IsConsistent, set_recording-IsConsistent,
  stop_player-IsConsistent, play_file-IsConsistent, on_call_state-IsConsistent,
}
use pjsua_mcp.Call.Sidecars.{
  IsPaired, opened, sidecars, reconnect_recorder-IsPaired, set_recording-IsPaired,
  stop_player-IsPaired, play_file-IsPaired, on_call_state-IsPaired,
}

pub record IsSound (pj : Pj) (s : Leg) : Type 0 where
  pub consistent : IsConsistent s.call
  pub paired : IsPaired pj s

-- What can happen to a call: the library's two callbacks, the recording switch, the player,
-- and a capture of its phone that starts or ends.
pub data Step : Type 0 where
  call_state media_state stop_audio : Step
  recording : ℕ → Bool → Step
  play : String → Bool → Step
  capture : Option CapturePath → Step

abbrev pub take_step : Pj → Step → Leg → Leg
take_step pj Step.call_state s = (on_call_state pj s).1
take_step pj Step.media_state s = (on_call_media_state pj s).1
take_step pj Step.stop_audio s = (stop_playback pj s).1
take_step pj (Step.recording id enabled) s = set_recording pj id enabled s
take_step pj (Step.play file loop) s = (play_file pj file loop s).1
take_step pj (Step.capture file) s = record s { pcap = file }

unfoldable pub live : Pj → List Step → Leg → Leg
live pj [] s = s
live pj (x ∷ xs) s = live pj xs (take_step pj x s)

module _ (pj : Pj) where
  play_file-IsSound :
      (file : String) (loop : Bool) (s : Leg)
      → IsSound pj s
      → IsSound pj (play_file pj file loop s).1
  play_file-IsSound file loop s h = record {
    consistent = play_file-IsConsistent pj file loop s h.consistent;
    paired = play_file-IsPaired pj file loop s h.paired;
  }

  start_default_moh-IsSound : (s : Leg) → IsSound pj s → IsSound pj (start_default_moh pj s).1
  unfolding start_default_moh
  start_default_moh-IsSound s h = ground (arith, play_file-IsSound "/app/audio/moh.wav" true s h)

  stop_playback-IsSound : (s : Leg) → IsSound pj s → IsSound pj (stop_playback pj s).1
  unfolding stop_playback
  stop_playback-IsSound s h = start_default_moh-IsSound (stop_player pj s) (record {
    consistent = stop_player-IsConsistent pj s h.consistent;
    paired = stop_player-IsPaired pj s h.paired;
  })

  aud_med-start_default_moh : (s : Leg) → (start_default_moh pj s).1.call.aud_med ≡ s.call.aud_med
  unfolding start_default_moh
  aud_med-start_default_moh s = ground arith

  abbrev HasAudio : ℕ → Leg → Type 0
  HasAudio port s = IsSound pj s × (s.call.aud_med ≡ some port)

  start_default_moh-HasAudio : (port : ℕ) → Keeps (HasAudio port) (start_default_moh pj)
  start_default_moh-HasAudio port = record {
    at = λ s h. (start_default_moh-IsSound s h.0, cc (aud_med-start_default_moh s, h.1));
  }

  reconnect_from-HasAudio :
      (port : ℕ) (player : Option String) → Keeps (HasAudio port) (reconnect_from pj port player)
  reconnect_from-HasAudio port none = start_default_moh-HasAudio port
  reconnect_from-HasAudio port (some file) =
      Keeps-modify (attempt (connect (player_port file) (call_port port))) λ s h. ground arith

  reconnect_recorder-IsSound :
      (id port : ℕ) (s : Leg)
      → s.call.aud_med ≡ some port
      → IsSound pj s
      → IsSound pj (reconnect_recorder pj id port s)
  reconnect_recorder-IsSound id port s a h = record {
    consistent = reconnect_recorder-IsConsistent pj id port s a h.consistent;
    paired = reconnect_recorder-IsPaired pj id port s h.paired;
  }

  aud_med-reconnect_recorder :
      (id port : ℕ) (s : Leg) → (reconnect_recorder pj id port s).call.aud_med ≡ s.call.aud_med
  unfolding reconnect_recorder
  aud_med-reconnect_recorder id port s = ground arith

  refresh_info-HasAudio :
      (port : ℕ) (m : Media) (s : Leg) → HasAudio port s → HasAudio port (refresh_info pj m s)
  refresh_info-HasAudio port m s h = ground arith

  -- from the player on
  finish_media-HasAudio : (id : ℕ) (m : Media) → Keeps (HasAudio m.port) (finish_media pj id m)
  unfolding finish_media
  finish_media-HasAudio id m =
      Keeps-bind (reconnect_player pj m.port) _
        (record { at = λ s. (reconnect_from-HasAudio m.port s.call.player).at s })
        λ _.
          Keeps-bind _ _
            (Keeps-modify (reconnect_recorder pj id m.port) λ s h. (
              reconnect_recorder-IsSound id m.port s h.1 h.0,
              cc (aud_med-reconnect_recorder id m.port s, h.1),
            ))
            λ _. Keeps-modify (refresh_info pj m) λ s h. refresh_info-HasAudio m.port m s h

  on_media-IsSound : (id : ℕ) (m : Media) → Keeps (IsSound pj) (on_media pj id m)
  unfolding on_media
  on_media-IsSound id m = record {
    at = λ s h. ((finish_media-HasAudio id m).at (begin_media pj m s) (ground arith)).0;
  }

  media_loop-IsSound : (id : ℕ) (ms : List Media) → Keeps (IsSound pj) (media_loop pj id ms)
  unfolding media_loop
  media_loop-IsSound id [] = Keeps-pure tt
  media_loop-IsSound id (m ∷ ms) =
      let rest = media_loop-IsSound id ms in
      Keeps-if m.is_active_audio _ _
        (λ _. Keeps-bind (on_media pj id m) _ (on_media-IsSound id m) (λ _. rest)) (λ _. rest)

  on_call_media_state-IsSound : (s : Leg) → IsSound pj s → IsSound pj (on_call_media_state pj s).1
  unfolding on_call_media_state
  on_call_media_state-IsSound s h = elim (Option-cases (pj.call_info s.trace s.call.id)) [
    | inl e ↦ rw (e, on_call_media_state) h
    | inr (ci, e) ↦ rw (e, on_call_media_state) ((media_loop-IsSound ci.id ci.media).at s h)
  ]

  take_step-IsSound : (x : Step) (s : Leg) → IsSound pj s → IsSound pj (take_step pj x s)
  take_step-IsSound Step.call_state s h = record {
    consistent = on_call_state-IsConsistent pj s h.consistent;
    paired = on_call_state-IsPaired pj s h.consistent h.paired;
  }
  take_step-IsSound Step.media_state s h = on_call_media_state-IsSound s h
  take_step-IsSound Step.stop_audio s h = stop_playback-IsSound s h
  take_step-IsSound (Step.recording id enabled) s h = record {
    consistent = set_recording-IsConsistent pj id enabled s h.consistent;
    paired = set_recording-IsPaired pj id enabled s h.consistent h.paired;
  }
  take_step-IsSound (Step.play file loop) s h = play_file-IsSound file loop s h
  take_step-IsSound (Step.capture file) s h = record {
    consistent = h.consistent;
    paired = h.paired;
  }

  live-IsSound : (xs : List Step) (s : Leg) → IsSound pj s → IsSound pj (live pj xs s)
  unfolding live
  live-IsSound [] s h = h
  live-IsSound (x ∷ xs) s h = live-IsSound xs (take_step pj x s) (take_step-IsSound x s h)

-- A call that has just been made, with nothing in the trace.
abbrev pub fresh_leg : ℕ → String → Bool → Bool → Option (List String) → Leg
fresh_leg id phone inbound records codecs = record {
  call = new_call id phone inbound records codecs;
  trace = [];
  pcap = none;
  activated = false;
}

-- Whatever callbacks and operations a new call goes through, and whatever the library answers: its
-- fields agree with each other, and for every recording that was opened the writing of a sidecar has
-- been tried exactly once, in the same order, but for the one that is running. A try may fail.
pub life-IsSound :
    (pj : Pj) (id : ℕ) (phone : String) (inbound records : Bool) (codecs : Option (List String))
    (xs : List Step)
    → IsSound pj (live pj xs (fresh_leg id phone inbound records codecs))
life-IsSound pj id phone inbound records codecs xs =
    live-IsSound pj xs (fresh_leg id phone inbound records codecs) (ground arith)

-- When the library reports that a call has disconnected, the info that goes to the call history
-- names no recording, although a recording may have been running until then, and the writing of that
-- recording's sidecar has been tried.
pub disconnect_forgets_recording :
    (pj : Pj) (s : Leg) {ci : CallInfo}
    → IsSound pj s
    → pj.call_info s.trace s.call.id ≡ some ci
    → ci.state ≡ disconnected
    → let s' = (on_call_state pj s).1 in
      (s'.call.info.recording_file ≡ none)
      × (s'.call.recorder ≡ none)
      × (s'.call.player ≡ none)
      × (opened pj s'.trace ≡ sidecars s'.trace)
      × (opened pj s'.trace ≡ opened pj s.trace)
unfolding on_call_state
disconnect_forgets_recording pj s h e d = ground arith
