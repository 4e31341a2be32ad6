-- ===== src/Call/Sidecars.antt =====
-- Recordings and their sidecars: what the trace shows of the recorders of one call.
use pjsua_mcp.Prelude.{
  ℕ, String, ◌≡◌, Bool, Option, none, some, List, [], ◌∷◌, ◌++◌, arith, if◌then◌else◌,
}
use pjsua_mcp.Pj.{Pj, Trace, RecordingPath, create_recorder, write_meta}
use pjsua_mcp.Call.Data.{Leg}
use pjsua_mcp.Call.Audio.{start_recording, reconnect_recorder, stop_recording, set_recording}
use pjsua_mcp.Call.Playback.{stop_player, play_file}
use pjsua_mcp.Call.Callbacks.{on_call_state}
use pjsua_mcp.Call.Consistency.{IsConsistent}

-- The recordings that the library opened, and those that the writing of a sidecar has been tried for, whether
-- it failed or not, newest first.
abbrev pub opened : Pj → Trace → List RecordingPath
opened pj [] = []
opened pj (create_recorder p ∷ t) =
    let rest = opened pj t in if pj.accepts t (create_recorder p) then p ∷ rest else rest
opened pj (_ ∷ t) = opened pj t

abbrev pub sidecars : Trace → List RecordingPath
sidecars [] = []
sidecars (write_meta m ∷ t) = m.recording ∷ sidecars t
sidecars (_ ∷ t) = sidecars t

abbrev pub as_list : Option RecordingPath → List RecordingPath
as_list none = []
as_list (some p) = p ∷ []

-- For every recording that was opened the sidecar has been tried, but for the one that runs.
abbrev pub IsPaired : Pj → Leg → Type 0
IsPaired pj s = opened pj s.trace ≡ as_list s.call.recorder ++ sidecars s.trace

module _ (pj : Pj) where
  pub start_recording-IsPaired :
      (id : ℕ) (aud : Option ℕ) (s : Leg)
      → IsPaired pj s
      → IsPaired pj (start_recording pj id aud s)
  unfolding start_recording
  start_recording-IsPaired id aud s h = ground arith

  pub stop_recording-IsPaired :
      (s : Leg) → IsConsistent s.call → IsPaired pj s → IsPaired pj (stop_recording pj s)
  unfolding stop_recording
  stop_recording-IsPaired s c h = ground arith

  pub reconnect_recorder-IsPaired :
      (id port : ℕ) (s : Leg) → IsPaired pj s → IsPaired pj (reconnect_recorder pj id port s)
  unfolding reconnect_recorder
  reconnect_recorder-IsPaired id port s h =
      ground (arith, start_recording-IsPaired id (some port) s h)

  pub set_recording-IsPaired :
      (id : ℕ) (enabled : Bool) (s : Leg)
      → IsConsistent s.call
      → IsPaired pj s
      → IsPaired pj (set_recording pj id enabled s)
  unfolding set_recording
  set_recording-IsPaired id enabled s c h =
      let s' = record s { call = record s.call { recording_enabled = enabled } } in
      ground (
        arith,
        start_recording-IsPaired id s.call.aud_med s' h,
        stop_recording-IsPaired s' (ground arith) h,
      )

  pub stop_player-IsPaired : (s : Leg) → IsPaired pj s → IsPaired pj (stop_player pj s)
  unfolding stop_player
  stop_player-IsPaired s h = ground arith

  pub play_file-IsPaired :
      (file : String) (loop : Bool) (s : Leg)
      → IsPaired pj s
      → IsPaired pj (play_file pj file loop s).1
  unfolding play_file
  play_file-IsPaired file loop s h = ground arith

  pub on_call_state-IsPaired :
      (s : Leg) → IsConsistent s.call → IsPaired pj s → IsPaired pj (on_call_state pj s).1
  unfolding on_call_state
  on_call_state-IsPaired s c h = ground arith
