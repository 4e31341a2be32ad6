-- ===== src/Call/Callbacks.antt =====
-- The callbacks of a `SipCall` that the SIP library calls (src/call_manager.py). Each begins with
-- `getInfo`, which may raise: then the callback ends there.
use pjsua_mcp.Prelude.{
  ℕ, String, Option, Bool, true, false, none, some, List, [], ◌∷◌, if◌then◌else◌,
}
use pjsua_mcp.Exec.{Exec, ok, err, pj_error, ◌>>◌, modify, pure}
use pjsua_mcp.Pj.{
  Pj, InvState, disconnected, confirmed, Media, CallInfo, playback_device, call_port, player_port,
  connect,
}
use pjsua_mcp.Call.Data.{Leg, attempt}
use pjsua_mcp.Call.Audio.{snapshot_rtp_ports, reconnect_recorder, stop_recording}
use pjsua_mcp.Call.Playback.{stop_player, start_default_moh}

abbrev pub is_disconnected : InvState → Bool
is_disconnected disconnected = true
is_disconnected _ = false

abbrev pub is_confirmed : InvState → Bool
is_confirmed confirmed = true
is_confirmed _ = false

-- the update of `_info` in `onCallState`
abbrev pub update_info : CallInfo → Leg → Leg
update_info ci s = record s {
  call = record s.call {
    info = record s.call.info {
      state = some ci.state;
      state_text = ci.state_text;
      remote_uri = ci.remote_uri;
      last_status = ci.last_status;
      last_status_text = ci.last_reason;
      duration = ci.duration;
    };
  };
}

module _ (pj : Pj) where
  -- `onCallState` up to the callback of `CallManager`; returns what `getInfo` gave. The callback and
  -- the event that follow are `Calls.Lifecycle.on_call_state`.
  unfoldable pub on_call_state : Exec Leg CallInfo
  unfolding stop_recording stop_player
  on_call_state s = elim (pj.call_info s.trace s.call.id) [
    | none ↦ (err pj_error, s)
    | some ci ↦
        let s' = update_info ci s in
        (ok ci, if is_disconnected ci.state then stop_player pj (stop_recording pj s') else s')
  ]

  -- The first active audio pokes `CallManager`, once in the life of the call.
  abbrev poke_first_active : Leg → Leg
  poke_first_active s =
      if s.call.auto_capture_started
      then s
      else record s { call = record s.call { auto_capture_started = true }; activated = true }

  -- "(Re)connect audio source → call"
  abbrev pub reconnect_from : ℕ → Option String → Exec Leg (Unit {0})
  reconnect_from port none = start_default_moh pj
  reconnect_from port (some file) = modify (attempt (connect (player_port file) (call_port port)))

  abbrev pub reconnect_player : ℕ → Exec Leg (Unit {0})
  reconnect_player port s = reconnect_from port s.call.player s

  abbrev set_codec : Media → Leg → Leg
  set_codec m s = elim m.codec [
    | none ↦ s
    | some name ↦ record s { call = record s.call { info = record s.call.info { codec = name } } }
  ]

  -- The stream's codec, and the RTP ports while they are there.
  abbrev pub refresh_info : Media → Leg → Leg
  refresh_info m s = snapshot_rtp_ports pj (set_codec m s)

  -- The body of the loop of `onCallMediaState`, for one entry of `ci.media`: what comes before the
  -- player, and the rest. The medium is active, so `getAudioMedia` is taken to give its port.
  abbrev pub begin_media : Media → Leg → Leg
  begin_media m s =
      let s1 = record s { call = record s.call { aud_med = some m.port } } in
      attempt (connect (call_port m.port) playback_device) (poke_first_active s1)

  unfoldable pub finish_media : ℕ → Media → Exec Leg (Unit {0})
  unfolding reconnect_recorder start_default_moh
  finish_media call_id m = do
    reconnect_player m.port
    modify (reconnect_recorder pj call_id m.port)
    modify (refresh_info m)

  unfoldable pub on_media : ℕ → Media → Exec Leg (Unit {0})
  unfolding finish_media
  on_media call_id m s = finish_media call_id m (begin_media m s)

  unfoldable pub media_loop : ℕ → List Media → Exec Leg (Unit {0})
  unfolding on_media
  media_loop call_id [] = pure tt
  media_loop call_id (m ∷ ms) =
      let rest = media_loop call_id ms in
      if m.is_active_audio then (on_media call_id m >> rest) else rest

  -- `onCallMediaState`
  unfoldable pub on_call_media_state : Exec Leg (Unit {0})
  unfolding media_loop
  on_call_media_state s = elim (pj.call_info s.trace s.call.id) [
    | none ↦ (err pj_error, s)
    | some ci ↦ media_loop ci.id ci.media s
  ]
