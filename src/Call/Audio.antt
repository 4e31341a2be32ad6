-- ===== src/Call/Audio.antt =====
-- Recording and playback of a `SipCall` (src/call_manager.py).
use pjsua_mcp.Prelude.{Bool, ℕ, true, false, not, Option, none, some, ◌||◌, is_some, if◌then◌else◌}
use pjsua_mcp.Pj.{
  Pj, RecordingPath, Meta, Port, call_port, recorder_port, player_port, make_directory,
  create_recorder, connect, write_meta,
}
use pjsua_mcp.Call.Data.{Leg, attempt}

module _ (pj : Pj) where
  -- `if self._player is not None: try: self._player.startTransmit(port)`
  abbrev pub connect_player : Port → Leg → Leg
  connect_player port s = elim s.call.player [
    | none ↦ s
    | some file ↦ attempt (connect (player_port file) port) s
  ]

  -- The recorder has been created: the fields, then the two connections.
  abbrev record_to : RecordingPath → ℕ → Leg → Leg
  record_to path port s =
      let c = record s.call {
        recorder = some path;
        recording_file = some path;
        recording_started_at = some (pj.now s.trace);
        pending_start = false;
        info = record s.call.info { recording_file = some path };
      } in
      connect_player (recorder_port path)
        (attempt (connect (call_port port) (recorder_port path)) (record s { call = c }))

  -- The two `try` blocks of `_start_recording`: a directory that cannot be made, or a recorder that
  -- cannot be created, leaves the call as it was.
  unfoldable pub create_recording : ℕ → ℕ → Leg → Leg
  create_recording call_id port s =
      let mkdir = make_directory s.call.phone_id in
      let s1 = attempt mkdir s in
      let path : RecordingPath = record {
        phone_id = s.call.phone_id;
        call_id = call_id;
        stamp = pj.stamp s1.trace;
      } in
      let s2 = attempt (create_recorder path) s1 in
      if not (pj.accepts s.trace mkdir)
      then s1
      else if pj.accepts s1.trace (create_recorder path)
      then record_to path port s2
      else s2

  -- `_start_recording`
  unfoldable pub start_recording : ℕ → Option ℕ → Leg → Leg
  unfolding create_recording
  start_recording call_id aud_med s =
      if not s.call.recording_enabled || is_some s.call.recorder then s else elim aud_med [
        | none ↦ record s { call = record s.call { pending_start = true } }
        | some port ↦ create_recording call_id port s
      ]

  -- `_reconnect_recorder`
  unfoldable pub reconnect_recorder : ℕ → ℕ → Leg → Leg
  unfolding start_recording
  reconnect_recorder call_id port s =
      if not s.call.recording_enabled then s else elim s.call.recorder [
        | none ↦ start_recording call_id (some port) s
        | some path ↦
            if s.call.pending_start
            then start_recording call_id (some port) s
            else connect_player (recorder_port path)
                (attempt (connect (call_port port) (recorder_port path)) s)
      ]

  -- `_snapshot_rtp_ports`: a port that cannot be told leaves the one from before.
  abbrev pub snapshot_rtp_ports : Leg → Leg
  snapshot_rtp_ports s =
      let (local, remote) = pj.rtp_ports s.trace s.call.id in
      let c = s.call in
      record s {
        call = record c {
          local_rtp_port = elim local [ none ↦ c.local_rtp_port | some p ↦ some p ];
          remote_rtp_port = elim remote [ none ↦ c.remote_rtp_port | some p ↦ some p ];
        };
      }

  -- The id in the sidecar: the library's, or the one in the file's name.
  abbrev meta_call_id : RecordingPath → Leg → Option ℕ
  meta_call_id path s = elim (pj.call_info s.trace s.call.id) [
    | none ↦ some path.call_id
    | some ci ↦ some ci.id
  ]

  abbrev meta_of : RecordingPath → Option ℕ → Leg → Meta
  meta_of path call_id s = record {
    phone_id = s.call.phone_id;
    call_id = call_id;
    inbound = s.call.inbound;
    started_at = s.call.recording_started_at;
    ended_at = pj.now s.trace;
    duration = s.call.info.duration;
    codec = s.call.info.codec;
    remote_uri = s.call.info.remote_uri;
    last_status = s.call.info.last_status;
    last_status_text = s.call.info.last_status_text;
    recording = path;
    pcap = s.pcap;
    local_rtp_port = s.call.local_rtp_port;
    remote_rtp_port = s.call.remote_rtp_port;
  }

  -- `_write_meta_sidecar`: the try to write, which may fail unseen
  unfoldable pub write_meta_sidecar : Leg → Leg
  write_meta_sidecar s = elim s.call.recording_file [
    | none ↦ s
    | some path ↦
        let call_id = meta_call_id path s in
        let s' = snapshot_rtp_ports s in attempt (write_meta (meta_of path call_id s')) s'
  ]

  -- `_stop_recording`
  unfoldable pub stop_recording : Leg → Leg
  unfolding write_meta_sidecar
  stop_recording s =
      let s' = write_meta_sidecar s in
      if is_some s.call.recorder
      then record s' {
        call = record s'.call {
          recorder = none;
          recording_file = none;
          recording_started_at = none;
          pending_start = false;
          info = record s'.call.info { recording_file = none };
        };
      }
      else record s { call = record s.call { pending_start = false } }

  -- The loop body of `CallManager.set_recording_enabled`, for the call at key `call_id`.
  unfoldable pub set_recording : ℕ → Bool → Leg → Leg
  unfolding start_recording stop_recording
  set_recording call_id enabled s =
      let s' = record s { call = record s.call { recording_enabled = enabled } } in
      if enabled
      then elim s.call.aud_med [
        | none ↦ record s' { call = record s'.call { pending_start = true } }
        | some port ↦ start_recording call_id (some port) s'
      ]
      else stop_recording s'
