-- ===== src/Call/Playback.antt =====
-- The player of a `SipCall` (src/call_manager.py).
use pjsua_mcp.Prelude.{String, Bool, true, none, some, if◌then◌else◌}
use pjsua_mcp.Exec.{
  Exec, ok, err, no_audio_media, pj_error, ◌>>◌, ◌>>=◌, modify, pure, gets, require,
}
use pjsua_mcp.Pj.{
  Pj, Action, call_port, recorder_port, player_port, create_player, connect, disconnect,
}
use pjsua_mcp.Call.Data.{Leg, attempt}

module _ (pj : Pj) where
  -- A call of the library that may raise.
  abbrev pub issue : Action → Exec Leg (Unit {0})
  issue a s = (if pj.accepts s.trace a then ok tt else err pj_error, attempt a s)

  -- `_stop_player`
  unfoldable pub stop_player : Leg → Leg
  stop_player s = elim s.call.player [
    | none ↦ s
    | some file ↦
        let s' : Leg = elim s.call.aud_med [
          | none ↦ s
          | some port ↦ attempt (disconnect (player_port file) (call_port port)) s
        ] in
        record s' {
          call = record s'.call {
            player = none;
            player_file = none;
            info = record s'.call.info { playing_file = none };
          };
        }
  ]

  -- "Also feed player into recorder": an exception is swallowed.
  abbrev feed_recorder : String → Leg → Leg
  feed_recorder file s = elim s.call.recorder [
    | none ↦ s
    | some path ↦ attempt (connect (player_port file) (recorder_port path)) s
  ]

  abbrev set_player : String → Leg → Leg
  set_player file s = record s {
    call = record s.call {
      player = some file;
      player_file = some file;
      info = record s.call.info { playing_file = some file };
    };
  }

  -- `play_file`
  unfoldable pub play_file : String → Bool → Exec Leg (Unit {0})
  unfolding stop_player
  play_file file loop = do
    port ← (do m ← gets (λ s. s.call.aud_med); require m no_audio_media)
    modify stop_player
    issue (create_player file loop)
    issue (connect (player_port file) (call_port port))
    modify (feed_recorder file)
    modify (set_player file)

  abbrev pub default_moh_file : String
  default_moh_file = "/app/audio/moh.wav"

  -- `_start_default_moh`: a file that is missing is only logged.
  unfoldable pub start_default_moh : Exec Leg (Unit {0})
  unfolding play_file
  start_default_moh s =
      if pj.moh_exists s.trace then play_file default_moh_file true s else pure tt s

  -- `stop_playback`
  unfoldable pub stop_playback : Exec Leg (Unit {0})
  unfolding stop_player start_default_moh
  stop_playback = do modify stop_player; start_default_moh
