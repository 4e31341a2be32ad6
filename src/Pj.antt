-- ===== src/Pj.antt =====
-- The SIP library (pjsua2), the clock and the file system, as the program sees them. None of it is
-- under the repository, so it is a parameter: what the program asks for is written to a trace, and
-- every answer is a function of the trace so far, that is, of all that was asked before.
use pjsua_mcp.Prelude.{ℕ, String, Bool, Option, List, ◌∷◌, if◌then◌else◌}
use pjsua_mcp.Exec.{Exec, err, ok, pj_error}

-- The invite session's states, as `_call_state_name` of call_manager.py spells them.
pub data InvState : Type 0 where
  null calling incoming early connecting confirmed disconnected : InvState

-- A recording `<phone_id>/call_<call_id>_<stamp>.wav` under the recordings' root.
pub record RecordingPath : Type 0 where
  pub phone_id : String
  pub call_id : ℕ
  pub stamp : String

-- A capture `<phone_id>/call_<call_id>_<stamp>.pcap` under the captures' root, or
-- `<phone_id>/capture_<stamp>.pcap` where no call is named.
pub record CapturePath : Type 0 where
  pub phone_id : String
  pub call_id : Option ℕ
  pub stamp : String

-- What transmits audio, or takes it in, on the conference bridge.
pub data Port : Type 0 where
  call_port : ℕ → Port
  recorder_port : RecordingPath → Port
  player_port : String → Port
  playback_device : Port

-- The sidecar `<recording>.meta.json`.
pub record Meta : Type 0 where
  pub phone_id : String
  pub call_id : Option ℕ
  pub inbound : Bool
  pub started_at : Option String
  pub ended_at : String
  pub duration : ℕ
  pub codec : String
  pub remote_uri : String
  pub last_status : ℕ
  pub last_status_text : String
  pub recording : RecordingPath
  pub pcap : Option CapturePath
  pub local_rtp_port : Option ℕ
  pub remote_rtp_port : Option ℕ

-- One entry of `ci.media`: whether it is audio and active, the port that `getAudioMedia` returns
-- for it, and the codec of its stream if `getStreamInfo` has one.
pub record Media : Type 0 where
  pub is_active_audio : Bool
  pub port : ℕ
  pub codec : Option String

-- `pj.CallInfo`, the fields that the program reads.
pub record CallInfo : Type 0 where
  pub id : ℕ
  pub state : InvState
  pub state_text : String
  pub remote_uri : String
  pub last_status : ℕ
  pub last_reason : String
  pub duration : ℕ
  pub call_id_string : String
  pub media : List Media

-- `pj.AccountConfig`, the fields that the program sets. `credentials` are realm, user and password.
pub record AccountSpec : Type 0 where
  pub phone_id : String
  pub username : Option String
  pub domain : String
  pub register : Bool
  pub transport_id : ℕ
  pub credentials : Option (String × String × String)
  pub srtp : Bool

-- `pj.OnRegStateParam` and the account's `getInfo`.
pub record RegInfo : Type 0 where
  pub is_registered : Bool
  pub status_code : ℕ
  pub reason : String
  pub expires : ℕ

-- The event that `onRegState` emits.
pub data RegEvent : Type 0 where
  success started unregistered failed : RegEvent

-- The kinds of transport that the library makes.
pub data Transport : Type 0 where
  udp tcp tls : Transport

-- What the program does to the world outside.
pub data Action : Type 0 where
  start_library destroy_library : Action
  create_transport : Transport → ℕ → Action  -- kind, local port
  transport_created : ℕ → Action  -- the id that the library returned
  close_transport : ℕ → Action
  create_account : AccountSpec → Action
  set_registration : String → Bool → Action
  shutdown_account : String → Action
  send_message : String → String → String → Action  -- phone, destination, body
  call : String → String → Action  -- phone, destination
  answer : ℕ → ℕ → Action  -- call, status
  hangup : ℕ → ℕ → Action
  transfer : ℕ → String → Action
  transfer_replaces : ℕ → ℕ → Action
  hold unhold : ℕ → Action  -- `setHold`, and the re-INVITE with `PJSUA_CALL_UNHOLD`
  reinvite : ℕ → Action
  dial_dtmf send_info_dtmf : ℕ → String → Action
  make_directory : String → Action
  create_recorder : RecordingPath → Action
  create_player : String → Bool → Action  -- file, loop
  connect disconnect : Port → Port → Action
  write_meta : Meta → Action
  spawn_tcpdump : CapturePath → Action
  terminate_tcpdump kill_tcpdump : CapturePath → Action
  emit_reg : RegEvent → String → RegInfo → Action
  emit_message : String → String → String → String → Action  -- phone, from, to, body
  emit_call_state : String → Bool → CallInfo → Action  -- phone, inbound, what `getInfo` gave

abbrev pub Trace : Type 0
Trace = List Action

pub record Pj : Type 0 where
  -- whether the library goes along with an action, or raises
  pub accepts : Trace → Action → Bool
  pub new_transport : Trace → ℕ
  -- `account.isValid()`; `none` if that raises
  pub is_valid : Trace → String → Option Bool
  -- `call.isActive()` and `call.getInfo()`; `none` if they raise
  pub is_active : Trace → ℕ → Option Bool
  pub call_info : Trace → ℕ → Option CallInfo
  -- the id of a call that has just been placed
  pub placed_call : Trace → ℕ
  -- the clock, as a file name's stamp and in ISO format
  pub stamp : Trace → String
  pub now : Trace → String
  -- the local and the remote RTP port of a call's media, where they can be told
  pub rtp_ports : Trace → ℕ → Option ℕ × Option ℕ
  -- a subprocess that is told to stop does so within five seconds
  pub stops_in_time : Trace → CapturePath → Bool
  -- the default music file is there
  pub moh_exists : Trace → Bool

-- The newest action stands first. An action is written down whether the library accepts it or
-- raises.
abbrev pub issue : Pj → Action → Exec Trace (Unit {0})
issue pj a t = (if pj.accepts t a then ok tt else err pj_error, a ∷ t)
