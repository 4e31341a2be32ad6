-- ===== src/Call/Data.antt =====
-- The state of a `SipCall` (src/call_manager.py).
use pjsua_mcp.Prelude.{ℕ, String, Bool, false, Option, none, some, List, ◌∷◌}
use pjsua_mcp.Pj.{InvState, Trace, RecordingPath, CapturePath, Action}

-- `_info`; the state `none` is the "NONE" of a call that has had no callback yet.
pub record Info : Type 0 where
  pub phone_id : String
  pub state : Option InvState
  pub state_text : String
  pub remote_uri : String
  pub last_status : ℕ
  pub last_status_text : String
  pub duration : ℕ
  pub codec : String
  pub recording_file : Option RecordingPath
  pub playing_file : Option String

-- `id` is the library's id of the call. The two callbacks are not fields: `CallManager` sets them
-- to its own methods right after it has made the object, always to the same two.
pub record SipCall : Type 0 where
  pub id : ℕ
  pub phone_id : String
  pub inbound : Bool
  pub recording_enabled : Bool
  pub codecs : Option (List String)
  pub pending_start : Bool
  pub recorder : Option RecordingPath
  pub recording_file : Option RecordingPath
  pub recording_started_at : Option String
  pub player : Option String
  pub player_file : Option String
  pub aud_med : Option ℕ
  pub local_rtp_port : Option ℕ
  pub remote_rtp_port : Option ℕ
  pub auto_capture_started : Bool
  pub info : Info

-- `list(codecs) if codecs else None`
abbrev pub nonempty_codecs : Option (List String) → Option (List String)
nonempty_codecs none = none
nonempty_codecs (some List.[]) = none
nonempty_codecs (some (c ∷ cs)) = some (c ∷ cs)

abbrev pub new_info : String → Info
new_info phone = record {
  phone_id = phone;
  state = none;
  state_text = "";
  remote_uri = "";
  last_status = 0;
  last_status_text = "";
  duration = 0;
  codec = "";
  recording_file = none;
  playing_file = none;
}

-- `SipCall.__init__`
abbrev pub new_call : ℕ → String → Bool → Bool → Option (List String) → SipCall
new_call id phone inbound recording codecs = record {
  id = id;
  phone_id = phone;
  inbound = inbound;
  recording_enabled = recording;
  codecs = nonempty_codecs codecs;
  pending_start = false;
  recorder = none;
  recording_file = none;
  recording_started_at = none;
  player = none;
  player_file = none;
  aud_med = none;
  local_rtp_port = none;
  remote_rtp_port = none;
  auto_capture_started = false;
  info = new_info phone;
}

-- A call at work: the call, the trace, the capture that runs for its phone (what
-- `current_pcap_path_for` returns), and whether `on_first_active_cb` has been called.
pub record Leg : Type 0 where
  pub call : SipCall
  pub trace : Trace
  pub pcap : Option CapturePath
  pub activated : Bool

-- An action whose exception the method swallows: `try: … except Exception: pass`.
abbrev pub attempt : Action → Leg → Leg
attempt a s = record s { trace = a ∷ s.trace }
