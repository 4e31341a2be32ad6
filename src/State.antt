-- ===== src/State.antt =====
-- The state of the server's SIP side: `SipEngine`, `PhoneRegistry`, `CallManager` and `PcapManager`
-- (src/sip_engine.py, src/account_manager.py, src/call_manager.py, src/pcap_manager.py), which one
-- process holds and which call each other.
use pjsua_mcp.Prelude.{
  ℕ, String, Bool, false, Option, none, some, List, [], ◌∷◌, string_eq, if◌then◌else◌,
}
use pjsua_mcp.Dict.{Dict, has}
use pjsua_mcp.Exec.{Exec, ok, err, pj_error}
use pjsua_mcp.Pj.{Pj, Trace, Action, RegInfo, CapturePath, RecordingPath}
use pjsua_mcp.Call.Data.{SipCall}

-- `PhoneConfig`
pub record PhoneConfig : Type 0 where
  pub domain : String
  pub username : Option String
  pub password : Option String
  pub realm : String
  pub srtp : Bool
  pub auto_answer : Bool
  pub transport : String
  pub local_port : ℕ
  pub codecs : Option (List String)
  pub transport_id : Option ℕ
  pub recording_enabled : Bool
  pub capture_enabled : Bool

pub record Message : Type 0 where
  pub from_uri : String
  pub to_uri : String
  pub body : String
  pub content_type : String
  pub timestamp : String

-- `SipAccount`; `has_handler` says that `on_incoming_call_cb` is set.
pub record Account : Type 0 where
  pub phone_id : String
  pub reg_info : RegInfo
  pub has_handler : Bool
  pub messages : List Message

-- An entry of the call history.
pub record History : Type 0 where
  pub phone_id : String
  pub remote_uri : String
  pub duration : ℕ
  pub last_status : ℕ
  pub last_status_text : String
  pub codec : String
  pub recording_file : Option RecordingPath
  pub timestamp : String

-- An entry of `_sip_call_id_index`.
pub record Owner : Type 0 where
  pub phone_id : String
  pub pjsua_call_id : ℕ
  pub remote_uri : String

-- `PhoneRegistry`
pub record Phones : Type 0 where
  pub accounts : Dict String Account
  pub configs : Dict String PhoneConfig
  pub legacy_pending : Option PhoneConfig

-- `CallManager`
pub record Calls : Type 0 where
  pub calls : Dict ℕ SipCall
  pub call_phone : Dict ℕ String
  pub incoming_queue : Dict String (List ℕ)
  pub auto_answer_pending : Dict String (List ℕ)
  pub call_history : List History
  pub active_calls : Dict String ℕ
  pub pending_start : List (String × Option ℕ)
  pub pending_stop : List String
  pub call_id_index : Dict String Owner

-- `captures` is `_phone_processes` of the `PcapManager`, or `none` where the `CallManager` was given
-- no such manager; `initialized` belongs to the `SipEngine`.
pub record Sys : Type 0 where
  pub initialized : Bool
  pub phones : Phones
  pub calls : Calls
  pub captures : Option (Dict String CapturePath)
  pub trace : Trace

abbrev pub start : Sys
start = record {
  initialized = false;
  phones = record { accounts = []; configs = []; legacy_pending = none };
  calls = record {
    calls = [];
    call_phone = [];
    incoming_queue = [];
    auto_answer_pending = [];
    call_history = [];
    active_calls = [];
    pending_start = [];
    pending_stop = [];
    call_id_index = [];
  };
  captures = some [];
  trace = [];
}

-- An action whose exception the program swallows.
abbrev pub attempt : Action → Sys → Sys
attempt a s = record s { trace = a ∷ s.trace }

-- An action that may raise.
abbrev pub issue : Pj → Action → Exec Sys (Unit {0})
issue pj a s = (if pj.accepts s.trace a then ok tt else err pj_error, attempt a s)

-- `pcap_mgr is not None and pcap_mgr.is_phone_capturing(phone_id)`
abbrev pub is_capturing : String → Sys → Bool
is_capturing phone s = elim s.captures [ none ↦ false | some d ↦ has d phone ]
