-- ===== src/Reach/Ops.antt =====
-- The operations of the server's SIP side (src/sip_engine.py, src/pcap_manager.py,
-- src/account_manager.py, src/call_manager.py),
-- the callbacks of the SIP library and the two polls of src/server.py, as data.
use pjsua_mcp.Prelude.{ℕ, String, Bool, Option, List}
use pjsua_mcp.Pj.{RegInfo}
use pjsua_mcp.State.{PhoneConfig, Message}

-- One step of the program.
pub data Op : Type 0 where
  -- `SipEngine` and `PcapManager`
  initialize shutdown : Op
  start_capture : String → Option ℕ → Op
  stop_capture : String → Op
  cleanup_captures : Op
  -- `PhoneRegistry`
  add_phone : String → PhoneConfig → Bool → Op
  drop_phone unregister_phone reregister_phone : String → Op
  send_page : String → String → String → Op
  drop_all : Op
  configure : PhoneConfig → Op
  register unregister : Op
  -- `CallManager`
  make_call : String → Option String → Op
  answer_call reject_call : Option String → Option ℕ → ℕ → Op
  hang_up : Option String → Option ℕ → Op
  hangup_all : Option String → Op
  blind_transfer : String → Option String → Option ℕ → Op
  attended_transfer : Option String → Option ℕ → Option ℕ → Op
  conference : List ℕ → Option String → Op
  send_dtmf : ℕ → List String → Option String → Op
  play_audio : String → Option String → Option ℕ → Bool → Op
  stop_audio : Option String → Option ℕ → Op
  hold_call unhold_call : ℕ → Option String → Op
  set_codecs : String → Option (List String) → Op
  set_recording set_capture : String → Bool → Op
  clear_calls : Op
  -- what the SIP library reports
  incoming_call : String → ℕ → Op
  call_state call_media : ℕ → Op
  reg_state : String → RegInfo → Op
  instant_message : String → Message → Op
  -- what the poll loop does
  poll_auto_answers poll_auto_captures : Op
