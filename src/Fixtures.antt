-- ===== src/Fixtures.antt =====
-- Concrete SIP libraries and states, on which the tests run the model.
use pjsua_mcp.Prelude.{ℕ, Bool, true, false, none, some, [], ◌∷◌, arith}
use pjsua_mcp.Dict.{get}
use pjsua_mcp.Pj.{
  Pj, Trace, Action, CallInfo, Media, InvState, confirmed, disconnected, CapturePath, RegInfo,
}
use pjsua_mcp.Call.Data.{SipCall, new_call}
use pjsua_mcp.State.{Sys, PhoneConfig, Message, start}
use pjsua_mcp.Phones.{new_account}
use pjsua_mcp.Calls.Keeping.{Tracks}

abbrev pub audio : Media
audio = record { is_active_audio = true; port = 40; codec = some "PCMU" }

abbrev pub info_in : InvState → ℕ → CallInfo
info_in st cid = record {
  id = cid;
  state = st;
  state_text = "";
  remote_uri = "sip:carol@example.com";
  last_status = 200;
  last_reason = "OK";
  duration = 3;
  call_id_string = "abc";
  media = audio ∷ [];
}

-- A library that accepts what a test says, where every call is in the given state.
abbrev pub library : (Trace → Action → Bool) → InvState → Pj
library accepts st = record {
  accepts = accepts;
  new_transport = λ t. 7;
  is_valid = λ t phone. some true;
  is_active = λ t cid. some true;
  call_info = λ t cid. some (info_in st cid);
  placed_call = λ t. 5;
  stamp = λ t. "20260101_000000";
  now = λ t. "2026-01-01T00:00:00";
  rtp_ports = λ t cid. (some 4000, some 5000);
  stops_in_time = λ t path. true;
  moh_exists = λ t. true;
}

abbrev pub talking : Pj
talking = library (λ t a. true) confirmed

abbrev pub ending : Pj
ending = library (λ t a. true) disconnected

-- It refuses accounts, and nothing else.
abbrev refuses_account : Action → Bool
refuses_account (Action.create_account spec) = false
refuses_account _ = true

abbrev pub no_accounts : Pj
no_accounts = library (λ t a. refuses_account a) confirmed

abbrev pub settings : PhoneConfig
settings = record {
  domain = "example.com";
  username = some "alice";
  password = some "secret";
  realm = "*";
  srtp = false;
  auto_answer = false;
  transport = "udp";
  local_port = 0;
  codecs = none;
  transport_id = some 7;
  recording_enabled = true;
  capture_enabled = true;
}

abbrev pub alice_call : SipCall
alice_call = new_call 1 "alice" true true none

abbrev pub bob_call : SipCall
bob_call = new_call 2 "bob" true true none

abbrev pub capture_file : CapturePath
capture_file = record { phone_id = "alice"; call_id = some 1; stamp = "20260101_000000" }

abbrev pub registered : RegInfo
registered = record { is_registered = true; status_code = 200; reason = "OK"; expires = 300 }

abbrev pub greeting : Message
greeting = record {
  from_uri = "sip:carol@example.com";
  to_uri = "sip:alice@example.com";
  body = "hello";
  content_type = "text/plain";
  timestamp = "2026-01-01T00:00:00";
}

-- Two phones with one incoming call each; the first is being captured.
abbrev pub two_phones : Sys
two_phones = record start {
  initialized = true;
  phones = record {
    accounts =
        ("alice", record (new_account "alice") { has_handler = true })
        ∷ ("bob", new_account "bob")
        ∷ [];
    configs = ("alice", settings) ∷ ("bob", settings) ∷ [];
    legacy_pending = none;
  };
  calls = record {
    calls = (1, alice_call) ∷ (2, bob_call) ∷ [];
    call_phone = (1, "alice") ∷ (2, "bob") ∷ [];
    incoming_queue = ("alice", 1 ∷ []) ∷ ("bob", 2 ∷ []) ∷ [];
    auto_answer_pending = ("alice", 1 ∷ 9 ∷ []) ∷ ("bob", []) ∷ [];
    call_history = [];
    active_calls = ("alice", 1) ∷ [];
    pending_start = ("bob", some 2) ∷ [];
    pending_stop = "alice" ∷ [];
    call_id_index = [];
  };
  captures = some (("alice", capture_file) ∷ []);
}

pub two_phones-Tracks : Tracks two_phones
unfolding get
two_phones-Tracks = record {
  proper_calls = ground arith;
  proper_owners = ground arith;
  owner_agrees = λ cid. ground arith;
  queued = λ p cid h. ground arith;
}
