-- ===== src/Phones.antt =====
-- `PhoneRegistry` of src/account_manager.py, with the hooks that `CallManager` has set on it.
pub mod Keeping
pub mod Adding
pub mod Registration
pub mod Tests
use pjsua_mcp.Prelude.{
  ℕ, String, Bool, true, false, not, ◌&&◌, Option, none, some, List, [], ◌∷◌, string_eq, nat_eq,
  ◌==◌, is_some, push, last_n, if◌then◌else◌,
}
use pjsua_mcp.Dict.{Dict, get, set, pop, has, keys}
use pjsua_mcp.Exec.{
  Exec, Result, ok, err, engine_not_initialized, phone_not_found, account_invalid,
  account_not_configured, pj_error, raise, raise_if, require, modify, pure, gets, ◌>>=◌, ◌>>◌,
}
use pjsua_mcp.Pj.{
  Pj, AccountSpec, RegInfo, create_account, set_registration, shutdown_account, send_message,
  RegEvent, emit_reg, emit_message,
}
use pjsua_mcp.State.{Sys, Phones, Account, PhoneConfig, Message, attempt, issue}
use pjsua_mcp.Engine.{open_transport, shut_transport}
use pjsua_mcp.Calls.Lookup.{default_phone_id}
use pjsua_mcp.Calls.Lifecycle.{on_phone_added, on_phone_dropped}
use pjsua_mcp.Calls.Operations.{require_account}

abbrev pub update_phones : (Phones → Phones) → Sys → Sys
update_phones f s = record s { phones = f s.phones }

-- A text that counts as true: not `None` and not empty.
abbrev pub truthy : Option String → Option String
truthy none = none
truthy (some t) = if t == "" then none else some t

-- `realm or "*"`
abbrev pub realm_or_any : Option String → String
realm_or_any realm = elim (truthy realm) [ none ↦ "*" | some r ↦ r ]

abbrev unregistered : RegInfo
unregistered = record { is_registered = false; status_code = 0; reason = ""; expires = 0 }

-- `SipAccount.__init__`
abbrev pub new_account : String → Account
new_account phone = record {
  phone_id = phone;
  reg_info = unregistered;
  has_handler = false;
  messages = [];
}

-- The account's configuration: the credentials only where there are both a user and a password.
abbrev credentials : PhoneConfig → Option (String × String × String)
credentials cfg = elim (truthy cfg.username) [
  | none ↦ none
  | some user ↦ elim (truthy cfg.password) [
    | none ↦ none
    | some pass ↦ some (cfg.realm, user, pass)
  ]
]

abbrev pub account_spec : String → PhoneConfig → Bool → ℕ → AccountSpec
account_spec phone cfg register tp = record {
  phone_id = phone;
  username = truthy cfg.username;
  domain = cfg.domain;
  register = register;
  transport_id = tp;
  credentials = credentials cfg;
  srtp = cfg.srtp;
}

module _ (pj : Pj) where
  -- The end of an account that is there: the library's exceptions are swallowed.
  abbrev pub tear_down : String → Sys → Sys
  tear_down phone s = elim (pj.is_valid s.trace phone) [
    | none ↦ s
    | some valid ↦
        if valid
        then attempt (shutdown_account phone) (attempt (set_registration phone false) s)
        else s
  ]

  abbrev pub shut_transport_of : Option PhoneConfig → Sys → Sys
  shut_transport_of none s = s
  shut_transport_of (some cfg) s = elim cfg.transport_id [
    | none ↦ s
    | some id ↦ shut_transport pj id s
  ]

  abbrev pub remove_phone : String → Phones → Phones
  remove_phone phone r = record r { accounts = pop r.accounts phone; configs = pop r.configs phone }

  -- `drop_phone`: whether the phone was there, and the state
  unfoldable pub drop_phone : String → Sys → Bool × Sys
  unfolding on_phone_dropped shut_transport
  drop_phone phone s =
      let cfg = get s.phones.configs phone in
      let s' = update_phones (remove_phone phone) s in
      if has s.phones.accounts phone
      then (true, shut_transport_of cfg (tear_down phone (on_phone_dropped phone s')))
      else (false, s')

  -- `if phone_id in self._accounts: self.drop_phone(phone_id)`
  abbrev pub replace_phone : String → Sys → Sys
  replace_phone phone s = if has s.phones.accounts phone then (drop_phone phone s).1 else s

  abbrev pub add_entries : String → PhoneConfig → Phones → Phones
  add_entries phone cfg r = record r {
    accounts = set r.accounts phone (new_account phone);
    configs = set r.configs phone cfg;
  }

  -- `add_phone`; the keyword arguments come as a configuration whose realm has its default already.
  unfoldable pub add_phone : String → PhoneConfig → Bool → Exec Sys (Unit {0})
  unfolding drop_phone open_transport on_phone_added
  add_phone phone cfg register = do
    raise_if (not (← gets (λ s. s.initialized))) engine_not_initialized
    modify (replace_phone phone)
    tp ← open_transport pj cfg.transport cfg.local_port
    issue pj (create_account (account_spec phone cfg register tp))
    modify (update_phones (add_entries phone (record cfg { transport_id = some tp })))
    modify (on_phone_added phone)

  -- `unregister_phone`
  unfoldable pub unregister_phone : String → Exec Sys (Unit {0})
  unfolding require_account
  unregister_phone phone = do require_account pj phone; issue pj (set_registration phone false)

  -- `reregister_phone`
  unfoldable pub reregister_phone : String → Exec Sys (Unit {0})
  unfolding add_phone
  reregister_phone phone = do
    cfg ← require (← gets (λ s. get s.phones.configs phone)) phone_not_found
    add_phone phone (record cfg { realm = realm_or_any (some cfg.realm); transport_id = none }) true

  -- `send_message`: a phone that is missing or invalid has no account to send from.
  unfoldable pub send_page : String → String → String → Exec Sys (Unit {0})
  send_page dest body phone s = elim (get s.phones.accounts phone) [
    | none ↦ (err account_invalid, s)
    | some acc ↦ elim (pj.is_valid s.trace phone) [
      | none ↦ (err pj_error, s)
      | some valid ↦
          if valid then issue pj (send_message phone dest body) s else (err account_invalid, s)
    ]
  ]

  -- `drop_all`
  unfoldable pub drop_each : List String → Sys → Sys
  unfolding drop_phone
  drop_each [] s = s
  drop_each (phone ∷ phones) s = drop_each phones (drop_phone phone s).1

  unfoldable pub drop_all : Sys → Sys
  unfolding drop_each
  drop_all s = drop_each (keys s.phones.accounts) s

-- the event of `SipAccount.onRegState`
abbrev pub reg_event : RegInfo → RegEvent
reg_event info =
    if info.is_registered
    then RegEvent.success
    else if info.status_code == 0
    then RegEvent.started
    else if info.expires == 0
    then RegEvent.unregistered
    else RegEvent.failed

abbrev put_account : String → Account → Sys → Sys
put_account phone acc = update_phones λ r. record r { accounts = set r.accounts phone acc }

-- `SipAccount.onRegState`, at what the account's `getInfo` gave
unfoldable pub reg_state_changed : String → RegInfo → Sys → Sys
reg_state_changed phone info s = elim (get s.phones.accounts phone) [
  | none ↦ s
  | some acc ↦
      attempt (emit_reg (reg_event info) phone info)
        (put_account phone (record acc { reg_info = info }) s)
]

-- `SipAccount.onInstantMessage`
unfoldable pub message_received : String → Message → Sys → Sys
message_received phone msg s = elim (get s.phones.accounts phone) [
  | none ↦ s
  | some acc ↦
      attempt (emit_message phone msg.from_uri msg.to_uri msg.body)
        (put_account phone (record acc { messages = push 100 acc.messages msg }) s)
]

-- `get_messages`
unfoldable pub get_messages : String → Option ℕ → Sys → List Message
get_messages phone last s = elim (get s.phones.accounts phone) [
  | none ↦ []
  | some acc ↦ elim last [
    | none ↦ acc.messages
    | some n ↦ if n == 0 then acc.messages else last_n n acc.messages
  ]
]

-- `get_registration_info`
unfoldable pub get_registration_info : String → Sys → RegInfo
get_registration_info phone s = elim (get s.phones.accounts phone) [
  | none ↦ record unregistered { reason = "Phone not configured" }
  | some acc ↦ acc.reg_info
]

-- `configure` and `register`, the interface for one phone named "default"
unfoldable pub configure : PhoneConfig → Sys → Sys
configure cfg = update_phones λ r. record r { legacy_pending = some cfg }

unfoldable pub register : Pj → Exec Sys (Unit {0})
unfolding add_phone
register pj = do
  cfg ← require (← gets (λ s. s.phones.legacy_pending)) account_not_configured
  add_phone pj default_phone_id
      (record cfg {
        realm = realm_or_any (some cfg.realm);
        recording_enabled = false;
        capture_enabled = false;
      })
      true

-- `unregister`, for the phone named "default"
unfoldable pub unregister : Pj → Exec Sys (Unit {0})
unfolding unregister_phone
unregister pj s =
    if has s.phones.accounts default_phone_id
    then unregister_phone pj default_phone_id s
    else (ok tt, s)
