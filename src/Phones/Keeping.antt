-- ===== src/Phones/Keeping.antt =====
-- What `PhoneRegistry` (src/account_manager.py) does, with the hooks of `CallManager`, keeps the
-- tables of `CallManager` in agreement.
use pjsua_mcp.Prelude.{
  ℕ, String, Bool, Option, none, some, List, [], ◌∷◌, arith, string_eq, Option-cases, Bool-cases,
  inl, inr,
}
use pjsua_mcp.Dict.{get, has, keys, get-setdefault}
use pjsua_mcp.Exec.Keeps.{Keeps}
use pjsua_mcp.Pj.{Pj, RegInfo}
use pjsua_mcp.State.{Sys, PhoneConfig, Message}
use pjsua_mcp.Engine.{open_transport, shut_transport}
use pjsua_mcp.Calls.Lookup.{default_phone_id}
use pjsua_mcp.Calls.Lifecycle.{on_phone_added, on_phone_dropped}
use pjsua_mcp.Calls.Keeping.{Tracks, tracking}
use pjsua_mcp.Calls.Events.{SameTables, SameTables-Tracks, on_phone_dropped-Tracks}
use pjsua_mcp.Calls.Clients.{require_account-Tracks}
use pjsua_mcp.Phones.{
  update_phones, tear_down, shut_transport_of, remove_phone, drop_phone, replace_phone, add_phone,
  unregister_phone, reregister_phone, send_page, drop_each, drop_all, reg_state_changed,
  message_received, configure, register, unregister,
}

pub on_phone_added-Tracks : (p : String) (s : Sys) → Tracks s → Tracks (on_phone_added p s)
unfolding on_phone_added
on_phone_added-Tracks p s h = elim (Option-cases (get s.phones.accounts p)) [
  | inl e ↦ rw (e, on_phone_added) h
  | inr (acc, e) ↦
      rw (e, on_phone_added)
        (record {
          proper_calls = h.proper_calls;
          proper_owners = h.proper_owners;
          owner_agrees = h.owner_agrees;
          queued = λ q cid. ground (
            arith,
            get-setdefault s.calls.incoming_queue p q [],
            h.queued q cid,
            string_eq.beq_iff p q,
          );
        })
]

module _ (pj : Pj) where
  ending_tables :
      (p : String) (cfg : Option PhoneConfig) (s : Sys)
      → SameTables s (shut_transport_of pj cfg (tear_down pj p s))
  unfolding shut_transport
  ending_tables p none s = ground arith
  ending_tables p (some cfg) s = ground arith

  pub drop_phone-Tracks : (p : String) (s : Sys) → Tracks s → Tracks (drop_phone pj p s).1
  unfolding drop_phone
  drop_phone-Tracks p s h =
      let cfg = get s.phones.configs p in
      let s' = update_phones (remove_phone pj p) s in
      elim (Bool-cases (has s.phones.accounts p)) [
        | inl e ↦
            rw (e, drop_phone)
              (SameTables-Tracks {s = on_phone_dropped p s'}
                (ending_tables p cfg (on_phone_dropped p s')) (on_phone_dropped-Tracks p s' h))
        | inr e ↦ rw (e, drop_phone) h
      ]

  replace_phone-Tracks : (p : String) (s : Sys) → Tracks s → Tracks (replace_phone pj p s)
  replace_phone-Tracks p s h = elim (Bool-cases (has s.phones.accounts p)) [
    | inl e ↦ rw e (drop_phone-Tracks p s h)
    | inr e ↦ rw e h
  ]

  open_transport-Tracks : (kind : String) (port : ℕ) → Keeps Tracks (open_transport pj kind port)
  unfolding open_transport
  open_transport-Tracks kind port = search tracking depth 12

  pub add_phone-Tracks :
      (p : String) (cfg : PhoneConfig) (r : Bool) → Keeps Tracks (add_phone pj p cfg r)
  unfolding add_phone
  add_phone-Tracks p cfg r =
      search (tracking, replace_phone-Tracks, open_transport-Tracks, on_phone_added-Tracks) depth 16

  pub unregister_phone-Tracks : (p : String) → Keeps Tracks (unregister_phone pj p)
  unfolding unregister_phone
  unregister_phone-Tracks p = search (tracking, require_account-Tracks) depth 12

  pub unregister-Tracks : (s : Sys) → Tracks s → Tracks (unregister pj s).1
  unfolding unregister
  unregister-Tracks s h = elim (Bool-cases (has s.phones.accounts default_phone_id)) [
    | inl e ↦ rw (e, unregister) ((unregister_phone-Tracks default_phone_id).at s h)
    | inr e ↦ rw (e, unregister) h
  ]

  pub reregister_phone-Tracks : (p : String) → Keeps Tracks (reregister_phone pj p)
  unfolding reregister_phone
  reregister_phone-Tracks p = search (tracking, add_phone-Tracks) depth 12

  pub register-Tracks : Keeps Tracks (register pj)
  unfolding register
  register-Tracks = search (tracking, add_phone-Tracks) depth 12

  send_page_tables : (dest body p : String) (s : Sys) → SameTables s (send_page pj dest body p s).1
  unfolding send_page
  send_page_tables dest body p s = ground arith

  pub send_page-Tracks :
      (dest body p : String) (s : Sys) → Tracks s → Tracks (send_page pj dest body p s).1
  send_page-Tracks dest body p s =
      SameTables-Tracks {s = s} {s' = (send_page pj dest body p s).1}
        (send_page_tables dest body p s)

  drop_each-Tracks : (ps : List String) (s : Sys) → Tracks s → Tracks (drop_each pj ps s)
  unfolding drop_each
  drop_each-Tracks [] s h = h
  drop_each-Tracks (p ∷ ps) s h =
      drop_each-Tracks ps (drop_phone pj p s).1 (drop_phone-Tracks p s h)

  pub drop_all-Tracks : (s : Sys) → Tracks s → Tracks (drop_all pj s)
  unfolding drop_all
  drop_all-Tracks s = drop_each-Tracks (keys s.phones.accounts) s

pub reg_state_changed-Tracks :
    (p : String) (info : RegInfo) (s : Sys) → Tracks s → Tracks (reg_state_changed p info s)
unfolding reg_state_changed
reg_state_changed-Tracks p info s h = elim (Option-cases (get s.phones.accounts p)) [
  | inl e ↦ rw (e, reg_state_changed) h
  | inr (acc, e) ↦ rw (e, reg_state_changed) h
]

pub message_received-Tracks :
    (p : String) (m : Message) (s : Sys) → Tracks s → Tracks (message_received p m s)
unfolding message_received
message_received-Tracks p m s h = elim (Option-cases (get s.phones.accounts p)) [
  | inl e ↦ rw (e, message_received) h
  | inr (acc, e) ↦ rw (e, message_received) h
]

pub configure-Tracks : (cfg : PhoneConfig) (s : Sys) → Tracks s → Tracks (configure cfg s)
unfolding configure
configure-Tracks cfg s h = h
