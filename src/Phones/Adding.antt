-- ===== src/Phones/Adding.antt =====
-- What `PhoneRegistry.add_phone` and `drop_phone` of src/account_manager.py leave.
use pjsua_mcp.Prelude.{
  ℕ, String, ◌≡◌, refl, Bool, true, false, Option, none, some, ◌∷◌, arith, string_eq, ◌==◌,
  Option-cases, inl, inr, if◌then◌else◌,
}
use pjsua_mcp.Dict.{get, set, has, get-set, get-pop}
use pjsua_mcp.Exec.{ok}
use pjsua_mcp.Exec.Keeps.{Keeps, keeps_rules}
use pjsua_mcp.Pj.{
  Pj, Trace, Transport, Action, create_transport, transport_created, create_account,
  close_transport,
}
use pjsua_mcp.State.{Sys, Account, PhoneConfig, issue}
use pjsua_mcp.Engine.{transport_kind, open_transport, shut_transport}
use pjsua_mcp.Calls.Lifecycle.{on_phone_added, on_phone_dropped}
use pjsua_mcp.Calls.Keeping.{Tracks}
use pjsua_mcp.Calls.Endings.{IsWithout, on_phone_dropped-IsWithout}
use pjsua_mcp.Phones.{
  update_phones, tear_down, shut_transport_of, remove_phone, drop_phone, replace_phone, add_phone,
  account_spec, new_account, add_entries,
}

-- What the registry and the engine are like after a phone has been dropped.
abbrev pub transport_of : Option PhoneConfig → Option ℕ
transport_of none = none
transport_of (some cfg) = cfg.transport_id

-- Dropping a phone removes its account and its configuration and keeps those of the others, whether
-- it had an account or not; the answer is whether it had one.
pub drop_phone_lem :
    (pj : Pj) (phone q : String) (s : Sys)
    → let (was_there, s') = drop_phone pj phone s in
      (was_there ≡ has s.phones.accounts phone)
      × (get s'.phones.accounts q ≡ (if phone == q then none else get s.phones.accounts q))
      × (get s'.phones.configs q ≡ (if phone == q then none else get s.phones.configs q))
      × (s'.initialized ≡ s.initialized)
unfolding drop_phone on_phone_dropped shut_transport
drop_phone_lem pj phone q s = ground (
  arith,
  get-pop s.phones.accounts phone q,
  get-pop s.phones.configs phone q,
  string_eq.beq_iff phone q,
)

-- A phone that is dropped has its transport closed, as the last thing that is asked of the library,
-- while the engine runs.
pub drop_phone-closes :
    (pj : Pj) (phone : String) (cfg : PhoneConfig) (id : ℕ) (s : Sys)
    → has s.phones.accounts phone ≡ true
    → get s.phones.configs phone ≡ some cfg
    → cfg.transport_id ≡ some id
    → s.initialized ≡ true
    → (t : Trace) × ((drop_phone pj phone s).1.trace ≡ close_transport id ∷ t)
unfolding drop_phone on_phone_dropped shut_transport
drop_phone-closes pj phone cfg id s a c i up =
    let s1 = on_phone_dropped phone (update_phones (remove_phone pj phone) s) in
    ((tear_down pj phone s1).trace, ground arith)

ending_calls :
    (pj : Pj) (phone : String) (cfg : Option PhoneConfig) (s : Sys)
    → (shut_transport_of pj cfg (tear_down pj phone s)).calls ≡ s.calls
unfolding shut_transport
ending_calls pj phone none s = ground arith
ending_calls pj phone (some cfg) s = ground arith

calls-IsWithout :
    (phone : String) (s s0 s1 s2 : Sys)
    → s0.calls ≡ s.calls
    → s2.calls ≡ s1.calls
    → IsWithout phone s0 s1
    → IsWithout phone s s2
calls-IsWithout phone s s0 s1 s2 d e w = record {
  calls_left = λ cid. ground (arith, w.calls_left cid);
  owners_left = λ cid. ground (arith, w.owners_left cid);
  queues_left = λ q. ground (arith, w.queues_left q);
  pending_left = λ q. ground (arith, w.pending_left q);
  counts_left = λ q. ground (arith, w.counts_left q);
}

-- Dropping a phone that has an account takes its own calls, queue, pending auto-answers and count
-- out of `CallManager`, and nothing that belongs to another phone.
pub drop_phone-IsWithout :
    (pj : Pj) (phone : String) (s : Sys)
    → Tracks s
    → has s.phones.accounts phone ≡ true
    → IsWithout phone s (drop_phone pj phone s).1
unfolding drop_phone
drop_phone-IsWithout pj phone s h e =
    let s1 = update_phones (remove_phone pj phone) s in
    let s2 = on_phone_dropped phone s1 in
    let cfg = get s.phones.configs phone in
    rw (e, drop_phone)
      (calls-IsWithout phone s s1 s2 (shut_transport_of pj cfg (tear_down pj phone s2)) refl
        (ending_calls pj phone cfg s2) (on_phone_dropped-IsWithout phone s1 h))

-- A phone's account as `add_phone` leaves it.
abbrev pub ready_account : String → Account
ready_account phone = record (new_account phone) { has_handler = true }

-- What the registry holds of one phone.
abbrev pub holdings : String → Sys → Option Account × Option PhoneConfig
holdings q s = (get s.phones.accounts q, get s.phones.configs q)

module _ (pj : Pj) (phone q : String) (other : (phone == q) ≡ false)
    (held : Option Account × Option PhoneConfig) where
  abbrev Holds : Sys → Type 0
  Holds s = holdings q s ≡ held

  replace_phone-Holds : (s : Sys) → Holds s → Holds (replace_phone pj phone s)
  replace_phone-Holds s h = ground (arith, drop_phone_lem pj phone q s)

  open_transport-Holds : (kind : String) (port : ℕ) → Keeps Holds (open_transport pj kind port)
  unfolding open_transport
  open_transport-Holds kind port = search keeps_rules depth 12

  issue-Holds : (a : Action) → Keeps Holds (issue pj a)
  issue-Holds a = record { at = λ s h. h }

  add_entries-Holds :
      (cfg : PhoneConfig) (s : Sys) → Holds s → Holds (update_phones (add_entries pj phone cfg) s)
  add_entries-Holds cfg s h = ground (
    arith,
    get-set s.phones.accounts phone q (new_account phone),
    get-set s.phones.configs phone q cfg,
  )

  on_phone_added-Holds : (s : Sys) → Holds s → Holds (on_phone_added phone s)
  unfolding on_phone_added
  on_phone_added-Holds s h = elim (Option-cases (get s.phones.accounts phone)) [
    | inl e ↦ rw (e, on_phone_added) h
    | inr (acc, e) ↦
        ground (arith, get-set s.phones.accounts phone q (record acc { has_handler = true }))
  ]

  add_phone-Holds :
      (cfg : PhoneConfig) (register : Bool) → Keeps Holds (add_phone pj phone cfg register)
  unfolding add_phone
  add_phone-Holds cfg register =
      search
        (
          keeps_rules, replace_phone-Holds, open_transport-Holds, issue-Holds, add_entries-Holds,
          on_phone_added-Holds,
        )
        depth 16

-- Adding a phone, whether it ends well or raises, leaves the account and the configuration of every
-- other phone as they were.
pub add_phone_others :
    (pj : Pj) (phone q : String) (cfg : PhoneConfig) (register : Bool) (s : Sys)
    → (phone == q) ≡ false
    → holdings q (add_phone pj phone cfg register s).1 ≡ holdings q s
add_phone_others pj phone q cfg register s n =
    (add_phone-Holds pj phone q n (holdings q s) cfg register).at s refl

module _ (pj : Pj) (phone : String) (cfg : PhoneConfig) (register : Bool) (s s' : Sys)
    (kind : Transport) (k : transport_kind cfg.transport ≡ some kind)
    (e : add_phone pj phone cfg register s ≡ (ok tt, s')) where
  abbrev requested : Trace
  requested = create_transport kind cfg.local_port ∷ (replace_phone pj phone s).trace

  added_config :
      get s'.phones.configs phone
      ≡ some (record cfg { transport_id = some (pj.new_transport requested) })
  unfolding add_phone open_transport on_phone_added
  added_config =
      let new_cfg = record cfg { transport_id = some (pj.new_transport requested) } in
      ground (
        arith,
        get-set (replace_phone pj phone s).phones.configs phone phone new_cfg,
        string_eq.beq_iff phone phone,
      )

  added_trace :
      s'.trace
      ≡ create_account (account_spec phone cfg register (pj.new_transport requested))
        ∷ transport_created (pj.new_transport requested)
        ∷ requested
  unfolding add_phone open_transport on_phone_added
  added_trace =
      let s1 = replace_phone pj phone s in
      ground (
        arith,
        get-set s1.phones.accounts phone phone (new_account phone),
        string_eq.beq_iff phone phone,
      )

-- A phone that has been added without an error: the engine runs; the phone has a new account that
-- listens for calls, and the given configuration with the id that the library gave to the transport made
-- for it; the last things asked of the library are that transport and the account on it.
pub add_phone_lem :
    (pj : Pj) (phone : String) (cfg : PhoneConfig) (register : Bool) (s s' : Sys)
    → add_phone pj phone cfg register s ≡ (ok tt, s')
    → (s.initialized ≡ true)
      × (get s'.phones.accounts phone ≡ some (ready_account phone))
      × ((kind : Transport) × (let t : Trace =
              create_transport kind cfg.local_port ∷ (replace_phone pj phone s).trace in
            let id = pj.new_transport t in
            (transport_kind cfg.transport ≡ some kind)
            × (get s'.phones.configs phone ≡ some (record cfg { transport_id = some id }))
            × (s'.trace
                ≡ create_account (account_spec phone cfg register id) ∷ transport_created id ∷ t)))
unfolding add_phone open_transport on_phone_added
add_phone_lem pj phone cfg register s s' e =
    let s1 = replace_phone pj phone s in
    elim (Option-cases (transport_kind cfg.transport)) [
      | inl n ↦ absurd (ground arith)
      | inr (kind, k) ↦
          let made = set s1.phones.accounts phone (new_account phone) in
          let g = get-set s1.phones.accounts phone phone (new_account phone) in
          let g' = get-set made phone phone (ready_account phone) in
          (
            ground arith,
            ground (arith, g, g', string_eq.beq_iff phone phone),
            (
              kind,
              (
                k,
                added_config pj phone cfg register s s' kind k e,
                added_trace pj phone cfg register s s' kind k e,
              ),
            ),
          )
    ]

-- When the library opens the transport and refuses the account, the refused account is the last
-- thing that `add_phone` asks for: the transport is not closed again, the phone has no account
-- (although it may have had one before), and the tables are those that the removal of the old phone
-- left, in which the id of the new transport is not entered.
pub add_phone_leaks_transport :
    (pj : Pj) (phone : String) (cfg : PhoneConfig) (register : Bool) (kind : Transport) (s : Sys)
    → let s1 = replace_phone pj phone s in
      let t : Trace = create_transport kind cfg.local_port ∷ s1.trace in
      let id = pj.new_transport t in
      let made = create_account (account_spec phone cfg register id) in
      let s' = (add_phone pj phone cfg register s).1 in
      transport_kind cfg.transport ≡ some kind
      → s.initialized ≡ true
      → pj.accepts s1.trace (create_transport kind cfg.local_port) ≡ true
      → pj.accepts (transport_created id ∷ t) made ≡ false
      → (s'.trace ≡ made ∷ transport_created id ∷ t)
        × (s'.phones ≡ s1.phones)
        × (get s'.phones.accounts phone ≡ none)
unfolding add_phone open_transport
add_phone_leaks_transport pj phone cfg register kind s k up opened refused =
    ground (arith, drop_phone_lem pj phone phone s, string_eq.beq_iff phone phone)
