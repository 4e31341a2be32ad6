-- ===== src/Phones/Registration.antt =====
-- What the registry of src/account_manager.py tells of registrations and messages.
use pjsua_mcp.Prelude.{
  ◌≤◌, String, ◌≡◌, none, some, ◌∷◌, arith, string_eq, nat_eq, ◌==◌, push, length, length-push,
  if◌then◌else◌,
}
use pjsua_mcp.Dict.{get, get-set}
use pjsua_mcp.Pj.{RegInfo, emit_reg}
use pjsua_mcp.State.{Sys, Account, Message}
use pjsua_mcp.Phones.{
  reg_state_changed, message_received, get_messages, get_registration_info, reg_event,
}

-- After the library has reported a registration of a phone that has an account, the registry tells
-- what the library said, about that phone and about no other, and one event has gone out.
pub get_registration_info-reg_state_changed :
    (phone q : String) (info : RegInfo) (acc : Account) (s : Sys)
    → get s.phones.accounts phone ≡ some acc
    → let s' = reg_state_changed phone info s in
      (get_registration_info q s' ≡ (if phone == q then info else get_registration_info q s))
      × (s'.trace ≡ emit_reg (reg_event info) phone info ∷ s.trace)
unfolding reg_state_changed get_registration_info
get_registration_info-reg_state_changed phone q info acc s e = ground (
  arith,
  get-set s.phones.accounts phone q (record acc { reg_info = info }),
  string_eq.beq_iff phone q,
)

-- A message that a phone with an account has received is the last one in its messages, of which no
-- more than 100 are kept; the messages of other phones stay.
pub get_messages-message_received :
    (phone q : String) (m : Message) (acc : Account) (s : Sys)
    → get s.phones.accounts phone ≡ some acc
    → let s' = message_received phone m s in
      (get_messages q none s'
        ≡ (if phone == q then push 100 (get_messages phone none s) m else get_messages q none s))
      × (length (get_messages phone none s') ≤ 100)
unfolding message_received get_messages
get_messages-message_received phone q m acc s e =
    let new = record acc { messages = push 100 acc.messages m } in
    let g = get-set s.phones.accounts phone phone new in
    let same = string_eq.beq_iff phone phone in
    (
      ground (arith, get-set s.phones.accounts phone q new, string_eq.beq_iff phone q),
      ground (arith, g, same, length-push 100 acc.messages m),
    )
