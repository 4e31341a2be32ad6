-- ===== src/Phones/Tests.antt =====
-- `PhoneRegistry` of src/account_manager.py at concrete inputs.
use pjsua_mcp.Prelude.{true, none, some, ◌∷◌, ◌≡◌, refl, string_eq}
use pjsua_mcp.Dict.{get, has}
use pjsua_mcp.Exec.{ok}
use pjsua_mcp.Pj.{Trace, Transport, udp, create_transport, transport_created, create_account}
use pjsua_mcp.State.{Sys, Account}
use pjsua_mcp.Engine.{transport_kind, open_transport}
use pjsua_mcp.Calls.Endings.{IsWithout}
use pjsua_mcp.Phones.{drop_phone, add_phone, replace_phone, account_spec, new_account}
use pjsua_mcp.Phones.Adding.{
  drop_phone-IsWithout, ready_account, holdings, add_phone_others, add_phone_lem,
  add_phone_leaks_transport,
}
use pjsua_mcp.Fixtures.{talking, no_accounts, settings, two_phones, two_phones-Tracks}

alice_there : has two_phones.phones.accounts "alice" ≡ true
unfolding get
alice_there = refl

alice_settings : get two_phones.phones.configs "alice" ≡ some settings
unfolding get
alice_settings = refl

abbrev alice_account : Account
alice_account = record (new_account "alice") { has_handler = true }

alice_has : get two_phones.phones.accounts "alice" ≡ some alice_account
unfolding get
alice_has = refl

drop_phone-IsWithout_example :
    IsWithout "alice" two_phones (drop_phone talking "alice" two_phones).1
drop_phone-IsWithout_example =
    drop_phone-IsWithout talking "alice" two_phones two_phones-Tracks alice_there

abbrev after_adding : Sys
after_adding = (add_phone talking "carol" settings true two_phones).1

carol_added : add_phone talking "carol" settings true two_phones ≡ (ok tt, after_adding)
unfolding add_phone open_transport get
carol_added = refl

add_phone_lem_example :
    (two_phones.initialized ≡ true)
    × (get after_adding.phones.accounts "carol" ≡ some (ready_account "carol"))
    × ((kind : Transport) × (let t : Trace =
            create_transport kind 0 ∷ (replace_phone talking "carol" two_phones).trace in
          let id = talking.new_transport t in
          (transport_kind settings.transport ≡ some kind)
          × (get after_adding.phones.configs "carol"
              ≡ some (record settings { transport_id = some id }))
          × (after_adding.trace
              ≡ create_account (account_spec "carol" settings true id) ∷ transport_created id ∷ t)))
add_phone_lem_example =
    add_phone_lem talking "carol" settings true two_phones after_adding carol_added

add_phone_others_example :
    holdings "alice" (add_phone talking "carol" settings true two_phones).1
    ≡ holdings "alice" two_phones
add_phone_others_example = add_phone_others talking "carol" "alice" settings true two_phones refl

add_phone_leaks_transport_example :
    let s1 = replace_phone no_accounts "alice" two_phones in
    let t : Trace = create_transport udp 0 ∷ s1.trace in
    let made = create_account (account_spec "alice" settings true 7) in
    let s' = (add_phone no_accounts "alice" settings true two_phones).1 in
    (s'.trace ≡ made ∷ transport_created 7 ∷ t)
    × (s'.phones ≡ s1.phones)
    × (get s'.phones.accounts "alice" ≡ none)
add_phone_leaks_transport_example =
    add_phone_leaks_transport no_accounts "alice" settings true udp two_phones refl refl refl refl
