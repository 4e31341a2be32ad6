-- ===== src/Calls/Outcomes.antt =====
-- What a call that has been placed, and a change of settings, leave in `CallManager`
-- (src/call_manager.py).
use pjsua_mcp.Prelude.{
  refl, ap, ◌∙◌, ℕ, zero, suc, ◌≤◌, ◌-◌, String, ◌≡◌, Bool, true, false, ◌&&◌, Option, none, some,
  List, [], ◌∷◌, arith, nat_eq, string_eq, ◌==◌, keep, contains, contains-keep, length, length-keep,
  length-last_n, drop, All, Option-cases, Bool-cases, inl, inr, if◌then◌else◌,
}
use pjsua_mcp.Dict.{get, has, keys, get-set, contains-keys}
use pjsua_mcp.Exec.{ok}
use pjsua_mcp.Pj.{Pj, CallInfo}
use pjsua_mcp.Call.Data.{Leg, nonempty_codecs, new_call}
use pjsua_mcp.Call.Audio.{set_recording}
use pjsua_mcp.State.{Sys, History, PhoneConfig}
use pjsua_mcp.Calls.Lookup.{owned_by, leg_of, resolve_phone}
use pjsua_mcp.Calls.Lifecycle.{recording_wanted, codecs_wanted, call_for, track_sip_call_id}
use pjsua_mcp.Calls.Operations.{
  make_call, place_and_register, place_call, register_outgoing, require_account,
  ensure_incoming_handler,
}
use pjsua_mcp.Calls.Media.{
  get_call_history, toggle_one, toggle_each, tracked_of, set_recording_enabled,
}

-- The phone's setting for recordings; a phone without a configuration records.
abbrev pub recording_setting : Option PhoneConfig → Bool
recording_setting none = true
recording_setting (some cfg) = cfg.recording_enabled

-- The phone's codecs; an empty list is none.
abbrev pub codecs_setting : Option PhoneConfig → Option (List String)
codecs_setting none = none
codecs_setting (some cfg) = nonempty_codecs cfg.codecs

settings_of :
    (cid : ℕ) (phone : String) (cfg : Option PhoneConfig)
    → new_call cid phone false (recording_wanted cfg) (codecs_wanted cfg)
      ≡ record (new_call cid phone false true none) {
        recording_enabled = recording_setting cfg;
        codecs = codecs_setting cfg;
      }
settings_of cid phone none = refl
settings_of cid phone (some cfg) = refl

-- A call that has been placed without an error is tracked under the id that the library gave it, as a
-- new outgoing call with the recording switch and the codecs of its phone's configuration (on and none,
-- where there is no configuration), and the phone owns it; the phone has an account, and no other call
-- has changed.
pub make_call_lem :
    (pj : Pj) (dest phone : String) (s s' : Sys) (ci : CallInfo)
    → make_call pj dest (some phone) s ≡ (ok ci, s')
    → let placed = record (new_call ci.id phone false true none) {
      recording_enabled = recording_setting (get s.phones.configs phone);
      codecs = codecs_setting (get s.phones.configs phone);
    } in
      (owned_by phone s'.calls.call_phone ci.id ≡ true)
      × (has s.phones.accounts phone ≡ true)
      × ((j : ℕ) → get s'.calls.calls j ≡ (if ci.id == j then some placed else get s.calls.calls j))
unfolding make_call place_and_register place_call register_outgoing require_account
    ensure_incoming_handler resolve_phone track_sip_call_id
make_call_lem pj dest phone s s' ci e = (
  ground (
    arith,
    get-set s.calls.call_phone ci.id ci.id phone,
    nat_eq.beq_iff ci.id ci.id,
    string_eq.beq_iff phone phone,
  ),
  ground arith,
  λ j.
      let found : get s'.calls.calls j
          ≡ (if ci.id == j then some (call_for phone ci.id false s) else get s.calls.calls j) =
        ground (arith, get-set s.calls.calls ci.id j (call_for phone ci.id false s)) in
      found
      ∙ ap (λ call. if ci.id == j then some call else get s.calls.calls j)
          (settings_of ci.id phone (get s.phones.configs phone)),
)

-- The recording switch of a call that is tracked.
abbrev pub switch_at : Sys → ℕ → Option Bool
switch_at s cid = elim (get s.calls.calls cid) [ none ↦ none | some c ↦ some c.recording_enabled ]

abbrev switched : Bool → Option Bool → Option Bool
switched enabled none = none
switched enabled (some b) = some enabled

module _ (pj : Pj) where
  recording_enabled-set_recording :
      (id : ℕ) (b : Bool) (s : Leg) → (set_recording pj id b s).call.recording_enabled ≡ b
  unfolding set_recording
  recording_enabled-set_recording id b s = ground arith

  toggle_one_lem :
      (b : Bool) (cid j : ℕ) (s : Sys)
      → (switch_at (toggle_one pj b cid s) j
          ≡ (if cid == j then switched b (switch_at s j) else switch_at s j))
        × ((cid == j) ≡ false → get (toggle_one pj b cid s).calls.calls j ≡ get s.calls.calls j)
  toggle_one_lem b cid j s = elim (Option-cases (get s.calls.calls cid)) [
    | inl e ↦ ground (arith, nat_eq.beq_iff cid j)
    | inr (c, e) ↦
        let leg = set_recording pj cid b (leg_of cid c s) in
        ground (
          arith,
          get-set s.calls.calls cid j leg.call,
          recording_enabled-set_recording cid b (leg_of cid c s),
          nat_eq.beq_iff cid j,
        )
  ]

  toggle_each_lem :
      (b : Bool) (cids : List ℕ) (j : ℕ) (s : Sys)
      → (switch_at (toggle_each pj b cids s) j
          ≡ (if contains j cids then switched b (switch_at s j) else switch_at s j))
        × (contains j cids ≡ false
            → get (toggle_each pj b cids s).calls.calls j ≡ get s.calls.calls j)
  unfolding toggle_each
  toggle_each_lem b [] j s = ground arith
  toggle_each_lem b (cid ∷ cids) j s =
      let (a, c) = toggle_one_lem b cid j s in
      let (x, y) = toggle_each_lem b cids j (toggle_one pj b cid s) in
      (ground (arith, a, x), λ n. ground (arith, c, y))

-- Switching the recordings of a phone on or off sets the switch of each tracked call that the phone
-- owns, and leaves every other call as it was.
pub set_recording_enabled_lem :
    (pj : Pj) (phone : String) (b : Bool) (j : ℕ) (s : Sys)
    → let (touched, s') = set_recording_enabled pj phone b s in
      (contains j touched ≡ (has s.calls.calls j && owned_by phone s.calls.call_phone j))
      × (switch_at s' j ≡ (if contains j touched then some b else switch_at s j))
      × (get s'.calls.calls j
          ≡ (if contains j touched then get s'.calls.calls j else get s.calls.calls j))
unfolding set_recording_enabled
set_recording_enabled_lem pj phone b j s =
    let (x, y) = toggle_each_lem pj b (tracked_of phone s) j s in
    let k = contains-keep (owned_by phone s.calls.call_phone) j (keys s.calls.calls) in
    let m = contains-keys s.calls.calls j in
    (ground (arith, k, m), ground (arith, k, m, x), ground (arith, y))

All-drop : {A : Type 0} (P : A → Type 0) (n : ℕ) (xs : List A) → All P xs → All P (drop n xs)
All-drop P zero xs h = h
All-drop P (suc n) [] h = tt
All-drop P (suc n) (x ∷ xs) h = All-drop P n xs h.1

abbrev pub IsEntryOf : String → History → Type 0
IsEntryOf phone h = (h.phone_id == phone) ≡ true

All-keep :
    (phone : String) (hs : List History)
    → All (IsEntryOf phone) (keep (λ h. h.phone_id == phone) hs)
All-keep phone [] = tt
All-keep phone (h ∷ hs) = elim (Bool-cases (h.phone_id == phone)) [
  | inl e ↦ rw e (e, All-keep phone hs)
  | inr e ↦ rw e (All-keep phone hs)
]

-- The history of one phone has entries of that phone only, and no more of them than were asked for
-- or, where 0 was given, than there are entries at all.
pub get_call_history_lem :
    (phone : String) (n : ℕ) (s : Sys)
    → let found = get_call_history (some phone) (some n) s in
      All (IsEntryOf phone) found
      × (length found ≤ (if n == 0 then length s.calls.call_history else n))
unfolding get_call_history
get_call_history_lem phone n s =
    let mine = keep (λ h. h.phone_id == phone) s.calls.call_history in
    elim (Bool-cases (n == 0)) [
      | inl e ↦ rw e (
        All-keep phone s.calls.call_history,
        length-keep (λ h. h.phone_id == phone) s.calls.call_history,
      )
      | inr e ↦ rw e (
        All-drop (IsEntryOf phone) (length mine - n) mine (All-keep phone s.calls.call_history),
        length-last_n n mine,
      )
    ]
