-- ===== src/Calls/Media.antt =====
-- Tones, audio, hold, conferences, codecs and recording of calls, in `CallManager` of src/call_manager.py.
use pjsua_mcp.Prelude.{
  ℕ, suc, String, Bool, false, not, Option, none, some, List, [], ◌∷◌, nat_eq, string_eq, ◌==◌,
  length, last_n, keep, any, ltb, ◌++◌, if◌then◌else◌,
}
use pjsua_mcp.Dict.{get, set, has, keys}
use pjsua_mcp.Exec.{
  Exec, ok, too_few_calls, call_not_found, raise_if, modify, pure, gets, ◌>>=◌, ◌>>◌,
}
use pjsua_mcp.Pj.{Pj, Action, call_port, connect, hold, unhold, reinvite, dial_dtmf, send_info_dtmf}
use pjsua_mcp.Call.Data.{SipCall, nonempty_codecs}
use pjsua_mcp.Call.Callbacks.{is_confirmed}
use pjsua_mcp.Call.Audio.{set_recording}
use pjsua_mcp.Call.Playback.{play_file, stop_playback}
use pjsua_mcp.State.{Sys, History, attempt, issue}
use pjsua_mcp.Calls.Lookup.{
  update_calls, owned_by, resolve_phone, ensure_call_belongs_to, get_call_by_id, get_call,
  on_call_object, leg_of, put_leg,
}

-- `conference`: the calls that are named, each of this phone, their audio ports, and a connection
-- from each port to each other one.
unfoldable pub check_owned : String → List ℕ → Exec Sys (Unit {0})
unfolding ensure_call_belongs_to
check_owned phone [] = pure tt
check_owned phone (cid ∷ cids) = do ensure_call_belongs_to phone cid; check_owned phone cids

abbrev pub port_of : ℕ → Sys → List ℕ → List ℕ
port_of cid s rest = elim (get s.calls.calls cid) [
  | none ↦ rest
  | some c ↦ elim c.aud_med [ none ↦ rest | some port ↦ port ∷ rest ]
]

unfoldable pub media_ports : Sys → List ℕ → List ℕ
media_ports s [] = []
media_ports s (cid ∷ cids) = port_of cid s (media_ports s cids)

-- `for i, a …: for j, b …: if i != j`, in the order of the two loops
abbrev pub links_of : ℕ → ℕ → ℕ → List ℕ → List Action
links_of i port j [] = []
links_of i port j (b ∷ bs) =
    let rest = links_of i port (suc j) bs in
    if i == j then rest else connect (call_port port) (call_port b) ∷ rest

unfoldable pub links : List ℕ → ℕ → List ℕ → List Action
links ports i [] = []
links ports i (a ∷ as') = links_of i a 0 ports ++ links ports (suc i) as'

unfoldable pub connect_ports : List Action → Sys → Sys
connect_ports [] s = s
connect_ports (a ∷ as') s = connect_ports as' (attempt a s)

unfoldable pub conference : List ℕ → Option String → Exec Sys ℕ
unfolding resolve_phone check_owned media_ports links connect_ports
conference call_ids phone_id = do
  phone ← resolve_phone phone_id
  check_owned phone call_ids
  tracked ← gets (λ s. s.calls.calls)
  raise_if (any (λ cid. not (has tracked cid)) call_ids) call_not_found
  ports ← gets (λ s. media_ports s call_ids)
  raise_if (ltb (length ports) 2) too_few_calls
  modify (connect_ports (links ports 0 ports))
  pure (length ports)

-- `set_codecs_for_phone`: every call of the phone, and the ids of those that were re-INVITEd
abbrev pub set_call_codecs : Option (List String) → ℕ → SipCall → Sys → Sys
set_call_codecs codecs cid c =
    update_calls
      λ cs. record cs { calls = set cs.calls cid (record c { codecs = nonempty_codecs codecs }) }

abbrev pub tracked_of : String → Sys → List ℕ
tracked_of phone s = keep (owned_by phone s.calls.call_phone) (keys s.calls.calls)

module _ (pj : Pj) where
  -- `send_dtmf`: a digit that cannot be dialled goes out as a SIP INFO, which may raise.
  abbrev dial : ℕ → String → Exec Sys (Unit {0})
  dial cid digit s =
      let s' = attempt (dial_dtmf cid digit) s in
      if pj.accepts s.trace (dial_dtmf cid digit)
      then (ok tt, s')
      else issue pj (send_info_dtmf cid digit) s'

  unfoldable pub dial_each : ℕ → List String → Exec Sys (Unit {0})
  dial_each cid [] = pure tt
  dial_each cid (d ∷ ds) = do dial cid d; dial_each cid ds

  unfoldable pub send_dtmf : ℕ → List String → Option String → Exec Sys (Unit {0})
  unfolding resolve_phone ensure_call_belongs_to get_call_by_id dial_each
  send_dtmf call_id digits phone_id = do
    phone ← resolve_phone phone_id
    ensure_call_belongs_to phone call_id
    cid ← get_call_by_id call_id
    dial_each cid digits

  -- `play_audio`
  unfoldable pub play_audio : String → Option String → Option ℕ → Bool → Exec Sys (Unit {0})
  unfolding resolve_phone get_call play_file
  play_audio file phone_id call_id loop = do
    phone ← resolve_phone phone_id
    cid ← get_call pj phone call_id false
    on_call_object cid (play_file pj file loop)

  -- `stop_audio`
  unfoldable pub stop_audio : Option String → Option ℕ → Exec Sys (Unit {0})
  unfolding resolve_phone get_call stop_playback
  stop_audio phone_id call_id = do
    phone ← resolve_phone phone_id
    cid ← get_call pj phone call_id false
    on_call_object cid (stop_playback pj)

  -- `hold`, `unhold`
  unfoldable pub hold_call : ℕ → Option String → Exec Sys (Unit {0})
  unfolding resolve_phone ensure_call_belongs_to get_call_by_id
  hold_call call_id phone_id = do
    phone ← resolve_phone phone_id
    ensure_call_belongs_to phone call_id
    cid ← get_call_by_id call_id
    issue pj (hold cid)

  unfoldable pub unhold_call : ℕ → Option String → Exec Sys (Unit {0})
  unfolding resolve_phone ensure_call_belongs_to get_call_by_id
  unhold_call call_id phone_id = do
    phone ← resolve_phone phone_id
    ensure_call_belongs_to phone call_id
    cid ← get_call_by_id call_id
    issue pj (unhold cid)

  abbrev pub reinvite_confirmed : ℕ → Sys → List ℕ × Sys
  reinvite_confirmed cid s = elim (pj.call_info s.trace cid) [
    | none ↦ ([], s)
    | some ci ↦
        if not (is_confirmed ci.state)
        then ([], s)
        else (if pj.accepts s.trace (reinvite cid) then cid ∷ [] else [], attempt (reinvite cid) s)
  ]

  abbrev pub change_codecs : Option (List String) → ℕ → Sys → List ℕ × Sys
  change_codecs codecs cid s = elim (get s.calls.calls cid) [
    | none ↦ ([], s)
    | some c ↦ reinvite_confirmed cid (set_call_codecs codecs cid c s)
  ]

  unfoldable pub change_each : Option (List String) → List ℕ → Sys → List ℕ × Sys
  change_each codecs [] s = ([], s)
  change_each codecs (cid ∷ cids) s =
      let (done, s') = change_codecs codecs cid s in
      let (more, s'') = change_each codecs cids s' in (done ++ more, s'')

  unfoldable pub set_codecs_for_phone : String → Option (List String) → Sys → List ℕ × Sys
  unfolding change_each
  set_codecs_for_phone phone codecs s = change_each codecs (tracked_of phone s) s

  -- `set_recording_enabled`, and the ids of the calls that were touched
  abbrev pub toggle_one : Bool → ℕ → Sys → Sys
  toggle_one enabled cid s = elim (get s.calls.calls cid) [
    | none ↦ s
    | some c ↦ put_leg cid (set_recording pj cid enabled (leg_of cid c s)) s
  ]

  unfoldable pub toggle_each : Bool → List ℕ → Sys → Sys
  unfolding set_recording
  toggle_each enabled [] s = s
  toggle_each enabled (cid ∷ cids) s = toggle_each enabled cids (toggle_one enabled cid s)

  unfoldable pub set_recording_enabled : String → Bool → Sys → List ℕ × Sys
  unfolding toggle_each
  set_recording_enabled phone enabled s =
      (tracked_of phone s, toggle_each enabled (tracked_of phone s) s)

-- `get_call_history`
unfoldable pub get_call_history : Option String → Option ℕ → Sys → List History
get_call_history phone_id last s =
    let all = s.calls.call_history in
    let mine : List History = elim phone_id [
      | none ↦ all
      | some phone ↦ keep (λ h. h.phone_id == phone) all
    ] in
    elim last [ none ↦ mine | some n ↦ if n == 0 then mine else last_n n mine ]
