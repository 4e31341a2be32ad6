-- ===== src/Calls/MediaClients.antt =====
-- The audio and settings operations of `CallManager` (src/call_manager.py) keep its tables in
-- agreement.
use pjsua_mcp.Prelude.{
  ℕ, String, refl, Bool, Option, List, [], ◌∷◌, arith, nat_eq, string_eq, Option-cases, inl, inr,
}
use pjsua_mcp.Dict.{get}
use pjsua_mcp.Exec.Keeps.{Keeps, Keeps-bind}
use pjsua_mcp.Pj.{Pj, Action}
use pjsua_mcp.Call.Data.{nonempty_codecs}
use pjsua_mcp.Call.Identity.{set_recording-IsOf, play_file-IsOf, stop_playback-IsOf}
use pjsua_mcp.Call.Audio.{set_recording}
use pjsua_mcp.State.{Sys, attempt}
use pjsua_mcp.Calls.Lookup.{leg_of}
use pjsua_mcp.Calls.Media.{
  dial_each, send_dtmf, play_audio, stop_audio, hold_call, unhold_call, check_owned, connect_ports,
  conference, set_call_codecs, reinvite_confirmed, change_codecs, change_each, tracked_of,
  set_codecs_for_phone, toggle_one, toggle_each, set_recording_enabled,
}
use pjsua_mcp.Calls.Tracked.{update-IsTracked}
use pjsua_mcp.Calls.Keeping.{Tracks, tracking, ensure_call_belongs_to-Tracks, put_leg-Tracks}
use pjsua_mcp.Calls.Events.{SameTables-Tracks}

module _ (pj : Pj) where
  dial_each-Tracks : (cid : ℕ) (ds : List String) → Keeps Tracks (dial_each pj cid ds)
  unfolding dial_each
  dial_each-Tracks cid [] = search tracking
  dial_each-Tracks cid (d ∷ ds) =
      Keeps-bind _ _ (record { at = λ s h. ground arith }) (λ _. dial_each-Tracks cid ds)

  pub send_dtmf-Tracks :
      (cid : ℕ) (ds : List String) (p : Option String) → Keeps Tracks (send_dtmf pj cid ds p)
  unfolding send_dtmf
  send_dtmf-Tracks cid ds p = search (tracking, dial_each-Tracks) depth 12

  pub play_audio-Tracks :
      (file : String) (p : Option String) (cid : Option ℕ) (loop : Bool)
      → Keeps Tracks (play_audio pj file p cid loop)
  unfolding play_audio
  play_audio-Tracks file p cid loop =
      search (tracking, λ (q : String). play_file-IsOf pj q file loop) depth 12

  pub stop_audio-Tracks : (p : Option String) (cid : Option ℕ) → Keeps Tracks (stop_audio pj p cid)
  unfolding stop_audio
  stop_audio-Tracks p cid = search (tracking, stop_playback-IsOf pj) depth 12

  pub hold_call-Tracks : (cid : ℕ) (p : Option String) → Keeps Tracks (hold_call pj cid p)
  unfolding hold_call
  hold_call-Tracks cid p = search tracking depth 12

  pub unhold_call-Tracks : (cid : ℕ) (p : Option String) → Keeps Tracks (unhold_call pj cid p)
  unfolding unhold_call
  unhold_call-Tracks cid p = search tracking depth 12

  check_owned-Tracks : (p : String) (cids : List ℕ) → Keeps Tracks (check_owned p cids)
  unfolding check_owned
  check_owned-Tracks p [] = search tracking
  check_owned-Tracks p (cid ∷ cids) =
      Keeps-bind _ _ (ensure_call_belongs_to-Tracks p cid) (λ _. check_owned-Tracks p cids)

  connect_ports-Tracks : (links : List Action) (s : Sys) → Tracks s → Tracks (connect_ports links s)
  unfolding connect_ports
  connect_ports-Tracks [] s h = h
  connect_ports-Tracks (a ∷ links) s h = connect_ports-Tracks links (attempt a s) h

  pub conference-Tracks : (cids : List ℕ) (p : Option String) → Keeps Tracks (conference cids p)
  unfolding conference
  conference-Tracks cids p = search (tracking, check_owned-Tracks, connect_ports-Tracks) depth 12

  reinvite_confirmed-Tracks :
      (cid : ℕ) (s : Sys) → Tracks s → Tracks (reinvite_confirmed pj cid s).1
  reinvite_confirmed-Tracks cid s =
      SameTables-Tracks {s = s} {s' = (reinvite_confirmed pj cid s).1} (ground arith)

  change_codecs-Tracks :
      (codecs : Option (List String)) (cid : ℕ) (s : Sys)
      → Tracks s
      → Tracks (change_codecs pj codecs cid s).1
  change_codecs-Tracks codecs cid s h = elim (Option-cases (get s.calls.calls cid)) [
    | inl e ↦ rw (e, change_codecs) h
    | inr (c, e) ↦
        rw (e, change_codecs)
          (reinvite_confirmed-Tracks cid (set_call_codecs codecs cid c s) (
            update-IsTracked cid (record c { codecs = nonempty_codecs codecs }) s.calls
              (ground arith) h))
  ]

  change_each-Tracks :
      (codecs : Option (List String)) (cids : List ℕ) (s : Sys)
      → Tracks s
      → Tracks (change_each pj codecs cids s).1
  unfolding change_each
  change_each-Tracks codecs [] s h = h
  change_each-Tracks codecs (cid ∷ cids) s h =
      change_each-Tracks codecs cids (change_codecs pj codecs cid s).1
        (change_codecs-Tracks codecs cid s h)

  pub set_codecs_for_phone-Tracks :
      (p : String) (codecs : Option (List String)) (s : Sys)
      → Tracks s
      → Tracks (set_codecs_for_phone pj p codecs s).1
  unfolding set_codecs_for_phone
  set_codecs_for_phone-Tracks p codecs s = change_each-Tracks codecs (tracked_of p s) s

  toggle_one-Tracks : (b : Bool) (cid : ℕ) (s : Sys) → Tracks s → Tracks (toggle_one pj b cid s)
  toggle_one-Tracks b cid s h = elim (Option-cases (get s.calls.calls cid)) [
    | inl e ↦ rw (e, toggle_one) h
    | inr (c, e) ↦
        let leg = leg_of cid c s in
        rw (e, toggle_one)
          (put_leg-Tracks cid c (set_recording pj cid b leg) s e
            (set_recording-IsOf pj c.phone_id cid b leg refl) h)
  ]

  toggle_each-Tracks :
      (b : Bool) (cids : List ℕ) (s : Sys) → Tracks s → Tracks (toggle_each pj b cids s)
  unfolding toggle_each
  toggle_each-Tracks b [] s h = h
  toggle_each-Tracks b (cid ∷ cids) s h =
      toggle_each-Tracks b cids (toggle_one pj b cid s) (toggle_one-Tracks b cid s h)

  pub set_recording_enabled-Tracks :
      (p : String) (b : Bool) (s : Sys) → Tracks s → Tracks (set_recording_enabled pj p b s).1
  unfolding set_recording_enabled
  set_recording_enabled-Tracks p b s = toggle_each-Tracks b (tracked_of p s) s
