-- ===== src/Reach/Engine.antt =====
-- What `SipEngine` and `PcapManager` do (src/sip_engine.py, src/pcap_manager.py) leaves the tables of
-- `CallManager` alone.
use pjsua_mcp.Prelude.{
  ℕ, String, ◌≡◌, refl, ◌∙◌, Option, List, [], ◌∷◌, arith, subst, sym, Option-cases, inl, inr,
}
use pjsua_mcp.Dict.{keys}
use pjsua_mcp.Pj.{Pj}
use pjsua_mcp.State.{Sys}
use pjsua_mcp.Engine.{initialize, shutdown}
use pjsua_mcp.Capture.{start_for_phone, stop_for_phone, stop_each, cleanup}
use pjsua_mcp.Calls.Tracked.{IsTracked}
use pjsua_mcp.Calls.Keeping.{Tracks}

pub shutdown-Tracks : (s : Sys) → Tracks s → Tracks (shutdown s)
unfolding shutdown
shutdown-Tracks s h = ground arith

module _ (pj : Pj) where
  pub initialize-Tracks : (s : Sys) → Tracks s → Tracks (initialize pj s).1
  unfolding initialize
  initialize-Tracks s h = ground arith

  calls-start_for_phone :
      (p : String) (cid : Option ℕ) (s : Sys) → (start_for_phone pj p cid s).1.calls ≡ s.calls
  unfolding start_for_phone
  calls-start_for_phone p cid s = ground arith

  calls-stop_for_phone : (p : String) (s : Sys) → (stop_for_phone pj p s).1.calls ≡ s.calls
  unfolding stop_for_phone
  calls-stop_for_phone p s = ground arith

  calls-stop_each : (ps : List String) (s : Sys) → (stop_each pj ps s).calls ≡ s.calls
  unfolding stop_each
  calls-stop_each [] s = refl
  calls-stop_each (p ∷ ps) s =
      calls-stop_each ps (stop_for_phone pj p s).1 ∙ calls-stop_for_phone p s

  pub start_for_phone-Tracks :
      (p : String) (cid : Option ℕ) (s : Sys) → Tracks s → Tracks (start_for_phone pj p cid s).1
  start_for_phone-Tracks p cid s h = subst IsTracked (sym (calls-start_for_phone p cid s)) h

  pub stop_for_phone-Tracks : (p : String) (s : Sys) → Tracks s → Tracks (stop_for_phone pj p s).1
  stop_for_phone-Tracks p s h = subst IsTracked (sym (calls-stop_for_phone p s)) h

  pub cleanup-Tracks : (s : Sys) → Tracks s → Tracks (cleanup pj s)
  unfolding cleanup
  cleanup-Tracks s h = elim (Option-cases s.captures) [
    | inl e ↦ rw (e, cleanup) h
    | inr (d, e) ↦ rw (e, cleanup) (subst IsTracked (sym (calls-stop_each (keys d) s)) h)
  ]
