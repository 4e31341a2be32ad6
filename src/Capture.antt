-- ===== src/Capture.antt =====
-- `PcapManager` of src/pcap_manager.py: one tcpdump subprocess for each phone. The methods are
-- called only where there is such a manager; with none they change nothing.
use pjsua_mcp.Prelude.{ℕ, String, Option, none, some, List, [], ◌∷◌, string_eq, if◌then◌else◌}
use pjsua_mcp.Dict.{Dict, get, set, pop, keys}
use pjsua_mcp.Exec.{Exec, ok, already_capturing, raise_if, modify, pure, gets, ◌>>=◌, ◌>>◌}
use pjsua_mcp.Pj.{Pj, CapturePath, make_directory, spawn_tcpdump, terminate_tcpdump, kill_tcpdump}
use pjsua_mcp.State.{Sys, issue, is_capturing}

abbrev pub update_captures : (Dict String CapturePath → Dict String CapturePath) → Sys → Sys
update_captures f s = record s { captures = elim s.captures [ none ↦ none | some d ↦ some (f d) ] }

-- `current_pcap_path_for`, with the check for a manager that is not there
abbrev pub current_pcap_path_for : String → Sys → Option CapturePath
current_pcap_path_for phone s = elim s.captures [ none ↦ none | some d ↦ get d phone ]

module _ (pj : Pj) where
  -- `start_for_phone`
  unfoldable pub start_for_phone : String → Option ℕ → Exec Sys CapturePath
  start_for_phone phone call_id = do
    raise_if (← gets (is_capturing phone)) already_capturing
    stamp ← gets (λ s. pj.stamp s.trace)
    issue pj (make_directory phone)
    let path : CapturePath = record { phone_id = phone; call_id = call_id; stamp = stamp }
    issue pj (spawn_tcpdump path)
    modify (update_captures (λ d. set d phone path))
    pure path

  -- Terminate, and kill what has not ended in five seconds.
  unfoldable pub end_process : CapturePath → Exec Sys (Unit {0})
  end_process path = do
    issue pj (terminate_tcpdump path)
    stopped ← gets (λ s. pj.stops_in_time s.trace path)
    if stopped then pure tt else issue pj (kill_tcpdump path)

  -- `stop_for_phone`; `none` is the status "not_running". The entry goes before the subprocess is
  -- told to stop, so it is gone also if that raises.
  unfoldable pub stop_for_phone : String → Exec Sys (Option CapturePath)
  unfolding end_process
  stop_for_phone phone s = elim (current_pcap_path_for phone s) [
    | none ↦ (ok none, s)
    | some path ↦ (do end_process path; pure (some path)) (update_captures (λ d. pop d phone) s)
  ]

  -- `cleanup`
  unfoldable pub stop_each : List String → Sys → Sys
  stop_each [] s = s
  stop_each (phone ∷ phones) s = stop_each phones (stop_for_phone phone s).1

  unfoldable pub cleanup : Sys → Sys
  unfolding stop_each
  cleanup s = elim s.captures [ none ↦ s | some d ↦ stop_each (keys d) s ]
