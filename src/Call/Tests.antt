-- ===== src/Call/Tests.antt =====
-- The life of one call of src/call_manager.py at concrete inputs.
use pjsua_mcp.Prelude.{true, false, none, some, List, [], ◌∷◌, ◌≡◌, refl}
use pjsua_mcp.Pj.{disconnected}
use pjsua_mcp.Call.Data.{Leg}
use pjsua_mcp.Call.Callbacks.{on_call_state, on_call_media_state}
use pjsua_mcp.Call.Sidecars.{opened, sidecars}
use pjsua_mcp.Call.Life.{Step, live, fresh_leg, IsSound, life-IsSound, disconnect_forgets_recording}
use pjsua_mcp.Fixtures.{talking, ending, info_in}

-- A call that gets its audio, plays a file, has its recording turned off and on, and ends.
abbrev steps : List Step
steps =
    Step.media_state
    ∷ Step.play "/music.wav" false
    ∷ Step.recording 1 false
    ∷ Step.recording 1 true
    ∷ Step.call_state
    ∷ []

life-IsSound_example : IsSound talking (live talking steps (fresh_leg 1 "alice" true true none))
life-IsSound_example = life-IsSound talking 1 "alice" true true none steps

-- The call as the last step but one left it, with a recording that runs.
abbrev recorded : Leg
recorded = live ending (Step.media_state ∷ []) (fresh_leg 1 "alice" true true none)

id_of_recorded : ending.call_info recorded.trace recorded.call.id ≡ some (info_in disconnected 1)
unfolding live on_call_media_state
id_of_recorded = refl

disconnect_forgets_recording_example :
    let s' = (on_call_state ending recorded).1 in
    (s'.call.info.recording_file ≡ none)
    × (s'.call.recorder ≡ none)
    × (s'.call.player ≡ none)
    × (opened ending s'.trace ≡ sidecars s'.trace)
    × (opened ending s'.trace ≡ opened ending recorded.trace)
disconnect_forgets_recording_example =
    disconnect_forgets_recording ending recorded {ci = info_in disconnected 1}
      (life-IsSound ending 1 "alice" true true none (Step.media_state ∷ [])) id_of_recorded refl
