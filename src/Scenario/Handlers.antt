-- ===== src/Scenario/Handlers.antt =====
-- The dispatch of src/scenario_engine/action_executor.py: the command that the handler of a name gives.
use pjsua_mcp.Prelude.{Option, none, some, [], ◌∷◌, nat_eq, ◌==◌, or_else, if◌then◌else◌}
use pjsua_mcp.Text.{Text, text_eq, codes}
use pjsua_mcp.Text.Integer.{ℤ, pos, int_of_text}
use pjsua_mcp.Scenario.Value.{int, Fields, lookup, truthy, str_of}
use pjsua_mcp.Scenario.Durations.{parse_ms}
use pjsua_mcp.Scenario.Commands.{
  Command, answer_call, reject_call, hangup, hold, unhold, stop_audio, hangup_all, blind_transfer,
  attended_transfer, wait, wait_until, checkpoint, log, arg, arg_or, phone_of, call_of, lift,
  needed, to_of, code_of, first_there, with_call, is_none_value, conference_of, set_codecs_of,
  send_message_of, make_call_of, play_audio_of, send_dtmf_of, emit_of, label_of,
}

module _ (milliseconds : Text → ℤ) where
  -- `_a_wait`
  abbrev pub wait_of : Fields → Option Command
  wait_of args =
      let raw = or_else (lookup (codes "ms") args) (arg (codes "value") args) in
      lift wait (parse_ms milliseconds (if is_none_value raw then int (pos 0) else raw))

  -- `_a_wait_until`
  abbrev pub wait_until_of : Fields → Option Command
  wait_until_of args =
      let event = arg_or (codes "event" ∷ codes "value" ∷ []) args in
      let timeout = or_else (lookup (codes "timeout_ms") args) (int (pos 10000)) in
      if truthy event
      then lift (wait_until event (phone_of args)) (parse_ms milliseconds timeout)
      else none

  -- The handler of a name, which is one of `_dispatch`; `none` where it raises before it does anything.
  unfoldable pub command_of : Text → Fields → Option Command
  unfolding parse_ms lookup str_of int_of_text
  command_of name args =
      let phone = phone_of args in
      let call = call_of args in
      if name == codes "answer"
      then lift (answer_call phone call) (code_of (lookup (codes "code") args) (some (pos 200)))
      else if name == codes "hangup"
      then some (hangup phone call)
      else if name == codes "hangup_all"
      then some (hangup_all phone)
      else if name == codes "reject"
      then lift (reject_call phone call) (
          code_of (first_there (lookup (codes "code") args) (lookup (codes "value") args))
            (some (pos 486)))
      else if name == codes "hold"
      then with_call (hold phone) (lookup (codes "call_id") args)
      else if name == codes "unhold"
      then with_call (unhold phone) (lookup (codes "call_id") args)
      else if name == codes "send_dtmf"
      then send_dtmf_of args
      else if name == codes "blind_transfer"
      then needed (to_of args) (blind_transfer phone call (to_of args))
      else if name == codes "attended_transfer"
      then some (
          attended_transfer phone call
            (arg_or (codes "dest_call_id" ∷ codes "target_call_id" ∷ []) args))
      else if name == codes "conference"
      then conference_of args
      else if name == codes "make_call"
      then make_call_of args
      else if name == codes "play_audio"
      then play_audio_of args
      else if name == codes "stop_audio"
      then some (stop_audio phone call)
      else if name == codes "send_message"
      then send_message_of args
      else if name == codes "set_codecs"
      then set_codecs_of args
      else if name == codes "wait"
      then wait_of args
      else if name == codes "wait_until"
      then wait_until_of args
      else if name == codes "emit"
      then emit_of args
      else if name == codes "checkpoint"
      then some (checkpoint (label_of (codes "label" ∷ codes "value" ∷ []) args))
      else if name == codes "log"
      then some (log (label_of (codes "message" ∷ codes "value" ∷ []) args))
      else none
