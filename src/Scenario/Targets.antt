-- ===== src/Scenario/Targets.antt =====
-- The phone that an action of src/scenario_engine/action_executor.py works on.
use pjsua_mcp.Prelude.{
  ℕ, subst, ◌≡◌, refl, ap, ◌∙◌, true, not, ◌&&◌, Option, none, some, List, [], ◌∷◌, ◌++◌, ◌==◌,
  arith, or_else, if_holds, if◌then◌else◌,
}
use pjsua_mcp.Text.{Text, text_eq, codes}
use pjsua_mcp.Text.Integer.{ℤ, pos}
use pjsua_mcp.Scenario.Value.{
  Value, int, str, Fields, no_more, field, lookup, or_nothing, truthy, str_of,
}
use pjsua_mcp.Scenario.Matching.{Hook, Event}
use pjsua_mcp.Scenario.Actions.{
  with_default, text_value, default_phone, with_call_id, with_defaults,
}
use pjsua_mcp.Scenario.Durations.{parse_ms}
use pjsua_mcp.Scenario.Handlers.{command_of, wait_of, wait_until_of}
use pjsua_mcp.Scenario.Commands.{
  Command, answer_call, reject_call, hangup, hold, unhold, stop_audio, hangup_all, send_dtmf,
  blind_transfer, attended_transfer, conference, conference_auto, make_call, play_audio,
  send_message, set_codecs, wait, wait_until, emit, checkpoint, log, arg, arg_or, or_value,
  phone_of, call_of, lift, needed, to_of, code_of, first_there, is_none_value, is_auto,
  conference_ids, conference_of, codec_names, reinvited, set_codecs_of, send_message_of,
  make_call_of, play_audio_of, send_dtmf_of, data_of, emit_of,
}

-- The phone of a command, where it has one; the second argument where it has none.
abbrev pub target : Command → Value → Value
target (answer_call p c n) v = p
target (reject_call p c n) v = p
target (hangup p c) v = p
target (hold p c) v = p
target (unhold p c) v = p
target (stop_audio p c) v = p
target (hangup_all p) v = p
target (send_dtmf p c t) v = p
target (blind_transfer p c t) v = p
target (attended_transfer p c t) v = p
target (conference p ns) v = p
target (conference_auto p) v = p
target (make_call p t h) v = p
target (play_audio p c t b) v = p
target (send_message p t b k) v = p
target (set_codecs cs (some (p, c))) v = p
target (set_codecs cs none) v = v
target (wait n) v = v
target (wait_until e p n) v = p
target (emit t p d) v = p
target (checkpoint t) v = v
target (log t) v = v

-- The command, if there is one, is for the phone or for none.
abbrev pub IsFor : Value → Option Command → Type 0
IsFor v none = Unit
IsFor v (some c) = target c v ≡ v

lift_holds :
    {A : Type 0} (v : Value) (f : A → Command) (o : Option A)
    → ((a : A) → target (f a) v ≡ v)
    → IsFor v (lift f o)
lift_holds v f none h = tt
lift_holds v f (some a) h = h a

conference_of-IsFor : (args : Fields) → IsFor (phone_of args) (conference_of args)
conference_of-IsFor args =
    let ids = arg_or (codes "call_ids" ∷ codes "value" ∷ []) args in
    if_holds (IsFor (phone_of args)) (is_auto ids) refl
      (lift_holds (phone_of args) (conference (phone_of args)) (conference_ids ids) (λ ns. refl))

target-set_codecs : (cs : List Text) (p c : Value) → target (set_codecs cs (reinvited p c)) p ≡ p
target-set_codecs cs p c =
    if_holds (λ o. target (set_codecs cs o) p ≡ p) (truthy p && not (is_none_value c)) refl refl

set_codecs_of-IsFor : (args : Fields) → IsFor (phone_of args) (set_codecs_of args)
set_codecs_of-IsFor args =
    let v = arg_or (codes "codecs" ∷ codes "value" ∷ []) args in
    if_holds (IsFor (phone_of args)) (truthy v)
      (lift_holds (phone_of args) (λ cs. set_codecs cs (reinvited (phone_of args) (call_of args)))
        (codec_names v) (λ cs. target-set_codecs cs (phone_of args) (call_of args)))
      tt

or_value-truthy : (a b : Value) → truthy a ≡ true → or_value a b ≡ a
or_value-truthy a b h = ap (λ t. if t then a else b) h

make_call_of-IsFor :
    (args : Fields) → truthy (phone_of args) ≡ true → IsFor (phone_of args) (make_call_of args)
make_call_of-IsFor args h =
    let phone = or_value (phone_of args) (arg (codes "from_phone") args) in
    if_holds (IsFor (phone_of args)) (truthy phone && truthy (to_of args))
      (or_value-truthy (phone_of args) (arg (codes "from_phone") args) h) tt

emit_of-IsFor : (args : Fields) → IsFor (phone_of args) (emit_of args)
emit_of-IsFor args =
    let name = arg_or (codes "name" ∷ codes "value" ∷ []) args in
    if_holds (IsFor (phone_of args)) (truthy name)
      (lift_holds (phone_of args) (emit (codes "user." ++ str_of name) (phone_of args))
        (data_of (arg (codes "data") args)) (λ fs. refl))
      tt

needed-IsFor : (v w : Value) (c : Command) → target c v ≡ v → IsFor v (needed w c)
needed-IsFor v w c h = if_holds (IsFor v) (truthy w) h tt

send_dtmf_of-IsFor : (args : Fields) → IsFor (phone_of args) (send_dtmf_of args)
send_dtmf_of-IsFor args =
    if_holds (IsFor (phone_of args))
      (is_none_value (arg_or (codes "digits" ∷ codes "value" ∷ []) args)) tt refl

send_message_of-IsFor : (args : Fields) → IsFor (phone_of args) (send_message_of args)
send_message_of-IsFor args =
    let to = arg_or (codes "to" ∷ codes "dest_uri" ∷ []) args in
    let body = arg_or (codes "body" ∷ codes "value" ∷ []) args in
    if_holds (IsFor (phone_of args)) (truthy to && not (is_none_value body)) refl tt

play_audio_of-IsFor : (args : Fields) → IsFor (phone_of args) (play_audio_of args)
play_audio_of-IsFor args =
    let path = arg_or (codes "file" ∷ codes "path" ∷ codes "file_path" ∷ codes "value" ∷ []) args in
    needed-IsFor (phone_of args) path
      (play_audio (phone_of args) (call_of args) (str_of path) (truthy (arg (codes "loop") args)))
      refl

lookup-with_default :
    (j k : Text) (v : Value) (args : Fields)
    → lookup k (with_default j v args)
      ≡ (if j == k then some (or_else (lookup j args) v) else lookup k args)
unfolding lookup
lookup-with_default j k v no_more = ground arith
lookup-with_default j k v (field i w args) = ground (
  arith,
  text_eq.beq_iff i j,
  text_eq.beq_iff j k,
  text_eq.beq_iff i k,
  lookup-with_default j k v args,
)

phone_of-with_call_id :
    (n : Option ℕ) (args : Fields) → phone_of (with_call_id n args) ≡ phone_of args
phone_of-with_call_id none args = refl
phone_of-with_call_id (some n) args =
    ap or_nothing (lookup-with_default (codes "call_id") (codes "phone_id") (int (pos n)) args)

-- The default for the phone is that of the hook.
phone_of-with_defaults :
    (hook : Hook) (ev : Event) (args : Fields) (c : ℕ) (t : Text)
    → hook.on_phone ≡ some (c ∷ t)
    → lookup (codes "phone_id") args ≡ none
    → phone_of (with_defaults hook ev args) ≡ str (c ∷ t)
phone_of-with_defaults hook ev args c t h e =
    let phone = text_value (default_phone hook.on_phone ev.phone_id) in
    phone_of-with_call_id ev.call_id (with_default (codes "phone_id") phone args)
    ∙ ap or_nothing (lookup-with_default (codes "phone_id") (codes "phone_id") phone args)
    ∙ ap (λ o. or_else o phone) e
    ∙ ap (λ o. text_value (default_phone o ev.phone_id)) h

module _ (milliseconds : Text → ℤ) where
  wait_of-IsFor : (v : Value) (args : Fields) → IsFor v (wait_of milliseconds args)
  wait_of-IsFor v args =
      let raw = or_else (lookup (codes "ms") args) (arg (codes "value") args) in
      lift_holds v wait (parse_ms milliseconds (if is_none_value raw then int (pos 0) else raw))
        (λ n. refl)

  wait_until_of-IsFor : (args : Fields) → IsFor (phone_of args) (wait_until_of milliseconds args)
  wait_until_of-IsFor args =
      let event = arg_or (codes "event" ∷ codes "value" ∷ []) args in
      let timeout = or_else (lookup (codes "timeout_ms") args) (int (pos 10000)) in
      if_holds (IsFor (phone_of args)) (truthy event)
        (lift_holds (phone_of args) (wait_until event (phone_of args))
          (parse_ms milliseconds timeout) (λ n. refl))
        tt

  command_of-IsFor :
      (name : Text) (args : Fields)
      → truthy (phone_of args) ≡ true
      → IsFor (phone_of args) (command_of milliseconds name args)
  unfolding command_of
  command_of-IsFor name args h =
      let v = phone_of args in
      let call = call_of args in
      let P = IsFor v in
      let answer = code_of (lookup (codes "code") args) (some (pos 200)) in
      let busy =
        code_of (first_there (lookup (codes "code") args) (lookup (codes "value") args))
          (some (pos 486)) in
      let there = lookup (codes "call_id") args in
      if_holds P (name == codes "answer") (lift_holds v (answer_call v call) answer (λ n. refl)) (
        if_holds P (name == codes "hangup") refl (
          if_holds P (name == codes "hangup_all") refl (
            if_holds P (name == codes "reject") (lift_holds v (reject_call v call) busy (λ n. refl))
              (if_holds P (name == codes "hold") (lift_holds v (hold v) there (λ c. refl)) (
                if_holds P (name == codes "unhold") (lift_holds v (unhold v) there (λ c. refl)) (
                  if_holds P (name == codes "send_dtmf") (send_dtmf_of-IsFor args) (
                    if_holds P (name == codes "blind_transfer")
                      (needed-IsFor v (to_of args) (blind_transfer v call (to_of args)) refl)
                      (if_holds P (name == codes "attended_transfer") refl (
                        if_holds P (name == codes "conference") (conference_of-IsFor args) (
                          if_holds P (name == codes "make_call") (make_call_of-IsFor args h) (
                            if_holds P (name == codes "play_audio") (play_audio_of-IsFor args) (
                              if_holds P (name == codes "stop_audio") refl (
                                if_holds P (name == codes "send_message")
                                  (send_message_of-IsFor args)
                                  (if_holds P (name == codes "set_codecs")
                                    (set_codecs_of-IsFor args)
                                    (if_holds P (name == codes "wait") (wait_of-IsFor v args) (
                                      if_holds P (name == codes "wait_until")
                                        (wait_until_of-IsFor args)
                                        (if_holds P (name == codes "emit") (emit_of-IsFor args) (
                                          if_holds P (name == codes "checkpoint") refl (
                                            if_holds P (name == codes "log") refl
                                              tt)))))))))))))))))))

  -- An action that names no phone, of a hook with a phone, gives commands for that phone, or such as
  -- are for no phone at all, whatever phone the event was on.
  pub command_of-on_phone :
      (name : Text) (args : Fields) (hook : Hook) (ev : Event) (c : ℕ) (t : Text)
      → hook.on_phone ≡ some (c ∷ t)
      → lookup (codes "phone_id") args ≡ none
      → IsFor (str (c ∷ t)) (command_of milliseconds name (with_defaults hook ev args))
  command_of-on_phone name args hook ev c t h e =
      let phone = phone_of-with_defaults hook ev args c t h e in
      let args' = with_defaults hook ev args in
      subst (λ v. IsFor v (command_of milliseconds name args')) phone
        (command_of-IsFor name args' (ap truthy phone))
