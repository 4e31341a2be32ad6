-- ===== src/Scenario/Commands.antt =====
-- The handlers `_a_…` of src/scenario_engine/action_executor.py: what each reads from its arguments, and the
-- command that it gives. What `CallManager`, the registry, the engine and the bus do with a command
-- is not said here.
use pjsua_mcp.Prelude.{
  Bool, true, false, not, ◌&&◌, ◌||◌, Option, none, some, List, [], ◌∷◌, ◌++◌, map, nat_eq, ◌==◌,
  or_else, if◌then◌else◌,
}
use pjsua_mcp.Text.{Text, text_eq, codes}
use pjsua_mcp.Text.Integer.{ℤ}
use pjsua_mcp.Scenario.Value.{
  Value, nothing, str, list, dict, Fields, no_more, lookup, or_nothing, items_of, iterate, truthy,
  str_of, int_of,
}

-- What a handler asks for. The first values are the phone and the call; a value is passed on as it
-- stands in the arguments.
pub data Command : Type 0 where
  answer_call reject_call : Value → Value → ℤ → Command
  hangup hold unhold stop_audio : Value → Value → Command
  hangup_all : Value → Command
  send_dtmf : Value → Value → Text → Command
  blind_transfer attended_transfer : Value → Value → Value → Command
  conference : Value → List ℤ → Command
  conference_auto : Value → Command
  make_call : Value → Value → Value → Command
  play_audio : Value → Value → Text → Bool → Command
  send_message : Value → Value → Value → Value → Command
  set_codecs : List Text → Option (Value × Value) → Command
  wait : ℤ → Command
  wait_until : Value → Value → ℤ → Command
  emit : Text → Value → Fields → Command
  checkpoint log : Text → Command

-- `args.get(key)`
abbrev pub arg : Text → Fields → Value
arg key args = or_nothing (lookup key args)

-- `a or b`
abbrev pub or_value : Value → Value → Value
or_value a b = if truthy a then a else b

-- `args.get(key) or …`, over several keys
abbrev pub arg_or : List Text → Fields → Value
arg_or [] args = nothing
arg_or (key ∷ []) args = arg key args
arg_or (key ∷ k ∷ keys) args = or_value (arg key args) (arg_or (k ∷ keys) args)

abbrev pub phone_of : Fields → Value
phone_of args = arg (codes "phone_id") args

abbrev pub call_of : Fields → Value
call_of args = arg (codes "call_id") args

abbrev pub lift {ℓ κ} : {A : Type ℓ} {B : Type κ} → (A → B) → Option A → Option B
lift f none = none
lift f (some a) = some (f a)

-- A handler that raises where a value is missing.
abbrev pub needed : Value → Command → Option Command
needed v c = if truthy v then some c else none

abbrev pub to_of : Fields → Value
to_of args = arg_or (codes "to" ∷ codes "dest_uri" ∷ codes "value" ∷ []) args

-- `int(args.get("code", 200))` and the like
abbrev pub code_of : Option Value → Option ℤ → Option ℤ
code_of none d = d
code_of (some v) d = int_of v

-- `args.get(key, default)`
abbrev pub first_there : Option Value → Option Value → Option Value
first_there none b = b
first_there (some a) b = some a

-- `args["call_id"]`, which may raise
abbrev pub with_call : (Value → Command) → Option Value → Option Command
with_call f v = lift f v

abbrev pub is_none_value : Value → Bool
is_none_value nothing = true
is_none_value _ = false

abbrev ints : List Value → Option (List ℤ)
ints [] = some []
ints (v ∷ vs) = elim (int_of v) [
  | none ↦ none
  | some n ↦ elim (ints vs) [ none ↦ none | some ns ↦ some (n ∷ ns) ]
]

abbrev pub is_auto : Value → Bool
is_auto nothing = true
is_auto (str t) = t == codes "auto" || t == []
is_auto _ = false

abbrev pub conference_ids : Value → Option (List ℤ)
conference_ids (list vs) = ints (items_of vs)
conference_ids v = lift (λ n. n ∷ []) (int_of v)

-- `_a_conference`, where the calls are named or all that are active
abbrev pub conference_of : Fields → Option Command
conference_of args =
    let ids = arg_or (codes "call_ids" ∷ codes "value" ∷ []) args in
    if is_auto ids
    then some (conference_auto (phone_of args))
    else lift (conference (phone_of args)) (conference_ids ids)

-- The codecs of `_a_set_codecs`.
abbrev pub codec_names : Value → Option (List Text)
codec_names (str t) = some (t ∷ [])
codec_names v = lift (map str_of) (iterate v)

-- The phone and the call that is invited again, where both are given; its id goes through `int` only
-- then.
abbrev pub reinvited : Value → Value → Option (Value × Value)
reinvited phone call = if truthy phone && not (is_none_value call) then some (phone, call) else none

-- `_a_set_codecs`, with an engine
abbrev pub set_codecs_of : Fields → Option Command
set_codecs_of args =
    let v = arg_or (codes "codecs" ∷ codes "value" ∷ []) args in
    if truthy v
    then lift (λ cs. set_codecs cs (reinvited (phone_of args) (call_of args))) (codec_names v)
    else none

-- `_a_send_message`
abbrev pub send_message_of : Fields → Option Command
send_message_of args =
    let to = arg_or (codes "to" ∷ codes "dest_uri" ∷ []) args in
    let body = arg_or (codes "body" ∷ codes "value" ∷ []) args in
    let kind = or_else (lookup (codes "content_type") args) (str (codes "text/plain")) in
    if truthy to && not (is_none_value body)
    then some (send_message (phone_of args) to body kind)
    else none

-- `_a_make_call`
abbrev pub make_call_of : Fields → Option Command
make_call_of args =
    let phone = arg_or (codes "phone_id" ∷ codes "from_phone" ∷ []) args in
    let headers = arg (codes "headers") args in
    if truthy phone && truthy (to_of args)
    then some (make_call phone (to_of args) (if truthy headers then headers else nothing))
    else none

-- `_a_play_audio`
abbrev pub play_audio_of : Fields → Option Command
play_audio_of args =
    let path = arg_or (codes "file" ∷ codes "path" ∷ codes "file_path" ∷ codes "value" ∷ []) args in
    needed path
      (play_audio (phone_of args) (call_of args) (str_of path) (truthy (arg (codes "loop") args)))

-- `_a_send_dtmf`
abbrev pub send_dtmf_of : Fields → Option Command
send_dtmf_of args =
    let digits = arg_or (codes "digits" ∷ codes "value" ∷ []) args in
    if is_none_value digits
    then none
    else some (send_dtmf (phone_of args) (call_of args) (str_of digits))

-- `dict(args.get("data") or {})`; a value that is no dictionary is taken to raise.
abbrev pub data_of : Value → Option Fields
data_of (dict fs) = some fs
data_of v = if truthy v then none else some no_more

-- `_a_emit`, of which the event's type is `user.<name>`
abbrev pub emit_of : Fields → Option Command
emit_of args =
    let name = arg_or (codes "name" ∷ codes "value" ∷ []) args in
    if truthy name
    then lift (emit (codes "user." ++ str_of name) (phone_of args))
        (data_of (arg (codes "data") args))
    else none

-- `label or ""`, as a text
abbrev pub label_of : List Text → Fields → Text
label_of keys args = let v = arg_or keys args in if truthy v then str_of v else []
