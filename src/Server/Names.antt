-- ===== src/Server/Names.antt =====
-- The names of the tools: those of a phone, which src/phone_tool_factory.py makes, and those that
-- src/server.py declares; and `_validate_phone_id`.
use pjsua_mcp.Prelude.{
  ℕ, Bool, not, ◌&&◌, ◌||◌, List, [], ◌∷◌, ◌++◌, map, length, nat_eq, ◌==◌, any, leb, contains,
}
use pjsua_mcp.Text.{Text, text_eq, codes}

-- The actions of a phone, in the order in which `register_phone_tools` adds them.
abbrev pub actions : List Text
actions = map codes (
    "make_call" ∷ "answer_call" ∷ "reject_call" ∷ "hangup" ∷ "get_call_info" ∷ "list_calls"
    ∷ "get_active_calls" ∷ "get_call_history" ∷ "hold" ∷ "unhold" ∷ "send_dtmf" ∷ "blind_transfer"
    ∷ "attended_transfer" ∷ "conference" ∷ "play_audio" ∷ "stop_audio" ∷ "get_recording"
    ∷ "send_message" ∷ "get_messages" ∷ "get_registration_status" ∷ "unregister" ∷ "register" ∷ [])

-- The tools that `@mcp.tool()` adds.
abbrev pub static_tools : List Text
static_tools = map codes (
    "list_phones" ∷ "add_phone" ∷ "drop_phone" ∷ "get_phone" ∷ "update_phone" ∷ "load_phones"
    ∷ "get_sip_log" ∷ "get_call_messages" ∷ "list_recordings" ∷ "analyze_capture"
    ∷ "validate_scenario" ∷ "run_scenario" ∷ [])

-- `f"{phone_id}_{action}"`
unfoldable pub tool_name : Text → Text → Text
tool_name phone_id action = phone_id ++ b'_' ∷ action

-- One of the actions, and one of the tools of the server.
unfoldable pub is_action : Text → Bool
is_action a = contains a actions

unfoldable pub is_static : Text → Bool
is_static n = contains n static_tools

-- `names`
unfoldable pub names_of : Text → List Text
unfolding tool_name
names_of phone_id = map (tool_name phone_id) actions

-- `RESERVED_ACTIONS` and `static_tool_names` of `_validate_phone_id`
abbrev pub reserved_actions : List Text
reserved_actions = map codes (
    "make_call" ∷ "answer_call" ∷ "reject_call" ∷ "hangup" ∷ "get_call_info" ∷ "get_call_history"
    ∷ "list_calls" ∷ "get_active_calls" ∷ "send_dtmf" ∷ "hold" ∷ "unhold" ∷ "blind_transfer"
    ∷ "attended_transfer" ∷ "conference" ∷ "play_audio" ∷ "stop_audio" ∷ "get_recording"
    ∷ "send_message" ∷ "get_messages" ∷ "get_registration_status" ∷ "register" ∷ "unregister" ∷ [])

abbrev pub static_tool_names : List Text
static_tool_names = map codes (
    "add_phone" ∷ "drop_phone" ∷ "list_phones" ∷ "get_phone" ∷ "update_phone" ∷ "load_phones"
    ∷ "get_sip_log" ∷ "list_recordings" ∷ [])

-- `[a-z0-9_]`
abbrev is_id_letter : ℕ → Bool
is_id_letter c = leb b'a' c && leb c b'z' || (leb b'0' c && leb c b'9' || c == b'_')

-- `re.fullmatch(r"[a-z0-9_]{1,32}", phone_id)`
unfoldable pub is_phone_id : Text → Bool
is_phone_id t = not (any (λ c. not (is_id_letter c)) t) && (leb 1 (length t) && leb (length t) 32)

-- A name that the phone would take from the server.
unfoldable pub collides : Text → Bool
unfolding tool_name
collides phone_id = any (λ a. contains (tool_name phone_id a) static_tool_names) reserved_actions

-- `_validate_phone_id`: whether it returns
unfoldable pub validate_phone_id : Text → Bool
unfolding is_phone_id collides
validate_phone_id phone_id = is_phone_id phone_id && not (collides phone_id)
