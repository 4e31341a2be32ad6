-- ===== src/Scenario/Matching.antt =====
-- What a hook of src/scenario_engine/hook_runtime.py matches. `re.search` of a pattern that a scenario
-- gives is a parameter; it may raise.
use pjsua_mcp.Prelude.{
  ℕ, ◌+◌, ◌-◌, ◌*◌, Bool, true, false, ◌&&◌, Option, none, some, List, [], ◌∷◌, nat_eq, ◌==◌, any,
  ltb, leb, if◌then◌else◌,
}
use pjsua_mcp.Text.{Text, text_eq, codes}
use pjsua_mcp.Text.Integer.{int_of_text, ℤ, pos}
use pjsua_mcp.Scenario.Value.{
  Value, nothing, int, str, list, dict, other, Fields, no_more, field, lookup, items_of, value_beq,
  str_of, int_of,
}

-- `Event` of src/scenario_engine/event_bus.py; `payload` is its `data`, and its time is that of the clock, as `repr` makes it.
pub record Event : Type 0 where
  pub type : Text
  pub timestamp : Text
  pub phone_id : Option Text
  pub call_id : Option ℕ
  pub payload : Fields

-- `Hook`; `hook_id` is a fresh one.
pub record Hook : Type 0 where
  pub hook_id : Text
  pub when : List Text
  pub on_phone : Option Text
  pub match : Fields
  pub then_actions : List Value
  pub once : Bool
  pub pattern_name : Text
  pub sub_id : Option ℕ

-- `path.split(".")`
unfoldable pub split_dots : Text → List Text
split_dots [] = [] ∷ []
split_dots (c ∷ t) =
    let rest = split_dots t in
    if c == b'.'
    then [] ∷ rest
    else elim rest [ [] ↦ (c ∷ []) ∷ [] | part ∷ parts ↦ (c ∷ part) ∷ parts ]

-- `_dotted_get`
abbrev pub get_parts : Value → List Text → Value
get_parts current [] = current
get_parts (dict fs) (part ∷ parts) = elim (lookup part fs) [
  | none ↦ nothing
  | some v ↦ get_parts v parts
]
get_parts current (part ∷ parts) = nothing

abbrev pub dotted_get : Value → Text → Value
dotted_get obj path = get_parts obj (split_dots path)

abbrev text_or_nothing : Option Text → Value
text_or_nothing none = nothing
text_or_nothing (some t) = str t

abbrev nat_or_nothing : Option ℕ → Value
nat_or_nothing none = nothing
nat_or_nothing (some n) = int (pos n)

-- `getattr(event, key, None)`, for the fields and the method of `Event`
abbrev pub attribute : Event → Text → Value
attribute ev key =
    if key == codes "type"
    then str ev.type
    else if key == codes "phone_id"
    then text_or_nothing ev.phone_id
    else if key == codes "call_id"
    then nat_or_nothing ev.call_id
    else if key == codes "data"
    then dict ev.payload
    else if key == codes "timestamp"
    then other ev.timestamp
    else if key == codes "to_dict"
    then other key
    else nothing

abbrev pub is_nothing : Value → Bool
is_nothing nothing = true
is_nothing _ = false

-- `[1-6]xx`: the class
abbrev pub status_class : Text → Option ℕ
status_class (d ∷ x ∷ y ∷ []) =
    if leb b'1' d && leb d b'6' && x == b'x' && y == b'x' then some (d - b'0') else none
status_class _ = none

-- `low <= code < low + 100`
abbrev pub in_class : ℕ → Option ℤ → Bool
in_class n (some (pos code)) = leb (n * 100) code && ltb code (n * 100 + 100)
in_class n _ = false

module _ (re_search : Text → Text → Option Bool) where
  abbrev matches_regex : Text → Value → Option Bool
  matches_regex pattern actual =
      if is_nothing actual then some false else re_search pattern (str_of actual)

  -- A text that is expected.
  abbrev matches_text : Text → Value → Option Bool
  matches_text [] actual = some (value_beq (str []) actual)
  matches_text (c ∷ t) actual =
      if c == b'~' then matches_regex t actual else elim (status_class (c ∷ t)) [
        | none ↦ some (value_beq (str (c ∷ t)) actual)
        | some n ↦ some (in_class n (int_of actual))
      ]

  -- `_value_matches`; `none` where it raises
  unfoldable pub value_matches : Value → Value → Option Bool
  unfolding value_beq str_of int_of_text
  value_matches nothing actual = some (is_nothing actual)
  value_matches (list vs) actual = some (any (value_beq actual) (items_of vs))
  value_matches (str t) actual = matches_text t actual
  value_matches expected actual = some (value_beq expected actual)

  -- What a predicate looks at.
  abbrev pub actual_of : Event → Text → Value
  actual_of ev key =
      let found = dotted_get (dict ev.payload) key in
      if is_nothing found then attribute ev key else found

  -- `_event_matches_predicates`
  unfoldable pub event_matches_predicates : Event → Fields → Option Bool
  unfolding value_matches split_dots lookup
  event_matches_predicates ev no_more = some true
  event_matches_predicates ev (field key expected match) =
      let rest = event_matches_predicates ev match in
      elim (value_matches expected (actual_of ev key)) [
        | none ↦ none
        | some false ↦ some false
        | some true ↦ rest
      ]

  abbrev phone_matches : Option Text → Option Text → Bool
  phone_matches none phone = true
  phone_matches (some wanted) none = false
  phone_matches (some wanted) (some phone) = wanted == phone

  -- `_hook_matches`
  unfoldable pub hook_matches : Hook → Event → Option Bool
  unfolding event_matches_predicates
  hook_matches hook ev =
      if phone_matches hook.on_phone ev.phone_id
      then event_matches_predicates ev hook.match
      else some false
