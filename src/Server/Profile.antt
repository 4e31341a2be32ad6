-- ===== src/Server/Profile.antt =====
-- `_load_profile_yaml` of src/server.py, from the value that the YAML file holds. Keys are texts; what
-- raises gives none.
use pjsua_mcp.Prelude.{
  Bool, true, false, not, ◌&&◌, ◌||◌, Option, none, some, List, [], ◌∷◌, map, ◌==◌, any, contains,
  if◌then◌else◌,
}
use pjsua_mcp.Text.{Text, text_eq, codes}
use pjsua_mcp.Scenario.Value.{
  Value, list, dict, Fields, no_more, field, lookup, or_nothing, items_of, truthy, value_beq,
}
use pjsua_mcp.Scenario.Actions.{without}

-- `_PHONE_FIELDS`
abbrev phone_fields : List Text
phone_fields = map codes (
    "phone_id" ∷ "domain" ∷ "username" ∷ "password" ∷ "realm" ∷ "srtp" ∷ "auto_answer" ∷ "transport"
    ∷ "local_port" ∷ "codecs" ∷ "register" ∷ "recording_enabled" ∷ "capture_enabled" ∷ [])

-- `key in _PHONE_FIELDS`
unfoldable pub is_phone_field : Text → Bool
is_phone_field key = contains key phone_fields

-- The key in `_LEGACY_FIELDS`
abbrev pub legacy_field : Text
legacy_field = codes "recordings_dir"

abbrev pub required_fields : List Text
required_fields = map codes ("phone_id" ∷ "domain" ∷ "username" ∷ "password" ∷ [])

-- `d[key] = v`
unfoldable pub set_field : Text → Value → Fields → Fields
set_field key v no_more = field key v no_more
set_field key v (field k w fs) = if k == key then field k v fs else field k w (set_field key v fs)

-- `{**defaults, **entry}`
unfoldable pub merged : Fields → Fields → Fields
unfolding set_field
merged defaults no_more = defaults
merged defaults (field k v fs) = merged (set_field k v defaults) fs

unfoldable pub has_unknown : Fields → Bool
has_unknown no_more = false
has_unknown (field k v fs) = not (is_phone_field k) || has_unknown fs

abbrev pub is_missing : Fields → Text → Bool
is_missing fs key = not (truthy (or_nothing (lookup key fs)))

-- A required field is not there, or it is empty.
unfoldable pub lacks_field : Fields → Bool
unfolding lookup
lacks_field fs = any (is_missing fs) required_fields

abbrev pub accepted : Fields → Option Fields
accepted fs = if has_unknown fs then none else if lacks_field fs then none else some fs

-- The body of the loop
unfoldable pub resolve : Fields → Value → Option Fields
unfolding without merged has_unknown lacks_field
resolve defaults (dict entry) = accepted (without legacy_field (merged defaults entry))
resolve defaults _ = none

abbrev pub both : Option Fields → Option (List Fields) → Option (List Fields)
both (some fs) (some rest) = some (fs ∷ rest)
both _ _ = none

unfoldable pub resolve_all : Fields → List Value → Option (List Fields)
unfolding resolve
resolve_all defaults [] = some []
resolve_all defaults (v ∷ vs) = both (resolve defaults v) (resolve_all defaults vs)

abbrev pub id_of : Fields → Value
id_of fs = or_nothing (lookup (codes "phone_id") fs)

-- A value that a set can hold
abbrev pub is_hashable : Value → Bool
is_hashable (list vs) = false
is_hashable (dict fs) = false
is_hashable _ = true

-- `len(set(ids)) == len(ids)`, where the set can be made
unfoldable pub has_distinct : List Fields → Bool
unfolding value_beq lookup
has_distinct [] = true
has_distinct (fs ∷ rest) =
    is_hashable (id_of fs)
    && (not (any (λ gs. value_beq (id_of fs) (id_of gs)) rest) && has_distinct rest)

abbrev pub if_distinct : Option (List Fields) → Option (List Fields)
if_distinct none = none
if_distinct (some specs) = if has_distinct specs then some specs else none

-- The phones of the file: a list that is empty is refused.
abbrev pub of_phones : Fields → List Value → Option (List Fields)
of_phones defaults [] = none
of_phones defaults (p ∷ ps) = if_distinct (resolve_all defaults (p ∷ ps))

abbrev pub with_defaults : Option Fields → Value → Option (List Fields)
with_defaults (some defaults) (list vs) = of_phones defaults (items_of vs)
with_defaults _ _ = none

-- `data.get("defaults") or {}`
abbrev pub defaults_of : Value → Option Fields
defaults_of (dict fs) = some fs
defaults_of v = if truthy v then none else some no_more

-- `_load_profile_yaml`
unfoldable pub load_profile : Value → Option (List Fields)
unfolding resolve_all has_distinct lookup
load_profile (dict top) =
    with_defaults (defaults_of (or_nothing (lookup (codes "defaults") top)))
      (or_nothing (lookup (codes "phones") top))
load_profile _ = none
