-- ===== src/Server/Tests.antt =====
-- The server's tools and profiles at concrete inputs.
use pjsua_mcp.Prelude.{
  String, string_eq, ◌&&◌, ◌≡◌, refl, sym, ap, ◌∙◌, true, false, not, ◌||◌, Option, none, some,
  List, [], ◌∷◌, arith, nat_eq, ◌==◌, keep, contains, contains-keep, is_some, Bool-cases, inl, inr,
  All, if◌then◌else◌,
}
use pjsua_mcp.Text.{Text, text_eq, codes}
use pjsua_mcp.Dict.{get}
use pjsua_mcp.Scenario.Value.{
  Value, str, list, dict, end, item, Fields, no_more, field, lookup, value_beq,
}
use pjsua_mcp.Scenario.Actions.{without}
use pjsua_mcp.Scenario.Commands.{first_there}
use pjsua_mcp.Server.Names.{
  is_action, is_static, static_tools, tool_name, is_phone_id, validate_phone_id,
}
use pjsua_mcp.Server.Apart.{tool_name-injective, tool_name-static, validate_phone_id_lem}
use pjsua_mcp.Server.Phones.{
  McpTools, Server, Spec, has_phone, add_tools, add_phone_impl, drop_phone_impl, load_phones,
}
use pjsua_mcp.Server.Names.{collides, names_of}
use pjsua_mcp.Dict.{set}
use pjsua_mcp.State.{Sys}
use pjsua_mcp.Engine.{open_transport}
use pjsua_mcp.Phones.{add_phone}
use pjsua_mcp.Fixtures.{talking, settings, two_phones}
use pjsua_mcp.Server.Synced.{IsSynced}
use pjsua_mcp.Server.Effects.{add_phone_impl_lem, drop_phone_impl_lem}
use pjsua_mcp.Server.Loading.{added_of, load_phones_lem}
use pjsua_mcp.Server.Profile.{
  is_phone_field, set_field, merged, has_unknown, lacks_field, resolve, resolve_all, has_distinct,
  load_profile,
}
use pjsua_mcp.Server.Accepted.{IsComplete, IsApart, load_profile_lem, resolve-lookup}

-- Tools that are a list of names.
abbrev added : Text → List Text → List Text
added n m = if contains n m then m else n ∷ m

abbrev removed : Text → List Text → Option (List Text)
removed n m = if contains n m then some (keep (λ k. not (k == n)) m) else none

abbrev rest_of : Option (List Text) → List Text
rest_of none = []
rest_of (some m) = m

has-added_name : (n k : Text) (m : List Text) → contains k (added n m) ≡ (n == k || contains k m)
has-added_name n k m = elim (Bool-cases (n == k)) [
  | inr e ↦ ground (arith, e)
  | inl e ↦ ground (arith, e, ap (λ t. contains t m) ((text_eq.beq_iff n k).0 e))
]

has-removed_name :
    (n k : Text) (m m' : List Text)
    → removed n m ≡ some m'
    → contains k m' ≡ (if n == k then false else contains k m)
has-removed_name n k m m' e = elim (Bool-cases (contains n m)) [
  | inr h ↦ ground (arith, e, h)
  | inl h ↦
      let same : keep (λ t. not (t == n)) m ≡ m' = ground (arith, e, h) in
      ap (contains k) (sym same)
      ∙ contains-keep (λ t. not (t == n)) k m
      ∙ ground (arith, text_eq.beq_iff n k, text_eq.beq_iff k n)
]

removed-unknown : (n : Text) (m : List Text) → contains n m ≡ false → removed n m ≡ none
removed-unknown n m h = ground (arith, h)

removed-known : (n : Text) (m : List Text) → contains n m ≡ true → is_some (removed n m) ≡ true
removed-known n m h = ground (arith, h)

abbrev name_list : McpTools (List Text)
name_list = record {
  has_tool = contains;
  add_tool = added;
  remove_tool = removed;
  has-add = has-added_name;
  remove-unknown = removed-unknown;
  remove-known = removed-known;
  has-remove = has-removed_name;
}

-- The engine runs, and no phone has been added.
abbrev no_phones : Sys
no_phones = record two_phones { phones = record two_phones.phones { accounts = []; configs = [] } }

abbrev started : Server name_list talking
started = record { mcp = static_tools; registry = no_phones; phone_tools = [] }

started-IsSynced : IsSynced name_list talking started
unfolding is_static get
started-IsSynced = record {
  offered = λ p a h. tool_name-static (codes p) a h;
  static = λ n h. h;
  named = λ p names e. ground (arith, e);
  known = λ p e. ground (arith, e);
}

hangup_is_action : is_action (codes "hangup") ≡ true
unfolding is_action
hangup_is_action = refl

tool_name-injective_example : (codes "a" ≡ codes "a") × (codes "hangup" ≡ codes "hangup")
tool_name-injective_example =
    tool_name-injective (codes "a") (codes "a") (codes "hangup") (codes "hangup") hangup_is_action
      hangup_is_action refl

validate_phone_id_lem_example : validate_phone_id (codes "a-b") ≡ is_phone_id (codes "a-b")
validate_phone_id_lem_example = validate_phone_id_lem (codes "a-b")

refused_id :
    (is_phone_id (codes "a-b") ≡ false)
    × (is_phone_id [] ≡ false)
    × (is_phone_id (codes "line_1") ≡ true)
unfolding is_phone_id
refused_id = (refl, refl, refl)

abbrev a_id : String
a_id = "a"

abbrev with_a : Server name_list talking
with_a = (add_phone_impl name_list talking "a" (settings, true) started).1

-- The phone has been added, with its tools.
a_added :
    ((add_phone_impl name_list talking "a" (settings, true) started).0 ≡ true)
    × (contains (tool_name (codes "a") (codes "hangup")) with_a.mcp ≡ true)
unfolding add_phone_impl validate_phone_id is_phone_id collides tool_name names_of add_tools
    add_phone open_transport get set
a_added = (refl, refl)

add_phone_impl_lem_example :
    let (returned, s) = add_phone_impl name_list talking "a" (settings, true) started in
    let offered = contains (tool_name (codes "a") (codes "hangup")) in
    IsSynced name_list talking s
    × (offered s.mcp
        ≡ (if validate_phone_id (codes "a") && a_id == a_id then returned else offered started.mcp))
add_phone_impl_lem_example =
    add_phone_impl_lem name_list talking "a" "a" (codes "hangup") (settings, true) started
      started-IsSynced hangup_is_action

drop_phone_impl_lem_example :
    let s = (drop_phone_impl name_list talking "a" true with_a).1 in
    let offered = contains (tool_name (codes "a") (codes "hangup")) in
    IsSynced name_list talking s
    × (offered s.mcp ≡ (if a_id == a_id then false else offered with_a.mcp))
    × (has_phone "a" s.registry ≡ (if a_id == a_id then false else has_phone "a" with_a.registry))
drop_phone_impl_lem_example =
    drop_phone_impl_lem name_list talking "a" "a" (codes "hangup") true with_a
      add_phone_impl_lem_example.0 hangup_is_action

-- The second phone cannot be added: there is no such transport.
abbrev two_specs : List (String × Spec)
two_specs =
    ("b", (settings, true)) ∷ ("c", (record settings { transport = "carrier pigeon" }, true)) ∷ []

load_phones_lem_example :
    let (report, s) = load_phones name_list talking (some two_specs) false with_a in
    IsSynced name_list talking s
    × (contains (tool_name (codes "b") (codes "hangup")) s.mcp
        ≡ contains "b" (added_of name_list talking report))
load_phones_lem_example =
    load_phones_lem name_list talking two_specs with_a "b" (codes "hangup")
      add_phone_impl_lem_example.0 ((refl, tt), (tt, tt)) hangup_is_action

-- A profile with defaults, which one of its phones overrides, and a field that is no longer used.
abbrev phone_a : Fields
phone_a =
    field (codes "phone_id") (str (codes "a"))
      (field (codes "username") (str (codes "1001")) no_more)

abbrev phone_b : Fields
phone_b = field (codes "phone_id") (str (codes "b")) (
    field (codes "username") (str (codes "1002"))
      (field (codes "password") (str (codes "y")) no_more))

abbrev defaults : Fields
defaults = field (codes "domain") (str (codes "sip.test")) (
    field (codes "password") (str (codes "x"))
      (field (codes "recordings_dir") (str (codes "/r")) no_more))

abbrev profile : Value
profile = dict (
    field (codes "defaults") (dict defaults)
      (field (codes "phones") (list (item (dict phone_a) (item (dict phone_b) end))) no_more))

abbrev specs_or : Option (List Fields) → List Fields
specs_or none = []
specs_or (some specs) = specs

given : (o : Option (List Fields)) → is_some o ≡ true → o ≡ some (specs_or o)
given none e = ground (arith, e)
given (some specs) e = refl

loaded : is_some (load_profile profile) ≡ true
unfolding load_profile resolve_all resolve without merged set_field has_unknown is_phone_field
    lacks_field has_distinct value_beq lookup
loaded = refl

load_profile_lem_example :
    let specs = specs_or (load_profile profile) in All IsComplete specs × IsApart specs
load_profile_lem_example =
    load_profile_lem profile (specs_or (load_profile profile)) (given (load_profile profile) loaded)

twice :
    load_profile (
      dict (
        field
          (codes "defaults")
          (dict defaults)
          (field (codes "phones") (list (item (dict phone_a) (item (dict phone_a) end))) no_more)))
    ≡ none
unfolding load_profile resolve_all resolve without merged set_field has_unknown is_phone_field
    lacks_field has_distinct value_beq lookup
twice = refl

abbrev spec_or : Option Fields → Fields
spec_or none = no_more
spec_or (some spec) = spec

given_one : (o : Option Fields) → is_some o ≡ true → o ≡ some (spec_or o)
given_one none e = ground (arith, e)
given_one (some spec) e = refl

resolved :
    (is_some (resolve defaults (dict phone_b)) ≡ true)
    × (lookup (codes "username") (field (codes "password") (str (codes "y")) no_more) ≡ none)
    × (lookup (codes "phone_id") (
          field
            (codes "username")
            (str (codes "1002"))
            (field (codes "password") (str (codes "y")) no_more))
        ≡ none)
    × (lookup (codes "password") no_more ≡ none)
unfolding resolve without merged set_field has_unknown is_phone_field lacks_field lookup
resolved = (refl, refl, refl, refl)

resolve-lookup_example :
    lookup (codes "password") (spec_or (resolve defaults (dict phone_b)))
    ≡ first_there (lookup (codes "password") phone_b) (lookup (codes "password") defaults)
resolve-lookup_example =
    resolve-lookup defaults phone_b (spec_or (resolve defaults (dict phone_b))) (codes "password")
      (resolved.2, (resolved.1, (resolved.3, tt)))
      (given_one (resolve defaults (dict phone_b)) resolved.0) refl
