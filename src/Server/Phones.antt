-- ===== src/Server/Phones.antt =====
-- The phones of the server: `register_phone_tools` and `unregister_phone_tools` of
-- src/phone_tool_factory.py, and `_add_phone_impl`, `_drop_phone_impl` and `load_phones` of src/server.py.
-- The registry and the calls below it are those of this library; the tools of FastMCP are an interface.
use pjsua_mcp.Prelude.{
  String, string_eq, ℕ, ◌+◌, ◌≡◌, Bool, true, false, ◌||◌, Option, none, some, List, [], ◌∷◌, ◌++◌,
  nat_eq, ◌==◌, is_some, or_else, if◌then◌else◌,
}
use pjsua_mcp.Text.{Text, text_eq, codes}
use pjsua_mcp.Dict.{Dict, get, has, set, pop, keys}
use pjsua_mcp.Exec.{Result, ok, err}
use pjsua_mcp.Pj.{Pj}
use pjsua_mcp.State.{Sys, PhoneConfig}
use pjsua_mcp.Calls.Operations.{hangup_all}
use pjsua_mcp.Phones
use pjsua_mcp.Server.Names.{names_of, validate_phone_id}

-- FastMCP: `add_tool` of a name that is there keeps the tool that is there, and `remove_tool` of one that
-- is not there raises.
pub record McpTools (M : Type 0) : Type 0 where
  pub has_tool : Text → M → Bool
  pub add_tool : Text → M → M
  pub remove_tool : Text → M → Option M
  pub has-add : (n k : Text) (m : M) → has_tool k (add_tool n m) ≡ (n == k || has_tool k m)
  pub remove-unknown : (n : Text) (m : M) → has_tool n m ≡ false → remove_tool n m ≡ none
  pub remove-known : (n : Text) (m : M) → has_tool n m ≡ true → is_some (remove_tool n m) ≡ true
  pub has-remove :
      (n k : Text) (m m' : M)
      → remove_tool n m ≡ some m'
      → has_tool k m' ≡ (if n == k then false else has_tool k m)

-- What `_add_phone_impl` hands on to `PhoneRegistry.add_phone`: the configuration, and whether to register.
abbrev pub Spec : Type 0
Spec = PhoneConfig × Bool

-- `PhoneRegistry.has_phone`
abbrev pub has_phone : String → Sys → Bool
has_phone phone_id s = has s.phones.accounts phone_id

-- `PhoneRegistry.list_phone_ids`
abbrev pub list_phone_ids : Sys → List String
list_phone_ids s = keys s.phones.accounts

abbrev pub is_ok : Result (Unit {0}) × Sys → Bool × Sys
is_ok (ok a, s) = (true, s)
is_ok (err e, s) = (false, s)

-- `PhoneRegistry.add_phone`: whether it returns
abbrev pub add_to : Pj → String → Spec → Sys → Bool × Sys
add_to pj phone_id (cfg, register) s = is_ok (Phones.add_phone pj phone_id cfg register s)

-- What `load_phones` reports: the phones that it dropped, those that it added, and those that failed.
pub record Loaded : Type 0 where
  pub dropped : List String
  pub added : List String
  pub failed : List String

abbrev pub nothing_loaded : Loaded
nothing_loaded = record { dropped = []; added = []; failed = [] }

abbrev pub reported : String → Bool → Loaded → Loaded
reported p true l = record l { added = l.added ++ p ∷ [] }
reported p false l = record l { failed = l.failed ++ p ∷ [] }

module _ {M : Type 0} (tools : McpTools M) (pj : Pj) where
  -- The globals `mcp`, `registry` with `call_mgr`, and `_phone_tools`
  pub record Server : Type 0 where
    pub mcp : M
    pub registry : Sys
    pub phone_tools : Dict String (List Text)

  -- `_add`, for each name
  unfoldable pub add_tools : List Text → M → M
  add_tools [] m = m
  add_tools (n ∷ ns) m = add_tools ns (tools.add_tool n m)

  -- `register_phone_tools`
  abbrev pub register_phone_tools : String → M → List Text × M
  register_phone_tools phone_id m =
      (names_of (codes phone_id), add_tools (names_of (codes phone_id)) m)

  abbrev pub after_remove : Option M → ℕ × M → ℕ × M
  after_remove none (removed, m) = (removed, m)
  after_remove (some m') (removed, m) = (removed + 1, m')

  -- `unregister_phone_tools`: how many it has removed, after the first `removed`
  unfoldable pub unregister_from : List Text → ℕ × M → ℕ × M
  unregister_from [] s = s
  unregister_from (n ∷ ns) s = unregister_from ns (after_remove (tools.remove_tool n s.1) s)

  abbrev pub unregister_phone_tools : List Text → M → ℕ × M
  unregister_phone_tools names m = unregister_from names (0, m)

  -- "drop its tools first"
  unfoldable pub drop_tools : String → Server → ℕ × Server
  unfolding get pop unregister_from
  drop_tools phone_id s =
      let names = or_else (get s.phone_tools phone_id) [] in
      let (removed, m) = unregister_phone_tools names s.mcp in
      (removed, record s { mcp = m; phone_tools = pop s.phone_tools phone_id })

  abbrev pub with_tools : String → Bool × Sys → Server → Bool × Server
  with_tools phone_id (false, r) s = (false, record s { registry = r })
  with_tools phone_id (true, r) s =
      let (names, m) = register_phone_tools phone_id s.mcp in
      (true, record { mcp = m; registry = r; phone_tools = set s.phone_tools phone_id names })

  -- `_add_phone_impl`: whether it returns
  unfoldable pub add_phone_impl : String → Spec → Server → Bool × Server
  unfolding validate_phone_id drop_tools add_tools set
  add_phone_impl phone_id spec s =
      let s' = if has s.phone_tools phone_id then (drop_tools phone_id s).1 else s in
      if validate_phone_id (codes phone_id)
      then with_tools phone_id (add_to pj phone_id spec s'.registry) s'
      else (false, s)

  abbrev pub hung_up : Bool → String → Server → Server
  hung_up true phone_id s = record s { registry = hangup_all pj (some phone_id) s.registry }
  hung_up false phone_id s = s

  abbrev pub forget : String → Server → Server
  forget phone_id s = record s { registry = (Phones.drop_phone pj phone_id s.registry).1 }

  -- `_drop_phone_impl`: how many tools are gone, where the phone is registered
  unfoldable pub drop_phone_impl : String → Bool → Server → Option ℕ × Server
  unfolding drop_tools
  drop_phone_impl phone_id hangup_calls s =
      let (removed, s') = drop_tools phone_id (hung_up hangup_calls phone_id s) in
      if has_phone phone_id s.registry then (some removed, forget phone_id s') else (none, s)

  -- The loop that drops the phones.
  unfoldable pub drop_each : List String → Loaded × Server → Loaded × Server
  unfolding drop_phone_impl
  drop_each [] s = s
  drop_each (p ∷ ps) (l, s) =
      drop_each ps (record l { dropped = l.dropped ++ p ∷ [] }, (drop_phone_impl p true s).1)

  -- The loop that adds the phones of the profile.
  unfoldable pub add_each : List (String × Spec) → Loaded × Server → Loaded × Server
  unfolding add_phone_impl
  add_each [] s = s
  add_each ((p, spec) ∷ specs) (l, s) =
      let (returned, s') = add_phone_impl p spec s in add_each specs (reported p returned l, s')

  -- The phones that are there, with all calls hung up first
  abbrev pub tear_down : List String → Server → Loaded × Server
  tear_down [] s = (nothing_loaded, s)
  tear_down (p ∷ ps) s =
      drop_each (p ∷ ps) (nothing_loaded, record s { registry = hangup_all pj none s.registry })

  -- "in replace mode, tear down all existing phones + their calls first"
  abbrev pub torn_down : Bool → Server → Loaded × Server
  torn_down true s = (nothing_loaded, s)
  torn_down false s = tear_down (list_phone_ids s.registry) s

  -- `load_phones`, with what `_load_profile_yaml` gives; `none` where that raises
  unfoldable pub load_phones :
      Option (List (String × Spec)) → Bool → Server → Option Loaded × Server
  unfolding drop_each add_each
  load_phones none merge s = (none, s)
  load_phones (some specs) merge s =
      let (l, s') = add_each specs (torn_down merge s) in (some l, s')
