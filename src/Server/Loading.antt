-- ===== src/Server/Loading.antt =====
-- What `load_phones` of src/server.py leaves of the tools.
use pjsua_mcp.Prelude.{
  String, string_eq, ◌≡◌, refl, sym, ap, ◌∙◌, subst, Bool, true, false, ◌&&◌, ◌||◌, Option, none,
  some, List, [], ◌∷◌, ◌++◌, arith, nat_eq, ◌==◌, contains, contains-append, All, if_holds,
  if◌then◌else◌,
}
use pjsua_mcp.Text.{Text, text_eq, codes}
use pjsua_mcp.Dict.{has}
use pjsua_mcp.Pj.{Pj}
use pjsua_mcp.Calls.Operations.{hangup_all}
use pjsua_mcp.Server.Registry.{has_phone-listed}
use pjsua_mcp.Server.Names.{is_action, tool_name, validate_phone_id}
use pjsua_mcp.Server.Phones.{
  McpTools, Spec, list_phone_ids, add_to, Server, drop_tools, with_tools, add_phone_impl,
  drop_phone_impl, Loaded, nothing_loaded, drop_each, reported, add_each, tear_down, torn_down,
  load_phones,
}
use pjsua_mcp.Server.Synced.{
  IsSynced, hangup-IsSynced, add_phone_impl-IsSynced, drop_phone_impl-IsSynced,
}
use pjsua_mcp.Server.Effects.{has-with_tools, has-drop_phone_impl}

-- No id is given twice, and none is among those.
abbrev pub Distinct {ℓ} : {A : Type ℓ} → List (String × A) → Type 0
Distinct [] = Unit
Distinct ((p, x) ∷ specs) = All (λ e. (p == e.0) ≡ false) specs × Distinct specs

abbrev Unseen {ℓ} : {A : Type ℓ} → List String → List (String × A) → Type 0
Unseen seen [] = Unit
Unseen seen ((p, x) ∷ specs) = (contains p seen ≡ false) × Unseen seen specs

Unseen-nothing : {A : Type 0} (specs : List (String × A)) → Unseen [] specs
Unseen-nothing [] = tt
Unseen-nothing ((p, x) ∷ specs) = (refl, Unseen-nothing specs)

Unseen-append :
    {A : Type 0} (seen : List String) (p : String) (specs : List (String × A))
    → All (λ e. (p == e.0) ≡ false) specs
    → Unseen seen specs
    → Unseen (seen ++ p ∷ []) specs
Unseen-append seen p [] d u = tt
Unseen-append seen p ((q, x) ∷ specs) d u =
    (ground (arith, contains-append q seen (p ∷ []), d.0, u.0), Unseen-append seen p specs d.1 u.1)

module _ {M : Type 0} (tools : McpTools M) (pj : Pj) where
  -- The phones with tools, where the phone had none.
  has-add_phone_impl :
      (p q : String) (spec : Spec) (s : Server tools pj)
      → has s.phone_tools p ≡ false
      → let (returned, s') = add_phone_impl tools pj p spec s in
        has s'.phone_tools q ≡ ((returned && p == q) || has s.phone_tools q)
  unfolding add_phone_impl
  has-add_phone_impl p q spec s n =
      let P : Bool × Server tools pj → Type 0 =
        λ r. has r.1.phone_tools q ≡ ((r.0 && p == q) || has s.phone_tools q) in
      let dropped = (drop_tools tools pj p s).1 in
      subst
        (λ b.
          let s' = if b then dropped else s in
          P (
            if validate_phone_id (codes p)
            then with_tools tools pj p (add_to pj p spec s'.registry) s'
            else (false, s)))
        (sym n)
        (if_holds P (validate_phone_id (codes p))
          (has-with_tools tools pj p q (add_to pj p spec s.registry) s) refl)

  -- What has been added so far is what has tools.
  abbrev IsReported : Loaded × Server tools pj → Type 0
  IsReported (l, s) =
      IsSynced tools pj s × ((q : String) → has s.phone_tools q ≡ contains q l.added)

  reported-step :
      (p : String) (returned : Bool) (l : Loaded) (q : String)
      → contains q (reported p returned l).added ≡ ((returned && p == q) || contains q l.added)
  reported-step p true l q = ground (arith, contains-append q l.added (p ∷ []))
  reported-step p false l q = refl

  Unseen-reported :
      (p : String) (returned : Bool) (l : Loaded) (specs : List (String × Spec))
      → All (λ e. (p == e.0) ≡ false) specs
      → Unseen l.added specs
      → Unseen (reported p returned l).added specs
  Unseen-reported p true l specs d u = Unseen-append l.added p specs d u
  Unseen-reported p false l specs d u = u

  add_each-IsReported :
      (specs : List (String × Spec)) (l : Loaded) (s : Server tools pj)
      → Distinct specs
      → Unseen l.added specs
      → IsReported (l, s)
      → IsReported (add_each tools pj specs (l, s))
  unfolding add_each
  add_each-IsReported [] l s d u h = h
  add_each-IsReported ((p, spec) ∷ specs) l s d u h =
      let (returned, s') = add_phone_impl tools pj p spec s in
      add_each-IsReported specs (reported p returned l) s' d.1
        (Unseen-reported p returned l specs d.0 u.1)
        (
          add_phone_impl-IsSynced tools pj p spec s h.0,
          λ q.
              has-add_phone_impl p q spec s (h.1 p ∙ u.0)
              ∙ ap (λ b. (returned && p == q) || b) (h.1 q)
              ∙ sym (reported-step p returned l q),
        )

  drop_each_lem :
      (ps : List String) (l : Loaded) (s : Server tools pj)
      → IsSynced tools pj s
      → let (l', s') = drop_each tools pj ps (l, s) in
        IsSynced tools pj s'
        × (l'.added ≡ l.added)
        × ((q : String)
            → has s'.phone_tools q ≡ (if contains q ps then false else has s.phone_tools q))
  unfolding drop_each
  drop_each_lem [] l s h = (h, refl, λ q. refl)
  drop_each_lem (p ∷ ps) l s h =
      let s' = (drop_phone_impl tools pj p true s).1 in
      let k = drop_phone_impl-IsSynced tools pj p true s h in
      let rest = drop_each_lem ps (record l { dropped = l.dropped ++ p ∷ [] }) s' k in
      (rest.0, rest.1, λ q. ground (arith, rest.2 q, has-drop_phone_impl tools pj p q true s h))

  tear_down-IsReported :
      (ps : List String) (s : Server tools pj)
      → IsSynced tools pj s
      → ((q : String) → has s.phone_tools q ≡ true → contains q ps ≡ true)
      → IsReported (tear_down tools pj ps s)
  tear_down-IsReported [] s h k = (h, λ q. ground (arith, k q))
  tear_down-IsReported (p ∷ ps) s h k =
      let s' : Server tools pj = record s { registry = hangup_all pj none s.registry } in
      let r = drop_each_lem (p ∷ ps) nothing_loaded s' (hangup-IsSynced tools pj none s h) in
      (r.0, λ q. r.2 q ∙ ground (arith, k q) ∙ ap (contains q) (sym r.1))

  torn_down-IsReported :
      (s : Server tools pj) → IsSynced tools pj s → IsReported (torn_down tools pj false s)
  torn_down-IsReported s h =
      tear_down-IsReported (list_phone_ids s.registry) s h
        (λ q e. has_phone-listed q s.registry ∙ h.known q e)

  tear_down-Unseen :
      (ps : List String) (s : Server tools pj) (specs : List (String × Spec))
      → IsSynced tools pj s
      → Unseen (tear_down tools pj ps s).0.added specs
  tear_down-Unseen [] s specs h = Unseen-nothing specs
  tear_down-Unseen (p ∷ ps) s specs h =
      let s' : Server tools pj = record s { registry = hangup_all pj none s.registry } in
      let r = drop_each_lem (p ∷ ps) nothing_loaded s' (hangup-IsSynced tools pj none s h) in
      subst (λ l. Unseen l specs) (sym r.1) (Unseen-nothing specs)

  abbrev pub added_of : Option Loaded → List String
  added_of none = []
  added_of (some l) = l.added

  -- Where the tools are in step with the phones, loading a profile without a double id, in place of what
  -- is there, leaves them so, and an action's tool is offered for exactly those phones that the report
  -- says were added, whatever phones were there and whichever of the new ones failed.
  pub load_phones_lem :
      (specs : List (String × Spec)) (s : Server tools pj) (p : String) (a : Text)
      → IsSynced tools pj s
      → Distinct specs
      → is_action a ≡ true
      → let (report, s') = load_phones tools pj (some specs) false s in
        IsSynced tools pj s'
        × (tools.has_tool (tool_name (codes p) a) s'.mcp ≡ contains p (added_of report))
  unfolding load_phones
  load_phones_lem specs s p a h d k =
      let t = torn_down tools pj false s in
      let r =
        add_each-IsReported specs t.0 t.1 d (tear_down-Unseen (list_phone_ids s.registry) s specs h)
          (torn_down-IsReported s h) in
      (r.0, r.0.offered p a k ∙ r.1 p)
