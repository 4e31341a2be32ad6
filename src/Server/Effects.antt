-- ===== src/Server/Effects.antt =====
-- What `_add_phone_impl` and `_drop_phone_impl` of src/server.py do to the tools and to the phones.
use pjsua_mcp.Prelude.{
  String, string_eq, ℕ, ◌≡◌, refl, sym, ap, ◌∙◌, subst, Bool, true, false, Option, some, arith,
  nat_eq, ◌==◌, ◌&&◌, ◌||◌, none, Bool-cases, inl, inr, if◌then◌else◌,
}
use pjsua_mcp.Text.{Text, text_eq, codes}
use pjsua_mcp.Dict.{Dict, has, get-set}
use pjsua_mcp.Pj.{Pj}
use pjsua_mcp.State.{Sys}
use pjsua_mcp.Server.Registry.{has_phone-hangup_all, has_phone-drop_phone}
use pjsua_mcp.Server.Names.{is_action, tool_name, names_of, validate_phone_id}
use pjsua_mcp.Server.Phones.{
  McpTools, Spec, has_phone, add_to, Server, drop_tools, with_tools, add_phone_impl, hung_up,
  forget, drop_phone_impl,
}
use pjsua_mcp.Server.Synced.{
  IsSynced, cleared, has-drop_tools, add_phone_impl-IsSynced, drop_phone_impl-IsSynced,
}

module _ {M : Type 0} (tools : McpTools M) (pj : Pj) where
  pub has-with_tools :
      (p q : String) (r : Bool × Sys) (s : Server tools pj)
      → let (returned, s') = with_tools tools pj p r s in
        has s'.phone_tools q ≡ ((returned && p == q) || has s.phone_tools q)
  has-with_tools p q (false, r) s = refl
  has-with_tools p q (true, r) s = ground (arith, get-set s.phone_tools p q (names_of (codes p)))

  same_phone : {A : Type 0} (d : Dict String A) (p q : String) → (p == q) ≡ true → has d q ≡ has d p
  same_phone d p q e = sym (ap (λ (t : String). has d t) ((string_eq.beq_iff p q).0 e))

  has-cleared :
      (p q : String) (s : Server tools pj)
      → has (cleared tools pj p s).phone_tools q ≡ (if p == q then false else has s.phone_tools q)
  has-cleared p q s = ground (arith, has-drop_tools tools pj p q s, same_phone s.phone_tools p q)

  added_or_cleared :
      (returned same b : Bool)
      → ((returned && same) || (if same then false else b)) ≡ (if same then returned else b)
  added_or_cleared returned true b = ground arith
  added_or_cleared returned false b = ground arith

  has-add_phone_impl :
      (p q : String) (spec : Spec) (s : Server tools pj)
      → let (returned, s') = add_phone_impl tools pj p spec s in
        has s'.phone_tools q
        ≡ (if validate_phone_id (codes p) && p == q then returned else has s.phone_tools q)
  unfolding add_phone_impl
  has-add_phone_impl p q spec s =
      let s' = cleared tools pj p s in
      let r = add_to pj p spec s'.registry in
      let w = with_tools tools pj p r s' in
      let P : Bool → Type 0 = λ b.
        let (returned, s'') : Bool × Server tools pj =
          if b then with_tools tools pj p r s' else (false, s) in
        has s''.phone_tools q ≡ (if b && p == q then returned else has s.phone_tools q) in
      elim (Bool-cases (validate_phone_id (codes p))) [
        | inr e ↦ subst P (sym e) refl
        | inl e ↦ subst P (sym e) (
            has-with_tools p q r s'
            ∙ ap (λ b. (w.0 && p == q) || b) (has-cleared p q s)
            ∙ added_or_cleared w.0 (p == q) (has s.phone_tools q))
      ]

  phone_tools-hung_up :
      (p : String) (hangup_calls : Bool) (s : Server tools pj)
      → (hung_up tools pj hangup_calls p s).phone_tools ≡ s.phone_tools
  phone_tools-hung_up p true s = refl
  phone_tools-hung_up p false s = refl

  pub has-drop_phone_impl :
      (p q : String) (hangup_calls : Bool) (s : Server tools pj)
      → IsSynced tools pj s
      → has (drop_phone_impl tools pj p hangup_calls s).1.phone_tools q
        ≡ (if p == q then false else has s.phone_tools q)
  unfolding drop_phone_impl
  has-drop_phone_impl p q hangup_calls s h =
      let P : Bool → Type 0 = λ b.
        let (removed, s') = drop_tools tools pj p (hung_up tools pj hangup_calls p s) in
        let r : Option ℕ × Server tools pj =
          if b then (some removed, forget tools pj p s') else (none, s) in
        has r.1.phone_tools q ≡ (if p == q then false else has s.phone_tools q) in
      elim (Bool-cases (has_phone p s.registry)) [
        | inl e ↦ subst P (sym e) (
            has-drop_tools tools pj p q (hung_up tools pj hangup_calls p s)
            ∙ ap (λ d. if p == q then false else has d q) (phone_tools-hung_up p hangup_calls s))
        | inr e ↦
            let none : has s.phone_tools p ≡ false = ground (arith, h.known p, e) in
            let same : (p == q) ≡ true → has s.phone_tools q ≡ false = λ d.
              sym (ap (λ (t : String). has s.phone_tools t) ((string_eq.beq_iff p q).0 d)) ∙ none in
            subst P (sym e) (ground (arith, same))
      ]

  -- Where the tools are in step with the phones, `_add_phone_impl` keeps them so, also where the id is
  -- refused or the registry raises in place of a phone that was there. With an id that is accepted, the
  -- tools of the phone are offered afterwards exactly where it returns; every other phone has the tools
  -- that it had, and so has one whose id is refused.
  pub add_phone_impl_lem :
      (p q : String) (a : Text) (spec : Spec) (s : Server tools pj)
      → IsSynced tools pj s
      → is_action a ≡ true
      → let (returned, s') = add_phone_impl tools pj p spec s in
        let offered = tools.has_tool (tool_name (codes q) a) in
        IsSynced tools pj s'
        × (offered s'.mcp
            ≡ (if validate_phone_id (codes p) && p == q then returned else offered s.mcp))
  add_phone_impl_lem p q a spec s h k =
      let (returned, s') = add_phone_impl tools pj p spec s in
      let synced = add_phone_impl-IsSynced tools pj p spec s h in
      (
        synced,
        synced.offered q a k
            ∙ has-add_phone_impl p q spec s
            ∙ ap (λ b. if validate_phone_id (codes p) && p == q then returned else b)
                (sym (h.offered q a k)),
      )

  has_phone-hung_up :
      (p q : String) (hangup_calls : Bool) (s : Server tools pj)
      → has_phone q (hung_up tools pj hangup_calls p s).registry ≡ has_phone q s.registry
  has_phone-hung_up p q true s = has_phone-hangup_all pj (some p) q s.registry
  has_phone-hung_up p q false s = refl

  has_phone-drop_tools :
      (p q : String) (s : Server tools pj)
      → has_phone q (drop_tools tools pj p s).1.registry ≡ has_phone q s.registry
  unfolding drop_tools
  has_phone-drop_tools p q s = refl

  has_phone-drop_phone_impl :
      (p q : String) (hangup_calls : Bool) (s : Server tools pj)
      → has_phone q (drop_phone_impl tools pj p hangup_calls s).1.registry
        ≡ (if p == q then false else has_phone q s.registry)
  unfolding drop_phone_impl
  has_phone-drop_phone_impl p q hangup_calls s =
      let (removed, s') = drop_tools tools pj p (hung_up tools pj hangup_calls p s) in
      let P : Bool → Type 0 = λ b.
        let r : Option ℕ × Server tools pj =
          if b then (some removed, forget tools pj p s') else (none, s) in
        has_phone q r.1.registry ≡ (if p == q then false else has_phone q s.registry) in
      elim (Bool-cases (has_phone p s.registry)) [
        | inl e ↦ subst P (sym e) (
            has_phone-drop_phone pj p q s'.registry
            ∙ ap (λ b. if p == q then false else b)
                (has_phone-drop_tools p q (hung_up tools pj hangup_calls p s)
                  ∙ has_phone-hung_up p q hangup_calls s))
        | inr e ↦ subst P (sym e) (ground (arith, e, same_phone s.registry.phones.accounts p q))
      ]

  -- Where the tools are in step with the phones, `_drop_phone_impl` keeps them so; afterwards the phone
  -- is not registered and none of its tools is offered, whether it was registered or not and whether its
  -- calls are hung up or not, and every other phone is registered and has its tools as before.
  pub drop_phone_impl_lem :
      (p q : String) (a : Text) (hangup_calls : Bool) (s : Server tools pj)
      → IsSynced tools pj s
      → is_action a ≡ true
      → let s' = (drop_phone_impl tools pj p hangup_calls s).1 in
        let offered = tools.has_tool (tool_name (codes q) a) in
        IsSynced tools pj s'
        × (offered s'.mcp ≡ (if p == q then false else offered s.mcp))
        × (has_phone q s'.registry ≡ (if p == q then false else has_phone q s.registry))
  drop_phone_impl_lem p q a hangup_calls s h k =
      let synced = drop_phone_impl-IsSynced tools pj p hangup_calls s h in
      (
        synced,
        synced.offered q a k
            ∙ has-drop_phone_impl p q hangup_calls s h
            ∙ ap (λ b. if p == q then false else b) (sym (h.offered q a k)),
        has_phone-drop_phone_impl p q hangup_calls s,
      )
