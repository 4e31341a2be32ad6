-- ===== src/Server/Synced.antt =====
-- The tools that a client sees are those of the server and of the phones it has loaded.
use pjsua_mcp.Prelude.{
  String, string_eq, ℕ, ◌≡◌, refl, sym, ap, ◌∙◌, subst, Bool, true, false, Option, some, List, [],
  arith, nat_eq, ◌==◌, contains, is_some, or_else, Bool-cases, Option-cases, inl, inr, if_holds,
  if◌then◌else◌,
}
use pjsua_mcp.Text.{Text, text_eq, codes}
use pjsua_mcp.Dict.{Dict, get, has, set, get-set, get-pop}
use pjsua_mcp.Pj.{Pj}
use pjsua_mcp.State.{Sys}
use pjsua_mcp.Calls.Operations.{hangup_all}
use pjsua_mcp.Server.Registry.{
  has_phone-hangup_all, has_phone-drop_phone, has_phone-added, has_phone-others,
}
use pjsua_mcp.Server.Names.{is_action, is_static, tool_name, names_of, validate_phone_id}
use pjsua_mcp.Server.Offered.{
  contains-names_of_id, contains-static_of, has-add_tools, has-unregister,
}
use pjsua_mcp.Server.Phones.{
  McpTools, Spec, has_phone, add_to, Server, drop_tools, with_tools, add_phone_impl, hung_up,
  forget, drop_phone_impl,
}

apart :
    (d : Dict String (List Text)) (p q : String)
    → has d p ≡ false
    → has d q ≡ true
    → (p == q) ≡ false
apart d p q n e = elim (Bool-cases (p == q)) [
  | inr k ↦ k
  | inl k ↦ ground (arith, sym (ap (λ (t : String). has d t) ((string_eq.beq_iff p q).0 k)) ∙ n, e)
]

module _ {M : Type 0} (tools : McpTools M) (pj : Pj) where
  -- The tools of a phone are there where the phone has tools, those of the server are there, the names
  -- that are kept for a phone are its own, and a phone with tools is registered.
  pub record IsSynced (s : Server tools pj) : Type 0 where
    pub offered :
        (p : String) (a : Text)
        → is_action a ≡ true
        → tools.has_tool (tool_name (codes p) a) s.mcp ≡ has s.phone_tools p
    pub static : (n : Text) → is_static n ≡ true → tools.has_tool n s.mcp ≡ true
    pub named :
        (p : String) (names : List Text)
        → get s.phone_tools p ≡ some names
        → names ≡ names_of (codes p)
    pub known : (p : String) → has s.phone_tools p ≡ true → has_phone p s.registry ≡ true

  -- The names that are kept for a phone, or none.
  kept_names :
      (p : String) (s : Server tools pj) (k : Text)
      → IsSynced s
      → contains k (or_else (get s.phone_tools p) [])
        ≡ (if has s.phone_tools p then contains k (names_of (codes p)) else false)
  kept_names p s k h = elim (Option-cases (get s.phone_tools p)) [
    | inl e ↦ rw e refl
    | inr (names, e) ↦
        ap (λ o. contains k (or_else o [])) e
        ∙ ap (λ ns. contains k ns) (h.named p names e)
        ∙ ap (λ o. if is_some o then contains k (names_of (codes p)) else false) (sym e)
  ]

  pub drop_tools-IsSynced :
      (p : String) (s : Server tools pj) → IsSynced s → IsSynced (drop_tools tools pj p s).1
  unfolding drop_tools
  drop_tools-IsSynced p s h =
      let names = or_else (get s.phone_tools p) [] in
      record {
        offered = λ q a k. ground (
          arith,
          has-unregister tools pj names (tool_name (codes q) a) (0, s.mcp),
          kept_names p s (tool_name (codes q) a) h,
          contains-names_of_id q p a k,
          h.offered q a k,
          get-pop s.phone_tools p q,
          string_eq.beq_iff p q,
        );
        static = λ n k. ground (
          arith,
          has-unregister tools pj names n (0, s.mcp),
          kept_names p s n h,
          contains-static_of (codes p) n k,
          h.static n k,
        );
        named = λ q ns e. ground (arith, get-pop s.phone_tools p q, e, h.named q ns);
        known = λ q e. ground (arith, get-pop s.phone_tools p q, e, h.known q);
      }

  pub has-drop_tools :
      (p q : String) (s : Server tools pj)
      → has (drop_tools tools pj p s).1.phone_tools q
        ≡ (if p == q then false else has s.phone_tools q)
  unfolding drop_tools
  has-drop_tools p q s = ground (arith, get-pop s.phone_tools p q)

  named-set :
      (p q : String) (s : Server tools pj) {ns : List Text}
      → IsSynced s
      → get (set s.phone_tools p (names_of (codes p))) q ≡ some ns
      → ns ≡ names_of (codes q)
  named-set p q s {ns} h e = elim (Bool-cases (p == q)) [
    | inl d ↦
        let found : some (names_of (codes p)) ≡ some ns =
          sym (
            get-set s.phone_tools p q (names_of (codes p))
            ∙ ap (λ b. if b then some (names_of (codes p)) else get s.phone_tools q) d)
          ∙ e in
        sym (ap (λ o. or_else o []) found)
        ∙ ap (λ (p : String). names_of (codes p)) ((string_eq.beq_iff p q).0 d)
    | inr d ↦ h.named q ns (
        sym (
          get-set s.phone_tools p q (names_of (codes p))
          ∙ ap (λ b. if b then some (names_of (codes p)) else get s.phone_tools q) d)
        ∙ e)
  ]

  -- The phone has no tools, and gets them where `add_phone` of the registry returns.
  with_tools-IsSynced :
      (p : String) (r : Bool × Sys) (s : Server tools pj)
      → has s.phone_tools p ≡ false
      → (r.0 ≡ true → has_phone p r.1 ≡ true)
      → ((q : String) → (p == q) ≡ false → has_phone q r.1 ≡ has_phone q s.registry)
      → IsSynced s
      → IsSynced (with_tools tools pj p r s).1
  with_tools-IsSynced p (false, r) s n here others h = record {
    offered = h.offered;
    static = h.static;
    named = h.named;
    known = λ q e. ground (arith, e, n, h.known q, others q, apart s.phone_tools p q n e);
  }
  with_tools-IsSynced p (true, r) s n here others h = record {
    offered = λ q a k. ground (
      arith,
      has-add_tools tools pj (names_of (codes p)) (tool_name (codes q) a) s.mcp,
      contains-names_of_id q p a k,
      h.offered q a k,
      get-set s.phone_tools p q (names_of (codes p)),
    );
    static =
        λ m k. ground (arith, has-add_tools tools pj (names_of (codes p)) m s.mcp, h.static m k);
    named = λ q ns e. named-set p q s h e;
    known = λ q e. ground (
      arith,
      e,
      get-set s.phone_tools p q (names_of (codes p)),
      h.known q,
      others q,
      here refl,
      string_eq.beq_iff p q,
    );
  }

  abbrev pub cleared : String → Server tools pj → Server tools pj
  cleared p s = if has s.phone_tools p then (drop_tools tools pj p s).1 else s

  cleared-IsSynced :
      (p : String) (s : Server tools pj)
      → IsSynced s
      → IsSynced (cleared p s) × (has (cleared p s).phone_tools p ≡ false)
  cleared-IsSynced p s h =
      let Q : Server tools pj → Type 0 = λ s. IsSynced s × (has s.phone_tools p ≡ false) in
      elim (Bool-cases (has s.phone_tools p)) [
        | inl e ↦
            subst (λ b. Q (if b then (drop_tools tools pj p s).1 else s)) (sym e)
              (
                drop_tools-IsSynced p s h,
                ground (arith, has-drop_tools p p s, string_eq.beq_iff p p),
              )
        | inr e ↦ subst (λ b. Q (if b then (drop_tools tools pj p s).1 else s)) (sym e) (h, e)
      ]

  -- `_add_phone_impl` keeps the tools in step with the phones, also where the id is refused or the
  -- registry raises in place of a phone that was there.
  pub add_phone_impl-IsSynced :
      (p : String) (spec : Spec) (s : Server tools pj)
      → IsSynced s
      → IsSynced (add_phone_impl tools pj p spec s).1
  unfolding add_phone_impl
  add_phone_impl-IsSynced p spec s h =
      let cleared = cleared-IsSynced p s h in
      let s' = if has s.phone_tools p then (drop_tools tools pj p s).1 else s in
      if_holds (λ (r : Bool × Server tools pj). IsSynced r.1) (validate_phone_id (codes p))
        (with_tools-IsSynced p (add_to pj p spec s'.registry) s' cleared.1
          (has_phone-added pj p spec s'.registry)
          (λ q n. has_phone-others pj p q spec s'.registry n) cleared.0)
        h

  pub hangup-IsSynced :
      (o : Option String) (s : Server tools pj)
      → IsSynced s
      → IsSynced (record s { registry = hangup_all pj o s.registry })
  hangup-IsSynced o s h = record {
    offered = h.offered;
    static = h.static;
    named = h.named;
    known = λ q e. has_phone-hangup_all pj o q s.registry ∙ h.known q e;
  }

  hung_up-IsSynced :
      (p : String) (hangup_calls : Bool) (s : Server tools pj)
      → IsSynced s
      → IsSynced (hung_up tools pj hangup_calls p s)
  hung_up-IsSynced p true s h = hangup-IsSynced (some p) s h
  hung_up-IsSynced p false s h = h

  forget-IsSynced :
      (p : String) (s : Server tools pj)
      → has s.phone_tools p ≡ false
      → IsSynced s
      → IsSynced (forget tools pj p s)
  forget-IsSynced p s n h = record {
    offered = h.offered;
    static = h.static;
    named = h.named;
    known = λ q e.
        ground
          (arith, has_phone-drop_phone pj p q s.registry, h.known q e, apart s.phone_tools p q n e);
  }

  -- `_drop_phone_impl` keeps the tools in step with the phones, also where the phone is not registered.
  pub drop_phone_impl-IsSynced :
      (p : String) (hangup_calls : Bool) (s : Server tools pj)
      → IsSynced s
      → IsSynced (drop_phone_impl tools pj p hangup_calls s).1
  unfolding drop_phone_impl
  drop_phone_impl-IsSynced p hangup_calls s h =
      let s' = hung_up tools pj hangup_calls p s in
      let k = drop_tools-IsSynced p s' (hung_up-IsSynced p hangup_calls s h) in
      if_holds (λ (r : Option ℕ × Server tools pj). IsSynced r.1) (has_phone p s.registry)
        (forget-IsSynced p (drop_tools tools pj p s').1
          (ground (arith, has-drop_tools p p s', string_eq.beq_iff p p)) k)
        h
