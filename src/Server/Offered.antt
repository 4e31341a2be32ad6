-- ===== src/Server/Offered.antt =====
-- Which names a phone's tools have, and what adding and removing a list of names does to the tools.
use pjsua_mcp.Prelude.{
  String, string_eq, ℕ, ◌≡◌, refl, sym, ap, ◌∙◌, Bool, true, false, not, ◌||◌, Option, none, some,
  List, [], ◌∷◌, map, arith, nat_eq, ◌==◌, any, contains, is_some, Bool-cases, inl, inr,
  if◌then◌else◌,
}
use pjsua_mcp.Text.{Text, text_eq, codes}
use pjsua_mcp.Server.Names.{actions, is_action, is_static, tool_name, names_of}
use pjsua_mcp.Server.Apart.{tool_name-injective, tool_name-static}
use pjsua_mcp.Pj.{Pj}
use pjsua_mcp.Server.Registry.{codes_eq}
use pjsua_mcp.Server.Phones.{McpTools, add_tools, unregister_from, after_remove}

contains-map_tool :
    (p a : Text) (as' : List Text)
    → contains a as' ≡ true
    → contains (tool_name p a) (map (tool_name p) as') ≡ true
contains-map_tool p a [] h = h
contains-map_tool p a (b ∷ as') h = elim (Bool-cases (b == a)) [
  | inl e ↦
      let same = ap (tool_name p) ((text_eq.beq_iff b a).0 e) in
      ground (arith, (text_eq.beq_iff (tool_name p b) (tool_name p a)).1 same)
  | inr e ↦ ground (arith, h, e, contains-map_tool p a as')
]

-- The actions that are not among the server's.
abbrev strange : List Text → Bool
strange as' = any (λ b. not (is_action b)) as'

no_strange : strange actions ≡ false
unfolding is_action
no_strange = refl

contains-other_tool :
    (p q a : Text) (as' : List Text)
    → (q == p) ≡ false
    → is_action a ≡ true
    → strange as' ≡ false
    → contains (tool_name p a) (map (tool_name q) as') ≡ false
contains-other_tool p q a [] n h k = refl
contains-other_tool p q a (b ∷ as') n h k =
    let known : is_action b ≡ true = ground (arith, k) in
    let rest = contains-other_tool p q a as' n h (ground (arith, k)) in
    elim (Bool-cases (tool_name q b == tool_name p a)) [
      | inr e ↦ ground (arith, e, rest)
      | inl e ↦
          let same =
            tool_name-injective q p b a known h
              ((text_eq.beq_iff (tool_name q b) (tool_name p a)).0 e) in
          ground (arith, n, (text_eq.beq_iff q p).1 same.0)
    ]

-- A tool of one phone is among the names of another only where they are the same phone.
pub contains-names_of :
    (p q a : Text) → is_action a ≡ true → contains (tool_name p a) (names_of q) ≡ (q == p)
unfolding names_of is_action
contains-names_of p q a h = elim (Bool-cases (q == p)) [
  | inr e ↦ contains-other_tool p q a actions e h no_strange ∙ sym e
  | inl e ↦
      let same = (text_eq.beq_iff q p).0 e in
      ap (λ q. contains (tool_name p a) (names_of q)) same ∙ contains-map_tool p a actions h ∙ sym e
]

-- The same, of phones by their ids.
pub contains-names_of_id :
    (p q : String) (a : Text)
    → is_action a ≡ true
    → contains (tool_name (codes p) a) (names_of (codes q)) ≡ (q == p)
contains-names_of_id p q a h = contains-names_of (codes p) (codes q) a h ∙ codes_eq q p

contains-static :
    (q n : Text) (as' : List Text)
    → is_static n ≡ true
    → strange as' ≡ false
    → contains n (map (tool_name q) as') ≡ false
contains-static q n [] h k = refl
contains-static q n (b ∷ as') h k =
    let known : is_action b ≡ true = ground (arith, k) in
    let rest = contains-static q n as' h (ground (arith, k)) in
    elim (Bool-cases (tool_name q b == n)) [
      | inr e ↦ ground (arith, e, rest)
      | inl e ↦
          let same = ap (λ n. is_static n) ((text_eq.beq_iff (tool_name q b) n).0 e) in
          let no : is_static n ≡ false = sym same ∙ tool_name-static q b known in
          ground (arith, no, h)
    ]

pub contains-static_of : (q n : Text) → is_static n ≡ true → contains n (names_of q) ≡ false
unfolding names_of
contains-static_of q n h = contains-static q n actions h no_strange

module _ {M : Type 0} (tools : McpTools M) (pj : Pj) where
  pub has-add_tools :
      (ns : List Text) (k : Text) (m : M)
      → tools.has_tool k (add_tools tools pj ns m) ≡ (contains k ns || tools.has_tool k m)
  unfolding add_tools
  has-add_tools [] k m = refl
  has-add_tools (n ∷ ns) k m =
      ground (arith, has-add_tools ns k (tools.add_tool n m), tools.has-add n k m)

  has-after_remove :
      (n k : Text) (o : Option M) (s : ℕ × M)
      → tools.remove_tool n s.1 ≡ o
      → tools.has_tool k (after_remove tools pj o s).1
        ≡ (if n == k then false else tools.has_tool k s.1)
  has-after_remove n k (some m') s e = tools.has-remove n k s.1 m' e
  has-after_remove n k none s e = elim (Bool-cases (tools.has_tool n s.1)) [
    | inl h ↦ ground (arith, tools.remove-known n s.1 h, ap is_some e)
    | inr h ↦ elim (Bool-cases (n == k)) [
      | inr d ↦ ground (arith, d)
      | inl d ↦
          let same = ap (λ n. tools.has_tool n s.1) ((text_eq.beq_iff n k).0 d) in
          ground (arith, d, sym same ∙ h)
    ]
  ]

  pub has-unregister :
      (ns : List Text) (k : Text) (s : ℕ × M)
      → tools.has_tool k (unregister_from tools pj ns s).1
        ≡ (if contains k ns then false else tools.has_tool k s.1)
  unfolding unregister_from
  has-unregister [] k s = refl
  has-unregister (n ∷ ns) k s =
      let s' = after_remove tools pj (tools.remove_tool n s.1) s in
      ground (arith, has-unregister ns k s', has-after_remove n k (tools.remove_tool n s.1) s refl)
