-- ===== src/Server/Apart.antt =====
-- No two tools have the same name.
use mathlib.Core.List.{append-nil}
use pjsua_mcp.Prelude.{
  ℕ, ◌≡◌, refl, sym, ap, ◌∙◌, ◌⊎◌, inl, inr, Bool, true, false, not, ◌&&◌, ◌||◌, List, [], ◌∷◌,
  ◌++◌, map, length, length-append, arith, nat_eq, ◌==◌, any, contains, Bool-cases,
}
use pjsua_mcp.Text.{Text, text_eq}
use pjsua_mcp.Server.Names.{
  actions, reserved_actions, static_tools, static_tool_names, tool_name, is_action, is_static,
  is_phone_id, collides, validate_phone_id,
}

-- A text is the end of another.
unfoldable ends : Text → Text → Bool
ends t [] = t == []
ends t (c ∷ s) = t == (c ∷ s) || ends t s

ends-append : (u t : Text) → ends t (u ++ t) ≡ true
unfolding ends
ends-append [] [] = refl
ends-append [] (c ∷ t) = ground (arith, text_eq.beq_iff (c ∷ t) (c ∷ t))
ends-append (c ∷ u) t = ground (arith, ends-append u t)

abbrev tail : Text → Text
tail [] = []
tail (c ∷ t) = t

abbrev head : ℕ → Text → ℕ
head d [] = d
head d (c ∷ t) = c

-- Where two splittings of a text differ, one ends in the other's end.
split :
    (p s q t : Text)
    → p ++ s ≡ q ++ t
    → ((u : Text) × (q ≡ p ++ u) × (s ≡ u ++ t)) ⊎ ((u : Text) × (p ≡ q ++ u) × (t ≡ u ++ s))
split [] s q t e = inl (q, refl, e)
split (c ∷ p) s [] t e = inr (c ∷ p, refl, sym e)
split (c ∷ p) s (d ∷ q) t e = elim (split p s q t (ap tail e)) [
  | inl (u, e1, e2) ↦ inl (u, ground (arith, e, e1), e2)
  | inr (u, e1, e2) ↦ inr (u, ground (arith, e, e1), e2)
]

-- The ends of the names of the actions.
abbrev suffixes : List Text
suffixes = map (λ a. b'_' ∷ a) actions

table : any (λ t. any (λ s. ends t s && not (t == s)) suffixes) suffixes ≡ false
unfolding ends
table = refl

static_table : any (λ t. any (λ s. ends t s) static_tools) suffixes ≡ false
unfolding ends
static_table = refl

-- A test that none of a list passes, none in the list passes.
not-any :
    (p : Text → Bool) (ts : List Text) (t : Text)
    → any p ts ≡ false
    → contains t ts ≡ true
    → p t ≡ false
not-any p [] t h k = ground (arith, k)
not-any p (s ∷ ts) t h k = elim (Bool-cases (s == t)) [
  | inl e ↦ ap p (sym ((text_eq.beq_iff s t).0 e)) ∙ ground (arith, h)
  | inr e ↦ not-any p ts t (ground (arith, h)) (ground (arith, k, e))
]

contains-suffixes :
    (ts : List Text) (a : Text)
    → contains a ts ≡ true
    → contains (b'_' ∷ a) (map (λ a. b'_' ∷ a) ts) ≡ true
contains-suffixes [] a h = h
contains-suffixes (t ∷ ts) a h =
    ground
      (arith, h, text_eq.beq_iff t a, text_eq.beq_iff (b'_' ∷ t) (b'_' ∷ a), contains-suffixes ts a)

-- Of two actions neither name ends the other's.
same_end :
    (a b : Text)
    → contains a actions ≡ true
    → contains b actions ≡ true
    → ends (b'_' ∷ b) (b'_' ∷ a) ≡ true
    → b ≡ a
same_end a b ha hb e =
    let t = b'_' ∷ b in
    let s = b'_' ∷ a in
    let lone =
      not-any (λ t. any (λ s. ends t s && not (t == s)) suffixes) suffixes t table
        (contains-suffixes actions b hb) in
    let none =
      not-any (λ s. ends t s && not (t == s)) suffixes s lone (contains-suffixes actions a ha) in
    ap tail ((text_eq.beq_iff t s).0 (ground (arith, none, e)))

no_room : (u s : Text) → s ≡ u ++ s → u ≡ []
no_room [] s e = refl
no_room (c ∷ u) s e = ground (arith, ap length e, length-append u s)

joined : (p u q : Text) → q ≡ p ++ u → u ≡ [] → p ≡ q
joined p u q e n = sym (e ∙ ap (λ u. p ++ u) n ∙ append-nil p)

name-injective :
    (p q a b : Text)
    → contains a actions ≡ true
    → contains b actions ≡ true
    → p ++ b'_' ∷ a ≡ q ++ b'_' ∷ b
    → (p ≡ q) × (a ≡ b)
name-injective p q a b ha hb e = elim (split p (b'_' ∷ a) q (b'_' ∷ b) e) [
  | inl (u, e1, e2) ↦
      let same = same_end a b ha hb (ap (λ s. ends (b'_' ∷ b) s) e2 ∙ ends-append u (b'_' ∷ b)) in
      let room = no_room u (b'_' ∷ a) (e2 ∙ ap (λ b. u ++ b'_' ∷ b) same) in
      (joined p u q e1 room, sym same)
  | inr (u, e1, e2) ↦
      let same = same_end b a hb ha (ap (λ s. ends (b'_' ∷ a) s) e2 ∙ ends-append u (b'_' ∷ a)) in
      let room = no_room u (b'_' ∷ b) (e2 ∙ ap (λ a. u ++ b'_' ∷ a) same) in
      (sym (joined q u p e1 room), same)
]

-- Two phones never share the name of a tool for their actions, and a phone has no name for two of them.
pub tool_name-injective :
    (p q a b : Text)
    → is_action a ≡ true
    → is_action b ≡ true
    → tool_name p a ≡ tool_name q b
    → (p ≡ q) × (a ≡ b)
unfolding tool_name is_action
tool_name-injective p q a b ha hb e = name-injective p q a b ha hb e

-- A name whose end ends none of the list is not in the list.
name-absent :
    (p t : Text) (names : List Text)
    → any (λ s. ends t s) names ≡ false
    → contains (p ++ t) names ≡ false
name-absent p t names h = elim (Bool-cases (contains (p ++ t) names)) [
  | inr e ↦ e
  | inl e ↦
      let no : ends t (p ++ t) ≡ false = not-any (λ s. ends t s) names (p ++ t) h e in
      ground (arith, no, ends-append p t)
]

-- The name of a phone's tool is none of the server's own.
pub tool_name-static : (p a : Text) → is_action a ≡ true → is_static (tool_name p a) ≡ false
unfolding tool_name is_action is_static
tool_name-static p a h = name-absent p (b'_' ∷ a) static_tools (
    not-any (λ t. any (λ s. ends t s) static_tools) suffixes (b'_' ∷ a) static_table
      (contains-suffixes actions a h))

none-absent :
    (p : Text) (names as' : List Text)
    → any (λ a. any (λ s. ends (b'_' ∷ a) s) names) as' ≡ false
    → any (λ a. contains (tool_name p a) names) as' ≡ false
unfolding tool_name
none-absent p names [] h = refl
none-absent p names (a ∷ as') h =
    ground (arith, h, name-absent p (b'_' ∷ a) names, none-absent p names as')

guard_table : any (λ a. any (λ s. ends (b'_' ∷ a) s) static_tool_names) reserved_actions ≡ false
unfolding ends
guard_table = refl

collides-false : (p : Text) → collides p ≡ false
unfolding collides
collides-false p = none-absent p static_tool_names reserved_actions guard_table

and_not : (a b : Bool) → b ≡ false → (a && not b) ≡ a
and_not true b e = ap not e
and_not false b e = refl

-- The check for collisions never refuses a phone: `_validate_phone_id` asks for the pattern alone.
pub validate_phone_id_lem : (p : Text) → validate_phone_id p ≡ is_phone_id p
unfolding validate_phone_id
validate_phone_id_lem p = and_not (is_phone_id p) (collides p) (collides-false p)
