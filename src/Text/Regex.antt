-- ===== src/Text/Regex.antt =====
-- Python's `re`, as far as the program uses it: a backtracking matcher for expressions that repeat
-- only single characters, under MULTILINE. Classes are those of ASCII.
use pjsua_mcp.Prelude.{
  ℕ, zero, suc, ◌-◌, Bool, true, false, not, Option, none, some, List, [], ◌∷◌, ◌++◌, nat_eq, ◌==◌,
  length, if◌then◌else◌,
}
use pjsua_mcp.Text.{Text, lower_code}
use pjsua_mcp.Text.Scan.{is_word}

-- An expression; `many` is a greedy `*` and `few` a lazy one.
pub data Re : Type 0 where
  nothing : Re
  one : (ℕ → Bool) → Re
  both : Re → Re → Re
  either : Re → Re → Re
  many : (ℕ → Bool) → Re
  few : (ℕ → Bool) → Re
  group : Re → Re
  line_start : Re
  boundary : Re

-- A place in a text: the character before it and the text after it.
pub record Place : Type 0 where
  pub prev : Option ℕ
  pub rest : Text

-- The place where a match ends, and its groups.
abbrev pub Match : Type 0
Match = Place × List Text

abbrev pub try_next {ℓ} : {A : Type ℓ} → Option A → Option A → Option A
try_next none b = b
try_next (some a) b = some a

abbrev take : ℕ → Text → Text
take zero t = []
take (suc n) [] = []
take (suc n) (c ∷ t) = c ∷ take n t

-- The text between two places.
abbrev between : Place → Place → Text
between a b = take (length a.rest - length b.rest) a.rest

abbrev is_lf : Option ℕ → Bool
is_lf none = true
is_lf (some c) = c == b'\n'

abbrev is_word_at : Text → Bool
is_word_at [] = false
is_word_at (c ∷ t) = is_word c

abbrev is_word_before : Option ℕ → Bool
is_word_before none = false
is_word_before (some c) = is_word c

abbrev differ : Bool → Bool → Bool
differ true b = not b
differ false b = b

module _ (k : Place → List Text → Option Match) (gs : List Text) (p : ℕ → Bool) where
  unfoldable pub greedy : Option ℕ → Text → Option Match
  greedy prev [] = k (record { prev = prev; rest = [] }) gs
  greedy prev (c ∷ t) =
      let more = greedy (some c) t in
      let here = k (record { prev = prev; rest = c ∷ t }) gs in
      if p c then try_next more here else here

  unfoldable pub lazily : Option ℕ → Text → Option Match
  lazily prev [] = k (record { prev = prev; rest = [] }) gs
  lazily prev (c ∷ t) =
      let more = lazily (some c) t in
      let here = k (record { prev = prev; rest = c ∷ t }) gs in
      if p c then try_next here more else here

-- The matches of an expression from a place on, in the order in which `re` tries them, handed to `k`
-- until it takes one.
unfoldable pub run : Re → Place → List Text → (Place → List Text → Option Match) → Option Match
unfolding greedy lazily
run nothing place gs k = k place gs
run (one p) place gs k = elim place.rest [
  | [] ↦ none
  | c ∷ t ↦ if p c then k (record { prev = some c; rest = t }) gs else none
]
run (both r s) place gs k = run r place gs (λ at gs'. run s at gs' k)
run (either r s) place gs k = try_next (run r place gs k) (run s place gs k)
run (many p) place gs k = greedy k gs p place.prev place.rest
run (few p) place gs k = lazily k gs p place.prev place.rest
run (group r) place gs k = run r place gs (λ at gs'. k at (gs' ++ between place at ∷ []))
run line_start place gs k = if is_lf place.prev then k place gs else none
run boundary place gs k =
    if differ (is_word_before place.prev) (is_word_at place.rest) then k place gs else none

-- `re.match` at a place
abbrev pub match_at : Re → Place → Option Match
match_at r place = run r place [] (λ at gs. some (at, gs))

-- The first match at or after a place.
unfoldable pub search_from : Re → Option ℕ → Text → Option Match
unfolding run
search_from r prev [] = match_at r (record { prev = prev; rest = [] })
search_from r prev (c ∷ t) =
    try_next (match_at r (record { prev = prev; rest = c ∷ t })) (search_from r (some c) t)

abbrev pub groups_of : Option Match → Option (List Text)
groups_of none = none
groups_of (some (at, gs)) = some gs

-- `re.search`: the groups of the first match
abbrev pub search : Re → Text → Option (List Text)
search r t = groups_of (search_from r none t)

-- `re.finditer` for an expression that matches no empty text; the first argument counts the
-- characters that the last match has still to itself.
unfoldable pub find_from : Re → ℕ → Option ℕ → Text → List (List Text)
unfolding run
find_from r n prev [] = []
find_from r (suc n) prev (c ∷ t) = find_from r n (some c) t
find_from r zero prev (c ∷ t) = elim (match_at r (record { prev = prev; rest = c ∷ t })) [
  | none ↦ find_from r zero (some c) t
  | some (at, gs) ↦ gs ∷ find_from r (length t - length at.rest) (some c) t
]

abbrev pub find_iter : Re → Text → List (List Text)
find_iter r t = find_from r zero none t

-- `c+`, `c+?`, a literal, and one under IGNORECASE
abbrev pub some_of : (ℕ → Bool) → Re
some_of p = both (one p) (many p)

abbrev pub literal : Text → Re
literal [] = nothing
literal (c ∷ t) = both (one (λ d. d == c)) (literal t)

abbrev pub literal_ci : Text → Re
literal_ci [] = nothing
literal_ci (c ∷ t) = both (one (λ d. lower_code d == lower_code c)) (literal_ci t)

-- A class of all characters but one.
abbrev pub other_than : ℕ → ℕ → Bool
other_than c d = not (d == c)
