-- ===== src/Text/Scan.antt =====
-- Classes of characters, and the text methods and parts of regular expressions that the program is
-- written with. The classes are those of ASCII.
use pjsua_mcp.Prelude.{
  ℕ, ◌+◌, ◌-◌, ◌*◌, Bool, ◌&&◌, ◌||◌, Option, none, some, List, [], ◌∷◌, nat_eq, ◌==◌, leb,
  if◌then◌else◌,
}
use pjsua_mcp.Text.{Text, text_eq, starts_with}

-- `\d`
abbrev pub is_digit : ℕ → Bool
is_digit c = leb b'0' c && leb c b'9'

-- `\w`
abbrev pub is_word : ℕ → Bool
is_word c = is_digit c || leb b'a' c && leb c b'z' || leb b'A' c && leb c b'Z' || c == b'_'

-- `\s`, and what `strip` and `split` take for a blank
abbrev pub is_space : ℕ → Bool
is_space c = leb 9 c && leb c 13 || leb 28 c && leb c 32

-- The longest beginning whose characters pass, and the rest: a greedy `+` or `*` of a class.
unfoldable pub span : (ℕ → Bool) → Text → Text × Text
span p [] = ([], [])
span p (c ∷ t) = let (a, b) = span p t in if p c then (c ∷ a, b) else ([], c ∷ t)

-- The rest of a text after a given beginning.
unfoldable pub strip_prefix : Text → Text → Option Text
strip_prefix [] t = some t
strip_prefix (p ∷ ps) [] = none
strip_prefix (p ∷ ps) (c ∷ t) = if p == c then strip_prefix ps t else none

-- `w in t`
unfoldable pub has_text : Text → Text → Bool
has_text w [] = w == []
has_text w (c ∷ t) = starts_with (c ∷ t) w || has_text w t

-- `t.lstrip()`, `t.rstrip()`, `t.strip()`
unfoldable pub lstrip : Text → Text
unfolding span
lstrip t = (span is_space t).1

unfoldable pub rstrip : Text → Text
rstrip [] = []
rstrip (c ∷ t) = let rest = rstrip t in if rest == [] && is_space c then [] else c ∷ rest

unfoldable pub strip : Text → Text
unfolding lstrip rstrip
strip t = lstrip (rstrip t)

-- A character in front of the first of some words; the flag is whether the word has begun.
abbrev add_char : ℕ → List Text → List Text
add_char c [] = (c ∷ []) ∷ []
add_char c (w ∷ ws) = (c ∷ w) ∷ ws

-- Of a text that is cut at blanks: the piece before the first blank, and the words after it.
unfoldable pub cut_words : Text → Text × List Text
cut_words [] = ([], [])
cut_words (c ∷ t) =
    let (w, ws) = cut_words t in
    if is_space c then ([], if w == [] then ws else w ∷ ws) else (c ∷ w, ws)

-- `t.split()`
unfoldable pub words : Text → List Text
unfolding cut_words
words t = let (w, ws) = cut_words t in if w == [] then ws else w ∷ ws

-- `t.partition(sep)` at a separator of one character: what stands before it, and after it if it is
-- there
unfoldable pub partition : ℕ → Text → Text × Option Text
partition sep [] = ([], none)
partition sep (c ∷ t) =
    let (a, b) = partition sep t in if c == sep then ([], some t) else (c ∷ a, b)

abbrev number_from : ℕ → Text → ℕ
number_from n [] = n
number_from n (c ∷ t) = number_from (n * 10 + (c - b'0')) t

-- `int(t)` of digits
abbrev pub number : Text → ℕ
number t = number_from 0 t
