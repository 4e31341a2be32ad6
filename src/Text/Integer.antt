-- ===== src/Text/Integer.antt =====
-- Integers, and what Python's `int` makes of a text.
use pjsua_mcp.Prelude.{
  ℕ, zero, suc, ◌+◌, ◌-◌, ◌*◌, Bool, true, false, ◌&&◌, Option, none, some, [], ◌∷◌, nat_eq, ◌==◌,
  if◌then◌else◌,
}
use pjsua_mcp.Text.{Text}
use pjsua_mcp.Text.Scan.{is_digit, strip}

-- An integer: `pos n` is n and `negsuc n` is -(n + 1).
pub data ℤ : Type 0 where
  pos negsuc : ℕ → ℤ

-- Digits, where a single underscore may stand between two; the flag says whether a digit is before.
abbrev int_digits : Bool → ℕ → Text → Option ℕ
int_digits after n [] = if after then some n else none
int_digits after n (c ∷ t) =
    let rest = int_digits true (n * 10 + (c - b'0')) t in
    let next = int_digits false n t in
    if is_digit c then rest else if c == b'_' && after then next else none

abbrev negated : Option ℕ → Option ℤ
negated none = none
negated (some zero) = some (pos zero)
negated (some (suc n)) = some (negsuc n)

abbrev positive : Option ℕ → Option ℤ
positive none = none
positive (some n) = some (pos n)

abbrev signed : Text → Option ℤ
signed [] = none
signed (c ∷ t) =
    if c == b'-'
    then negated (int_digits false 0 t)
    else if c == b'+'
    then positive (int_digits false 0 t)
    else positive (int_digits false 0 (c ∷ t))

-- `int(t)`, which may raise
unfoldable pub int_of_text : Text → Option ℤ
unfolding strip
int_of_text t = signed (strip t)
