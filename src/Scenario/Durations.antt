-- ===== src/Scenario/Durations.antt =====
-- `_parse_ms` of src/scenario_engine/action_executor.py.
use pjsua_mcp.Prelude.{Option, none, some, [], nat_eq, ◌==◌, if◌then◌else◌}
use pjsua_mcp.Text.{Text, text_eq, codes}
use pjsua_mcp.Text.Scan.{is_digit, is_space, strip, number}
use pjsua_mcp.Text.Integer.{ℤ, pos, int_of_text}
use pjsua_mcp.Text.Regex.{
  Re, both, either, nothing as empty_re, many, group, some_of, literal, Match, match_at, run,
}
use pjsua_mcp.SipLog.Metadata.{group_1}
use pjsua_mcp.Scenario.Value.{Value, bool, int, str, int_of}

-- `_MS_RX`, `_S_RX`; the end of the text is that of the match.
abbrev re_ms : Re
re_ms = both (group (some_of is_digit)) (both (many is_space) (literal (codes "ms")))

abbrev re_fraction : Re
re_fraction = either (both (literal (codes ".")) (some_of is_digit)) empty_re

abbrev re_s : Re
re_s =
    both (group (both (some_of is_digit) re_fraction)) (both (many is_space) (literal (codes "s")))

abbrev to_the_end : Option Match → Option Text
to_the_end none = none
to_the_end (some (at, gs)) = if at.rest == [] then group_1 (some gs) else none

abbrev whole : Re → Text → Option Text
whole r t = to_the_end (match_at r (record { prev = none; rest = t }))

-- `int(float(t) * 1000)` of a number of seconds is a parameter, for its rounding.
module _ (milliseconds : Text → ℤ) where
  abbrev text_ms : Text → Option ℤ
  text_ms t = elim (whole re_ms t) [
    | some n ↦ some (pos (number n))
    | none ↦ elim (whole re_s t) [ some n ↦ some (milliseconds n) | none ↦ int_of_text t ]
  ]

  -- `_parse_ms`; a value of another type is taken to raise.
  unfoldable pub parse_ms : Value → Option ℤ
  unfolding run strip int_of_text
  parse_ms (str t) = text_ms (strip t)
  parse_ms (int n) = some n
  parse_ms (bool b) = int_of (bool b)
  parse_ms _ = none
