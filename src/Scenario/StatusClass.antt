-- ===== src/Scenario/StatusClass.antt =====
-- The classes of status codes, such as "4xx", in a hook of src/scenario_engine/hook_runtime.py.
use pjsua_mcp.Prelude.{
  ℕ, ◌/◌, ◌≡◌, refl, ◌∙◌, ap, Bool, false, Option, some, [], ◌∷◌, arith, nat_eq, ◌==◌,
}
use pjsua_mcp.Text.{Text}
use pjsua_mcp.Text.Integer.{int_of_text, pos}
use pjsua_mcp.Scenario.Value.{Value, nothing, int, str, int_of}
use pjsua_mcp.Scenario.Matching.{status_class, in_class, value_matches}

in_class_lem : (n code : ℕ) → in_class n (some (pos code)) ≡ (code / 100 == n)
in_class_lem n code = ground arith

-- A class is no regular expression.
status_class-regex : (c n : ℕ) (t : Text) → status_class (c ∷ t) ≡ some n → (c == b'~') ≡ false
status_class-regex c n [] h = ground arith
status_class-regex c n (x ∷ []) h = ground arith
status_class-regex c n (x ∷ y ∷ []) h = ground arith
status_class-regex c n (x ∷ y ∷ z ∷ t) h = ground arith

value_matches-class :
    (re_search : Text → Text → Option Bool) (t : Text) (n : ℕ) (actual : Value)
    → status_class t ≡ some n
    → value_matches re_search (str t) actual ≡ some (in_class n (int_of actual))
unfolding value_matches
value_matches-class re_search [] n actual h = ground arith
value_matches-class re_search (c ∷ t) n actual h = rw (status_class-regex c n t h, h) refl

-- A class of status codes matches a number just where its hundreds are those of the class, whatever
-- regular expressions do; it matches a text that is a number likewise, and nothing that is missing.
pub value_matches_lem :
    (re_search : Text → Text → Option Bool) (t u : Text) (n code : ℕ)
    → status_class t ≡ some n
    → int_of_text u ≡ some (pos code)
    → (value_matches re_search (str t) (int (pos code)) ≡ some (code / 100 == n))
      × (value_matches re_search (str t) (str u) ≡ some (code / 100 == n))
      × (value_matches re_search (str t) nothing ≡ some false)
value_matches_lem re_search t u n code h k = (
  value_matches-class re_search t n (int (pos code)) h ∙ ap some (in_class_lem n code),
  value_matches-class re_search t n (str u) h
      ∙ ap (λ i. some (in_class n i)) k
      ∙ ap some (in_class_lem n code),
  value_matches-class re_search t n nothing h,
)
