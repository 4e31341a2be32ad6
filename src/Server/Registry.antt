-- ===== src/Server/Registry.antt =====
-- What the server needs of `PhoneRegistry` (src/account_manager.py) and `CallManager` (src/call_manager.py):
-- which phones there are after each of the operations that it calls.
use pjsua_mcp.Prelude.{
  String, ◌≡◌, refl, ap, ◌∙◌, sym, true, false, Option, List, [], ◌∷◌, ℕ, arith, nat_eq, string_eq,
  ◌==◌, contains, is_some, Bool-cases, inl, inr, if◌then◌else◌,
}
use text.Mathlib.TextEquality.{Char-path}
use pjsua_mcp.Text.{Text, text_eq, codes}
use pjsua_mcp.Dict.{has, contains-keys}
use pjsua_mcp.Exec.{Result, ok, err}
use pjsua_mcp.Pj.{Pj}
use pjsua_mcp.State.{Sys, Account, PhoneConfig}
use pjsua_mcp.Calls.Operations.{hang_up_one, hang_up_each, calls_in_scope, hangup_all}
use pjsua_mcp.Phones.{add_phone, drop_phone}
use pjsua_mcp.Phones.Adding.{drop_phone_lem, add_phone_others, add_phone_lem}
use pjsua_mcp.Server.Phones.{Spec, has_phone, list_phone_ids, is_ok, add_to}

pub has_phone-listed : (p : String) (s : Sys) → contains p (list_phone_ids s) ≡ has_phone p s
has_phone-listed p s = contains-keys s.phones.accounts p

hang_up_one-phones : (pj : Pj) (cid : ℕ) (s : Sys) → (hang_up_one pj cid s).phones ≡ s.phones
hang_up_one-phones pj cid s = ground arith

hang_up_each-phones :
    (pj : Pj) (cids : List ℕ) (s : Sys) → (hang_up_each pj cids s).phones ≡ s.phones
unfolding hang_up_each
hang_up_each-phones pj [] s = refl
hang_up_each-phones pj (cid ∷ cids) s =
    hang_up_each-phones pj cids (hang_up_one pj cid s) ∙ hang_up_one-phones pj cid s

pub has_phone-hangup_all :
    (pj : Pj) (o : Option String) (p : String) (s : Sys)
    → has_phone p (hangup_all pj o s) ≡ has_phone p s
unfolding hangup_all
has_phone-hangup_all pj o p s =
    ap (λ phones. has phones.accounts p) (hang_up_each-phones pj (calls_in_scope o s) s)

pub has_phone-drop_phone :
    (pj : Pj) (p q : String) (s : Sys)
    → has_phone q (drop_phone pj p s).1 ≡ (if p == q then false else has_phone q s)
has_phone-drop_phone pj p q s = ground (arith, (drop_phone_lem pj p q s).1)

returned-ok : (r : Result (Unit {0}) × Sys) → (is_ok r).0 ≡ true → r ≡ (ok tt, (is_ok r).1)
returned-ok (ok tt, s) e = refl
returned-ok (err x, s) e = ground (arith, e)

same_state : (r : Result (Unit {0}) × Sys) → (is_ok r).1 ≡ r.1
same_state (ok a, s) = refl
same_state (err x, s) = refl

pub has_phone-added :
    (pj : Pj) (p : String) (x : Spec) (s : Sys)
    → (add_to pj p x s).0 ≡ true
    → has_phone p (add_to pj p x s).1 ≡ true
has_phone-added pj p (cfg, register) s e =
    let r = add_phone pj p cfg register s in
    ap is_some (add_phone_lem pj p cfg register s (is_ok r).1 (returned-ok r e)).1

pub has_phone-others :
    (pj : Pj) (p q : String) (x : Spec) (s : Sys)
    → (p == q) ≡ false
    → has_phone q (add_to pj p x s).1 ≡ has_phone q s
has_phone-others pj p q (cfg, register) s n =
    let r = add_phone pj p cfg register s in
    ap (has_phone q) (same_state r)
    ∙ ap (λ (h : Option Account × Option PhoneConfig). is_some h.0)
        (add_phone_others pj p q cfg register s n)

abbrev first_or_0 : Text → ℕ
first_or_0 [] = 0
first_or_0 (c ∷ t) = c

abbrev rest_of : Text → Text
rest_of [] = []
rest_of (c ∷ t) = t

-- Two ids with the same characters are the same.
codes-injective : (p q : String) → codes p ≡ codes q → p ≡ q
codes-injective String.[] String.[] e = refl
codes-injective String.[] (String.◌∷◌ d q) e = ground (arith, e)
codes-injective (String.◌∷◌ c p) String.[] e = ground (arith, e)
codes-injective (String.◌∷◌ c p) (String.◌∷◌ d q) e =
    let h = ap (λ (t : Text). first_or_0 t) e in
    let k = codes-injective p q (ap (λ (t : Text). rest_of t) e) in
    λ i. String.◌∷◌ (Char-path c d h i) (k i)

pub codes_eq : (p q : String) → (codes p == codes q) ≡ (p == q)
codes_eq p q = elim (Bool-cases (p == q)) [
  | inl e ↦ (text_eq.beq_iff (codes p) (codes q)).1 (ap codes ((string_eq.beq_iff p q).0 e)) ∙ sym e
  | inr n ↦ elim (Bool-cases (codes p == codes q)) [
    | inr k ↦ k ∙ sym n
    | inl k ↦
        let same =
          (string_eq.beq_iff p q).1
            (codes-injective p q ((text_eq.beq_iff (codes p) (codes q)).0 k)) in
        ground (arith, same, n)
  ]
]
