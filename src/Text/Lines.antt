-- ===== src/Text/Lines.antt =====
-- A text cut into lines and put together again: `split` and `join` of Python at "\n" and at "\r\n".
use pjsua_mcp.Prelude.{
  ℕ, ◌&&◌, List, [], ◌∷◌, ◌++◌, ◌≡◌, refl, nat_eq, ◌==◌, arith, Bool-cases, inl, inr, if◌then◌else◌,
}
use pjsua_mcp.Text.{Text, text_eq}

abbrev cons_head : ℕ → List Text → List Text
cons_head c [] = (c ∷ []) ∷ []
cons_head c (l ∷ ls) = (c ∷ l) ∷ ls

-- `t.split("\n")`
unfoldable pub split_lf : Text → List Text
split_lf [] = [] ∷ []
split_lf (c ∷ t) = let rest = split_lf t in if c == 10 then [] ∷ rest else cons_head c rest

-- `t.split("\r\n")`
unfoldable pub split_crlf : Text → List Text
split_crlf [] = [] ∷ []
split_crlf (c ∷ []) = (c ∷ []) ∷ []
split_crlf (c ∷ d ∷ t) =
    let after = split_crlf t in
    let rest = split_crlf (d ∷ t) in if c == 13 && d == 10 then [] ∷ after else cons_head c rest

-- `sep.join(ls)`
unfoldable pub join : Text → List Text → Text
join sep [] = []
join sep (l ∷ []) = l
join sep (l ∷ m ∷ ls) = l ++ (sep ++ join sep (m ∷ ls))

join-cons_head : (sep : Text) (c : ℕ) (ls : List Text) → join sep (cons_head c ls) ≡ c ∷ join sep ls
unfolding join
join-cons_head sep c [] = refl
join-cons_head sep c (l ∷ []) = refl
join-cons_head sep c (l ∷ m ∷ ls) = refl

-- Cutting a text never gives an empty list.
abbrev IsCut : List Text → Type 0
IsCut ls = (l : Text) × (more : List Text) × (ls ≡ l ∷ more)

cons_head-IsCut : (c : ℕ) (ls : List Text) → IsCut (cons_head c ls)
cons_head-IsCut c [] = (c ∷ [], [], refl)
cons_head-IsCut c (l ∷ ls) = (c ∷ l, ls, refl)

split_lf-IsCut : (t : Text) → IsCut (split_lf t)
unfolding split_lf
split_lf-IsCut [] = ([], [], refl)
split_lf-IsCut (c ∷ t) = elim (Bool-cases (c == 10)) [
  | inl e ↦ rw e ([], split_lf t, refl)
  | inr e ↦ rw e (cons_head-IsCut c (split_lf t))
]

split_crlf-IsCut : (t : Text) → IsCut (split_crlf t)
unfolding split_crlf
split_crlf-IsCut [] = ([], [], refl)
split_crlf-IsCut (c ∷ []) = (c ∷ [], [], refl)
split_crlf-IsCut (c ∷ d ∷ t) = elim (Bool-cases (c == 13 && d == 10)) [
  | inl e ↦ rw e ([], split_crlf t, refl)
  | inr e ↦ rw e (cons_head-IsCut c (split_crlf (d ∷ t)))
]

join-nil_cons : (sep : Text) (ls : List Text) → IsCut ls → join sep ([] ∷ ls) ≡ sep ++ join sep ls
unfolding join
join-nil_cons sep ls (l, more, e) = rw e

-- Lines that are put together again are the text that was cut.
pub join-split_lf : (t : Text) → join (10 ∷ []) (split_lf t) ≡ t
unfolding split_lf
join-split_lf [] = unfold join in refl
join-split_lf (c ∷ t) = ground (
  arith,
  join-split_lf t,
  join-nil_cons (10 ∷ []) (split_lf t) (split_lf-IsCut t),
  join-cons_head (10 ∷ []) c (split_lf t),
)

pub join-split_crlf : (t : Text) → join (13 ∷ 10 ∷ []) (split_crlf t) ≡ t
unfolding split_crlf
join-split_crlf [] = unfold join in refl
join-split_crlf (c ∷ []) = unfold join in refl
join-split_crlf (c ∷ d ∷ t) = ground (
  arith,
  join-split_crlf t,
  join-split_crlf (d ∷ t),
  join-nil_cons (13 ∷ 10 ∷ []) (split_crlf t) (split_crlf-IsCut t),
  join-cons_head (13 ∷ 10 ∷ []) c (split_crlf (d ∷ t)),
)
