-- ===== src/Dict/Proper.antt =====
-- A Python `dict` has each key once, and what iterates over its items depends on that.
use pjsua_mcp.Prelude.{◌≡◌, false, List, [], ◌∷◌, arith, Eq}
use pjsua_mcp.Dict.{Dict, get, has, set, pop, pop_all, get-set, get-pop}

abbrev pub IsProper {ℓ κ} : {K : Type ℓ} {V : Type κ} ⦃e : Eq K⦄ → Dict K V → Type 0
IsProper [] = Unit
IsProper ((k, v) ∷ d) = (has d k ≡ false) × IsProper d

module _ {ℓ κ} {K : Type ℓ} {V : Type κ} ⦃e : Eq K⦄ where
  pub set-IsProper : (d : Dict K V) (k : K) (v : V) → IsProper d → IsProper (set d k v)
  unfolding set get
  set-IsProper [] k v h = ground arith
  set-IsProper ((j, w) ∷ d) k v h =
      ground (arith, set-IsProper d k v h.1, get-set d k j v, e.beq_iff k j, e.beq_iff j k)

  pub pop-IsProper : (d : Dict K V) (k : K) → IsProper d → IsProper (pop d k)
  unfolding pop
  pop-IsProper [] k h = tt
  pop-IsProper ((j, w) ∷ d) k h = ground (arith, pop-IsProper d k h.1, get-pop d k j)

  pub pop_all-IsProper : (d : Dict K V) (ks : List K) → IsProper d → IsProper (pop_all d ks)
  unfolding pop_all
  pop_all-IsProper d [] h = h
  pop_all-IsProper d (k ∷ ks) h = pop_all-IsProper (pop d k) ks (pop-IsProper d k h)
