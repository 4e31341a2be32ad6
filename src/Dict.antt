-- ===== src/Dict.antt =====
-- Python's `dict`: an association list in insertion order. A write to a key that is there keeps
-- its place, a write to a new key goes to the end.
pub mod Proper
use pjsua_mcp.Prelude.{
  ◌≡◌, refl, Bool, true, false, Option, none, some, List, [], ◌∷◌, ◌++◌, arith, Eq, ◌==◌, is_some,
  or_else, contains, if◌then◌else◌,
}

abbrev pub Dict {ℓ κ} : Type ℓ → Type κ → Type (ℓ ⊔ κ)
Dict K V = List (K × V)

module _ {ℓ κ} {K : Type ℓ} {V : Type κ} where
  -- `list(d.keys())`, `list(d.values())`
  abbrev pub keys : Dict K V → List K
  keys [] = []
  keys ((k, v) ∷ d) = k ∷ keys d

  abbrev pub values : Dict K V → List V
  values [] = []
  values ((k, v) ∷ d) = v ∷ values d

module _ {ℓ κ} {K : Type ℓ} {V : Type κ} ⦃e : Eq K⦄ where
  -- `d.get(k)`
  unfoldable pub get : Dict K V → K → Option V
  get [] k = none
  get ((j, v) ∷ d) k = if j == k then some v else get d k

  -- `k in d`
  abbrev pub has : Dict K V → K → Bool
  has d k = is_some (get d k)

  -- `d[k] = v`
  unfoldable pub set : Dict K V → K → V → Dict K V
  set [] k v = (k, v) ∷ []
  set ((j, w) ∷ d) k v = if j == k then (j, v) ∷ d else (j, w) ∷ set d k v

  -- `d.pop(k, None)`, the dictionary that is left
  unfoldable pub pop : Dict K V → K → Dict K V
  pop [] k = []
  pop ((j, v) ∷ d) k = let rest = pop d k in if j == k then rest else (j, v) ∷ rest

  -- `d.setdefault(k, v)`, the dictionary afterwards
  abbrev pub setdefault : Dict K V → K → V → Dict K V
  setdefault d k v = if has d k then d else set d k v

  -- `for k in ks: d.pop(k, None)`
  unfoldable pub pop_all : Dict K V → List K → Dict K V
  pop_all d [] = d
  pop_all d (k ∷ ks) = pop_all (pop d k) ks

  pub get-set :
      (d : Dict K V) (k j : K) (v : V) → get (set d k v) j ≡ (if k == j then some v else get d j)
  unfolding get set
  get-set [] k j v = refl
  get-set ((i, w) ∷ d) k j v =
      ground (arith, e.beq_iff i k, e.beq_iff k j, e.beq_iff i j, get-set d k j v)

  pub get-pop : (d : Dict K V) (k j : K) → get (pop d k) j ≡ (if k == j then none else get d j)
  unfolding get pop
  get-pop [] k j = ground arith
  get-pop ((i, w) ∷ d) k j =
      ground (arith, e.beq_iff i k, e.beq_iff k j, e.beq_iff i j, get-pop d k j)

  pub get-setdefault :
      (d : Dict K V) (k j : K) (v : V)
      → get (setdefault d k v) j ≡ (if k == j then some (or_else (get d k) v) else get d j)
  get-setdefault d k j v = ground (arith, get-set d k j v, e.beq_iff k j)

pub ruleset dict_laws = (get-set, get-pop)

module _ {ℓ κ} {K : Type ℓ} {V : Type κ} ⦃e : Eq K⦄ where
  pub get-pop_all :
      (d : Dict K V) (ks : List K) (j : K)
      → get (pop_all d ks) j ≡ (if contains j ks then none else get d j)
  unfolding pop_all
  get-pop_all d [] j = refl
  get-pop_all d (k ∷ ks) j = ground (arith, get-pop_all (pop d k) ks j, get-pop d k j)

  -- the keys that are listed are those that are there
  pub contains-keys : (d : Dict K V) (k : K) → contains k (keys d) ≡ has d k
  unfolding get
  contains-keys [] k = refl
  contains-keys ((j, v) ∷ d) k = ground (arith, contains-keys d k)
