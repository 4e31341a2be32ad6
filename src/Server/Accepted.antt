-- ===== src/Server/Accepted.antt =====
-- What a profile that is accepted holds.
use pjsua_mcp.Prelude.{
  ◌≡◌, refl, sym, ap, ◌∙◌, subst, Bool, true, false, not, Option, none, some, List, [], ◌∷◌, arith,
  ◌==◌, any, contains, is_some, All, Bool-cases, inl, inr, if◌then◌else◌,
}
use pjsua_mcp.Text.{Text, text_eq, codes}
use pjsua_mcp.Scenario.Value.{
  Value, nothing, bool, int, str, other, list, dict, Fields, no_more, field, lookup, or_nothing,
  items_of, truthy, value_beq,
}
use pjsua_mcp.Scenario.Actions.{without}
use pjsua_mcp.Scenario.Commands.{first_there}
use pjsua_mcp.Server.Profile.{
  is_phone_field, legacy_field, required_fields, set_field, merged, has_unknown, lacks_field,
  accepted, resolve, both, resolve_all, id_of, has_distinct, if_distinct, of_phones, with_defaults,
  defaults_of, load_profile,
}

-- A phone of the profile has known fields only, and a value that counts in each required one.
abbrev pub IsComplete : Fields → Type 0
IsComplete fs =
    ((key : Text) → is_some (lookup key fs) ≡ true → is_phone_field key ≡ true)
    × ((key : Text)
        → contains key required_fields ≡ true
        → truthy (or_nothing (lookup key fs)) ≡ true)

-- No phone has the id of a later one.
abbrev pub IsApart : List Fields → Type 0
IsApart [] = Unit
IsApart (fs ∷ rest) = All (λ gs. value_beq (id_of fs) (id_of gs) ≡ false) rest × IsApart rest

known_fields :
    (fs : Fields) (key : Text)
    → has_unknown fs ≡ false
    → is_some (lookup key fs) ≡ true
    → is_phone_field key ≡ true
unfolding has_unknown lookup
known_fields no_more key h e = ground (arith, e)
known_fields (field k v fs) key h e = elim (Bool-cases (k == key)) [
  | inl d ↦
      let here : is_phone_field k ≡ true = ground (arith, h) in
      sym (ap is_phone_field ((text_eq.beq_iff k key).0 d)) ∙ here
  | inr d ↦ known_fields fs key (ground (arith, h)) (ground (arith, e, d))
]

-- A key that none of a list lacks
not_missing :
    (f : Text → Bool) (keys : List Text) (key : Text)
    → any (λ k. not (f k)) keys ≡ false
    → contains key keys ≡ true
    → f key ≡ true
not_missing f [] key h e = ground (arith, e)
not_missing f (k ∷ keys) key h e = elim (Bool-cases (k == key)) [
  | inl d ↦
      let here : f k ≡ true = ground (arith, h) in sym (ap f ((text_eq.beq_iff k key).0 d)) ∙ here
  | inr d ↦ not_missing f keys key (ground (arith, h)) (ground (arith, e, d))
]

accepted-same : (fs spec : Fields) → accepted fs ≡ some spec → fs ≡ spec
accepted-same fs spec e = elim (Bool-cases (has_unknown fs)) [
  | inl u ↦ ground (arith, e, u)
  | inr u ↦ elim (Bool-cases (lacks_field fs)) [
    | inl l ↦ ground (arith, e, l)
    | inr l ↦ ground (arith, e, u, l)
  ]
]

accepted-IsComplete : (fs spec : Fields) → accepted fs ≡ some spec → IsComplete spec
unfolding lacks_field
accepted-IsComplete fs spec e = elim (Bool-cases (has_unknown fs)) [
  | inl u ↦ ground (arith, e, u)
  | inr u ↦ elim (Bool-cases (lacks_field fs)) [
    | inl l ↦ ground (arith, e, l)
    | inr l ↦
        let same : fs ≡ spec = ground (arith, e, u, l) in
        subst IsComplete same (
          λ key k. known_fields fs key u k,
          λ key k. not_missing (λ key. truthy (or_nothing (lookup key fs))) required_fields key l k,
        )
  ]
]

resolve-IsComplete :
    (defaults : Fields) (v : Value) (spec : Fields)
    → resolve defaults v ≡ some spec
    → IsComplete spec
unfolding resolve
resolve-IsComplete defaults (dict entry) spec e =
    accepted-IsComplete (without legacy_field (merged defaults entry)) spec e
resolve-IsComplete defaults nothing spec e = ground (arith, e)
resolve-IsComplete defaults (bool b) spec e = ground (arith, e)
resolve-IsComplete defaults (int n) spec e = ground (arith, e)
resolve-IsComplete defaults (str t) spec e = ground (arith, e)
resolve-IsComplete defaults (list vs) spec e = ground (arith, e)
resolve-IsComplete defaults (other t) spec e = ground (arith, e)

abbrev AllComplete : Option (List Fields) → Type 0
AllComplete none = Unit
AllComplete (some specs) = All IsComplete specs

both-AllComplete :
    (o : Option Fields) (rest : Option (List Fields))
    → ((spec : Fields) → o ≡ some spec → IsComplete spec)
    → AllComplete rest
    → AllComplete (both o rest)
both-AllComplete none rest h k = tt
both-AllComplete (some spec) none h k = tt
both-AllComplete (some spec) (some specs) h k = (h spec refl, k)

resolve_all-AllComplete :
    (defaults : Fields) (vs : List Value) → AllComplete (resolve_all defaults vs)
unfolding resolve_all
resolve_all-AllComplete defaults [] = tt
resolve_all-AllComplete defaults (v ∷ vs) =
    both-AllComplete (resolve defaults v) (resolve_all defaults vs)
      (λ spec e. resolve-IsComplete defaults v spec e) (resolve_all-AllComplete defaults vs)

any-none :
    (f : Fields → Bool) (specs : List Fields) → any f specs ≡ false → All (λ gs. f gs ≡ false) specs
any-none f [] h = tt
any-none f (gs ∷ specs) h = (ground (arith, h), any-none f specs (ground (arith, h)))

has_distinct-IsApart : (specs : List Fields) → has_distinct specs ≡ true → IsApart specs
unfolding has_distinct
has_distinct-IsApart [] h = tt
has_distinct-IsApart (fs ∷ rest) h =
    let clash = any (λ gs. value_beq (id_of fs) (id_of gs)) rest in
    let apart : clash ≡ false = ground (arith, h) in
    (
      any-none (λ gs. value_beq (id_of fs) (id_of gs)) rest apart,
      has_distinct-IsApart rest (ground (arith, h)),
    )

-- What a list of phones promises.
abbrev IsFine : Option (List Fields) → Type 0
IsFine none = Unit
IsFine (some specs) = All IsComplete specs × IsApart specs

if_distinct-IsFine : (o : Option (List Fields)) → AllComplete o → IsFine (if_distinct o)
if_distinct-IsFine none h = tt
if_distinct-IsFine (some specs) h = elim (Bool-cases (has_distinct specs)) [
  | inl e ↦ rw e (h, has_distinct-IsApart specs e)
  | inr e ↦ rw e tt
]

of_phones-IsFine : (defaults : Fields) (vs : List Value) → IsFine (of_phones defaults vs)
of_phones-IsFine defaults [] = tt
of_phones-IsFine defaults (v ∷ vs) =
    if_distinct-IsFine (resolve_all defaults (v ∷ vs)) (resolve_all-AllComplete defaults (v ∷ vs))

with_defaults-IsFine : (o : Option Fields) (v : Value) → IsFine (with_defaults o v)
with_defaults-IsFine (some defaults) (list vs) = of_phones-IsFine defaults (items_of vs)
with_defaults-IsFine none v = tt
with_defaults-IsFine (some defaults) (dict fs) = tt
with_defaults-IsFine (some defaults) nothing = tt
with_defaults-IsFine (some defaults) (bool b) = tt
with_defaults-IsFine (some defaults) (int n) = tt
with_defaults-IsFine (some defaults) (str t) = tt
with_defaults-IsFine (some defaults) (other t) = tt

load_profile-IsFine : (v : Value) → IsFine (load_profile v)
unfolding load_profile
load_profile-IsFine (dict top) =
    with_defaults-IsFine (defaults_of (or_nothing (lookup (codes "defaults") top)))
      (or_nothing (lookup (codes "phones") top))
load_profile-IsFine nothing = tt
load_profile-IsFine (bool b) = tt
load_profile-IsFine (int n) = tt
load_profile-IsFine (str t) = tt
load_profile-IsFine (list vs) = tt
load_profile-IsFine (other t) = tt

-- A profile that is accepted gives phones that have known fields only and all the required ones with a
-- value that counts, and no two of which have the same id.
pub load_profile_lem :
    (v : Value) (specs : List Fields)
    → load_profile v ≡ some specs
    → All IsComplete specs × IsApart specs
load_profile_lem v specs e = subst IsFine e (load_profile-IsFine v)

-- A key stands once in a dictionary.
abbrev pub IsDict : Fields → Type 0
IsDict no_more = Unit
IsDict (field k v fs) = (lookup k fs ≡ none) × IsDict fs

lookup-set_field :
    (j k : Text) (v : Value) (fs : Fields)
    → lookup k (set_field j v fs) ≡ (if j == k then some v else lookup k fs)
unfolding lookup set_field
lookup-set_field j k v no_more = refl
lookup-set_field j k v (field i w fs) = ground (
  arith,
  text_eq.beq_iff i j,
  text_eq.beq_iff j k,
  text_eq.beq_iff i k,
  lookup-set_field j k v fs,
)

lookup-merged :
    (defaults entry : Fields) (key : Text)
    → IsDict entry
    → lookup key (merged defaults entry) ≡ first_there (lookup key entry) (lookup key defaults)
unfolding merged lookup
lookup-merged defaults no_more key h = refl
lookup-merged defaults (field k v fs) key h =
    lookup-merged (set_field k v defaults) fs key h.1
    ∙ ap (first_there (lookup key fs)) (lookup-set_field k key v defaults)
    ∙ elim (Bool-cases (k == key)) [
      | inr e ↦ rw e refl
      | inl e ↦
          let gone : lookup key fs ≡ none =
            ap (λ t. lookup t fs) (sym ((text_eq.beq_iff k key).0 e)) ∙ h.0 in
          rw (e, gone) refl
    ]

lookup-without :
    (j key : Text) (fs : Fields) → (j == key) ≡ false → lookup key (without j fs) ≡ lookup key fs
unfolding lookup without
lookup-without j key no_more n = refl
lookup-without j key (field k v fs) n = ground (
  arith,
  n,
  text_eq.beq_iff k j,
  text_eq.beq_iff k key,
  text_eq.beq_iff j key,
  lookup-without j key fs n,
)

-- In a phone that is accepted, where the phone's entry has each key once, every field but the one that is
-- no longer used has the value that the entry gives it, or else that of the defaults.
pub resolve-lookup :
    (defaults entry spec : Fields) (key : Text)
    → IsDict entry
    → resolve defaults (dict entry) ≡ some spec
    → (legacy_field == key) ≡ false
    → lookup key spec ≡ first_there (lookup key entry) (lookup key defaults)
unfolding resolve
resolve-lookup defaults entry spec key d e n =
    let fs = without legacy_field (merged defaults entry) in
    let same : fs ≡ spec = accepted-same fs spec e in
    sym (ap (lookup key) same)
    ∙ lookup-without legacy_field key (merged defaults entry) n
    ∙ lookup-merged defaults entry key d
