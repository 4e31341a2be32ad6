-- ===== src/Scenario/Value.antt =====
-- Python values, as a scenario and the data of an event hold them. Keys are texts; `other` stands for a
-- value of any other type, such as a float, by what `repr` makes of it.
use pjsua_mcp.Prelude.{
  ℕ, zero, suc, ◌+◌, ◌/◌, ◌%◌, Bool, true, false, ◌&&◌, Option, none, some, List, [], ◌∷◌, ◌++◌,
  nat_eq, ◌==◌, ltb, if◌then◌else◌,
}
use pjsua_mcp.Text.{Text, text_eq, codes}
use pjsua_mcp.Text.Integer.{ℤ, pos, negsuc, int_of_text}

mutual
  pub data Value : Type 0 where
    nothing : Value
    bool : Bool → Value
    int : ℤ → Value
    str : Text → Value
    list : Items → Value
    dict : Fields → Value
    other : Text → Value

  pub data Items : Type 0 where
    end : Items
    item : Value → Items → Items

  pub data Fields : Type 0 where
    no_more : Fields
    field : Text → Value → Fields → Fields

-- `d.get(k)`
unfoldable pub lookup : Text → Fields → Option Value
lookup k no_more = none
lookup k (field j v fs) = if j == k then some v else lookup k fs

-- `d.get(k)`, where a missing key gives None
abbrev pub or_nothing : Option Value → Value
or_nothing none = nothing
or_nothing (some v) = v

abbrev pub size : Fields → ℕ
size no_more = 0
size (field k v fs) = suc (size fs)

abbrev pub items_of : Items → List Value
items_of end = []
items_of (item v vs) = v ∷ items_of vs

abbrev keys_of : Fields → List Value
keys_of no_more = []
keys_of (field k v fs) = str k ∷ keys_of fs

abbrev letters : Text → List Value
letters [] = []
letters (c ∷ t) = str (c ∷ []) ∷ letters t

-- `list(v)`, which may raise
abbrev pub iterate : Value → Option (List Value)
iterate (str t) = some (letters t)
iterate (list vs) = some (items_of vs)
iterate (dict fs) = some (keys_of fs)
iterate _ = none

-- `bool(v)`; a value of another type is taken to be true.
abbrev pub truthy : Value → Bool
truthy nothing = false
truthy (bool b) = b
truthy (int (pos zero)) = false
truthy (int _) = true
truthy (str []) = false
truthy (str _) = true
truthy (list end) = false
truthy (list _) = true
truthy (dict no_more) = false
truthy (dict _) = true
truthy (other _) = true

abbrev pub int_beq : ℤ → ℤ → Bool
int_beq (pos m) (pos n) = m == n
int_beq (negsuc m) (negsuc n) = m == n
int_beq _ _ = false

-- A truth value is a number for `==` and `int`.
abbrev pub of_bool : Bool → ℤ
of_bool true = pos 1
of_bool false = pos 0

-- `a == b`; two dictionaries are equal whatever the order of their keys.
unfoldable mutual
  pub value_beq : Value → Value → Bool
  value_beq nothing nothing = true
  value_beq (bool a) (bool b) = int_beq (of_bool a) (of_bool b)
  value_beq (bool a) (int n) = int_beq (of_bool a) n
  value_beq (int m) (bool b) = int_beq m (of_bool b)
  value_beq (int m) (int n) = int_beq m n
  value_beq (str s) (str t) = s == t
  value_beq (list vs) (list ws) = items_beq vs ws
  value_beq (dict fs) (dict gs) = size fs == size gs && fields_in fs gs
  value_beq (other s) (other t) = s == t
  value_beq _ _ = false

  items_beq : Items → Items → Bool
  items_beq end end = true
  items_beq (item v vs) (item w ws) = value_beq v w && items_beq vs ws
  items_beq _ _ = false

  fields_in : Fields → Fields → Bool
  fields_in no_more gs = true
  fields_in (field k v fs) gs = elim (lookup k gs) [
    | none ↦ false
    | some w ↦ value_beq v w && fields_in fs gs
  ]

abbrev show_from : ℕ → ℕ → Text
show_from zero n = []
show_from (suc fuel) n =
    let rest = show_from fuel (n / 10) in
    if ltb n 10 then (n + b'0') ∷ [] else rest ++ (n % 10 + b'0') ∷ []

-- `str(n)`
abbrev pub show_int : ℤ → Text
show_int (pos n) = show_from (suc n) n
show_int (negsuc n) = b'-' ∷ show_from (suc (suc n)) (suc n)

abbrev repr_field : Text → Text → Text
repr_field k t = b'\'' ∷ (k ++ (codes "': " ++ t))

-- `repr(v)`, for texts without quotes, backslashes and control characters
unfoldable mutual
  repr : Value → Text
  repr nothing = codes "None"
  repr (bool true) = codes "True"
  repr (bool false) = codes "False"
  repr (int n) = show_int n
  repr (str t) = b'\'' ∷ (t ++ b'\'' ∷ [])
  repr (list vs) = b'[' ∷ repr_items vs
  repr (dict fs) = b'{' ∷ repr_fields fs
  repr (other t) = t

  repr_items : Items → Text
  repr_items end = b']' ∷ []
  repr_items (item v end) = repr v ++ b']' ∷ []
  repr_items (item v (item w vs)) = repr v ++ (codes ", " ++ repr_items (item w vs))

  repr_fields : Fields → Text
  repr_fields no_more = b'}' ∷ []
  repr_fields (field k v no_more) = repr_field k (repr v) ++ b'}' ∷ []
  repr_fields (field k v (field j w fs)) =
      repr_field k (repr v) ++ (codes ", " ++ repr_fields (field j w fs))

-- `str(v)`
unfoldable pub str_of : Value → Text
unfolding repr
str_of (str t) = t
str_of v = repr v

-- `int(v)`, which may raise; it does so for a value of another type.
abbrev pub int_of : Value → Option ℤ
int_of (bool b) = some (of_bool b)
int_of (int n) = some n
int_of (str t) = int_of_text t
int_of _ = none
