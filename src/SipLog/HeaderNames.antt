-- ===== src/SipLog/HeaderNames.antt =====
-- What `parse_sip_headers` of src/sip_logger.py finds under the name of a header.
use mathlib.Core.List.{append-nil, append_assoc}
use pjsua_mcp.Prelude.{
  ℕ, ◌≡◌, refl, sym, ap, ◌∙◌, Bool, true, false, Option, none, some, List, [], ◌∷◌, ◌++◌, arith,
  nat_eq, ◌==◌, Option-cases, Bool-cases, inl, inr, if◌then◌else◌,
}
use pjsua_mcp.Text.{Text, text_eq, lower, lower_code, upper_code}
use pjsua_mcp.Text.Scan.{strip, rstrip, partition}
use pjsua_mcp.Dict.{Dict, get, set, get-set}
use pjsua_mcp.SipLog.Headers.{
  header_canonical_case, capitalize_parts, canonical_header_name, HeaderValue, single, several,
  add_value, add_line, add_lines, header_lines, parse_sip_headers,
}

lower_code_idem : (c : ℕ) → lower_code (lower_code c) ≡ lower_code c
lower_code_idem c = ground arith

lower_code-upper : (c : ℕ) → lower_code (upper_code c) ≡ lower_code c
lower_code-upper c = ground arith

lower_idem : (t : Text) → lower (lower t) ≡ lower t
lower_idem [] = refl
lower_idem (c ∷ t) = ground (arith, lower_code_idem c, lower_idem t)

lower-capitalize_parts : (begins : Bool) (t : Text) → lower (capitalize_parts begins t) ≡ lower t
lower-capitalize_parts begins [] = refl
lower-capitalize_parts true (c ∷ t) =
    ground (arith, lower_code-upper c, lower-capitalize_parts (c == b'-') t)
lower-capitalize_parts false (c ∷ t) = ground (arith, lower-capitalize_parts (c == b'-') t)

-- Each entry of a table is its key in another case.
abbrev IsCased : Dict Text Text → Type 0
IsCased [] = Unit
IsCased ((k, v) ∷ d) = (lower v ≡ k) × IsCased d

lower-get :
    (d : Dict Text Text) (low canon : Text) → IsCased d → get d low ≡ some canon → lower canon ≡ low
unfolding get
lower-get [] low canon h e = ground arith
lower-get ((k, v) ∷ d) low canon (a, h) e =
    ground (arith, text_eq.beq_iff k low, lower-get d low canon h)

-- The canonical name is the name in another case.
lower-canonical_header_name :
    (name : Text) → lower (canonical_header_name name) ≡ lower (strip name)
unfolding canonical_header_name get
lower-canonical_header_name name =
    let low = lower (strip name) in
    elim (Option-cases (get header_canonical_case low)) [
      | inr (canon, e) ↦
          rw (e, canonical_header_name)
            (lower-get header_canonical_case low canon
              (refl, (refl, (refl, (refl, (refl, (refl, tt)))))) e)
      | inl e ↦
          rw (e, canonical_header_name) (lower-capitalize_parts true low ∙ lower_idem (strip name))
    ]

-- Two names of one header.
abbrev pub same_name : Text → Text → Bool
same_name a b = lower (strip a) == lower (strip b)

canonical_of : Text → Text
canonical_of low = elim (get header_canonical_case low) [
  | some canon ↦ canon
  | none ↦ capitalize_parts true low
]

beq_cong : (a b c d : Text) → (a ≡ b → c ≡ d) → (c ≡ d → a ≡ b) → (a == b) ≡ (c == d)
beq_cong a b c d f g = elim (Bool-cases (a == b)) [
  | inl p ↦ p ∙ sym ((text_eq.beq_iff c d).1 (f ((text_eq.beq_iff a b).0 p)))
  | inr p ↦ elim (Bool-cases (c == d)) [
    | inl q ↦ (text_eq.beq_iff a b).1 (g ((text_eq.beq_iff c d).0 q)) ∙ sym q
    | inr q ↦ p ∙ sym q
  ]
]

canonical_header_name-same_name :
    (a b : Text) → (canonical_header_name a == canonical_header_name b) ≡ same_name a b
unfolding canonical_header_name canonical_of
canonical_header_name-same_name a b =
    beq_cong (canonical_header_name a) (canonical_header_name b) (lower (strip a)) (lower (strip b))
      (λ e. sym (lower-canonical_header_name a) ∙ ap lower e ∙ lower-canonical_header_name b)
      (λ e. ap canonical_of e)

-- The values of a header, in the order of the lines.
unfoldable pub values_of : Text → List Text → List Text
values_of name [] = []
values_of name (raw ∷ lines) =
    let (found, value) = partition b':' (rstrip raw) in
    elim value [
      | none ↦ values_of name lines
      | some v ↦
          if same_name found name then strip v ∷ values_of name lines else values_of name lines
    ]

-- What stands for no value, for one and for several.
abbrev pub collapse : List Text → Option HeaderValue
collapse [] = none
collapse (v ∷ []) = some (single v)
collapse (v ∷ w ∷ vs) = some (several (v ∷ w ∷ vs))

abbrev extend : Option HeaderValue → List Text → Option HeaderValue
extend o [] = o
extend o (v ∷ vs) = extend (some (add_value o v)) vs

extend-several : (ws vs : List Text) → extend (some (several ws)) vs ≡ some (several (ws ++ vs))
extend-several ws [] = ap (λ xs. some (several xs)) (sym (append-nil ws))
extend-several ws (v ∷ vs) =
    extend-several (ws ++ v ∷ []) vs ∙ ap (λ xs. some (several xs)) (append_assoc ws (v ∷ []) vs)

extend-collapse : (vs : List Text) → extend none vs ≡ collapse vs
extend-collapse [] = refl
extend-collapse (v ∷ []) = refl
extend-collapse (v ∷ w ∷ vs) = extend-several (v ∷ w ∷ []) vs

extend-set :
    (headers : Dict Text HeaderValue) (canon name v : Text) (vs : List Text)
    → extend (get (set headers canon (add_value (get headers canon) v)) name) vs
      ≡ extend (get headers name) (if canon == name then v ∷ vs else vs)
extend-set headers canon name v vs =
    let seen = get-set headers canon name (add_value (get headers canon) v) in
    elim (Bool-cases (canon == name)) [
      | inr d ↦ rw (d, seen, d) refl
      | inl s ↦
          rw (s, seen, s)
            (ap (λ k. extend (some (add_value (get headers k) v)) vs)
              ((text_eq.beq_iff canon name).0 s))
    ]

get-add_lines :
    (lines : List Text) (headers : Dict Text HeaderValue) (name : Text)
    → get (add_lines lines headers) (canonical_header_name name)
      ≡ extend (get headers (canonical_header_name name)) (values_of name lines)
unfolding add_line values_of
get-add_lines [] headers name = refl
get-add_lines (raw ∷ lines) headers name = elim (Option-cases (partition b':' (rstrip raw)).1) [
  | inl e ↦ rw (e, add_line, values_of) (get-add_lines lines headers name)
  | inr (v, e) ↦
      let found = (partition b':' (rstrip raw)).0 in
      let canon = canonical_header_name found in
      let canon' = canonical_header_name name in
      rw (e, add_line, values_of)
        (get-add_lines lines (set headers canon (add_value (get headers canon) (strip v))) name
          ∙ extend-set headers canon canon' (strip v) (values_of name lines)
          ∙ ap
              (λ b.
                extend (get headers canon')
                  (if b then strip v ∷ values_of name lines else values_of name lines))
              (canonical_header_name-same_name found name))
]

-- Under the canonical form of a name stand the values of the header lines with that name, where case
-- and blanks around the name do not count, in the order of the lines: none, one as itself, several
-- as a list.
pub parse_sip_headers_lem :
    (text name : Text)
    → get (parse_sip_headers text) (canonical_header_name name)
      ≡ (if text == [] then none else collapse (values_of name (header_lines text)))
unfolding parse_sip_headers get
parse_sip_headers_lem text name = elim (Bool-cases (text == [])) [
  | inl e ↦ rw e
  | inr e ↦ rw e (
      get-add_lines (header_lines text) [] name
      ∙ extend-collapse (values_of name (header_lines text)))
]
