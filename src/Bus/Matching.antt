-- ===== src/Bus/Matching.antt =====
-- Which types of events a pattern of src/scenario_engine/event_bus.py matches.
use pjsua_mcp.Prelude.{◌≡◌, refl, true, ◌||◌, some, [], ◌∷◌, ◌++◌, arith, nat_eq, ◌==◌}
use pjsua_mcp.Text.{Text, text_eq, starts_with}
use pjsua_mcp.Bus.{star_prefix, matches_one}

star_prefix-append : (p : Text) → star_prefix (p ++ 46 ∷ 42 ∷ []) ≡ some p
unfolding star_prefix
star_prefix-append [] = refl
star_prefix-append (a ∷ []) = refl
star_prefix-append (a ∷ b ∷ []) = refl
star_prefix-append (a ∷ b ∷ c ∷ p) = ground (arith, star_prefix-append (b ∷ c ∷ p))

-- A pattern that ends in ".*" matches the type before the star's dot, and the types that go on after
-- that dot, and nothing else; the pattern "*" matches every type.
pub matches_one_lem :
    (event_type p : Text)
    → (matches_one event_type (p ++ 46 ∷ 42 ∷ [])
        ≡ (event_type == p || starts_with event_type (p ++ 46 ∷ [])))
      × (matches_one event_type (42 ∷ []) ≡ true)
unfolding matches_one
matches_one_lem event_type [] = (ground arith, refl)
matches_one_lem event_type (a ∷ []) = (ground arith, refl)
matches_one_lem event_type (a ∷ b ∷ p) = (ground (arith, star_prefix-append (a ∷ b ∷ p)), refl)
