-- ===== src/Scenario/Validation.antt =====
-- What the validation of src/scenario_engine/validator.py promises to the executor of actions of
-- src/scenario_engine/action_executor.py.
use pjsua_mcp.Prelude.{
  ℕ, ◌+◌, ◌≡◌, ◌≢◌, refl, ap, ◌∙◌, Bool, true, false, Option, none, some, List, [], ◌∷◌, ◌++◌,
  arith, All, Option-cases, Bool-cases, inl, inr,
}
use pjsua_mcp.Text.{Text, text_eq, codes}
use pjsua_mcp.Scenario.Value.{Value, Fields, lookup, or_nothing, truthy}
use pjsua_mcp.Scenario.Matching.{Hook, Event}
use pjsua_mcp.Scenario.Actions.{
  normalize_action, has_handler, go_on, Outcome, done, bad_spec, unknown_action, failed,
  with_defaults, execute_one, execute,
}
use pjsua_mcp.Scenario.Validator.{
  Scenario, ActionIssue, check_action_spec, Issue, hook_action, initial_action, action_issues,
  whens_of, thens_of, event_issues, unknown_event, check_hook, hook_issues, stop_issues,
  validate_scenario, is_known_action,
}

-- The outcome is not that of a specification that cannot be carried out.
abbrev pub is_carried_out : Outcome → Bool
is_carried_out done = true
is_carried_out failed = true
is_carried_out _ = false

append_nil : (xs ys : List Issue) → xs ++ ys ≡ [] → (xs ≡ []) × (ys ≡ [])
append_nil [] ys h = (refl, h)
append_nil (x ∷ xs) ys h = ground arith

IsChecked : Value → Type 0
IsChecked spec = (check_action_spec spec).1 ≡ none

action_issues-nil :
    (issue : ℕ → ActionIssue → Issue) (j : ℕ) (specs : List Value)
    → action_issues issue j specs ≡ []
    → All IsChecked specs
unfolding action_issues IsChecked
action_issues-nil issue j [] h = tt
action_issues-nil issue j (spec ∷ specs) h = elim (Option-cases (check_action_spec spec).1) [
  | inl e ↦ (e, action_issues-nil issue (j + 1) specs (rw (e, action_issues) at h))
  | inr (found, e) ↦ ground arith
]

-- Every action that the validator knows has a handler.
is_known_action-has_handler : (name : Text) → is_known_action name ≡ has_handler name
unfolding is_known_action has_handler
is_known_action-has_handler name = refl

IsChecked-has_handler :
    (spec : Value) (name : Text) (args : Fields)
    → normalize_action spec ≡ some (name, args)
    → IsChecked spec
    → has_handler name ≡ true
unfolding check_action_spec IsChecked
IsChecked-has_handler spec name args e h = ground (arith, is_known_action-has_handler name)

IsChecked-normalize_action : (spec : Value) → IsChecked spec → normalize_action spec ≢ none
unfolding check_action_spec IsChecked
IsChecked-normalize_action spec h = λ e. ground arith

-- A hook without issues has been looked at to its end.
check_hook_lem :
    (i : ℕ) (h : Fields)
    → check_hook i h ≡ some []
    → (specs : List Value) × (thens_of h ≡ some specs)
      × (xs : List Issue) × (xs ++ action_issues (hook_action i) 0 specs ≡ [])
unfolding check_hook
check_hook_lem i h e =
    let when = or_nothing (lookup (codes "when") h) in
    elim (Bool-cases (truthy when)) [
      | inr t ↦ absurd (ground arith)
      | inl t ↦ elim (Option-cases (whens_of when)) [
        | inl m ↦ absurd (ground arith)
        | inr (whens, m) ↦ elim (Option-cases (thens_of h)) [
          | inl n ↦ absurd (ground arith)
          | inr (specs, n) ↦ (specs, n, event_issues (unknown_event i) whens, ground arith)
        ]
      ]
    ]

module _ {W : Type 0} (handler : Text → Fields → W → Bool × W) (record_meta : Text → W → W) where
  execute_one-IsChecked :
      (spec : Value) (hook : Hook) (ev : Event) (w : W)
      → IsChecked spec
      → is_carried_out (execute_one handler record_meta spec hook ev w).0 ≡ true
  unfolding execute_one
  execute_one-IsChecked spec hook ev w h = elim (Option-cases (normalize_action spec)) [
    | inl e ↦ absurd (IsChecked-normalize_action spec h e)
    | inr ((name, args), e) ↦ elim (Bool-cases (handler name (with_defaults hook ev args) w).0) [
      | inl r ↦ rw (e, execute_one, IsChecked-has_handler spec name args e h, r) refl
      | inr r ↦ rw (e, execute_one, IsChecked-has_handler spec name args e h, r) refl
    ]
  ]

  execute-go_on :
      (out : Outcome) (w w' : W) (rest : Outcome × W)
      → is_carried_out out ≡ true
      → is_carried_out rest.0 ≡ true
      → is_carried_out (go_on out w' rest).0 ≡ true
  execute-go_on done w w' rest h k = k
  execute-go_on bad_spec w w' rest h k = h
  execute-go_on unknown_action w w' rest h k = h
  execute-go_on failed w w' rest h k = h

  execute-IsChecked :
      (specs : List Value) (hook : Hook) (ev : Event) (w : W)
      → All IsChecked specs
      → is_carried_out (execute handler record_meta specs hook ev w).0 ≡ true
  unfolding execute
  execute-IsChecked [] hook ev w h = refl
  execute-IsChecked (spec ∷ specs) hook ev w (h, hs) =
      let (out, w') = execute_one handler record_meta spec hook ev w in
      execute-go_on out w w' (execute handler record_meta specs hook ev w')
        (execute_one-IsChecked spec hook ev w h) (execute-IsChecked specs hook ev w' hs)

  abbrev carries_out : Hook → Event → W → Option (List Value) → Bool
  carries_out hook ev w none = false
  carries_out hook ev w (some specs) =
      is_carried_out (execute handler record_meta specs hook ev w).0

  -- The actions of a hook can be taken from it, and are carried out.
  abbrev pub runs_hook : Hook → Event → W → Fields → Bool
  runs_hook hook ev w h = carries_out hook ev w (thens_of h)

  check_hook-nil :
      (i : ℕ) (h : Fields) (hook : Hook) (ev : Event) (w : W)
      → check_hook i h ≡ some []
      → runs_hook hook ev w h ≡ true
  unfolding check_hook
  check_hook-nil i h hook ev w e =
      let (specs, n, xs, nil) = check_hook_lem i h e in
      let (_, clean) = append_nil xs (action_issues (hook_action i) 0 specs) nil in
      ap (carries_out hook ev w) n
      ∙ execute-IsChecked specs hook ev w (action_issues-nil (hook_action i) 0 specs clean)

  hook_issues-nil :
      (i : ℕ) (hooks : List Fields) (hook : Hook) (ev : Event) (w : W)
      → hook_issues i hooks ≡ some []
      → All (λ h. runs_hook hook ev w h ≡ true) hooks
  unfolding hook_issues
  hook_issues-nil i [] hook ev w e = tt
  hook_issues-nil i (h ∷ hooks) hook ev w e = elim (Option-cases (check_hook i h)) [
    | inl n ↦ absurd (ground arith)
    | inr (found, n) ↦ elim (Option-cases (hook_issues (i + 1) hooks)) [
      | inl m ↦ absurd (ground arith)
      | inr (rest, m) ↦
          let both = append_nil found rest (ground arith) in
          (
            check_hook-nil i h hook ev w (n ∙ ap some (both.0)),
            hook_issues-nil (i + 1) hooks hook ev w (m ∙ ap some (both.1)),
          )
    ]
  ]

  -- Where the validation of a scenario finds nothing, every action of its hooks and of its initial
  -- actions, whatever the hook and the event that set it off and whatever the handlers do, is well
  -- formed and has a handler: its execution ends well or in the failure of a handler.
  pub validate_scenario-executes :
      (scn : Scenario) (hook : Hook) (ev : Event) (w : W)
      → validate_scenario scn ≡ some []
      → All (λ h. runs_hook hook ev w h ≡ true) scn.hooks
        × (is_carried_out (execute handler record_meta scn.initial_actions hook ev w).0 ≡ true)
  unfolding validate_scenario
  validate_scenario-executes scn hook ev w e = elim (Option-cases (hook_issues 0 scn.hooks)) [
    | inl n ↦ absurd (ground arith)
    | inr (found, n) ↦
        let stops = stop_issues 0 scn.stop_on in
        let initial = action_issues initial_action 0 scn.initial_actions in
        let all = append_nil found (stops ++ initial) (ground arith) in
        (
          hook_issues-nil 0 scn.hooks hook ev w (n ∙ ap some (all.0)),
          execute-IsChecked scn.initial_actions hook ev w (
              action_issues-nil initial_action 0 scn.initial_actions
                ((append_nil stops initial (all.1)).1)),
        )
  ]
