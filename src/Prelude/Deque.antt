-- ===== src/Prelude/Deque.antt =====
-- Python's `collections.deque(maxlen=n)`: an append to a full deque drops the oldest entry.
use Prim.Native.Nat.{ℕ, ◌-◌, ◌≤◌}
use mathlib.Core.List.{List, [], ◌∷◌, ◌++◌}
use native.Mathlib.Omega.{arith}
use pjsua_mcp.Prelude.Lists.{length, drop, length-drop}

module _ {ℓ} {A : Type ℓ} where
  -- `xs[-n:]`
  abbrev pub last_n : ℕ → List A → List A
  last_n n xs = drop (length xs - n) xs

  unfoldable pub push : ℕ → List A → A → List A
  push maxlen xs x = last_n maxlen (xs ++ x ∷ [])

  pub length-last_n : (n : ℕ) (xs : List A) → length (last_n n xs) ≤ n
  length-last_n n xs = omega (arith, length-drop (length xs - n) xs)

  pub length-push : (maxlen : ℕ) (xs : List A) (x : A) → length (push maxlen xs x) ≤ maxlen
  unfolding push
  length-push maxlen xs x = length-last_n maxlen (xs ++ x ∷ [])
