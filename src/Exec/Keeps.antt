-- ===== src/Exec/Keeps.antt =====
-- Invariants of methods: `m` keeps `P` whether it returns or raises. One rule for each way to build
-- a method.
use pjsua_mcp.Prelude.{◌≡◌, refl, Bool, true, false, Option, none, some, if◌then◌else◌}
use pjsua_mcp.Exec.{
  Exec, Error, Result, ok, err, pure, raise, gets, modify, require, raise_if, ◌>>=◌,
}

pub record Keeps {ℓ} {S A : Type ℓ} (P : S → Type ℓ) (m : Exec S A) : Type ℓ where
  pub at : (before : S) → P before → P (m before).1

module _ {ℓ} {S A : Type ℓ} {P : S → Type ℓ} where
  pub Keeps-require : (o : Option A) (e : Error) → Keeps P (require o e)
  Keeps-require none e = record { at = λ s h. h }
  Keeps-require (some a) e = record { at = λ s h. h }

  pub Keeps-gets : (f : S → A) → Keeps P (gets f)
  Keeps-gets f = record { at = λ s h. h }

  pub Keeps-if :
      (test : Bool) (m1 m2 : Exec S A)
      → (test ≡ true → Keeps P m1)
      → (test ≡ false → Keeps P m2)
      → Keeps P (if test then m1 else m2)
  Keeps-if false m1 m2 ky kn = kn refl
  Keeps-if true m1 m2 ky kn = ky refl

  pub Keeps-raise : (e : Error) → Keeps P (raise {A = A} e)
  Keeps-raise e = record { at = λ s h. h }

  pub Keeps-pure : (a : A) → Keeps P (pure a)
  Keeps-pure a = record { at = λ s h. h }

module _ {S : Type 0} {P : S → Type 0} where
  pub Keeps-modify : (f : S → S) → ((s : S) → P s → P (f s)) → Keeps P (modify f)
  Keeps-modify f k = record { at = k }

  pub Keeps-raise_if : (b : Bool) (e : Error) → Keeps P (raise_if b e)
  Keeps-raise_if true e = record { at = λ s h. h }
  Keeps-raise_if false e = record { at = λ s h. h }

abbrev continue {ℓ} : {S A B : Type ℓ} → Result A → (A → Exec S B) → Exec S B
continue r f s = elim r [ ok a ↦ f a s | err e ↦ (err e, s) ]

module _ {ℓ} {S A B : Type ℓ} {P : S → Type ℓ} where
  Keeps-continue :
      (r : Result A) (f : A → Exec S B) → ((a : A) → Keeps P (f a)) → Keeps P (continue r f)
  Keeps-continue (ok a) f kf = record { at = (kf a).at }
  Keeps-continue (err e) f kf = record { at = λ s h. h }

  pub Keeps-bind :
      (first : Exec S A) (next : A → Exec S B)
      → Keeps P first
      → ((a : A) → Keeps P (next a))
      → Keeps P (first >>= next)
  Keeps-bind first next kf kt = record {
    at = λ s h. let (r, left) = first s in (Keeps-continue r next kt).at left (kf.at s h);
  }

pub ruleset keeps_rules = (
  Keeps-pure, Keeps-raise, Keeps-gets, Keeps-require, Keeps-if, Keeps-modify, Keeps-raise_if,
  Keeps-bind,
)
