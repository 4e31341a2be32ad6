-- ===== src/Exec.antt =====
-- Methods that mutate an object and may raise. What was written before a raise stays written, so
-- the state comes back beside the error.
pub mod Keeps
use pjsua_mcp.Prelude.{Bool, true, false, Option, none, some, List, [], ◌∷◌}

-- The exceptions that the program raises, one for each kind of message. `pj_error` is an error of
-- the SIP library, `io_error` one of the file system or of a subprocess.
pub data Error : Type 0 where
  engine_not_initialized engine_already_initialized unsupported_transport : Error
  phone_not_found account_invalid phone_id_required account_not_configured : Error
  no_active_call call_not_found call_of_other_phone too_few_calls no_audio_media : Error
  already_capturing pj_error io_error : Error

pub data Result {ℓ} (A : Type ℓ) : Type ℓ where
  ok : A → Result A
  err : Error → Result A

abbrev pub Exec {ℓ} : Type ℓ → Type ℓ → Type ℓ
Exec S A = S → Result A × S

module _ {ℓ} {S A : Type ℓ} where
  abbrev pub pure : A → Exec S A
  pure a s = (ok a, s)

  abbrev pub raise : Error → Exec S A
  raise e s = (err e, s)

  abbrev pub gets : (S → A) → Exec S A
  gets f s = (ok (f s), s)

  -- `if x is None: raise e`
  abbrev pub require : Option A → Error → Exec S A
  require none e = raise e
  require (some a) e = pure a

  -- `try: m  except Exception: pass`, with a value for the failure
  abbrev pub catch : Exec S A → A → Exec S A
  catch m a s = let (r, s') = m s in elim r [ ok b ↦ (ok b, s') | err e ↦ (ok a, s') ]

abbrev pub modify : {S : Type 0} → (S → S) → Exec S (Unit {0})
modify f s = (ok tt, f s)

-- `if test: raise e`
abbrev pub raise_if : {S : Type 0} → Bool → Error → Exec S (Unit {0})
raise_if true e = raise e
raise_if false e = pure tt

infixl 5 ◌>>=◌ ◌>>◌
abbrev pub ◌>>=◌ {ℓ} : {S A B : Type ℓ} → Exec S A → (A → Exec S B) → Exec S B
◌>>=◌ m f s = let (r, s') = m s in elim r [ ok a ↦ f a s' | err e ↦ (err e, s') ]

abbrev pub ◌>>◌ {ℓ} : {S A B : Type ℓ} → Exec S A → Exec S B → Exec S B
m >> k = m >>= λ _. k
