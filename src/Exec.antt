-- ===== src/Exec.antt =====
-- Python methods that change state and may raise. What was written before a raise stays written,
-- so the state comes back beside the exception too.
pub mod Keeps
pub mod Run
use car_pay_in.Base.{Bool, Option, String, if◌then◌else◌, none, some}

-- The exceptions that the services raise and that the exception handlers tell apart. `other` is
-- any exception of a third-party client; the text is `str(exc)`.
pub data Exception : Type 0 where
  value_error lookup_error permission_error runtime_error other : String → Exception
  integrity_error : Exception

pub data Result {ℓ} (A : Type ℓ) : Type ℓ where
  ok : A → Result A
  err : Exception → Result A

abbrev pub Exec {ℓ κ} : Type ℓ → Type κ → Type (ℓ ⊔ κ)
Exec S A = S → Result A × S

module _ {ℓ κ} {S : Type ℓ} {A : Type κ} where
  pub gets : (S → A) → Exec S A
  gets look s = (ok (look s), s)

  pub raise : Exception → Exec S A
  raise e s = (err e, s)

  pub lift : Result A → Exec S A
  lift outcome s = (outcome, s)

  pub pure : A → Exec S A
  pure result s = (ok result, s)

  -- `if not x: raise e`
  pub or_raise : Option A → Exception → Exec S A
  or_raise none e s = (err e, s)
  or_raise (some a) _ s = (ok a, s)

module _ {ℓ} {S : Type ℓ} where
  pub modify : (S → S) → Exec S (Unit {0})
  modify f s = (ok tt, f s)

  pub raise_if : Bool → Exception → Exec S (Unit {0})
  raise_if c e s = (if c then err e else ok tt, s)

module _ {ℓ κ μ} {S : Type ℓ} {A : Type κ} {B : Type μ} where
  abbrev continue : Result A → (A → Exec S B) → Exec S B
  continue (ok a) f s = f a s
  continue (err e) f s = (err e, s)

  infixl 5 ◌>>=◌ ◌>>◌
  -- opening this opens the actions above too
  unfoldable pub ◌>>=◌ : Exec S A → (A → Exec S B) → Exec S B
  unfolding pure raise lift gets or_raise modify raise_if
  ◌>>=◌ m f s = let (r, t) = m s in continue r f t

  abbrev pub ◌>>◌ : Exec S A → Exec S B → Exec S B
  m >> k = m >>= λ _. k

module _ {ℓ κ} {S : Type ℓ} {A : Type κ} where
  abbrev handle : Result A → (Exception → Exec S A) → Exec S A
  handle (ok a) h s = (ok a, s)
  handle (err e) h s = h e s

  -- `try: m except Exception as e: h e`
  unfoldable pub catch : Exec S A → (Exception → Exec S A) → Exec S A
  unfolding ◌>>=◌
  catch m h s = let (r, t) = m s in handle r h t
