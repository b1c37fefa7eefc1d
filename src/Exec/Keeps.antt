-- ===== src/Exec/Keeps.antt =====
-- Invariants of actions: one rule for each way in which a method is put together.
use car_pay_in.Base.{Bool, Option, false, if◌then◌else◌, none, refl, some, true, ◌≡◌}
use car_pay_in.Exec.{
  Exception, Exec, Result, catch, err, gets, lift, modify, ok, or_raise, pure, raise, raise_if,
  ◌>>=◌,
}

-- `m` keeps `P`, whether it returns or raises
pub record Keeps {ℓ κ μ} {S : Type ℓ} {A : Type κ} (P : S → Type μ) (m : Exec S A)
    : Type (ℓ ⊔ μ) where
  pub at : (s : S) → P s → P (m s).1

module _ {ℓ κ μ} {S : Type ℓ} {A : Type κ} {P : S → Type μ} where
  pub Keeps-or_raise : (o : Option A) (e : Exception) → Keeps P (or_raise o e)
  unfolding or_raise
  Keeps-or_raise none e = record { at = λ _ kept. kept }
  Keeps-or_raise (some a) e = record { at = λ _ kept. kept }

  pub Keeps-gets : (look : S → A) → Keeps P (gets look)
  unfolding gets
  Keeps-gets look = record { at = λ _ kept. kept }

  pub Keeps-pure : (result : A) → Keeps P (pure result)
  unfolding pure
  Keeps-pure result = record { at = λ _ kept. kept }

  pub Keeps-lift : (outcome : Result A) → Keeps P (lift outcome)
  unfolding lift
  Keeps-lift outcome = record { at = λ _ kept. kept }

  pub Keeps-raise : (e : Exception) → Keeps P (raise {A = A} e)
  unfolding raise
  Keeps-raise e = record { at = λ _ kept. kept }

  pub Keeps-if : (b : Bool) (m n : Exec S A) → Keeps P m → Keeps P n → Keeps P (if b then m else n)
  Keeps-if true m n km kn = km
  Keeps-if false m n km kn = kn

  handled :
      (h : Exception → Exec S A) (r : Result A)
      → ((e : Exception) → Keeps P (h e))
      → Keeps P (catch (lift r) h)
  unfolding catch
  handled h (ok a) kh = record { at = λ s p. p }
  handled h (err e) kh = kh e

  pub Keeps-catch :
      (m : Exec S A) (h : Exception → Exec S A)
      → Keeps P m
      → ((e : Exception) → Keeps P (h e))
      → Keeps P (catch m h)
  unfolding catch
  Keeps-catch m h km kh = record {
    at = λ s p. let (r, t) = m s in (handled h r kh).at t (km.at s p);
  }

module _ {ℓ κ μ ν} {S : Type ℓ} {A : Type κ} {B : Type ν} {P : S → Type μ}
    (rest : A → Exec S B) where
  continued : (outcome : Result A) → ((a : A) → Keeps P (rest a)) → Keeps P (lift outcome >>= rest)
  unfolding ◌>>=◌
  continued (err e) kept = record { at = λ _ p. p }
  continued (ok a) kept = kept a

  pub Keeps-bind :
      (start : Exec S A) → Keeps P start → ((a : A) → Keeps P (rest a)) → Keeps P (start >>= rest)
  unfolding ◌>>=◌
  Keeps-bind start begun kept = record {
    at = λ s p. let (outcome, t) = start s in (continued outcome kept).at t (begun.at s p);
  }

-- one condition on the state after a return, another after a raise
abbrev pub Ends {ℓ κ μ} :
    {S : Type ℓ} {A : Type κ} → (S → Type μ) → (S → Type μ) → Result A × S → Type μ
Ends Q R (ok _, t) = Q t
Ends Q R (err _, t) = R t

module _ {ℓ κ μ ν} {S : Type ℓ} {A : Type κ} {B : Type ν} (P Q : S → Type μ) where
  resume :
      (f : A → Exec S B) (e : Result A × S)
      → Ends Q P e
      → ((a : A) (s : S) → Q s → P (f a s).1)
      → P ((lift e.0 >>= f) e.1).1
  unfolding ◌>>=◌
  resume f (ok a, t) q then_kept = then_kept a t q
  resume f (err e, t) p then_kept = p

  -- a first part that leaves `Q` or raises with `P` kept, and a rest that leads from `Q` to `P`
  pub Keeps-through :
      (m : Exec S A) (f : A → Exec S B)
      → ((s : S) → P s → Ends Q P (m s))
      → ((a : A) (s : S) → Q s → P (f a s).1)
      → Keeps P (m >>= f)
  unfolding ◌>>=◌
  Keeps-through m f to rest = record { at = λ s p. resume f (m s) (to s p) rest }

module _ {ℓ κ μ ν} {S : Type ℓ} {A : Type κ} {B : Type ν} (Q R : S → Type μ) where
  pub Ends-lift :
      (r : Result A) (f : A → Exec S B) (s : S)
      → R s
      → ((a : A) → r ≡ ok a → Ends Q R (f a s))
      → Ends Q R ((lift r >>= f) s)
  unfolding ◌>>=◌
  Ends-lift (ok a) f s raised returned = returned a refl
  Ends-lift (err e) f s raised returned = raised

  pub Ends-or_raise :
      (o : Option A) (e : Exception) (f : A → Exec S B) (s : S)
      → R s
      → ((a : A) → o ≡ some a → Ends Q R (f a s))
      → Ends Q R ((or_raise o e >>= f) s)
  unfolding ◌>>=◌
  Ends-or_raise (some a) e f s raised returned = returned a refl
  Ends-or_raise none e f s raised returned = raised

  pub Ends-gets :
      (look : S → A) (f : A → Exec S B) (s : S)
      → Ends Q R (f (look s) s)
      → Ends Q R ((gets look >>= f) s)
  unfolding ◌>>=◌
  Ends-gets look f s rest = rest

module _ {ℓ μ ν} {S : Type ℓ} {B : Type ν} (Q R : S → Type μ) where
  pub Ends-raise_if :
      (c : Bool) (e : Exception) (m : Exec S B) (s : S)
      → R s
      → (c ≡ false → Ends Q R (m s))
      → Ends Q R ((raise_if c e >>= λ _. m) s)
  unfolding ◌>>=◌
  Ends-raise_if true e m s raised returned = raised
  Ends-raise_if false e m s raised returned = returned refl

module _ {ℓ κ μ ν} {S : Type ℓ} {A : Type κ} {B : Type ν} (P Q R : S → Type μ) where
  through :
      (f : A → Exec S B) (e : Result A × S)
      → Ends P R e
      → ((a : A) (t : S) → P t → Ends Q R (f a t))
      → Ends Q R ((lift e.0 >>= f) e.1)
  unfolding ◌>>=◌
  through f (ok a, t) p rest = rest a t p
  through f (err e, t) r rest = r

  pub Ends-bind :
      (m : Exec S A) (f : A → Exec S B) (s : S)
      → Ends P R (m s)
      → ((a : A) (t : S) → P t → Ends Q R (f a t))
      → Ends Q R ((m >>= f) s)
  unfolding ◌>>=◌
  Ends-bind m f s ends rest = through f (m s) ends rest

module _ {ℓ μ} {S : Type ℓ} {P : S → Type μ} where
  pub Keeps-modify : (f : S → S) → ((s : S) → P s → P (f s)) → Keeps P (modify f)
  unfolding modify
  Keeps-modify f h = record { at = h }

  pub Keeps-raise_if : (c : Bool) (e : Exception) → Keeps P (raise_if c e)
  unfolding raise_if
  Keeps-raise_if c e = record { at = λ s h. h }

pub ruleset keeps_rules = (
  Keeps-pure, Keeps-raise, Keeps-lift, Keeps-gets, Keeps-or_raise, Keeps-if, Keeps-catch,
  Keeps-bind, Keeps-raise_if,
)
