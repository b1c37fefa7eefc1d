-- ===== src/Exec/Run.antt =====
-- How a sequence of actions runs on, and how a handler is reached: one step at a time, with the
-- actions shut.
use car_pay_in.Base.{Bool, Option, ap, arith, false, none, refl, some, true, ◌≡◌}
use car_pay_in.Exec.{
  Exception, Exec, Result, catch, err, gets, lift, modify, ok, or_raise, pure, raise_if, ◌>>=◌,
}

module _ {S A B : Type 0} (m : Exec S A) (f : A → Exec S B) (s : S) {t : S} where
  pub bind-ok : {a : A} → m s ≡ (ok a, t) → (m >>= f) s ≡ f a t
  unfolding ◌>>=◌
  bind-ok h = rw h

  pub bind-err : {e : Exception} → m s ≡ (err e, t) → (m >>= f) s ≡ (err e, t)
  unfolding ◌>>=◌
  bind-err h = rw h

module _ {S A : Type 0} (m : Exec S A) (h : Exception → Exec S A) (s : S) {t : S} where
  pub catch-ok : {a : A} → m s ≡ (ok a, t) → catch m h s ≡ (ok a, t)
  unfolding catch
  catch-ok p = rw p

  pub catch-err : {e : Exception} → m s ≡ (err e, t) → catch m h s ≡ h e t
  unfolding catch
  catch-err p = rw p

pub run-pure : {S A : Type 0} (a : A) (s : S) → pure a s ≡ (ok a, s)
unfolding pure
run-pure a s = refl

pub run-modify : {S : Type 0} (g : S → S) (s : S) → modify g s ≡ (ok tt, g s)
unfolding modify
run-modify g s = refl

pub run-gets-bind :
    {S A B : Type 0} (g : S → A) (f : A → Exec S B) (s : S) → (gets g >>= f) s ≡ f (g s) s
unfolding ◌>>=◌
run-gets-bind g f s = refl

-- an action that ends by `pure a` returns `a` or raises
pub ends-pure :
    {S A B C : Type 0} (m : Exec S A) (n : Exec S B) (a : C) (s : S) {b : C}
    → ((m >>= λ _. n >>= λ _. pure a) s).0 ≡ ok b
    → b ≡ a
unfolding ◌>>=◌
ends-pure m n a s h = ground arith

pub run-lift : {S A : Type 0} {o : Result A} (r : Result A) (s : S) → o ≡ r → lift o s ≡ (r, s)
unfolding ◌>>=◌
run-lift r s same = ap (λ q. (q, s)) same

-- what holds of each end of a run: one case for each way in which its first action ends
module _ {S A B : Type 0} (T : Result B × S → Type 0) (f : A → Exec S B) (s : S) where
  pub by_lift :
      (r : Result A)
      → ((e : Exception) → T (err e, s))
      → ((a : A) → r ≡ ok a → T (f a s))
      → T ((lift r >>= f) s)
  unfolding ◌>>=◌
  by_lift (ok a) raised returned = returned a refl
  by_lift (err e) raised returned = raised e

  pub by_or_raise :
      (o : Option A) (e : Exception)
      → T (err e, s)
      → ((a : A) → o ≡ some a → T (f a s))
      → T ((or_raise o e >>= f) s)
  unfolding ◌>>=◌
  by_or_raise (some a) e raised returned = returned a refl
  by_or_raise none e raised returned = raised

pub by_raise_if :
    {S B : Type 0} (T : Result B × S → Type 0) (m : Exec S B) (s : S) (c : Bool) (e : Exception)
    → T (err e, s)
    → (c ≡ false → T (m s))
    → T ((raise_if c e >>= λ _. m) s)
unfolding ◌>>=◌
by_raise_if T m s true e raised returned = raised
by_raise_if T m s false e raised returned = returned refl

pub by_gets :
    {S A B : Type 0} (T : Result B × S → Type 0) (look : S → A) (f : A → Exec S B) (s : S)
    → T (f (look s) s)
    → T ((gets look >>= f) s)
unfolding ◌>>=◌
by_gets T look f s h = h

-- a first action that is a sequence itself
module _ {S A B C : Type 0} (T : Result C × S → Type 0) (m : Exec S A) (g : A → Exec S B)
    (f : B → Exec S C) where
  regroup :
      (e : Result A × S) → T ((lift e.0 >>= λ a. g a >>= f) e.1) → T (((lift e.0 >>= g) >>= f) e.1)
  unfolding ◌>>=◌
  regroup (ok a, t) k = k
  regroup (err x, t) k = k

  pub by_sequence : (s : S) → T ((m >>= λ a. g a >>= f) s) → T (((m >>= g) >>= f) s)
  unfolding ◌>>=◌
  by_sequence s h = regroup (m s) h

pub or_raise-some :
    {S A : Type 0} {o : Option A} {a : A} (e : Exception) (s : S)
    → o ≡ some a
    → or_raise o e s ≡ (ok a, s)
unfolding ◌>>=◌
or_raise-some e s found = rw found

-- under `try`, an action that returns is followed by the rest of the block
pub catch-bind :
    {S A B : Type 0} (m : Exec S A) (f : A → Exec S B) (h : Exception → Exec S B) (s : S) {a : A}
    {t : S}
    → m s ≡ (ok a, t)
    → catch (m >>= f) h s ≡ catch (f a) h t
unfolding catch ◌>>=◌
catch-bind m f h s p = rw p
