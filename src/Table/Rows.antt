-- ===== src/Table/Rows.antt =====
-- Lists of rows: the first that passes a test, the rows that a test changes, and how many pass.
use car_pay_in.Base.{false}
use car_pay_in.Base.{is_some}
use car_pay_in.Base.{
  All, Bool, List, Option, [], arith, if◌then◌else◌, map_option, none, or_else, refl, some, true, ℕ,
  ◌++◌, ◌+◌, ◌∷◌, ◌≡◌, ◌≤◌,
}

module _ {Row : Type 0} where
  unfoldable pub first : (Row → Bool) → List Row → Option Row
  first p [] = none
  first p (r ∷ rs) = if p r then some r else first p rs

  unfoldable pub amend : (Row → Bool) → (Row → Row) → List Row → List Row
  amend p f [] = []
  amend p f (r ∷ rs) = (if p r then f r else r) ∷ amend p f rs

  -- how many rows pass a test
  unfoldable pub tally : (Row → Bool) → List Row → ℕ
  tally p [] = 0
  tally p (r ∷ rs) = (if p r then 1 else 0) + tally p rs

  pub first-append :
      (p : Row → Bool) (r : Row) (rs : List Row)
      → first p (rs ++ r ∷ []) ≡ or_else (first p rs) (if p r then some r else none)
  unfolding first
  first-append p r [] = refl
  first-append p r (x ∷ rs) = ground (arith, first-append p r rs)

  pub first_sound : (p : Row → Bool) (rs : List Row) {r : Row} → first p rs ≡ some r → p r ≡ true
  unfolding first
  first_sound p [] h = ground arith
  first_sound p (x ∷ rs) {r} h = ground (arith, first_sound p rs {r = r})

  -- a change that does not touch what the test reads
  pub first-amend :
      (p q : Row → Bool) (f : Row → Row) (rs : List Row)
      → ((r : Row) → q r ≡ true → p (f r) ≡ p r)
      → first p (amend q f rs) ≡ map_option (λ r. if q r then f r else r) (first p rs)
  unfolding first amend
  first-amend p q f [] h = refl
  first-amend p q f (x ∷ rs) h = ground (arith, h x, first-amend p q f rs h)

  pub tally-append :
      (p : Row → Bool) (r : Row) (rs : List Row)
      → tally p (rs ++ r ∷ []) ≡ tally p rs + (if p r then 1 else 0)
  unfolding tally
  tally-append p r [] = omega arith
  tally-append p r (x ∷ rs) = omega (arith, tally-append p r rs)

  pub tally-zero_of_first : (p : Row → Bool) (rs : List Row) → first p rs ≡ none → tally p rs ≡ 0
  unfolding first tally
  tally-zero_of_first p [] h = refl
  tally-zero_of_first p (x ∷ rs) h = ground (arith, tally-zero_of_first p rs)

  pub first-none_of_tally : (p : Row → Bool) (rs : List Row) → tally p rs ≡ 0 → first p rs ≡ none
  unfolding first tally
  first-none_of_tally p [] h = refl
  first-none_of_tally p (x ∷ rs) h = ground (arith, first-none_of_tally p rs)

  -- a change after which no further row passes
  pub tally-amend_le :
      (p q : Row → Bool) (f : Row → Row) (rs : List Row)
      → ((r : Row) → q r ≡ true → p (f r) ≡ true → p r ≡ true)
      → tally p (amend q f rs) ≤ tally p rs
  unfolding tally amend
  tally-amend_le p q f [] h = omega arith
  tally-amend_le p q f (x ∷ rs) h = ground (arith, h x, tally-amend_le p q f rs h)

  pub tally-amend_same :
      (p q : Row → Bool) (f : Row → Row) (rs : List Row)
      → ((r : Row) → q r ≡ true → p (f r) ≡ p r)
      → tally p (amend q f rs) ≡ tally p rs
  unfolding tally amend
  tally-amend_same p q f [] h = refl
  tally-amend_same p q f (x ∷ rs) h = ground (arith, h x, tally-amend_same p q f rs h)

  pub All-append {κ} :
      (P : Row → Type κ) (r : Row) (rs : List Row) → All P rs → P r → All P (rs ++ r ∷ [])
  All-append P r [] h hr = (hr, tt)
  All-append P r (x ∷ rs) h hr = (h.0, All-append P r rs h.1 hr)

  pub All-first {κ} :
      (P : Row → Type κ) (p : Row → Bool) (rs : List Row) {r : Row}
      → All P rs
      → first p rs ≡ some r
      → P r
  unfolding first
  All-first P p [] h e = ground arith
  All-first P p (x ∷ rs) {r} h e = ground (arith, All-first P p rs {r = r} h.1)

  -- a change of a row that is new, after rows that it does not touch
  pub amend-append_new :
      (p : Row → Bool) (f : Row → Row) (r : Row) (rs : List Row)
      → first p rs ≡ none
      → p r ≡ true
      → amend p f (rs ++ r ∷ []) ≡ rs ++ f r ∷ []
  unfolding first amend
  amend-append_new p f r [] new passes = rw passes refl
  amend-append_new p f r (x ∷ rs) new passes = ground (arith, amend-append_new p f r rs)

  pub All-map : (P Q : Row → Type 0) (rs : List Row) → ((r : Row) → P r → Q r) → All P rs → All Q rs
  All-map P Q [] f h = tt
  All-map P Q (r ∷ rs) f (h, hs) = (f r h, All-map P Q rs f hs)

  pub All-amend :
      (P : Row → Type 0) (p : Row → Bool) (f : Row → Row) (rs : List Row)
      → ((r : Row) → p r ≡ true → P r → P (f r))
      → All P rs
      → All P (amend p f rs)
  unfolding amend
  All-amend P p f [] h kept = tt
  All-amend P p f (r ∷ rs) h (here_too, kept) = (changed (p r) refl, All-amend P p f rs h kept)
    where
      changed : (b : Bool) → p r ≡ b → P (if b then f r else r)
      changed true passes = h r passes here_too
      changed false _ = here_too

  pub first-append_some :
      (p : Row → Bool) (r : Row) (rs : List Row)
      → is_some (first p rs) ≡ true
      → is_some (first p (rs ++ r ∷ [])) ≡ true
  first-append_some p r rs h = rw first-append (ground (arith, h))
