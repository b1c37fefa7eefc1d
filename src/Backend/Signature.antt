-- ===== src/Backend/Signature.antt =====
-- `WebhookSignatureVerifier` and `PmsAuthValidator` of
-- services/carpayin-backend/app/infra/security.py (services/pms/app/infra/security.py has the same
-- check). HMAC, SHA-256 and `int(text)` are parameters; signatures are ASCII texts, since
-- `hmac.compare_digest` raises a TypeError for others.
use car_pay_in.Base.{
  Bool, Option, String, arith, eq_iff, false, if◌then◌else◌, ltb, none, refl, some, suc, ℕ, ◌+◌,
  ◌-◌, ◌<>◌, ◌==◌, ◌↔◌, ◌≡◌, ◌≤◌,
}
use car_pay_in.Exec.{Result, err, ok, value_error}
use car_pay_in.Integer.{negsuc, pos, ℤ}

pub record Crypto : Type 0 where
  -- `hmac.new(secret, message, sha256).hexdigest()`
  pub hmac : String → String → String
  -- `sha256(body).hexdigest()`
  pub body_hash : String → String
  -- `int(text)`
  pub int : String → Option ℤ

-- `abs(now - timestamp)`
abbrev pub apart : ℕ → ℤ → ℕ
apart now (pos t) = (now - t) + (t - now)
apart now (negsuc t) = now + suc t

module _ (C : Crypto) (secret : String) (tolerance_seconds : ℕ) where
  unfoldable pub sign : String → String → String
  sign timestamp body = C.hmac secret (timestamp <> "." <> C.body_hash body)

  unfoldable pub verify_at : ℕ → Option ℤ → String → String → String → Bool
  verify_at now none timestamp signature body = false
  verify_at now (some t) timestamp signature body =
      if ltb tolerance_seconds (apart now t)
      then false
      else C.hmac secret (timestamp <> "." <> C.body_hash body) == signature

  unfoldable pub verify : ℕ → String → String → String → Bool
  verify now timestamp signature body = verify_at now (C.int timestamp) timestamp signature body

  unfoldable pub validate : ℕ → String → String → String → Result (Unit {0})
  validate now timestamp signature body =
      if verify now timestamp signature body then ok tt else err (value_error "invalid_signature")

  abbrev answer_of : Bool → Result (Unit {0})
  answer_of accepted = if accepted then ok tt else err (value_error "invalid_signature")

  -- a timestamp within the tolerance of a time, before or after
  abbrev pub IsNear : ℕ → ℤ → Type 0
  IsNear now (pos t) = (now ≤ t + tolerance_seconds) × (t ≤ now + tolerance_seconds)
  IsNear now (negsuc t) = now + suc t ≤ tolerance_seconds

  apart-IsNear : (now : ℕ) (t : ℤ) → apart now t ≤ tolerance_seconds → IsNear now t
  apart-IsNear now (pos t) h = (omega (arith, h), omega (arith, h))
  apart-IsNear now (negsuc t) h = h

  IsNear-apart : (now : ℕ) (t : ℤ) → IsNear now t → apart now t ≤ tolerance_seconds
  IsNear-apart now (pos t) (above, below) = omega (arith, above, below)
  IsNear-apart now (negsuc t) h = h

  abbrev expected_of : String → String → String
  expected_of timestamp body = C.hmac secret (timestamp <> "." <> C.body_hash body)

  accepted-IsNear :
      (now : ℕ) (o : Option ℤ) (timestamp signature body : String)
      → answer_of (verify_at now o timestamp signature body) ≡ ok tt
      → (t : ℤ) × (o ≡ some t) × IsNear now t × (signature ≡ expected_of timestamp body)
  unfolding verify_at
  accepted-IsNear now none timestamp signature body h = ground arith
  accepted-IsNear now (some t) timestamp signature body h = (
    t,
    refl,
    apart-IsNear now t (ground arith),
    ground (arith, eq_iff (expected_of timestamp body) signature),
  )

  IsNear-accepted :
      (now : ℕ) (t : ℤ) (timestamp signature body : String)
      → IsNear now t
      → signature ≡ expected_of timestamp body
      → answer_of (verify_at now (some t) timestamp signature body) ≡ ok tt
  unfolding verify_at
  IsNear-accepted now t timestamp signature body near signed =
      let close = IsNear-apart now t near in
      ground (arith, eq_iff (expected_of timestamp body) signature)

  -- A webhook is accepted exactly if its timestamp is a number that is at most the tolerance before
  -- and at most the tolerance after the time of the check, and its signature is the HMAC, under the
  -- secret, of the timestamp, a dot and the hash of the body.
  pub validate_iff :
      (now : ℕ) (timestamp signature body : String)
      → (validate now timestamp signature body ≡ ok tt) ↔ (
          (t : ℤ) × (C.int timestamp ≡ some t)
          × IsNear now t
          × (signature ≡ C.hmac secret (timestamp <> "." <> C.body_hash body)))
  unfolding validate verify
  validate_iff now timestamp signature body = (
    λ h. accepted-IsNear now (C.int timestamp) timestamp signature body h,
    λ (t, known, near, signed).
        rw known (IsNear-accepted now t timestamp signature body near signed),
  )
