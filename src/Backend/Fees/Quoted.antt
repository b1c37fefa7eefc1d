-- ===== src/Backend/Fees/Quoted.antt =====
-- The quote that a fee request leaves for the payment.
use car_pay_in.Backend.Env.{Env, IsLawful, State}
use car_pay_in.Backend.Fees.{FeeData, GetParkingFeeCommand, fee_quote_ttl_seconds}
use car_pay_in.Backend.Models.{FeeQuote}
use car_pay_in.Backend.Payment.{get_quote}
use car_pay_in.Base.{some, ℕ, ◌+◌, ◌<◌, ◌≡◌, ◌≤◌}
use car_pay_in.Exec.{Result, err, ok}

module _ {E : Env} (L : IsLawful E) (now : ℕ) (pms : Result FeeData)
    (c : GetParkingFeeCommand) where
  -- what is answered can be paid for as long as a quote lives
  Kept : Result FeeQuote × State E → Type 0
  Kept (ok q, t) =
      (later : ℕ)
      → now ≤ later
      → later < now + fee_quote_ttl_seconds
      → get_quote E later c.session_id t ≡ some q
  Kept (err _, t) = Unit
