-- ===== src/Pms/Fee/Bounds.antt =====
-- The fee against what the tariff says: each half hour that has begun costs one unit.
use car_pay_in.Base.{arith, ℕ, ◌*◌, ◌+◌, ◌-◌, ◌/◌, ◌<◌, ◌↔◌, ◌≡◌, ◌≤◌}
use car_pay_in.Exec.{err, ok, value_error}
use car_pay_in.Pms.Fee.{Fee, fee_between, minute}

-- Whole minutes from the entry, and the least number of half hours that holds them.
pub record IsFee (rate entry current : ℕ) (f : Fee) : Type 0 where
  pub begun : entry + f.duration_minutes * minute ≤ current
  pub not_over : current < entry + (f.duration_minutes + 1) * minute
  pub blocks : ℕ
  pub charged : f.amount ≡ blocks * rate
  pub enough : f.duration_minutes ≤ blocks * 30
  pub least : blocks * 30 < f.duration_minutes + 30

-- A current time that is not before the entry always gives a fee: the whole minutes between them,
-- charged at the least number of half hours that holds those minutes.
pub fee_between-IsFee :
    (rate entry current : ℕ)
    → entry ≤ current
    → (f : Fee) × (fee_between rate entry current ≡ ok f) × IsFee rate entry current f
unfolding fee_between
fee_between-IsFee rate entry current h =
    let d = (current - entry) / minute in
    (
      record { amount = (d + 29) / 30 * rate; duration_minutes = d },
      ground arith,
      record {
        begun = omega arith;
        not_over = omega arith;
        blocks = (d + 29) / 30;
        charged = omega arith;
        enough = omega arith;
        least = omega arith;
      },
    )

abbrev blocks_between : ℕ → ℕ → ℕ
blocks_between entry current = ((current - entry) / minute + 29) / 30

blocks_between-le :
    (entry current later : ℕ)
    → current ≤ later
    → blocks_between entry current ≤ blocks_between entry later
blocks_between-le entry current later h = omega arith

mul-le : (a b r : ℕ) → a ≤ b → a * r ≤ b * r
mul-le a b r h = grind arith

amount_between :
    (rate entry current : ℕ) {f : Fee}
    → fee_between rate entry current ≡ ok f
    → f.amount ≡ blocks_between entry current * rate
unfolding fee_between
amount_between rate entry current p = ground arith

-- Of two fees of one entry at one tariff, the one at the later time is at least the other.
pub fee_between-monotone :
    (rate entry current later : ℕ) {f g : Fee}
    → current ≤ later
    → fee_between rate entry current ≡ ok f
    → fee_between rate entry later ≡ ok g
    → f.amount ≤ g.amount
fee_between-monotone rate entry current later h p q =
    rw (amount_between rate entry current p, amount_between rate entry later q)
      (mul-le _ _ rate (blocks_between-le entry current later h))

-- The current time is refused exactly if it is a whole minute or more before the entry.
pub fee_between-rejects :
    (rate entry current : ℕ)
    → (fee_between rate entry current ≡ err (value_error "invalid_current_time"))
      ↔ (current + minute ≤ entry)
unfolding fee_between
fee_between-rejects rate entry current = ground arith
