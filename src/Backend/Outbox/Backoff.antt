-- ===== src/Backend/Outbox/Backoff.antt =====
-- The delay between two attempts of an outbox notification.
use car_pay_in.Backend.Outbox.{retry_delay}
use car_pay_in.Base.{ap, arith, if◌then◌else◌, leb, suc, zero, ℕ, ◌*◌, ◌-◌, ◌<◌, ◌^◌, ◌∙◌, ◌≡◌, ◌≤◌}

power-pos : (n : ℕ) → 1 ≤ 2 ^ n
power-pos zero = omega arith
power-pos (suc n) = omega (arith, power-pos n)

abbrev capped : ℕ → ℕ
capped x = if leb x 300 then x else 300

capped-facts :
    (x : ℕ)
    → 5 ≤ x
    → (5 ≤ capped x)
      × (capped x ≤ 300)
      × (capped x ≤ capped (2 * x))
      × (capped (2 * (2 * x)) < 300 → capped (2 * (2 * x)) ≡ 2 * capped (2 * x))
capped-facts x h = (ground arith, ground arith, ground arith, λ below. ground arith)

twice : (n : ℕ) → 5 * 2 ^ (suc (suc n) - 1) ≡ 2 * (5 * 2 ^ n)
twice n =
    let down : suc (suc n) - 1 ≡ suc n = omega arith in
    let double : 5 * 2 ^ suc n ≡ 2 * (5 * 2 ^ n) = omega arith in ap (λ e. 5 * 2 ^ e) down ∙ double

twice_twice : (n : ℕ) → 5 * 2 ^ (suc (suc (suc n)) - 1) ≡ 2 * (2 * (5 * 2 ^ n))
twice_twice n =
    let down : suc (suc (suc n)) - 1 ≡ suc (suc n) = omega arith in
    let double : 5 * 2 ^ suc (suc n) ≡ 2 * (2 * (5 * 2 ^ n)) = omega arith in
    ap (λ e. 5 * 2 ^ e) down ∙ double

retry_delay-capped : (a x : ℕ) → 5 * 2 ^ (a - 1) ≡ x → retry_delay a ≡ capped x
unfolding retry_delay
retry_delay-capped a x same = ap capped same

bounds-zero :
    (5 ≤ retry_delay 0)
    × (retry_delay 0 ≤ 300)
    × (retry_delay 0 ≤ retry_delay 1)
    × (retry_delay 2 < 300 → retry_delay 2 ≡ 2 * retry_delay 1)
unfolding retry_delay
bounds-zero = (omega arith, omega arith, omega arith, λ _. omega arith)

-- After a failed attempt the next one waits between five seconds and five minutes, at least as long
-- as after the attempt before, and twice as long while five minutes are not reached.
pub retry_delay-bounds :
    (attempts : ℕ)
    → (5 ≤ retry_delay attempts)
      × (retry_delay attempts ≤ 300)
      × (retry_delay attempts ≤ retry_delay (suc attempts))
      × (retry_delay (suc (suc attempts)) < 300
          → retry_delay (suc (suc attempts)) ≡ 2 * retry_delay (suc attempts))
retry_delay-bounds zero = bounds-zero
retry_delay-bounds (suc n) =
    rw
      (
        retry_delay-capped (suc n) (5 * 2 ^ n) (ap (λ e. 5 * 2 ^ e) (omega arith)),
        retry_delay-capped (suc (suc n)) (2 * (5 * 2 ^ n)) (twice n),
        retry_delay-capped (suc (suc (suc n))) (2 * (2 * (5 * 2 ^ n))) (twice_twice n),
      )
      (capped-facts (5 * 2 ^ n) (omega (arith, power-pos n)))
