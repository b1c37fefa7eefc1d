-- ===== src/Integer.antt =====
-- Python's `int`, as far as the services use it: equality, and the decimal text of an f-string.
use car_pay_in.Base.{
  Bool, Bool-cases, String, ap, arith, false, if◌then◌else◌, inl, inr, ltb, nat_beq, suc, zero, ℕ,
  ◌%◌, ◌/◌, ◌<>◌, ◌<◌, ◌≡◌,
}

pub data ℤ : Type 0 where
  pos negsuc : ℕ → ℤ

abbrev pub int_beq : ℤ → ℤ → Bool
int_beq (pos m) (pos n) = nat_beq m n
int_beq (negsuc m) (negsuc n) = nat_beq m n
int_beq _ _ = false

abbrev digit : ℕ → String
digit n =
    if nat_beq n 0
    then "0"
    else if nat_beq n 1
    then "1"
    else if nat_beq n 2
    then "2"
    else if nat_beq n 3
    then "3"
    else if nat_beq n 4
    then "4"
    else if nat_beq n 5
    then "5"
    else if nat_beq n 6
    then "6"
    else if nat_beq n 7
    then "7"
    else if nat_beq n 8
    then "8"
    else "9"

-- the digits of a number, on fuel
unfoldable pub decimal_on : ℕ → ℕ → String
decimal_on zero n = ""
decimal_on (suc k) n =
    let rest = decimal_on k (n / 10) in if ltb n 10 then digit n else rest <> digit (n % 10)

-- More fuel than the number gives the same text, so the fuel of `str` is enough.
pub decimal_on-enough : (k n : ℕ) → n < k → decimal_on (suc k) n ≡ decimal_on k n
unfolding decimal_on
decimal_on-enough zero n h = ground arith
decimal_on-enough (suc k) n h = elim (Bool-cases (ltb n 10)) [
  | inl small ↦ rw small
  | inr large ↦
      rw large (ap (λ t. t <> digit (n % 10)) (decimal_on-enough k (n / 10) (ground arith)))
]

unfoldable pub str : ℤ → String
unfolding decimal_on
str (pos n) = decimal_on (suc n) n
str (negsuc n) = "-" <> decimal_on (suc (suc n)) (suc n)
