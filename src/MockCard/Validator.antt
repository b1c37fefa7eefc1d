-- ===== src/MockCard/Validator.antt =====
-- MockCardValidator of services/mock-card/app/infra/security/card_security.py.
use car_pay_in.Backend.Plates.{strip}
use Prim.Native.Char.{Char}
use car_pay_in.Base.{Bool}
use car_pay_in.Base.{List}
use car_pay_in.Base.{Option}
use car_pay_in.Exec.{Result}
use car_pay_in.Base.{String}
use car_pay_in.Backend.Plates.{chars, is_char}
use car_pay_in.MockCard.Cards.{VerifyAndTokenizeCardCommand}
use car_pay_in.Base.{[]}
use car_pay_in.Exec.{err}
use car_pay_in.Base.{false}
use car_pay_in.Base.{if◌then◌else◌}
use car_pay_in.Base.{leb}
use car_pay_in.Base.{length}
use car_pay_in.Base.{ltb}
use car_pay_in.Base.{map_option}
use car_pay_in.Base.{nat_beq}
use car_pay_in.Integer.{negsuc}
use car_pay_in.Base.{none}
use car_pay_in.Exec.{ok}
use car_pay_in.Exec.{other}
use car_pay_in.Integer.{pos}
use car_pay_in.Base.{some}
use car_pay_in.Base.{suc}
use car_pay_in.Base.{true}
use car_pay_in.Base.{zero}
use car_pay_in.Base.{ℕ}
use car_pay_in.Integer.{ℤ}
use car_pay_in.Base.{◌&&◌}
use car_pay_in.Base.{◌*◌}
use car_pay_in.Base.{◌+◌}
use car_pay_in.Base.{◌-◌}
use car_pay_in.Base.{◌^◌}
use car_pay_in.Base.{◌||◌}
use car_pay_in.Base.{◌∷◌}
use car_pay_in.MockCard.Cards.{Drawn, Env}

-- whether a text has a number of characters, all of which pass a test
unfoldable pub all_chars : (Char → Bool) → List Char → Bool
all_chars p [] = true
all_chars p (c ∷ cs) = let rest = all_chars p cs in p c && rest

abbrev pub is_number_of : (Char → Bool) → ℕ → String → Bool
is_number_of p n t = nat_beq (length (chars t)) n && all_chars p (chars t)

-- digits, with single underscores between them, at most 4300; the state is whether a digit was the
-- last character, how many were read, and their value
unfoldable pub scan_digits : (Char → Option ℕ) → Bool → ℕ → ℕ → List Char → Option ℕ
scan_digits value after n acc [] = if after && leb n 4300 then some acc else none
scan_digits value after n acc (c ∷ cs) = elim (value c) [
  | some d ↦ scan_digits value true (suc n) (acc * 10 + d) cs
  | none ↦ elim (is_char b'_' c && after) [ true ↦ scan_digits value false n acc cs | false ↦ none ]
]

abbrev pub negate : ℕ → ℤ
negate zero = pos zero
negate (suc n) = negsuc n

unfoldable pub signed_int : (Char → Option ℕ) → List Char → Option ℤ
signed_int value [] = none
signed_int value (c ∷ cs) =
    if is_char b'-' c
    then map_option negate (scan_digits value false 0 0 cs)
    else if is_char b'+' c
    then map_option pos (scan_digits value false 0 0 cs)
    else map_option pos (scan_digits value false 0 0 (c ∷ cs))

unfoldable pub has_slash : String → Bool
has_slash String.[] = false
has_slash (String.◌∷◌ c t) = let rest = has_slash t in is_char b'/' c || rest

abbrev pub put_before : Char → String × String → String × String
put_before c (a, b) = (String.◌∷◌ c a, b)

unfoldable pub split_first : String → Option (String × String)
split_first String.[] = none
split_first (String.◌∷◌ c t) =
    let rest = split_first t in
    if is_char b'/' c then some ("", t) else map_option (put_before c) rest

abbrev pub only_slash : Option (String × String) → Option (String × String)
only_slash none = none
only_slash (some (a, b)) = if has_slash b then none else some (a, b)

abbrev pub both : Option ℤ → Option ℤ → Option (ℤ × ℤ)
both (some m) (some y) = some (m, y)
both _ _ = none

-- `2000 + year`, and a month, with 0 for one that is not positive
abbrev pub full_year : ℤ → ℕ
full_year (pos n) = 2000 + n
full_year (negsuc n) = 1999 - n

abbrev pub month_of : ℤ → ℕ
month_of (pos n) = n
month_of (negsuc _) = 0

-- whether a number, and 2000 more than it, fits a signed 32-bit integer
abbrev pub fits_int : ℕ → ℤ → Bool
fits_int more (pos n) = ltb (more + n) (2 ^ 31)
fits_int more (negsuc n) = ltb n (2 ^ 31 + more)

-- `datetime(year, month, 1) >= current_month`, false where the date does not exist
abbrev pub is_current : ℕ → ℕ → ℕ → ℕ → Bool
is_current now_year now_month year month =
    leb 1 month
    && leb month 12
    && leb 1 year
    && leb year 9999
    && leb (now_year * 12 + now_month) (year * 12 + month)

module _ (E : Env) where
  -- `int(text)`
  unfoldable pub int_of : String → Option ℤ
  int_of t = signed_int E.digit_value (chars (strip E.is_space t))

  abbrev pub ints_of : Option (String × String) → Option (ℤ × ℤ)
  ints_of none = none
  ints_of (some (month_text, year_text)) = both (int_of month_text) (int_of year_text)

  unfoldable pub parse_expiry : String → Option (ℤ × ℤ)
  parse_expiry expiry = ints_of (only_slash (split_first expiry))

  unfoldable pub check_expiry : Drawn → Option (ℤ × ℤ) → Result Bool
  check_expiry now none = ok false
  check_expiry now (some (month, year)) =
      if fits_int 2000 year && fits_int 0 month
      then ok (is_current now.year now.month (full_year year) (month_of month))
      else err (other E.overflow_text)

  unfoldable pub validate_card : Drawn → VerifyAndTokenizeCardCommand → Result Bool
  validate_card now c =
      if is_number_of E.is_digit 16 c.card_number && is_number_of E.is_digit 3 c.cvc
      then check_expiry now (parse_expiry c.expiry)
      else ok false
