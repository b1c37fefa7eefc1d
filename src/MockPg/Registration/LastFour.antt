-- ===== src/MockPg/Registration/LastFour.antt =====
-- The last four digits that the mock PG falls back to.
use car_pay_in.Base.{
  All, Bool-cases, List, String, [], ap, arith, inl, inr, length, refl, suc, true, zero, ℕ, ◌++◌,
  ◌+◌, ◌-◌, ◌∷◌, ◌≡◌, ◌≤◌,
}
use car_pay_in.MockPg.Registration.{
  digits_of, drop, four_of, from_chars, is_digit, last_four_of, last_four_or_default, rjust4, zeros,
}
use Prim.Native.Char.{Char}

digits_of-AreDigits : (t : String) → All (λ c. is_digit c ≡ true) (digits_of t)
unfolding digits_of
digits_of-AreDigits String.[] = tt
digits_of-AreDigits (String.◌∷◌ c t) = elim (Bool-cases (is_digit c)) [
  | inl good ↦ rw good (good, digits_of-AreDigits t)
  | inr bad ↦ rw bad (digits_of-AreDigits t)
]

module _ {A : Type 0} where
  length-drop : (n : ℕ) (xs : List A) → length (drop n xs) ≡ length xs - n
  unfolding drop
  length-drop zero xs = omega arith
  length-drop (suc n) [] = omega arith
  length-drop (suc n) (x ∷ xs) = omega (arith, length-drop n xs)

  drop-All : (P : A → Type 0) (n : ℕ) (xs : List A) → All P xs → All P (drop n xs)
  unfolding drop
  drop-All P zero xs h = h
  drop-All P (suc n) [] h = tt
  drop-All P (suc n) (x ∷ xs) h = drop-All P n xs h.1

  length-append : (xs ys : List A) → length (xs ++ ys) ≡ length xs + length ys
  length-append [] ys = omega arith
  length-append (x ∷ xs) ys = omega (arith, length-append xs ys)

  append-All : (P : A → Type 0) (xs ys : List A) → All P xs → All P ys → All P (xs ++ ys)
  append-All P [] ys hx hy = hy
  append-All P (x ∷ xs) ys hx hy = (hx.0, append-All P xs ys hx.1 hy)

length-zeros : (n : ℕ) → length (zeros n) ≡ n
unfolding zeros
length-zeros zero = refl
length-zeros (suc n) = ap suc (length-zeros n)

zeros-AreDigits : (n : ℕ) → All (λ c. is_digit c ≡ true) (zeros n)
unfolding zeros
zeros-AreDigits zero = tt
zeros-AreDigits (suc n) = (refl, zeros-AreDigits n)

-- four characters, each of them a digit
pub record AreFourDigits (cs : List Char) : Type 0 where
  pub four : length cs ≡ 4
  pub digits : All (λ c. is_digit c ≡ true) cs

rjust4-AreFourDigits :
    (ds : List Char) → length ds ≤ 4 → All (λ c. is_digit c ≡ true) ds → AreFourDigits (rjust4 ds)
unfolding rjust4
rjust4-AreFourDigits ds short digits = record {
  four = rw (length-append, length-zeros) (omega arith);
  digits = append-All _ (zeros (4 - length ds)) ds (zeros-AreDigits (4 - length ds)) digits;
}

four_of-AreFourDigits :
    (ds : List Char) → All (λ c. is_digit c ≡ true) ds → AreFourDigits (four_of ds)
unfolding four_of last_four_of
four_of-AreFourDigits [] digits =
    rjust4-AreFourDigits (zeros 4) (rw length-zeros (omega arith)) (zeros-AreDigits 4)
four_of-AreFourDigits (d ∷ ds) digits =
    rjust4-AreFourDigits _ (rw length-drop (omega arith))
      (drop-All _ (length (d ∷ ds) - 4) (d ∷ ds) digits)

-- Whatever is given as a card number, the text that stands for its last four digits is made of
-- exactly four characters, all of them decimal digits.
pub last_four-AreFourDigits :
    (card_number : String)
    → (cs : List Char) × (last_four_or_default card_number ≡ from_chars cs) × AreFourDigits cs
unfolding last_four_or_default
last_four-AreFourDigits card_number =
    (_, refl, four_of-AreFourDigits (digits_of card_number) (digits_of-AreDigits card_number))
