-- ===== src/Backend/Plates.antt =====
-- Texts that are checked character by character: number plates, in
-- services/carpayin-backend/app/application/card/create_card_order.py and app/infra/support.py, and
-- the last four digits of a card, in app/application/card/handle_card_webhook.py.
use car_pay_in.Backend.Env.{Env}
use car_pay_in.Base.{
  Bool, List, [], false, if◌then◌else◌, leb, nat_beq, suc, true, zero, ℕ, ◌&&◌, ◌||◌, ◌∷◌,
}
use Prim.Native.Char.{Char, code}
use Prim.Native.String.{String}

abbrev pub chars : String → List Char
chars String.[] = []
chars (String.◌∷◌ c t) = c ∷ chars t

abbrev pub is_char : ℕ → Char → Bool
is_char n c = nat_beq (code c) n

-- the text without the characters that pass a test
unfoldable pub without : (Char → Bool) → String → String
without p String.[] = ""
without p (String.◌∷◌ c t) = let rest = without p t in if p c then rest else String.◌∷◌ c rest

-- `lstrip`
unfoldable pub lstrip : (Char → Bool) → String → String
lstrip p String.[] = ""
lstrip p (String.◌∷◌ c t) = let rest = lstrip p t in if p c then rest else String.◌∷◌ c t

abbrev strip_front : Bool → Char → String → String
strip_front b c String.[] = if b then "" else String.◌∷◌ c ""
strip_front b c rest = String.◌∷◌ c rest

-- `rstrip`
unfoldable pub rstrip : (Char → Bool) → String → String
rstrip p String.[] = ""
rstrip p (String.◌∷◌ c t) = strip_front (p c) c (rstrip p t)

unfoldable pub strip : (Char → Bool) → String → String
strip p t = lstrip p (rstrip p t)

-- what `$` takes: the end, or a newline at the end
unfoldable pub at_end : List Char → Bool
at_end [] = true
at_end (c ∷ []) = is_char b'\n' c
at_end _ = false

-- a number of digits, and then the rest
unfoldable pub digits_then : (Char → Bool) → ℕ → (List Char → Bool) → List Char → Bool
digits_then digit zero next cs = next cs
digits_then digit (suc n) next [] = false
digits_then digit (suc n) next (c ∷ cs) = let rest = digits_then digit n next cs in digit c && rest

-- `[가-힣]`
abbrev pub is_syllable : Char → Bool
is_syllable c = leb 44032 (code c) && leb (code c) 55203

unfoldable pub syllable_then : (List Char → Bool) → List Char → Bool
syllable_then next [] = false
syllable_then next (c ∷ cs) = is_syllable c && next cs

module _ (E : Env) where
  -- `_normalize_plate`
  unfoldable pub normalize_plate : String → String
  normalize_plate plate = strip E.is_space (without (is_char b' ') plate)

  -- `PlateNormalizer.normalize`
  unfoldable pub normalize : String → String
  normalize plate = strip E.is_space (without (is_char b'-') (without (is_char b' ') plate))

  -- `_PLATE_PATTERN.match`
  unfoldable pub is_plate : String → Bool
  is_plate plate =
      let tail = syllable_then (digits_then E.is_digit 4 at_end) in
      digits_then E.is_digit 3 tail (chars plate) || digits_then E.is_digit 2 tail (chars plate)

  -- `_CARD_LAST_FOUR_PATTERN.match`
  unfoldable pub is_last_four : String → Bool
  is_last_four t = digits_then E.is_digit 4 at_end (chars t)
