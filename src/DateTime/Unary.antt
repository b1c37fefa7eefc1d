-- ===== src/DateTime/Unary.antt =====
-- A text format of times for the examples: a letter, and one `1` for each microsecond. It shows
-- that the law of a text format can hold.
use car_pay_in.Base.{Option, String, ap, if◌then◌else◌, none, refl, some, suc, zero, ℕ, ◌==◌, ◌≡◌}
use car_pay_in.DateTime.{DateTime, IsIso, Iso, aware, naive}
use Prim.Native.String.{[], ◌∷◌}

ones : ℕ → String
ones zero = []
ones (suc n) = "1" ∷ ones n

count_ones : String → ℕ
count_ones [] = 0
count_ones (_ ∷ t) = suc (count_ones t)

count_ones-ones : (n : ℕ) → count_ones (ones n) ≡ n
unfolding ones count_ones
count_ones-ones zero = refl
count_ones-ones (suc n) = ap suc (count_ones-ones n)

print_time : DateTime → String
print_time (naive t) = "n" ∷ ones t
print_time (aware t) = "a" ∷ ones t

parse_time : String → Option DateTime
parse_time [] = none
parse_time (c ∷ t) =
    if c ∷ [] == "n" then some (naive (count_ones t)) else some (aware (count_ones t))

unfoldable pub unary : Iso
unfolding print_time parse_time ones count_ones
unary = record { fromisoformat = parse_time; isoformat = print_time }

from-print : (d : DateTime) → parse_time (print_time d) ≡ some d
unfolding print_time parse_time
from-print (naive t) = ap (λ (n : ℕ). some (naive n)) (count_ones-ones t)
from-print (aware t) = ap (λ (n : ℕ). some (aware n)) (count_ones-ones t)

pub unary-IsIso : IsIso unary
unfolding unary
unary-IsIso = record { from-iso = from-print }
