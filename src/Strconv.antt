-- ===== src/Strconv.antt =====
-- `strconv.Atoi` and `strconv.Itoa` on 64 bits, and `strings.ToLower` as far as the program
-- compares its result with words of ASCII letters.
pub mod Decimal
use web_based_jobs_worker_se.Base.{
  ℕ, zero, suc, ◌+◌, ◌-◌, ◌*◌, ◌/◌, ◌%◌, ◌^◌, Bool, ◌&&◌, List, [], ◌∷◌, ◌++◌, map, Option, none,
  some, Text, ℤ, pos, negsuc, ltb, leb, nat_beq, if◌then◌else◌,
}

-- The digits of a number, read from the left.
unfoldable pub parse_digits : ℕ → Text → Option ℕ
parse_digits acc [] = some acc
parse_digits acc (c ∷ s) =
    let rest = parse_digits (acc * 10 + (c - b'0')) s in
    if leb b'0' c && leb c b'9' then rest else none

-- At least one digit.
unfoldable pub parse_unsigned : Text → Option ℕ
unfolding parse_digits
parse_unsigned [] = none
parse_unsigned (c ∷ s) = parse_digits 0 (c ∷ s)

unfoldable pub positive : Option ℕ → Option ℤ
positive none = none
positive (some n) = if ltb n (2 ^ 63) then some (pos n) else none

unfoldable pub negative : Option ℕ → Option ℤ
negative none = none
negative (some zero) = some (pos 0)
negative (some (suc n)) = if ltb n (2 ^ 63) then some (negsuc n) else none

-- `strconv.Atoi`; `none` where it returns an error.
unfoldable pub atoi : Text → Option ℤ
unfolding parse_unsigned positive negative
atoi [] = none
atoi (c ∷ s) =
    if nat_beq c b'-'
    then negative (parse_unsigned s)
    else if nat_beq c b'+'
    then positive (parse_unsigned s)
    else positive (parse_unsigned (c ∷ s))

-- The decimal digits of a number, of which `fuel` bounds the count.
unfoldable pub digits : ℕ → ℕ → Text
digits zero n = []
digits (suc fuel) n =
    let high = digits fuel (n / 10) in
    if ltb n 10 then (b'0' + n) ∷ [] else high ++ (b'0' + n % 10) ∷ []

-- `strconv.Itoa` of a number that is not negative; an `int` has at most 19 digits.
unfoldable pub itoa : ℕ → Text
unfolding digits
itoa n = digits 19 n

-- Upper case ASCII letters, and the two other characters whose lower case is an ASCII letter: the
-- Kelvin sign and the capital I with a dot.
unfoldable pub lower_char : ℕ → ℕ
lower_char c =
    if leb b'A' c && leb c b'Z'
    then c + 32
    else if nat_beq c 0x212a
    then b'k'
    else if nat_beq c 0x130
    then b'i'
    else c

unfoldable pub to_lower : Text → Text
unfolding lower_char
to_lower s = map lower_char s
