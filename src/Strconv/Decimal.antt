-- ===== src/Strconv/Decimal.antt =====
-- Printing a number and reading it back.
use native.Mathlib.Nat.{pow-suc}
use web_based_jobs_worker_se.Base.{
  ℕ, zero, suc, ◌+◌, ◌-◌, ◌*◌, ◌/◌, ◌%◌, ◌^◌, ◌<◌, ◌≤◌, ◌≡◌, ◌∙◌, ap, [], ◌∷◌, ◌++◌, some, arith,
  Text, ltb, pos, inl, inr, Bool-cases, ltb→lt, not_ltb→le,
}
use web_based_jobs_worker_se.Strconv.{parse_digits, atoi, digits, itoa}

-- Reading a text and then one more digit.
parse_digits-snoc :
    (s : Text) (acc d n : ℕ)
    → d < 10
    → parse_digits acc s ≡ some n
    → parse_digits acc (s ++ (b'0' + d) ∷ []) ≡ some (n * 10 + d)
unfolding parse_digits
parse_digits-snoc [] acc d n h e = ground arith
parse_digits-snoc (c ∷ s) acc d n h e =
    ground (arith, parse_digits-snoc s (acc * 10 + (c - b'0')) d n)

parse_digits_one : (n : ℕ) → n < 10 → parse_digits 0 ((b'0' + n) ∷ []) ≡ some n
unfolding parse_digits
parse_digits_one n h = ground arith

pub digits_small : (f n : ℕ) → n < 10 → digits (suc f) n ≡ (b'0' + n) ∷ []
unfolding digits
digits_small f n h = ground arith

pub digits_large : (f n : ℕ) → 10 ≤ n → digits (suc f) n ≡ digits f (n / 10) ++ (b'0' + n % 10) ∷ []
unfolding digits
digits_large f n h = ground arith

parse_digits-digits : (f n : ℕ) → n < 10 ^ suc f → parse_digits 0 (digits (suc f) n) ≡ some n
parse_digits-digits zero n h =
    let k : n < 10 = omega arith in rw (digits_small 0 n k) (parse_digits_one n k)
parse_digits-digits (suc f) n h = elim (Bool-cases (ltb n 10)) [
  | inl small ↦ let k = ltb→lt n 10 small in rw (digits_small (suc f) n k) (parse_digits_one n k)
  | inr large ↦ rw (digits_large (suc f) n (not_ltb→le n 10 large)) (
      parse_digits-snoc (digits (suc f) (n / 10)) 0 (n % 10) (n / 10) (omega arith)
        (parse_digits-digits f (n / 10) (omega (arith, pow-suc 10 (suc f))))
      ∙ ap some (omega arith))
]

abbrev StartsWithDigit : Text → Type 0
StartsWithDigit s = (c : ℕ) × (r : Text) × (s ≡ c ∷ r) × (b'0' ≤ c) × (c ≤ b'9')

digits_head_small : (f n : ℕ) → n < 10 → StartsWithDigit (digits (suc f) n)
digits_head_small f n h = (b'0' + n, [], digits_small f n h, omega arith, omega arith)

-- The first character of a printed number is a digit.
digits_head : (f n : ℕ) → n < 10 ^ suc f → StartsWithDigit (digits (suc f) n)
digits_head zero n h = digits_head_small 0 n (omega arith)
digits_head (suc f) n h = elim (Bool-cases (ltb n 10)) [
  | inl small ↦ digits_head_small (suc f) n (ltb→lt n 10 small)
  | inr large ↦
      let (c, r, e, lo, hi) = digits_head f (n / 10) (omega (arith, pow-suc 10 (suc f))) in
      (
        c,
        r ++ (b'0' + n % 10) ∷ [],
        digits_large (suc f) n (not_ltb→le n 10 large)
            ∙ ap (λ (s : Text). s ++ (b'0' + n % 10) ∷ []) e,
        lo,
        hi,
      )
]

atoi_digit :
    (c : ℕ) (s : Text) (n : ℕ)
    → b'0' ≤ c
    → n < 2 ^ 63
    → parse_digits 0 (c ∷ s) ≡ some n
    → atoi (c ∷ s) ≡ some (pos n)
unfolding atoi
atoi_digit c s n lo small e = ground arith

-- Reading back a printed number of 63 bits gives that number.
pub atoi-itoa : (n : ℕ) → n < 2 ^ 63 → atoi (itoa n) ≡ some (pos n)
unfolding itoa
atoi-itoa n h =
    let (c, s, e, lo, hi) = digits_head 18 n (omega arith) in
    rw e (atoi_digit c s n lo h (rw e at (parse_digits-digits 18 n (omega arith))))
