-- ===== src/JobId/Generate.antt =====
-- The ids that `generateID` makes.
use mathlib.Core.List.{append-nil}
use native.Mathlib.Nat.{pow-suc}
use web_based_jobs_worker_se.Base.{
  ℕ, zero, suc, ◌*◌, ◌^◌, ◌/◌, ◌%◌, ◌≤◌, ◌<◌, ◌≡◌, refl, sym, ap, ◌∙◌, ◌↔◌, true, List, [], ◌∷◌,
  ◌++◌, none, some, arith, Text, length, length-append, All, All-append, ltb, Bool-cases, inl, inr,
  ◌⊎◌, ltb→lt, not_ltb→le,
}
use web_based_jobs_worker_se.JobId.{
  is_id_char, match_string, hex_digit, hex_bytes, hex_number, generate_id,
}
use web_based_jobs_worker_se.JobId.Pattern.{HasIdRun, match_string-HasIdRun}

abbrev pub IsByte : ℕ → Type 0
IsByte b = b < 256

abbrev IsIdChar : ℕ → Type 0
IsIdChar c = is_id_char c ≡ true

hex_digit-IsIdChar : (d : ℕ) → d < 16 → IsIdChar (hex_digit d)
unfolding hex_digit is_id_char
hex_digit-IsIdChar d h = ground arith

hex_digit_injective : (c d : ℕ) → c < 16 → d < 16 → hex_digit c ≡ hex_digit d → c ≡ d
unfolding hex_digit
hex_digit_injective c d h k e = ground arith

pub length-hex_bytes : (b : List ℕ) → length (hex_bytes b) ≡ 2 * length b
unfolding hex_bytes
length-hex_bytes [] = refl
length-hex_bytes (x ∷ b) = omega (arith, length-hex_bytes b)

hex_bytes-All : (b : List ℕ) → All IsByte b → All IsIdChar (hex_bytes b)
unfolding hex_bytes
hex_bytes-All [] h = tt
hex_bytes-All (x ∷ b) h = (
  hex_digit-IsIdChar (x / 16) (omega arith),
  (hex_digit-IsIdChar (x % 16) (omega arith), hex_bytes-All b h.1),
)

whole_run : (s : Text) → length s ≡ 16 → All IsIdChar s → match_string s ≡ true
whole_run s l a = (match_string-HasIdRun s).1 ([], s, [], sym (append-nil s), l, a)

-- From eight random bytes `generateID` makes an id of 16 characters that every handler accepts.
pub generate_id-match :
    (b : List ℕ) (now : ℕ)
    → length b ≡ 8
    → All IsByte b
    → (length (generate_id (some b) now) ≡ 16) × (match_string (generate_id (some b) now) ≡ true)
unfolding generate_id
generate_id-match b now l h =
    let n : length (hex_bytes b) ≡ 16 = omega (arith, length-hex_bytes b) in
    (n, whole_run (hex_bytes b) n (hex_bytes-All b h))

-- Two draws of random bytes give the same id only if they are the same bytes.
pub generate_id_injective :
    (a b : List ℕ) (now later : ℕ)
    → All IsByte a
    → All IsByte b
    → generate_id (some a) now ≡ generate_id (some b) later
    → a ≡ b
unfolding generate_id hex_bytes
generate_id_injective [] [] now later h k e = refl
generate_id_injective [] (y ∷ b) now later h k e = absurd (cc)
generate_id_injective (x ∷ a) [] now later h k e = absurd (cc)
generate_id_injective (x ∷ a) (y ∷ b) now later h k e = ground (
  arith,
  hex_digit_injective (x / 16) (y / 16),
  hex_digit_injective (x % 16) (y % 16),
  generate_id_injective a b now later h.1 k.1,
)

hex_number-All : (f n : ℕ) → All IsIdChar (hex_number f n)
unfolding hex_number
hex_number-All zero n = tt
hex_number-All (suc f) n = elim (Bool-cases (ltb n 16)) [
  | inl small ↦ rw small (hex_digit-IsIdChar n (ground arith), tt)
  | inr large ↦ rw large (
      All-append IsIdChar (hex_number f (n / 16)) (hex_digit (n % 16) ∷ [])
        (hex_number-All f (n / 16)) (hex_digit-IsIdChar (n % 16) (omega arith), tt))
]

pow16 : (k : ℕ) → 16 ^ suc k ≡ 16 * 16 ^ k
pow16 k = pow-suc 16 k ∙ omega arith

pow16_pos : (k : ℕ) → 0 < 16 ^ k
pow16_pos zero = omega arith
pow16_pos (suc k) = omega (arith, pow16 k, pow16_pos k)

split_last :
    (f n : ℕ)
    → ((n < 16) × (length (hex_number (suc f) n) ≡ 1))
      ⊎ ((16 ≤ n) × (length (hex_number (suc f) n) ≡ suc (length (hex_number f (n / 16)))))
unfolding hex_number
split_last f n = elim (Bool-cases (ltb n 16)) [
  | inl small ↦ inl (ground arith, rw small)
  | inr large ↦ inr (
    ground arith,
    rw large (omega (arith, length-append (hex_number f (n / 16)) (hex_digit (n % 16) ∷ []))),
  )
]

-- A number below 16 ^ (k + 1), and not below 16 ^ k, has k + 1 digits.
length-hex_number :
    (k f n : ℕ) → k < f → 16 ^ k ≤ n → n < 16 ^ suc k → length (hex_number f n) ≡ suc k
length-hex_number k zero n h lo hi = absurd (omega arith)
length-hex_number zero (suc f) n h lo hi = omega (arith, split_last f n, pow16 0)
length-hex_number (suc k) (suc f) n h lo hi = elim (split_last f n) [
  | inl (small, _) ↦ absurd (omega (arith, pow16 k, pow16_pos k))
  | inr (large, e) ↦
      e
      ∙ ap suc (
          length-hex_number k f (n / 16) (omega arith) (omega (arith, pow16 k))
            (omega (arith, pow16 (suc k))))
]

length-hex_number_le : (k f n : ℕ) → n < 16 ^ suc k → length (hex_number f n) ≤ suc k
unfolding hex_number
length-hex_number_le k zero n hi = omega arith
length-hex_number_le zero (suc f) n hi = omega (arith, split_last f n, pow16 0)
length-hex_number_le (suc k) (suc f) n hi =
    omega (arith, split_last f n, length-hex_number_le k f (n / 16) (omega (arith, pow16 (suc k))))

HasIdRun-length : (s : Text) → HasIdRun s → 16 ≤ length s
HasIdRun-length s (pre, run, post, e, l, a) =
    rw e (omega (arith, length-append pre (run ++ post), length-append run post, l))

-- When no random bytes are to be had, the id made from the clock is accepted exactly from
-- 2 ^ 60 nanoseconds after 1970 on (July 2006), as long as the clock is a positive `int64`.
pub generate_id_clock :
    (now : ℕ) → now < 2 ^ 63 → (match_string (generate_id none now) ≡ true) ↔ (2 ^ 60 ≤ now)
unfolding generate_id
generate_id_clock now small = (
  (λ m. late (HasIdRun-length _ ((match_string-HasIdRun _).0 m))),
  λ h.
      whole_run (hex_number 16 now) (length-hex_number 15 16 now (omega arith) h (omega arith))
        (hex_number-All 16 now),
)
  where
    late : 16 ≤ length (hex_number 16 now) → 2 ^ 60 ≤ now
    late l = elim (Bool-cases (ltb now (2 ^ 60))) [
      | inl early ↦ absurd (omega (arith, l, length-hex_number_le 14 16 now (ltb→lt _ _ early)))
      | inr h ↦ not_ltb→le _ _ h
    ]
