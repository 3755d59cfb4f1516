-- ===== src/Status/Size.antt =====
-- `formatSize`: what its decimals are worth.
use web_based_jobs_worker_se.Base.{
  ℕ, ◌+◌, ◌-◌, ◌<◌, ◌⊎◌, inl, inr, Bool-cases, ltb→lt, not_ltb→le, ◌*◌, ◌≤◌, ◌^◌, Text, ◌≡◌, refl,
  arith, ltb, if◌then◌else◌,
}
use web_based_jobs_worker_se.Status.{
  round_half_even, decimal, fixed, float64, format_float, format_size,
}

-- The rounded quotient by 1024 is nearest: the error is half a unit at most.
pub round_half_even_nearest :
    (a : ℕ)
    → (2 * (1024 * round_half_even a 1024) ≤ 2 * a + 1024)
      × (2 * a ≤ 2 * (1024 * round_half_even a 1024) + 1024)
unfolding round_half_even
round_half_even_nearest a = (ground arith, ground arith)

-- A text that shows n / 1024 with k digits behind the point, and an error of at most half a unit of
-- the last digit. There are fewer than four only if n / 1024 is 10 ^ (4 - k) at least, and any at
-- all only if it is below 10 ^ (5 - k).
abbrev pub IsNear : ℕ → Text → Type 0
IsNear n shown =
    (k q : ℕ) × (k ≤ 4)
    × ((k ≡ 4) ⊎ (10 ^ (4 - k) * 1024 ≤ n))
    × ((k ≡ 0) ⊎ (n < 10 ^ (5 - k) * 1024))
    × (shown ≡ decimal k q)
    × (2 * (1024 * q) ≤ 2 * (n * 10 ^ k) + 1024)
    × (2 * (n * 10 ^ k) ≤ 2 * (1024 * q) + 1024)

fixed-IsNear :
    (k n : ℕ)
    → k ≤ 4
    → (k ≡ 4) ⊎ (10 ^ (4 - k) * 1024 ≤ n)
    → (k ≡ 0) ⊎ (n < 10 ^ (5 - k) * 1024)
    → IsNear n (fixed k n 1024)
unfolding fixed
fixed-IsNear k n h lo hi =
    let near = round_half_even_nearest (n * 10 ^ k) in
    (k, round_half_even (n * 10 ^ k) 1024, h, lo, hi, refl, near.0, near.1)

below-IsNear :
    (m n : ℕ) (s t : Text)
    → (n < m → IsNear n s)
    → (m ≤ n → IsNear n t)
    → IsNear n (if ltb n m then s else t)
below-IsNear m n s t hs ht = elim (Bool-cases (ltb n m)) [
  | inl small ↦ rw small (hs (ltb→lt n m small))
  | inr large ↦ rw large (ht (not_ltb→le n m large))
]

format_float-IsNear : (n : ℕ) → IsNear n (format_float n)
unfolding format_float
format_float-IsNear n =
    below-IsNear 10240 n _ _ (λ h. fixed-IsNear 4 n (omega arith) (inl refl) (inr (omega arith)))
      (λ a.
        below-IsNear 102400 n _ _
          (λ h. fixed-IsNear 3 n (omega arith) (inr (omega arith)) (inr (omega arith)))
          (λ b.
            below-IsNear 1024000 n _ _
              (λ h. fixed-IsNear 2 n (omega arith) (inr (omega arith)) (inr (omega arith)))
              (λ d.
                below-IsNear 10240000 n _ _
                  (λ h. fixed-IsNear 1 n (omega arith) (inr (omega arith)) (inr (omega arith)))
                  (λ e. fixed-IsNear 0 n (omega arith) (inr (omega arith)) (inl refl)))))

float64_small : (n : ℕ) → n < 2 ^ 53 → float64 n ≡ n
unfolding float64
float64_small n h = ground arith

-- The size of a file or a buffer of n bytes, n below 2 ^ 53, is shown in kilobytes as a decimal
-- number that differs from n / 1024 by at most half a unit of its last digit. It has four digits
-- behind the point if the size is below 10 KB, three below 100 KB, two below 1000 KB, one below
-- 10000 KB, and none from there on.
pub format_size-IsNear : (n : ℕ) → n < 2 ^ 53 → IsNear n (format_size n)
unfolding format_size
format_size-IsNear n h = rw (float64_small n h) (format_float-IsNear n)
