-- ===== src/JobId/Pattern.antt =====
-- What the id pattern of the handlers accepts.
use web_based_jobs_worker_se.Base.{
  ℕ, zero, suc, ◌≡◌, refl, ap, ◌↔◌, true, [], ◌∷◌, ◌++◌, inl, inr, arith, Text, length, All,
  Bool-cases,
}
use web_based_jobs_worker_se.JobId.{is_id_char, match_here, match_string}

-- A run of n characters of the class starts the text.
abbrev StartsRun : ℕ → Text → Type 0
StartsRun n s =
    (run : Text) × (post : Text) × (s ≡ run ++ post)
    × (length run ≡ n)
    × All (λ c. is_id_char c ≡ true) run

pub match_here_sound : (n : ℕ) (s : Text) → match_here n s ≡ true → StartsRun n s
unfolding match_here
match_here_sound zero s h = ([], s, refl, refl, tt)
match_here_sound (suc n) [] h = absurd (cc)
match_here_sound (suc n) (c ∷ s) h =
    let (run, post, e, l, a) = match_here_sound n s (ground arith) in
    (c ∷ run, post, ap (◌∷◌ c) e, ap suc l, (ground arith, a))

pub match_here_complete :
    (run post : Text)
    → All (λ c. is_id_char c ≡ true) run
    → match_here (length run) (run ++ post) ≡ true
unfolding match_here
match_here_complete [] post a = refl
match_here_complete (c ∷ run) post a = rw a.0 (match_here_complete run post a.1)

-- The text holds 16 characters of the class in a row.
abbrev pub HasIdRun : Text → Type 0
HasIdRun s =
    (pre : Text) × (run : Text) × (post : Text) × (s ≡ pre ++ (run ++ post))
    × (length run ≡ 16)
    × All (λ c. is_id_char c ≡ true) run

match_string_sound : (s : Text) → match_string s ≡ true → HasIdRun s
unfolding match_string
match_string_sound [] h =
    let (run, post, e, l, a) = match_here_sound 16 [] h in ([], run, post, e, l, a)
match_string_sound (c ∷ s) h = elim (Bool-cases (match_here 16 (c ∷ s))) [
  | inl here ↦
      let (run, post, e, l, a) = match_here_sound 16 (c ∷ s) here in ([], run, post, e, l, a)
  | inr gone ↦
      let (pre, run, post, e, l, a) = match_string_sound s (rw gone at h) in
      (c ∷ pre, run, post, ap (◌∷◌ c) e, l, a)
]

match_string_found :
    (pre run post : Text)
    → length run ≡ 16
    → All (λ c. is_id_char c ≡ true) run
    → match_string (pre ++ (run ++ post)) ≡ true
unfolding match_string
match_string_found [] [] post l a = absurd (omega (arith, l))
match_string_found [] (c ∷ run) post l a = rw (rw l at (match_here_complete (c ∷ run) post a))
match_string_found (c ∷ pre) run post l a = ground (arith, match_string_found pre run post l a)

-- An id passes the check of the handlers exactly if 16 characters of the class [a-z0-9] stand in it
-- in a row, at any place: the id may be longer, and what stands around the run is free.
pub match_string-HasIdRun : (s : Text) → (match_string s ≡ true) ↔ HasIdRun s
match_string-HasIdRun s =
    (match_string_sound s, λ (pre, run, post, e, l, a). rw e (match_string_found pre run post l a))
