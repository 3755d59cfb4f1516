-- ===== src/Pages/Order.antt =====
-- The order of the page of all jobs.
use web_based_jobs_worker_se.Base.{
  ℕ, ◌+◌, ◌≡◌, refl, ap, ◌∙◌, inl, inr, Bool, true, false, List, [], ◌∷◌, arith, Bool-cases,
  if◌then◌else◌,
}
use web_based_jobs_worker_se.Models.{Job}
use web_based_jobs_worker_se.Pages.{ascending, descending, insert_sorted, sort_jobs}

-- No job stands before one that is less.
abbrev pub IsSorted : (Job → Job → Bool) → List Job → Type 0
IsSorted less [] = Unit
IsSorted less (j ∷ []) = Unit
IsSorted less (j ∷ k ∷ ks) = (less k j ≡ false) × IsSorted less (k ∷ ks)

-- A strict weak order, as `sort.Slice` needs it.
pub record IsStrictOrder (less : Job → Job → Bool) : Type 0 where
  pub irreflexive : (a : Job) → less a a ≡ false
  pub asymmetric : (a b : Job) → less a b ≡ true → less b a ≡ false
  pub transitive : (a b c : Job) → less a b ≡ true → less b c ≡ true → less a c ≡ true
  pub ties : (a b c : Job) → less a b ≡ false → less b c ≡ false → less a c ≡ false

pub ascending-IsStrictOrder : IsStrictOrder ascending
unfolding ascending
ascending-IsStrictOrder = record {
  irreflexive = λ a. ground arith;
  asymmetric = λ a b h. ground arith;
  transitive = λ a b c h k. ground arith;
  ties = λ a b c h k. ground arith;
}

pub descending-IsStrictOrder : IsStrictOrder descending
unfolding descending
descending-IsStrictOrder = record {
  irreflexive = λ a. ground arith;
  asymmetric = λ a b h. ground arith;
  transitive = λ a b c h k. ground arith;
  ties = λ a b c h k. ground arith;
}

-- How many jobs of a list satisfy a test.
abbrev pub count : (Job → Bool) → List Job → ℕ
count test [] = 0
count test (j ∷ js) = (if test j then 1 else 0) + count test js

module _ (less : Job → Job → Bool) (s : IsStrictOrder less) where
  cons_if-IsSorted :
      (b : Bool) (k i j : Job) (is js : List Job)
      → less i k ≡ false
      → less j k ≡ false
      → IsSorted less (if b then i ∷ is else j ∷ js)
      → IsSorted less (k ∷ (if b then i ∷ is else j ∷ js))
  cons_if-IsSorted true k i j is js hi hj sorted = (hi, sorted)
  cons_if-IsSorted false k i j is js hi hj sorted = (hj, sorted)

  insert_sorted-IsSorted :
      (j : Job) (ks : List Job) → IsSorted less ks → IsSorted less (insert_sorted less j ks)
  unfolding insert_sorted
  insert_sorted-IsSorted j [] h = tt
  insert_sorted-IsSorted j (k ∷ []) h = elim (Bool-cases (less k j)) [
    | inl before ↦ rw before (s.asymmetric k j before, tt)
    | inr after ↦ rw after (after, tt)
  ]
  insert_sorted-IsSorted j (k ∷ i ∷ is) h = elim (Bool-cases (less k j)) [
    | inl before ↦ rw before (
        cons_if-IsSorted (less i j) k i j (insert_sorted less j is) (i ∷ is) h.0
          (s.asymmetric k j before) (insert_sorted-IsSorted j (i ∷ is) h.1))
    | inr after ↦ rw after (after, h)
  ]

  count-insert_sorted :
      (test : Job → Bool) (j : Job) (ks : List Job)
      → count test (insert_sorted less j ks) ≡ (if test j then 1 else 0) + count test ks
  unfolding insert_sorted
  count-insert_sorted test j [] = refl
  count-insert_sorted test j (k ∷ ks) = ground (arith, count-insert_sorted test j ks)

  sort_jobs-IsSorted : (js : List Job) → IsSorted less (sort_jobs less js)
  unfolding sort_jobs
  sort_jobs-IsSorted [] = tt
  sort_jobs-IsSorted (j ∷ js) = insert_sorted-IsSorted j (sort_jobs less js) (sort_jobs-IsSorted js)

  count-sort_jobs :
      (test : Job → Bool) (js : List Job) → count test (sort_jobs less js) ≡ count test js
  unfolding sort_jobs
  count-sort_jobs test [] = refl
  count-sort_jobs test (j ∷ js) =
      count-insert_sorted test j (sort_jobs less js)
      ∙ ap (λ n. (if test j then 1 else 0) + n) (count-sort_jobs test js)

-- In both directions, the page of all jobs shows them in order, so that no job stands directly
-- before one that belongs before it, and shows exactly the jobs it was given: as many of every
-- description.
pub sort_jobs_lem :
    (js : List Job)
    → IsSorted ascending (sort_jobs ascending js)
      × IsSorted descending (sort_jobs descending js)
      × ((test : Job → Bool) → count test (sort_jobs ascending js) ≡ count test js)
      × ((test : Job → Bool) → count test (sort_jobs descending js) ≡ count test js)
sort_jobs_lem js = (
  sort_jobs-IsSorted ascending ascending-IsStrictOrder js,
  sort_jobs-IsSorted descending descending-IsStrictOrder js,
  λ test. count-sort_jobs ascending ascending-IsStrictOrder test js,
  λ test. count-sort_jobs descending descending-IsStrictOrder test js,
)

-- The two directions are opposite: each comparison is the other with its jobs exchanged, and each is
-- a strict order whose ties are transitive, as `sort.Slice` needs it.
pub orders_opposite :
    ((a b : Job) → descending a b ≡ ascending b a)
    × IsStrictOrder ascending
    × IsStrictOrder descending
unfolding ascending descending
orders_opposite = (λ a b. ground arith, ascending-IsStrictOrder, descending-IsStrictOrder)
