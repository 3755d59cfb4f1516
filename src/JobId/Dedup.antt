-- ===== src/JobId/Dedup.antt =====
-- `removeDuplicateJobIds` against the set of the valid ids of a request.
use web_based_jobs_worker_se.Base.{
  suc, ap, ◌≡◌, refl, sym, ◌∙◌, nat_beq_iff, ◌↔◌, ◌⊎◌, true, false, List, [], ◌∷◌, inl, inr, arith,
  Text, text_key, ◌&&◌, ◌||◌, length, Bool-cases, nat_beq, text_eq_iff,
}
use web_based_jobs_worker_se.GoMap.{
  insert, keys, contains, IsNodup, IsRangeOrder, contains-keys-insert, keys-insert-IsNodup,
  eq-nil_of_contains, contains-nil, eq-singleton,
}
use web_based_jobs_worker_se.JobId.{
  match_string, single_invalid, collect_valid, remove_duplicate_job_ids,
}

contains-collect_valid :
    (j : Text) (ids : List Text) (temp : List (Text × Unit {0}))
    → contains j (keys (collect_valid ids temp))
      ≡ (contains j (keys temp) || contains j ids && match_string j)
unfolding collect_valid contains
contains-collect_valid j [] temp = ground arith
contains-collect_valid j (id ∷ ids) temp = ground (
  arith,
  text_eq_iff id j,
  contains-keys-insert j id tt temp,
  contains-collect_valid j ids temp,
  contains-collect_valid j ids (insert id tt temp),
)

collect_valid-IsNodup :
    (ids : List Text) (temp : List (Text × Unit {0}))
    → IsNodup (keys temp)
    → IsNodup (keys (collect_valid ids temp))
unfolding collect_valid
collect_valid-IsNodup [] temp h = h
collect_valid-IsNodup (id ∷ ids) temp h = elim (Bool-cases (match_string id)) [
  | inl m ↦ rw m (collect_valid-IsNodup ids (insert id tt temp) (keys-insert-IsNodup id tt temp h))
  | inr m ↦ rw m (collect_valid-IsNodup ids temp h)
]

single_invalid_sound :
    (ids : List Text)
    → single_invalid ids ≡ true
    → (j : Text) → (contains j ids && match_string j) ≡ false
unfolding single_invalid contains
single_invalid_sound [] h j = cc
single_invalid_sound (id ∷ []) h j = ground (arith, text_eq_iff id j)
single_invalid_sound (id ∷ _ ∷ _) h j = cc

length-eq-zero {ℓ} : {A : Type ℓ} (l : List A) → nat_beq (length l) 0 ≡ true → l ≡ []
length-eq-zero [] h = refl
length-eq-zero (x ∷ l) h = absurd (omega (arith, (nat_beq_iff (suc (length l)) 0).0 h))

module _ (order : List Text → List Text) (o : IsRangeOrder order) where
  contains-kept :
      (j : Text) (ids : List Text)
      → contains j (order (keys (collect_valid ids []))) ≡ (contains j ids && match_string j)
  unfolding contains
  contains-kept j ids = o.same j _ ∙ contains-collect_valid j ids []

  kept_none :
      (ids : List Text)
      → ((j : Text) → (contains j ids && match_string j) ≡ false)
      → order (keys (collect_valid ids [])) ≡ []
  kept_none ids h = eq-nil_of_contains _ (λ j. contains-kept j ids ∙ h j)

  ignored_or_kept :
      (ids : List Text)
      → let (ignore, kept) = remove_duplicate_job_ids order ids in
        ((ignore ≡ true) ↔ ((j : Text) → (contains j ids && match_string j) ≡ false))
        × (ignore ≡ false
            → IsNodup kept × ((j : Text) → contains j kept ≡ (contains j ids && match_string j)))
  unfolding remove_duplicate_job_ids
  ignored_or_kept ids = elim (Bool-cases (single_invalid ids)) [
    | inl bad ↦ rw bad ((λ _. single_invalid_sound ids bad, λ _. refl), λ e. absurd (cc))
    | inr some_good ↦ rw some_good (
      (
        λ e j. sym (contains-kept j ids) ∙ ap (contains j) (length-eq-zero _ e) ∙ contains-nil j,
        λ h. ap (λ l. nat_beq (length l) 0) (kept_none ids h),
      ),
      λ _. (o.once _ (collect_valid-IsNodup ids [] tt), λ j. contains-kept j ids),
    )
  ]

  -- Whatever the order in which the map is visited, either no id of the request is valid and the
  -- request is to be ignored, or some id is valid, the request goes on, and the ids that are left
  -- are the valid ones of the request, each once.
  pub remove_duplicate_job_ids_lem :
      (ids : List Text)
      → let (ignore, kept) = remove_duplicate_job_ids order ids in
        ((ignore ≡ true) × ((j : Text) → (contains j ids && match_string j) ≡ false))
        ⊎ ((ignore ≡ false)
            × ¬ ((j : Text) → (contains j ids && match_string j) ≡ false)
            × IsNodup kept
            × ((j : Text) → contains j kept ≡ (contains j ids && match_string j)))
  remove_duplicate_job_ids_lem ids =
      let facts = ignored_or_kept ids in
      elim (Bool-cases (remove_duplicate_job_ids order ids).0) [
        | inl bad ↦ inl (bad, facts.0.0 bad)
        | inr good ↦ inr (
          good,
          λ none_valid. absurd (cc (facts.0.1 none_valid, good)),
          (facts.1 good).0,
          (facts.1 good).1,
        )
      ]

  order-single : (k : Text) → order (k ∷ []) ≡ k ∷ []
  order-single k =
      eq-singleton k (order (k ∷ [])) (λ j. o.same j (k ∷ []))
        (o.once (k ∷ []) (contains-nil k, tt))

  -- A request for one valid id goes through as it is.
  pub remove_duplicate_job_ids-single :
      (id : Text)
      → match_string id ≡ true
      → remove_duplicate_job_ids order (id ∷ []) ≡ (false, id ∷ [])
  unfolding remove_duplicate_job_ids insert
  remove_duplicate_job_ids-single id m = rw (m, order-single id)
