-- ===== src/Cleanup/Sweep.antt =====
-- The loop of the cleanup, on the table alone: what it removes and what it saves.
use web_based_jobs_worker_se.Base.{
  ℕ, ◌≡◌, refl, sym, ap, ◌∙◌, ◌⊎◌, inl, inr, Bool, true, false, ◌&&◌, List, [], ◌∷◌, ◌++◌, Option,
  none, some, arith, Text, text_key, text_eq_iff, ◌==◌, ℤ, get_elem?, All, Bool-cases, Option-cases,
  if◌then◌else◌,
}
use mathlib.Core.Path.{subst}
use web_based_jobs_worker_se.GoMap.{lookup, erase, contains, lookup-erase}
use web_based_jobs_worker_se.Models.{Time, Job}
use web_based_jobs_worker_se.Config.{Configuration}
use web_based_jobs_worker_se.Env.{Calendar}
use web_based_jobs_worker_se.Worker.{World, returned}
use web_based_jobs_worker_se.Worker.Lookup.{job_of, job_of_missing, job_of_found}
use web_based_jobs_worker_se.Worker.Cells.{load_lem}
use web_based_jobs_worker_se.Executor.{dump_path}
use web_based_jobs_worker_se.Cleanup.{is_expired, backup_result, backup, delete_job, cleanup_loop}

-- A table entry leads to a job that has a result buffer if it is short.
abbrev pub IsStored : List Job → Text × ℕ → Type 0
IsStored heap e =
    (j : Job) × (get_elem? heap e.1 ≡ some j)
    × ((j.islong ≡ true) ⊎ ((buf : Text) × (j.result ≡ some buf)))

lookup-IsStored :
    (heap : List Job) (m : List (Text × ℕ)) (id : Text) {p : ℕ}
    → All (IsStored heap) m
    → lookup id m ≡ some p
    → IsStored heap (id, p)
unfolding lookup
lookup-IsStored heap [] id h found = absurd cc
lookup-IsStored heap ((k, q) ∷ m) id {p} ((j, at_q, shape), h) found = elim (Bool-cases (k == id)) [
  | inl here ↦ (j, ground arith, shape)
  | inr elsewhere ↦ lookup-IsStored heap m id h (ground arith)
]

erase-All : (P : Text × ℕ → Type 0) (id : Text) (m : List (Text × ℕ)) → All P m → All P (erase id m)
unfolding erase
erase-All P id [] h = tt
erase-All P id ((k, q) ∷ m) h = elim (Bool-cases (k == id)) [
  | inl here ↦ rw here (erase-All P id m h.1)
  | inr elsewhere ↦ rw elsewhere (h.0, erase-All P id m h.1)
]

-- A file of the backups.
abbrev pub Has : Text × Text → List (Text × Text) → Type 0
Has x [] = ⊥
Has x (y ∷ ys) = (x ≡ y) ⊎ Has x ys

Has-append : (x : Text × Text) (xs ys : List (Text × Text)) → Has x xs ⊎ Has x ys → Has x (xs ++ ys)
Has-append x [] ys (inl nowhere) = absurd nowhere
Has-append x [] ys (inr there) = there
Has-append x (y ∷ xs) ys (inl (inl here)) = inl here
Has-append x (y ∷ xs) ys (inl (inr later)) = inr (Has-append x xs ys (inl later))
Has-append x (y ∷ xs) ys (inr there) = inr (Has-append x xs ys (inr there))

-- Whether a round removes what it finds under an id.
abbrev pub removes : ℤ → ℤ → Time → Option Job → Bool
removes maxcount deadtime now none = false
removes maxcount deadtime now (some j) = is_expired maxcount deadtime now j

module _ (c : Configuration) (cal : Calendar) (writes : Text → Bool) (maxcount deadtime : ℤ)
    (now : Time) where
  file_of : Job → Option Text → List (Text × Text)
  file_of j none = []
  file_of j (some buf) =
      let path = dump_path c.jobs_outputs_backups_folder cal j in
      if writes path then (path, buf) ∷ [] else []

  saves : Option Job → List (Text × Text)
  saves none = []
  saves (some j) =
      if is_expired maxcount deadtime now j
      then (if j.islong then [] else file_of j j.result)
      else []

  -- The round on the table alone: the backups, and the table that is left.
  pub sweep : List Job → List Text → List (Text × ℕ) → List (Text × Text) × List (Text × ℕ)
  sweep heap [] m = ([], m)
  sweep heap (id ∷ ids) m =
      let next =
        sweep heap ids
          (if removes maxcount deadtime now (job_of heap m id) then erase id m else m) in
      (saves (job_of heap m id) ++ next.0, next.1)

  abbrev step :
      Option Job
      → List Job
      → Text
      → List Text
      → List (Text × ℕ)
      → List (Text × Text) × List (Text × ℕ)
  step o heap id ids m =
      let next = sweep heap ids (if removes maxcount deadtime now o then erase id m else m) in
      (saves o ++ next.0, next.1)

  sweep-step :
      (o : Option Job) (heap : List Job) (id : Text) (ids : List Text) (m : List (Text × ℕ))
      → job_of heap m id ≡ o
      → sweep heap (id ∷ ids) m ≡ step o heap id ids m
  unfolding sweep
  sweep-step o heap id ids m e = ap (λ o. step o heap id ids m) e

  file_of_result :
      (j : Job) (result : Option Text) (w : World) {buf : Text}
      → result ≡ some buf
      → backup_result writes (dump_path c.jobs_outputs_backups_folder cal j) result w
        ≡ returned (file_of j result) w
  unfolding backup_result file_of
  file_of_result j result w e = rw e refl

  backup_lem :
      (j : Job) (w : World)
      → (j.islong ≡ true) ⊎ ((buf : Text) × (j.result ≡ some buf))
      → backup c cal writes j w ≡ returned (if j.islong then [] else file_of j j.result) w
  unfolding backup
  backup_lem j w (inl long) = ground arith
  backup_lem j w (inr (buf, e)) = ground (arith, file_of_result j j.result w e)

  pub cleanup_loop_lem :
      (ids : List Text) (w : World)
      → All (IsStored w.heap) w.results
      → cleanup_loop c cal writes maxcount deadtime now ids w
        ≡ returned
            (sweep w.heap ids w.results).0
            (record w { results = (sweep w.heap ids w.results).1 })
  unfolding cleanup_loop saves delete_job
  cleanup_loop_lem [] w stored = unfold sweep in refl
  cleanup_loop_lem (id ∷ ids) w stored = elim (Option-cases (lookup id w.results)) [
    | inl missing ↦ rw missing (
        rw (sweep-step none w.heap id ids w.results (job_of_missing w.heap w.results id missing))
          (cleanup_loop_lem ids w stored))
    | inr (p, found) ↦
        (let (j, at_p, shape) = lookup-IsStored w.heap w.results id stored found in
          let w₁ = record w { results = erase id w.results } in
          rw found (
            rw (load_lem p j w at_p) (
              rw
                (sweep-step (some j) w.heap id ids w.results
                  (job_of_found w.heap w.results id found at_p))
                (elim (Bool-cases (is_expired maxcount deadtime now j)) [
                  | inl old ↦ rw old (
                      rw (backup_lem j w shape) (
                        rw
                          (cleanup_loop_lem ids w₁
                            (erase-All (IsStored w.heap) id w.results stored))
                          refl))
                  | inr fresh ↦ rw fresh (cleanup_loop_lem ids w stored)
                ]))))
  ]

  job_of-erase :
      (heap : List Job) (k id : Text) (m : List (Text × ℕ))
      → job_of heap (erase k m) id ≡ (if k == id then none else job_of heap m id)
  unfolding job_of
  job_of-erase heap k id m = ground (arith, lookup-erase k id m)

  -- A job is found after the sweep exactly if it was there and not visited as expired.
  pub lookup-sweep :
      (heap : List Job) (ids : List Text) (m : List (Text × ℕ)) (id : Text)
      → lookup id (sweep heap ids m).1 ≡ (
          if contains id ids && removes maxcount deadtime now (job_of heap m id)
          then none
          else lookup id m)
  unfolding sweep contains
  lookup-sweep heap [] m id = refl
  lookup-sweep heap (k ∷ ids) m id =
      elim (Bool-cases (removes maxcount deadtime now (job_of heap m k))) [
        | inl old ↦ rw old (
            ground (
              arith,
              text_eq_iff k id,
              lookup-erase k id m,
              job_of-erase heap k id m,
              lookup-sweep heap ids (erase k m) id,
            ))
        | inr fresh ↦ rw fresh (ground (arith, text_eq_iff k id, lookup-sweep heap ids m id))
      ]

  job_of_other :
      (heap : List Job) (k id : Text) (m : List (Text × ℕ)) (gone : Bool)
      → (k == id) ≡ false
      → job_of heap (if gone then erase k m else m) id ≡ job_of heap m id
  job_of_other heap k id m true other = rw (job_of-erase heap k id m) (rw other refl)
  job_of_other heap k id m false other = refl

  saves_one :
      (j : Job) (buf : Text)
      → is_expired maxcount deadtime now j ≡ true
      → j.islong ≡ false
      → j.result ≡ some buf
      → writes (dump_path c.jobs_outputs_backups_folder cal j) ≡ true
      → saves (some j) ≡ (dump_path c.jobs_outputs_backups_folder cal j, buf) ∷ []
  unfolding saves file_of dump_path
  saves_one j buf old plain stored able =
      rw (old, plain) (ap (file_of j) stored ∙ unfold file_of in rw able refl)

  pub sweep_saves :
      (heap : List Job) (ids : List Text) (m : List (Text × ℕ)) (id : Text) (j : Job) (buf : Text)
      → contains id ids ≡ true
      → job_of heap m id ≡ some j
      → is_expired maxcount deadtime now j ≡ true
      → j.islong ≡ false
      → j.result ≡ some buf
      → writes (dump_path c.jobs_outputs_backups_folder cal j) ≡ true
      → Has (dump_path c.jobs_outputs_backups_folder cal j, buf) (sweep heap ids m).0
  unfolding sweep contains
  sweep_saves heap [] m id j buf visited held old plain stored able = absurd cc
  sweep_saves heap (k ∷ ids) m id j buf visited held old plain stored able =
      elim (Bool-cases (k == id)) [
        | inl here ↦
            (let held_k = ap (job_of heap m) ((text_eq_iff k id).0 here) ∙ held in
              let kept = ap saves held_k ∙ saves_one j buf old plain stored able in
              let path = dump_path c.jobs_outputs_backups_folder cal j in
              Has-append (path, buf) (saves (job_of heap m k)) _
                (inl (subst (Has (path, buf)) (sym kept) (inl refl))))
        | inr elsewhere ↦ Has-append _ (saves (job_of heap m k)) _ (
            inr (
              sweep_saves heap ids
                (if removes maxcount deadtime now (job_of heap m k) then erase k m else m) id j buf
                (ground arith)
                (job_of_other heap k id m (removes maxcount deadtime now (job_of heap m k))
                    elsewhere
                  ∙ held)
                old plain stored able))
      ]
