-- ===== src/Worker/Consistent.antt =====
-- The table of results and the heap agree: each id leads to an allocated job that bears it.
use web_based_jobs_worker_se.Base.{
  ℕ, ◌≡◌, inl, inr, List, some, arith, Text, text_key, nat_eq, nat_beq_iff, ◌==◌, get_elem?, set,
  get_elem?-set_self, get_elem?-set_ne, Bool-cases, if◌then◌else◌,
}
use web_based_jobs_worker_se.GoMap.{lookup}
use web_based_jobs_worker_se.Models.{Job}
use web_based_jobs_worker_se.Worker.{World, put}
use web_based_jobs_worker_se.Worker.Cells.{At}

abbrev pub IsConsistent : World → Type 0
IsConsistent w =
    (id : Text) (p : ℕ) → lookup id w.results ≡ some p → (j : Job) × At w p j × (j.id ≡ id)

-- A write to one cell, seen from any address.
pub get_elem?-set {ℓ} :
    {A : Type ℓ} (xs : List A) (p q : ℕ) (v : A) {u : A}
    → get_elem? xs p ≡ some u
    → get_elem? (set xs p v) q ≡ (if p == q then some v else get_elem? xs q)
get_elem?-set xs p q v h = elim (Bool-cases (p == q)) [
  | inl same ↦ rw same (rw (← (nat_beq_iff p q).0 same) (get_elem?-set_self xs p v h))
  | inr other ↦ rw other (get_elem?-set_ne xs p q v (λ e. cc ((nat_beq_iff p q).1 e)))
]

-- Writing a job under the id that stood there keeps the agreement.
pub put-IsConsistent :
    (w : World) (p : ℕ) (j k : Job)
    → IsConsistent w
    → At w p j
    → k.id ≡ j.id
    → IsConsistent (put p k w)
put-IsConsistent w p j k s h same id q found =
    let (i, at_q, named) = s id q found in
    elim (Bool-cases (p == q)) [
      | inl e ↦ (k, ground (arith, get_elem?-set w.heap p q k h), ground (arith, nat_beq_iff p q))
      | inr e ↦ (i, ground (arith, get_elem?-set w.heap p q k h), named)
    ]
