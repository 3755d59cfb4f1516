-- ===== src/Control/Pointers.antt =====
-- The jobs that a `range` over the table visits, and a change made to each of them.
use mathlib.Core.Option
use web_based_jobs_worker_se.Base.{
  ℕ, ◌≡◌, refl, ap, ◌∙◌, inl, inr, true, false, List, [], ◌∷◌, none, some, arith, Text, text_key,
  text_eq_iff, nat_eq, nat_beq_iff, ◌==◌, get_elem?, set, Bool-cases, Option-cases, All,
  if◌then◌else◌,
}
use web_based_jobs_worker_se.GoMap.{lookup, contains, IsNodup}
use web_based_jobs_worker_se.Models.{Job}
use web_based_jobs_worker_se.Worker.{World}
use web_based_jobs_worker_se.Worker.Cells.{At}
use web_based_jobs_worker_se.Worker.Consistent.{IsConsistent, get_elem?-set}
use web_based_jobs_worker_se.Control.{pointers}

-- A pointer is visited because some visited id leads to it.
contains-pointers :
    (p : ℕ) (ids : List Text) (m : List (Text × ℕ))
    → contains p (pointers ids m) ≡ true
    → (id : Text) × (contains id ids ≡ true) × (lookup id m ≡ some p)
unfolding pointers contains
contains-pointers p [] m h = absurd (cc)
contains-pointers p (id ∷ ids) m h = elim (Option-cases (lookup id m)) [
  | inl gone ↦
      let (i, c, e) = contains-pointers p ids m (rw (gone, pointers) at h) in (i, ground arith, e)
  | inr (q, found) ↦ elim (Bool-cases (q == p)) [
    | inl here ↦ (id, ground (arith, text_eq_iff id id), found ∙ ap some ((nat_beq_iff q p).0 here))
    | inr there ↦
        let rest : contains p (pointers ids m) ≡ true = ground arith in
        let (i, c, e) = contains-pointers p ids m rest in (i, ground arith, e)
  ]
]

-- An id that is visited leads to a visited pointer.
pub pointers_complete :
    (id : Text) (p : ℕ) (ids : List Text) (m : List (Text × ℕ))
    → contains id ids ≡ true
    → lookup id m ≡ some p
    → contains p (pointers ids m) ≡ true
unfolding pointers contains
pointers_complete id p [] m c e = absurd (cc)
pointers_complete id p (i ∷ ids) m c e =
    ground (arith, text_eq_iff i id, nat_beq_iff p p, pointers_complete id p ids m)

module _ (w : World) (s : IsConsistent w) where
  -- Two ids that lead to one job are the same.
  lookup_injective :
      (i j : Text) (p : ℕ) → lookup i w.results ≡ some p → lookup j w.results ≡ some p → i ≡ j
  lookup_injective i j p e f =
      let (x, at_x, named_x) = s i p e in let (y, at_y, named_y) = s j p f in cc

  once :
      (id : Text) (p : ℕ) (ids : List Text)
      → lookup id w.results ≡ some p
      → contains id ids ≡ false
      → contains p (pointers ids w.results) ≡ false
  once id p ids found fresh = elim (Bool-cases (contains p (pointers ids w.results))) [
    | inl again ↦
        let (i, c, e) = contains-pointers p ids w.results again in
        absurd (cc (fresh, c, lookup_injective i id p e found))
    | inr ok ↦ ok
  ]

  pub pointers-IsNodup : (ids : List Text) → IsNodup ids → IsNodup (pointers ids w.results)
  unfolding pointers
  pointers-IsNodup [] n = tt
  pointers-IsNodup (id ∷ ids) n = elim (Option-cases (lookup id w.results)) [
    | inl gone ↦ rw (gone, pointers) (pointers-IsNodup ids n.1)
    | inr (p, found) ↦ rw (found, pointers) (once id p ids found n.0, pointers-IsNodup ids n.1)
  ]

-- The same change to each of some jobs.
unfoldable pub update_at : (Job → Job) → ℕ → List Job → List Job
update_at f p h = elim (get_elem? h p) [ none ↦ h | some j ↦ set h p (f j) ]

unfoldable pub update_all : (Job → Job) → List ℕ → List Job → List Job
unfolding update_at
update_all f [] h = h
update_all f (p ∷ ps) h = update_all f ps (update_at f p h)

pub get_elem?-update_at :
    (f : Job → Job) (p q : ℕ) (h : List Job)
    → get_elem? (update_at f p h) q
      ≡ (if p == q then Option.map f (get_elem? h q) else get_elem? h q)
unfolding update_at
get_elem?-update_at f p q h = elim (Option-cases (get_elem? h p)) [
  | inl gone ↦ rw (gone, update_at) (ground (arith, nat_beq_iff p q))
  | inr (j, found) ↦
      rw (found, update_at) (ground (arith, nat_beq_iff p q, get_elem?-set h p q (f j) found))
]

-- Each of the jobs is changed once, and no other.
pub get_elem?-update_all :
    (f : Job → Job) (ps : List ℕ) (q : ℕ) (h : List Job)
    → IsNodup ps
    → get_elem? (update_all f ps h) q
      ≡ (if contains q ps then Option.map f (get_elem? h q) else get_elem? h q)
unfolding update_all contains
get_elem?-update_all f [] q h n = refl
get_elem?-update_all f (p ∷ ps) q h n = ground (
  arith,
  nat_beq_iff p q,
  get_elem?-update_at f p q h,
  get_elem?-update_all f ps q (update_at f p h) n.1,
)

-- An address leads to a job with this property.
abbrev pub HasJob {ℓ} : (Job → Type ℓ) → List Job → ℕ → Type ℓ
HasJob P h p = (j : Job) × (get_elem? h p ≡ some j) × P j

-- A change to one job leaves the others with their properties.
pub HasJob-update_at {ℓ} :
    (P : Job → Type ℓ) (f : Job → Job) (p : ℕ) (ps : List ℕ) (h : List Job)
    → contains p ps ≡ false
    → All (HasJob P h) ps
    → All (HasJob P (update_at f p h)) ps
unfolding contains
HasJob-update_at P f p [] h n all = tt
HasJob-update_at P f p (q ∷ ps) h n ((j, e, prop), all) = (
  (j, ground (arith, get_elem?-update_at f p q h, nat_beq_iff p q, nat_beq_iff q p), prop),
  HasJob-update_at P f p ps h (ground arith) all,
)

module _ {ℓ} (w : World) (s : IsConsistent w) (P : Job → Type ℓ) where
  -- What holds of every registered job holds of every visited one.
  pub All-pointers :
      ((id : Text) (p : ℕ) (j : Job) → lookup id w.results ≡ some p → At w p j → P j)
      → (ids : List Text) → All (HasJob P w.heap) (pointers ids w.results)
  unfolding pointers
  All-pointers every [] = tt
  All-pointers every (id ∷ ids) = elim (Option-cases (lookup id w.results)) [
    | inl gone ↦ rw (gone, pointers) (All-pointers every ids)
    | inr (p, found) ↦
        let (j, at_p, named) = s id p found in
        rw (found, pointers) ((j, at_p, every id p j found at_p), All-pointers every ids)
  ]
