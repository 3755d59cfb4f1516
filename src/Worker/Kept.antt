-- ===== src/Worker/Kept.antt =====
-- Computations that keep the agreement of table and heap, however they end.
use web_based_jobs_worker_se.Base.{
  ℕ, ◌≡◌, refl, inl, inr, Bool, true, false, [], ◌∷◌, ◌++◌, Option, none, some, arith, text_key,
  text_eq_iff, get_elem?, get_elem?-append_old, Bool-cases, if◌then◌else◌, ◌==◌, length, ltb, ◌+◌,
}
use web_based_jobs_worker_se.GoMap.{lookup-insert}
use web_based_jobs_worker_se.Models.{RwMutex, Job}
use web_based_jobs_worker_se.Worker.{
  World, Outcome, returned, blocked, panicked, M, bind, ◌>>=◌, ◌>>◌, load, store, modify, new_job,
  put_job, enqueue, send_stop, map_lock, map_unlock, map_rlock, map_runlock, job_lock, job_unlock,
  job_rlock, job_runlock, lock_write, lock_read, unlock_write, unlock_read, block, panic, set_lock,
  set_maplock,
}
use web_based_jobs_worker_se.Worker.Cells.{At}
use web_based_jobs_worker_se.Worker.Consistent.{IsConsistent, put-IsConsistent}

-- However it ends, table and heap agree.
abbrev pub Agrees : {A : Type 0} → Outcome A → Type 0
Agrees (returned a w) = IsConsistent w
Agrees (blocked w) = IsConsistent w
Agrees (panicked w) = IsConsistent w

abbrev pub Keeps : {A : Type 0} → M A → Type 0
Keeps m = (w : World) → IsConsistent w → Agrees (m w)

pub bind-Agrees :
    {A B : Type 0} (x : Outcome A) (f : A → M B)
    → Agrees x
    → ((a : A) → Keeps (f a))
    → Agrees (bind x f)
bind-Agrees (returned a w) f h k = k a w h
bind-Agrees (blocked w) f h k = h
bind-Agrees (panicked w) f h k = h

pub bind-Keeps :
    {A B : Type 0} (m : M A) (f : A → M B) → Keeps m → ((a : A) → Keeps (f a)) → Keeps (m >>= f)
bind-Keeps m f h k w v = bind-Agrees (m w) f (h w v) k

pub then-Keeps : {B : Type 0} (m : M (Unit {0})) (k : M B) → Keeps m → Keeps k → Keeps (m >> k)
then-Keeps m k h h' w v = bind-Agrees (m w) (λ _. k) (h w v) (λ _. h')

pub if-Agrees :
    {A : Type 0} (b : Bool) (x y : Outcome A) → Agrees x → Agrees y → Agrees (if b then x else y)
if-Agrees true x y h k = h
if-Agrees false x y h k = k

pub branch-Agrees :
    {A : Type 0} (b : Bool) (x y : M A) (w : World)
    → Agrees (x w)
    → Agrees (y w)
    → Agrees ((if b then x else y) w)
branch-Agrees true x y w h k = h
branch-Agrees false x y w h k = k

pub if-Keeps : {A : Type 0} (b : Bool) (x y : M A) → Keeps x → Keeps y → Keeps (if b then x else y)
if-Keeps true x y h k = h
if-Keeps false x y h k = k

pub either-Keeps :
    {A B : Type 0} (o : Option A) (x : M B) (f : A → M B)
    → Keeps x
    → ((a : A) → Keeps (f a))
    → Keeps (elim o [ none ↦ x | some a ↦ f a ])
either-Keeps none x f h k = h
either-Keeps (some a) x f h k = k a

-- What is read through a pointer is there.
pub load-Keeps :
    {A : Type 0} (p : ℕ) (f : Job → M A)
    → ((j : Job) (w : World) → IsConsistent w → At w p j → Agrees (f j w))
    → Keeps (load p >>= f)
unfolding load
load-Keeps p f k w v = loaded (get_elem? w.heap p) refl
  where
    loaded :
        (o : Option Job)
        → get_elem? w.heap p ≡ o
        → Agrees (bind (elim o [ none ↦ panicked w | some j ↦ returned j w ]) f)
    loaded none e = v
    loaded (some j) e = k j w v e

pub store-Agrees :
    (p : ℕ) (j k : Job) (w : World) → IsConsistent w → At w p j → k.id ≡ j.id → Agrees (store p k w)
unfolding store
store-Agrees p j k w v there same = put-IsConsistent w p j k v there same

pub modify-Keeps : (p : ℕ) (f : Job → Job) → ((j : Job) → (f j).id ≡ j.id) → Keeps (modify p f)
unfolding modify
modify-Keeps p f same =
    load-Keeps p (λ j. store p (f j)) (λ j w v there. store-Agrees p j (f j) w v there (same j))

-- What a lock of a job becomes, if the caller need not wait.
set_lock-Agrees :
    (l : Option RwMutex) (p : ℕ) (j : Job) (otherwise : M (Unit {0})) (w : World)
    → Keeps otherwise
    → IsConsistent w
    → At w p j
    → Agrees (set_lock l p j otherwise w)
set_lock-Agrees none p j otherwise w k v there = k w v
set_lock-Agrees (some l) p j otherwise w k v there =
    store-Agrees p j (record j { lock = l }) w v there refl

set_maplock-Keeps :
    (l : Option RwMutex) (otherwise : M (Unit {0}))
    → Keeps otherwise
    → Keeps (set_maplock l otherwise)
set_maplock-Keeps none otherwise k w v = k w v
set_maplock-Keeps (some l) otherwise k w v = v

pub job_lock-Keeps : (p : ℕ) → Keeps (job_lock p)
unfolding job_lock
job_lock-Keeps p =
    load-Keeps p _
      (λ j w v there. set_lock-Agrees (lock_write j.lock) p j block w (λ w v. v) v there)

pub job_unlock-Keeps : (p : ℕ) → Keeps (job_unlock p)
unfolding job_unlock
job_unlock-Keeps p =
    load-Keeps p _
      (λ j w v there. set_lock-Agrees (unlock_write j.lock) p j panic w (λ w v. v) v there)

pub job_rlock-Keeps : (p : ℕ) → Keeps (job_rlock p)
unfolding job_rlock
job_rlock-Keeps p =
    load-Keeps p _
      (λ j w v there. set_lock-Agrees (lock_read j.lock) p j block w (λ w v. v) v there)

pub job_runlock-Keeps : (p : ℕ) → Keeps (job_runlock p)
unfolding job_runlock
job_runlock-Keeps p =
    load-Keeps p _
      (λ j w v there. set_lock-Agrees (unlock_read j.lock) p j panic w (λ w v. v) v there)

pub map_lock-Keeps : Keeps map_lock
unfolding map_lock
map_lock-Keeps w v = set_maplock-Keeps (lock_write w.maplock) block (λ w v. v) w v

pub map_unlock-Keeps : Keeps map_unlock
unfolding map_unlock
map_unlock-Keeps w v = set_maplock-Keeps (unlock_write w.maplock) panic (λ w v. v) w v

pub map_rlock-Keeps : Keeps map_rlock
unfolding map_rlock
map_rlock-Keeps w v = set_maplock-Keeps (lock_read w.maplock) block (λ w v. v) w v

pub map_runlock-Keeps : Keeps map_runlock
unfolding map_runlock
map_runlock-Keeps w v = set_maplock-Keeps (unlock_read w.maplock) panic (λ w v. v) w v

pub enqueue-Keeps : (p : ℕ) → Keeps (enqueue p)
unfolding enqueue
enqueue-Keeps p w v =
    if-Agrees (ltb (length w.queue) w.capacity)
      (returned tt (record w { queue = w.queue ++ p ∷ [] })) (blocked w) v v

pub send_stop-Keeps : (p : ℕ) → Keeps (send_stop p)
unfolding send_stop
send_stop-Keeps p = load-Keeps p _ (λ j w v there.
    branch-Agrees (ltb j.stop 1) (store p (record j { stop = j.stop + 1 })) block w
      (store-Agrees p j (record j { stop = j.stop + 1 }) w v there refl) v)

pub new_job-Keeps : (j : Job) → Keeps (new_job j)
unfolding new_job
new_job-Keeps j w v id p found =
    let (i, there, named) = v id p found in (i, get_elem?-append_old w.heap (j ∷ []) p there, named)

-- A job is registered under its own id.
pub put_job-Agrees :
    (p : ℕ) (j : Job) (w : World) → IsConsistent w → At w p j → Agrees (put_job j.id p w)
unfolding put_job
put_job-Agrees p j w v there id q found = elim (Bool-cases (j.id == id)) [
  | inl same ↦ (
    j,
    ground (arith, lookup-insert j.id id p w.results, same, found, there),
    (text_eq_iff j.id id).0 same,
  )
  | inr other ↦ v id q (ground (arith, lookup-insert j.id id p w.results, other, found))
]
