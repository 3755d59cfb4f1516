-- ===== src/Worker.antt =====
-- The state that all goroutines share (worker.go): the table of submitted jobs with its lock, the
-- buffered queue of jobs, and the jobs themselves, which table and queue hold by pointer. A
-- handler runs as a computation over that state with no other goroutine taking steps: it returns,
-- or blocks on a lock or a full channel, or panics.
pub mod Cells
pub mod Consistent
pub mod Kept
pub mod Lookup
use web_based_jobs_worker_se.Base.{
  ℕ, zero, suc, ◌+◌, List, [], ◌∷◌, ◌++◌, Option, none, some, Text, text_key, length, get_elem?,
  set, ltb, if◌then◌else◌,
}
use web_based_jobs_worker_se.GoMap.{lookup, insert}
use web_based_jobs_worker_se.Models.{RwMutex, unlocked, reading, writing, Job}

pub record World : Type 0 where
  pub maplock : RwMutex
  pub heap : List Job  -- a pointer is a position in this list
  pub results : List (Text × ℕ)  -- globalJobsResults
  pub queue : List ℕ  -- globalJobsQueue, oldest first
  pub capacity : ℕ  -- of the queue

pub data Outcome (A : Type 0) : Type 0 where
  returned : A → World → Outcome A
  blocked : World → Outcome A
  panicked : World → Outcome A

abbrev pub M : Type 0 → Type 0
M A = World → Outcome A

abbrev pub pure : {A : Type 0} → A → M A
pure a w = returned a w

abbrev pub block : {A : Type 0} → M A
block w = blocked w

abbrev pub panic : {A : Type 0} → M A
panic w = panicked w

abbrev pub bind : {A B : Type 0} → Outcome A → (A → M B) → Outcome B
bind (returned a w) f = f a w
bind (blocked w) f = blocked w
bind (panicked w) f = panicked w

infixl 5 ◌>>=◌ ◌>>◌
abbrev pub ◌>>=◌ : {A B : Type 0} → M A → (A → M B) → M B
◌>>=◌ m f w = bind (m w) f

abbrev pub ◌>>◌ : {B : Type 0} → M (Unit {0}) → M B → M B
m >> k = m >>= λ _. k

-- What a lock becomes; `none` where the caller has to wait.
abbrev pub lock_write : RwMutex → Option RwMutex
lock_write unlocked = some writing
lock_write (reading n) = none
lock_write writing = none

abbrev pub lock_read : RwMutex → Option RwMutex
lock_read unlocked = some (reading 0)
lock_read (reading n) = some (reading (suc n))
lock_read writing = none

-- `none` where Go stops the program with a fatal error.
abbrev pub unlock_write : RwMutex → Option RwMutex
unlock_write unlocked = none
unlock_write (reading n) = none
unlock_write writing = some unlocked

abbrev pub unlock_read : RwMutex → Option RwMutex
unlock_read unlocked = none
unlock_read (reading zero) = some unlocked
unlock_read (reading (suc n)) = some (reading n)
unlock_read writing = none

abbrev pub set_maplock : Option RwMutex → M (Unit {0}) → M (Unit {0})
set_maplock none otherwise w = otherwise w
set_maplock (some l) otherwise w = returned tt (record w { maplock = l })

unfoldable pub map_lock : M (Unit {0})
map_lock w = set_maplock (lock_write w.maplock) block w

unfoldable pub map_unlock : M (Unit {0})
map_unlock w = set_maplock (unlock_write w.maplock) panic w

unfoldable pub map_rlock : M (Unit {0})
map_rlock w = set_maplock (lock_read w.maplock) block w

unfoldable pub map_runlock : M (Unit {0})
map_runlock w = set_maplock (unlock_read w.maplock) panic w

-- Reading through a pointer; an address that was never allocated is a nil pointer.
unfoldable pub load : ℕ → M Job
load p w = elim (get_elem? w.heap p) [ none ↦ panicked w | some j ↦ returned j w ]

-- The worker with another job in a cell.
abbrev pub put : ℕ → Job → World → World
put p j w = record w { heap = set w.heap p j }

unfoldable pub store : ℕ → Job → M (Unit {0})
store p j w = returned tt (put p j w)

-- `&Job{…}`.
unfoldable pub new_job : Job → M ℕ
new_job j w = returned (length w.heap) (record w { heap = w.heap ++ j ∷ [] })

abbrev pub set_lock : Option RwMutex → ℕ → Job → M (Unit {0}) → M (Unit {0})
set_lock none p j otherwise = otherwise
set_lock (some l) p j otherwise = store p (record j { lock = l })

unfoldable pub job_lock : ℕ → M (Unit {0})
unfolding load store
job_lock p = do j ← load p; set_lock (lock_write j.lock) p j block

unfoldable pub job_unlock : ℕ → M (Unit {0})
unfolding load store
job_unlock p = do j ← load p; set_lock (unlock_write j.lock) p j panic

unfoldable pub job_rlock : ℕ → M (Unit {0})
unfolding load store
job_rlock p = do j ← load p; set_lock (lock_read j.lock) p j block

unfoldable pub job_runlock : ℕ → M (Unit {0})
unfolding load store
job_runlock p = do j ← load p; set_lock (unlock_read j.lock) p j panic

-- Assignments to fields of a job.
unfoldable pub modify : ℕ → (Job → Job) → M (Unit {0})
unfolding load store
modify p f = do j ← load p; store p (f j)

-- `globalJobsResults[id]`.
unfoldable pub find_job : Text → M (Option ℕ)
find_job id w = returned (lookup id w.results) w

-- `globalJobsResults[id] = job`.
unfoldable pub put_job : Text → ℕ → M (Unit {0})
put_job id p w = returned tt (record w { results = insert id p w.results })

-- `globalJobsQueue <- job`.
unfoldable pub enqueue : ℕ → M (Unit {0})
enqueue p w =
    if ltb (length w.queue) w.capacity
    then returned tt (record w { queue = w.queue ++ p ∷ [] })
    else blocked w

-- `job.stop <- struct{}{}`.
unfoldable pub send_stop : ℕ → M (Unit {0})
unfolding load store
send_stop p = do
  j ← load p
  if ltb j.stop 1 then store p (record j { stop = j.stop + 1 }) else block
