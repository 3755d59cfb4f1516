-- ===== src/Worker/Cells.antt =====
-- The cells of the heap under the operations on one job: each rewrites a call to its result.
use web_based_jobs_worker_se.Base.{
  ℕ, ◌<◌, ◌≡◌, ap, some, arith, get_elem?, get_elem?-set_self, set-set,
}
use web_based_jobs_worker_se.Models.{unlocked, writing, reading, Job}
use web_based_jobs_worker_se.Worker.{
  World, returned, blocked, load, put, modify, job_lock, job_unlock, send_stop, map_lock, map_rlock,
}

-- The job that an address leads to.
abbrev pub At : World → ℕ → Job → Type 0
At w p j = get_elem? w.heap p ≡ some j

pub put-put : (p : ℕ) (j k : Job) (w : World) → put p k (put p j w) ≡ put p k w
put-put p j k w = ap (λ h. record w { heap = h }) (set-set w.heap p j k)

pub put-At : (p : ℕ) (k : Job) {j : Job} (w : World) → At w p j → At (put p k w) p k
put-At p k w h = get_elem?-set_self w.heap p k h

module _ (p : ℕ) (j : Job) (w : World) (h : At w p j) where
  pub load_lem : load p w ≡ returned j w
  unfolding load
  load_lem = ground arith

  pub modify_lem : (f : Job → Job) → modify p f w ≡ returned tt (put p (f j) w)
  unfolding modify
  modify_lem f = ground arith

  pub job_lock_lem :
      j.lock ≡ unlocked → job_lock p w ≡ returned tt (put p (record j { lock = writing }) w)
  unfolding job_lock
  job_lock_lem free = ground arith

  -- A lock that somebody holds makes the caller wait.
  pub job_lock_held : j.lock ≡ writing → job_lock p w ≡ blocked w
  unfolding job_lock
  job_lock_held held = ground arith

  pub job_unlock_lem :
      j.lock ≡ writing → job_unlock p w ≡ returned tt (put p (record j { lock = unlocked }) w)
  unfolding job_unlock
  job_unlock_lem held = ground arith

  pub send_stop_lem : j.stop ≡ 0 → send_stop p w ≡ returned tt (put p (record j { stop = 1 }) w)
  unfolding send_stop
  send_stop_lem e = ground arith

  pub send_stop_full : 0 < j.stop → send_stop p w ≡ blocked w
  unfolding send_stop
  send_stop_full e = ground arith

module _ (w : World) where
  pub map_lock_lem :
      w.maplock ≡ unlocked → map_lock w ≡ returned tt (record w { maplock = writing })
  unfolding map_lock
  map_lock_lem free = ground arith

  pub map_rlock_lem :
      w.maplock ≡ unlocked → map_rlock w ≡ returned tt (record w { maplock = reading 0 })
  unfolding map_rlock
  map_rlock_lem free = ground arith

  -- While a handler that panicked holds the table, every other handler waits.
  pub map_lock_held : w.maplock ≡ writing → (map_lock w ≡ blocked w) × (map_rlock w ≡ blocked w)
  unfolding map_lock map_rlock
  map_lock_held held = (ground arith, ground arith)
