-- ===== src/Service/Single.antt =====
-- One worker: the pid file and the processes, and starting the service.
use web_based_jobs_worker_se.Base.{
  ℕ, ◌<◌, ◌^◌, ◌≡◌, inl, inr, refl, ap, true, false, none, some, arith, Text, text_eq, ℤ, pos, ◌&&◌,
  if◌then◌else◌, Bool-cases,
}
use web_based_jobs_worker_se.Config.{Configuration}
use web_based_jobs_worker_se.Strconv.{itoa}
use web_based_jobs_worker_se.Host.{
  missing, file, Proc, absent, running, Machine, Step, next, exited, panicked, bind, S, opens,
}
use web_based_jobs_worker_se.Service.{
  put_proc, eqb_ℤ, start_worker_service, spawn, keep_or_kill, kill_process, Spawn,
}
use web_based_jobs_worker_se.Service.PidFile.{saved-entry, save_pid_writes, save_pid_refused}

-- The command comes to its end, and this holds then.
abbrev pub Ends : {A : Type 0} → (Machine → Type 0) → Step A → Type 0
Ends P (next a m) = P m
Ends P (exited code m) = ⊥
Ends P (panicked m) = ⊥

pub bind-Ends :
    {A B : Type 0} (P : Machine → Type 0) (x : Step A) (f : A → S B)
    → Ends P x
    → ((a : A) (m : Machine) → P m → Ends P (f a m))
    → Ends P (bind x f)
bind-Ends P (next a m) f h k = k a m h
bind-Ends P (exited code m) f h k = h
bind-Ends P (panicked m) f h k = h

module _ (c : Configuration) (others : ℤ → Proc) where
  abbrev pid_path : Text
  pid_path = c.worker_pid_file_path

  -- The pid file can be removed and there is room on the disk. Either there is no pid file, and no
  -- process runs but the others; or the pid file names a running process, and apart from it none
  -- runs but the others.
  pub data IsSingle (m : Machine) : Type 0 where
    nobody :
        m.removable pid_path ≡ true
        → m.has_space ≡ true
        → m.entry pid_path ≡ missing
        → ((q : ℤ) → m.procs q ≡ others q)
        → IsSingle m
    somebody :
        (n : ℕ)
        → m.removable pid_path ≡ true
        → m.has_space ≡ true
        → 0 < n
        → n < 2 ^ 63
        → m.entry pid_path ≡ file (itoa n)
        → others (pos n) ≡ absent
        → ((q : ℤ) → m.procs q ≡ (if eqb_ℤ (pos n) q then running else others q))
        → IsSingle m

  -- The pid that the system gives a new process.
  abbrev pub IsFresh : Spawn → Type 0
  IsFresh none = Unit
  IsFresh (some n) = (0 < n) × (n < 2 ^ 63) × (others (pos n) ≡ absent)

  pub kill_running :
      (n : ℕ) (m : Machine)
      → 0 < n
      → m.procs (pos n) ≡ running
      → kill_process (pos n) m ≡ next none (put_proc (pos n) absent m)
  unfolding kill_process
  kill_running n m h r = ground arith

  module _ (apart : text_eq c.worker_log_file_path c.worker_pid_file_path ≡ false) where
    keep_or_kill-IsSingle :
        (n : ℕ) (m : Machine)
        → m.removable pid_path ≡ true
        → m.has_space ≡ true
        → m.entry pid_path ≡ missing
        → 0 < n
        → n < 2 ^ 63
        → others (pos n) ≡ absent
        → ((q : ℤ) → m.procs q ≡ others q)
        → Ends IsSingle (keep_or_kill c n (put_proc (pos n) running m))
    unfolding keep_or_kill
    keep_or_kill-IsSingle n m r s e lo hi o h = elim (Bool-cases (m.writable pid_path)) [
      | inl able ↦ rw (save_pid_writes c (put_proc (pos n) running m) n e able s) (
          somebody n r s lo hi (saved-entry c (put_proc (pos n) running m) n) o
            (λ q. ap (λ x. if eqb_ℤ (pos n) q then running else x) (h q)))
      | inr unable ↦ rw (save_pid_refused c (put_proc (pos n) running m) n e unable) (
          rw (kill_running n (put_proc (pos n) running m) lo (ground arith))
            (nobody r s e (λ q. ground (arith, h q, o))))
    ]

    spawn-IsSingle :
        (child : Spawn) (m : Machine)
        → IsFresh child
        → m.removable pid_path ≡ true
        → m.has_space ≡ true
        → m.entry pid_path ≡ missing
        → ((q : ℤ) → m.procs q ≡ others q)
        → Ends IsSingle (spawn c child m)
    unfolding spawn
    spawn-IsSingle none m f r s e h = nobody r s e h
    spawn-IsSingle (some n) m (lo, hi, o) r s e h = keep_or_kill-IsSingle n m r s e lo hi o h

    -- Starting where there is no pid file.
    pub start_missing-IsSingle :
        (child : Spawn) (m : Machine)
        → IsFresh child
        → m.removable pid_path ≡ true
        → m.has_space ≡ true
        → m.entry pid_path ≡ missing
        → ((q : ℤ) → m.procs q ≡ others q)
        → Ends IsSingle (start_worker_service c child m)
    unfolding start_worker_service
    start_missing-IsSingle child m f r s e h =
        elim (Bool-cases
          (opens (m.entry c.worker_log_file_path) && m.writable c.worker_log_file_path)) [
            | inl able ↦ rw e (rw able (spawn-IsSingle child _ f r s (rw apart e) h))
            | inr unable ↦ rw e (rw unable (nobody r s e h))
          ]

    pub start_found :
        (child : Spawn) (m : Machine) (n : ℕ)
        → m.entry pid_path ≡ file (itoa n)
        → start_worker_service c child m ≡ next none m
    unfolding start_worker_service
    start_found child m n e = rw e refl

    pub start-IsSingle :
        (child : Spawn) (m : Machine)
        → IsFresh child
        → IsSingle m
        → Ends IsSingle (start_worker_service c child m)
    start-IsSingle child m f (nobody r s e h) = start_missing-IsSingle child m f r s e h
    start-IsSingle child m f (somebody n r s lo hi e o h) =
        rw (start_found child m n e) (somebody n r s lo hi e o h)
