-- ===== src/Service/PidFile.antt =====
-- The pid file: what `savePID` leaves there, and what `getPID` makes of it.
use web_based_jobs_worker_se.Base.{
  ℕ, ◌<◌, ◌^◌, ◌≡◌, refl, true, false, [], none, some, arith, text_eq_refl, pos,
}
use web_based_jobs_worker_se.Config.{Configuration}
use web_based_jobs_worker_se.Strconv.{itoa}
use web_based_jobs_worker_se.Strconv.Decimal.{atoi-itoa}
use web_based_jobs_worker_se.Host.{
  missing, file, not_exist, failed, Machine, put_entry, next, content,
}
use web_based_jobs_worker_se.Service.{save_pid, got, no_pid, get_pid, parse_pid}

parse_pid-itoa : (n : ℕ) → n < 2 ^ 63 → parse_pid (content (itoa n)) ≡ got (pos n)
unfolding parse_pid
parse_pid-itoa n small = rw (atoi-itoa n small, parse_pid) refl

module _ (c : Configuration) (m : Machine) where
  pub get_pid_missing :
      m.entry c.worker_pid_file_path ≡ missing → get_pid c m ≡ next (no_pid not_exist) m
  unfolding get_pid
  get_pid_missing h = rw h refl

  pub get_pid_found :
      (n : ℕ)
      → n < 2 ^ 63
      → m.entry c.worker_pid_file_path ≡ file (itoa n)
      → get_pid c m ≡ next (got (pos n)) m
  unfolding get_pid
  get_pid_found n small h = ground (arith, parse_pid-itoa n small)

  -- The machine once the pid is on the disk.
  abbrev pub saved : ℕ → Machine
  saved n =
      put_entry c.worker_pid_file_path (file (itoa n))
        (put_entry c.worker_pid_file_path (file []) m)

  pub saved-entry : (n : ℕ) → (saved n).entry c.worker_pid_file_path ≡ file (itoa n)
  saved-entry n = rw (text_eq_refl c.worker_pid_file_path) refl

  pub save_pid_writes :
      (n : ℕ)
      → m.entry c.worker_pid_file_path ≡ missing
      → m.writable c.worker_pid_file_path ≡ true
      → m.has_space ≡ true
      → save_pid c n m ≡ next none (saved n)
  unfolding save_pid
  save_pid_writes n h w s = ground arith

  pub save_pid_refused :
      (n : ℕ)
      → m.entry c.worker_pid_file_path ≡ missing
      → m.writable c.worker_pid_file_path ≡ false
      → save_pid c n m ≡ next (some failed) m
  unfolding save_pid
  save_pid_refused n h w = ground arith
