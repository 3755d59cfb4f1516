-- ===== src/Startup/Tidy.antt =====
-- Whatever ends the start of a worker removes the pid file.
use web_based_jobs_worker_se.Base.{
  ℕ, ◌≡◌, Bool, true, false, ◌&&◌, Option, none, some, arith, Text, text_eq_refl, if◌then◌else◌,
  Bool-cases, inl, inr,
}
use web_based_jobs_worker_se.Config.{Configuration}
use web_based_jobs_worker_se.Host.{
  Entry, missing, folder, hidden, unreadable, file, Machine, Step, next, exited, panicked, S, bind,
  opens, open_append, write_file, create, write_string, create_folder,
}
use web_based_jobs_worker_se.Host.Folders.{made, create_folder_lem}
use web_based_jobs_worker_se.Logging.{Logger, new_logger, stop_with, open_log}
use web_based_jobs_worker_se.Security.{require, save_or_stop}

module _ (c : Configuration) where
  -- The pid file can still be removed, or the program has ended and it is gone.
  abbrev pub Removable : Machine → Type 0
  Removable m = m.removable c.worker_pid_file_path ≡ true

  abbrev pub IsTidy : {A : Type 0} → Step A → Type 0
  IsTidy (next a m) = Removable m
  IsTidy (panicked m) = Removable m
  IsTidy (exited code m) = m.entry c.worker_pid_file_path ≡ missing

  pub bind-IsTidy :
      {A B : Type 0} (x : Step A) (f : A → S B)
      → IsTidy x
      → ((a : A) (m : Machine) → Removable m → IsTidy (f a m))
      → IsTidy (bind x f)
  bind-IsTidy (next a m) f h k = k a m h
  bind-IsTidy (exited code m) f h k = h
  bind-IsTidy (panicked m) f h k = h

  -- Both branches on an error.
  pub on_error :
      {A B : Type 0} (o : Option A) (fine : S B) (bad : A → S B)
      → ((m : Machine) → Removable m → IsTidy (fine m))
      → ((a : A) (m : Machine) → Removable m → IsTidy (bad a m))
      → (m : Machine) → Removable m
      → IsTidy (let s : S B = elim o [ none ↦ fine | some a ↦ bad a ] in s m)
  on_error none fine bad h k m r = h m r
  on_error (some a) fine bad h k m r = k a m r

  -- Both branches of a test.
  pub if-IsTidy :
      {A : Type 0} (b : Bool) (x y : S A)
      → ((m : Machine) → Removable m → IsTidy (x m))
      → ((m : Machine) → Removable m → IsTidy (y m))
      → (m : Machine) → Removable m
      → IsTidy ((if b then x else y) m)
  if-IsTidy true x y h k m r = h m r
  if-IsTidy false x y h k m r = k m r

  pub stop_with-IsTidy :
      (A : Type 0) (code : ℕ) (m : Machine) → Removable m → IsTidy {A = A} (stop_with c code m)
  unfolding stop_with
  stop_with-IsTidy A code m r = ground (arith, text_eq_refl c.worker_pid_file_path)

  pub open_append-IsTidy : (path : Text) (m : Machine) → Removable m → IsTidy (open_append path m)
  unfolding open_append
  open_append-IsTidy path m r = elim (Bool-cases (opens (m.entry path) && m.writable path)) [
    | inl able ↦ rw able r
    | inr unable ↦ rw unable r
  ]

  made-IsTidy :
      (e : Entry) (able : Bool) (path : Text) (m : Machine)
      → Removable m
      → IsTidy (made e able path m)
  made-IsTidy missing true path m r = r
  made-IsTidy missing false path m r = r
  made-IsTidy folder able path m r = r
  made-IsTidy hidden able path m r = r
  made-IsTidy unreadable able path m r = r
  made-IsTidy (file s) able path m r = r

  pub create_folder-IsTidy :
      (path : Text) (m : Machine) → Removable m → IsTidy (create_folder path m)
  create_folder-IsTidy path m r =
      rw (create_folder_lem path m) (made-IsTidy (m.entry path) (m.writable path) path m r)

  create-IsTidy : (path : Text) (m : Machine) → Removable m → IsTidy (create path m)
  unfolding create
  create-IsTidy path m r = elim (Bool-cases (opens (m.entry path) && m.writable path)) [
    | inl able ↦ rw able r
    | inr unable ↦ rw unable r
  ]

  write_string-IsTidy : (path s : Text) (m : Machine) → Removable m → IsTidy (write_string path s m)
  unfolding write_string
  write_string-IsTidy path s m r = elim (Bool-cases m.has_space) [
    | inl room ↦ rw room r
    | inr full ↦ rw full r
  ]

  pub write_file-IsTidy : (path s : Text) (m : Machine) → Removable m → IsTidy (write_file path s m)
  unfolding write_file
  write_file-IsTidy path s m r = bind-IsTidy (create path m) _ (create-IsTidy path m r) (λ err.
      on_error err (write_string path s) (λ e m. next (some e) m) (write_string-IsTidy path s)
        (λ e m r. r))

  pub open_log-IsTidy : (path : Text) (m : Machine) → Removable m → IsTidy (open_log c path m)
  unfolding open_log
  open_log-IsTidy path m r =
      bind-IsTidy (open_append path m) _ (open_append-IsTidy path m r) (λ err.
        on_error err (λ m. next (new_logger c path) m) (λ _ m. stop_with c 1 m) (λ m r. r)
          (λ _. stop_with-IsTidy Logger 1))

  pub save_or_stop-IsTidy :
      (path s : Text) (m : Machine) → Removable m → IsTidy (save_or_stop c path s m)
  unfolding save_or_stop
  save_or_stop-IsTidy path s m r =
      bind-IsTidy (write_file path s m) _ (write_file-IsTidy path s m r) (λ err.
        on_error err (λ m. next tt m) (λ _ m. stop_with c 1 m) (λ m r. r)
          (λ _. stop_with-IsTidy (Unit {0}) 1))

  pub require-IsTidy :
      {A : Type 0} (code : ℕ) (o : Option A) (m : Machine)
      → Removable m
      → IsTidy (require c code o m)
  unfolding require
  require-IsTidy {A} code none m r = stop_with-IsTidy A code m r
  require-IsTidy code (some a) m r = r
