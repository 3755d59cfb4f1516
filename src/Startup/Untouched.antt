-- ===== src/Startup/Untouched.antt =====
-- A file that neither the settings nor the loggers of a starting service change.
use web_based_jobs_worker_se.Base.{
  ℕ, ◌≡◌, refl, Bool, true, false, ◌&&◌, Option, none, some, arith, Text, text_key, text_eq,
  text_eq_iff, ℤ, pos, negsuc, if◌then◌else◌, Bool-cases, inl, inr,
}
use web_based_jobs_worker_se.Config.{Configuration}
use web_based_jobs_worker_se.Worker.{World}
use web_based_jobs_worker_se.Host.{
  Entry, missing, folder, hidden, unreadable, file, Machine, Step, next, exited, panicked, S, bind,
  opens, open_append, mkdir, mkdir_all, create_folder, stat_is_dir, kept,
}
use web_based_jobs_worker_se.Host.Folders.{made, create_folder_lem}
use web_based_jobs_worker_se.Settings.{
  Surroundings, initialize_worker_settings, make_folders, located, with_queue, make_queue,
  empty_world,
}
use web_based_jobs_worker_se.Logging.{
  open_log, prepare_log_folder, make_log_folder, check_log_folder, setup_loggers, Logger, stop_with,
}

module _ (path : Text) (s : Text) where
  -- If the step goes on, the file is there with this content.
  abbrev pub Has : {A : Type 0} → Step A → Type 0
  Has (next a m) = m.entry path ≡ file s
  Has (exited code m) = Unit
  Has (panicked m) = Unit

  bind-Has :
      {A B : Type 0} (x : Step A) (f : A → S B)
      → Has x
      → ((a : A) (m : Machine) → m.entry path ≡ file s → Has (f a m))
      → Has (bind x f)
  bind-Has (next a m) f h k = k a m h
  bind-Has (exited code m) f h k = tt
  bind-Has (panicked m) f h k = tt

  error-Has :
      {A B : Type 0} (o : Option A) (fine : S B) (bad : A → S B)
      → ((m : Machine) → m.entry path ≡ file s → Has (fine m))
      → ((a : A) (m : Machine) → m.entry path ≡ file s → Has (bad a m))
      → (m : Machine) → m.entry path ≡ file s
      → Has (let k : S B = elim o [ none ↦ fine | some a ↦ bad a ] in k m)
  error-Has none fine bad h k m r = h m r
  error-Has (some a) fine bad h k m r = k a m r

  stop_with-Has :
      (A : Type 0) (c : Configuration) (code : ℕ) (m : Machine) → Has {A = A} (stop_with c code m)
  unfolding stop_with
  stop_with-Has A c code m = tt

  open_append-Has : (q : Text) (m : Machine) → m.entry path ≡ file s → Has (open_append q m)
  unfolding open_append
  open_append-Has q m h = elim (Bool-cases (opens (m.entry q) && m.writable q)) [
    | inl able ↦ rw able (kept_there q m h)
    | inr unable ↦ rw unable h
  ]
    where
      kept_there :
          (q : Text) (m : Machine)
          → m.entry path ≡ file s
          → (if text_eq q path then kept (m.entry q) else m.entry path) ≡ file s
      kept_there q m h = ground (arith, text_eq_iff q path)

  open_log-Has :
      (c : Configuration) (q : Text) (m : Machine) → m.entry path ≡ file s → Has (open_log c q m)
  unfolding open_log
  open_log-Has c q m h = bind-Has (open_append q m) _ (open_append-Has q m h) (λ err.
      error-Has err _ (λ _ m. stop_with c 1 m) (λ m h. h) (λ _ m h. stop_with-Has Logger c 1 m))

  mkdir-Has :
      (e : Entry) (able : Bool) (q : Text) (m : Machine)
      → m.entry q ≡ e
      → m.entry path ≡ file s
      → Has (mkdir e able q m)
  mkdir-Has missing true q m k h = ground (arith, text_eq_iff q path)
  mkdir-Has missing false q m k h = h
  mkdir-Has folder able q m k h = h
  mkdir-Has hidden able q m k h = h
  mkdir-Has unreadable able q m k h = h
  mkdir-Has (file t) able q m k h = h

  if-Has :
      {A : Type 0} (b : Bool) (x y : S A) (m : Machine)
      → Has (x m)
      → Has (y m)
      → Has ((if b then x else y) m)
  if-Has true x y m h k = h
  if-Has false x y m h k = k

  check_log_folder-Has :
      (c : Configuration) (q : Text) (m : Machine)
      → m.entry path ≡ file s
      → Has (check_log_folder c q m)
  unfolding check_log_folder stat_is_dir
  check_log_folder-Has c q m h =
      if-Has _ (λ m. next tt m) (stop_with c 0) m h (stop_with-Has (Unit {0}) c 0 m)

  prepare_log_folder-Has :
      (c : Configuration) (q : Text) (m : Machine)
      → m.entry path ≡ file s
      → Has (prepare_log_folder c q m)
  unfolding prepare_log_folder make_log_folder mkdir_all
  prepare_log_folder-Has c q m h = by_entry (m.entry q) refl
    where
      by_entry : (e : Entry) → m.entry q ≡ e → Has (prepare_log_folder c q m)
      by_entry missing k = rw k (
          bind-Has (mkdir_all q m) _ (mkdir-Has (m.entry q) (m.writable q) q m refl h) (λ err.
            error-Has err _ (λ _ m. stop_with c 1 m) (λ m h. h)
              (λ _ m h. stop_with-Has (Unit {0}) c 1 m)))
      by_entry hidden k = rw k tt
      by_entry folder k = rw k (check_log_folder-Has c q m h)
      by_entry unreadable k = rw k (check_log_folder-Has c q m h)
      by_entry (file t) k = rw k (check_log_folder-Has c q m h)

  pub setup_loggers-Has :
      (c : Configuration) (day : Text) (m : Machine)
      → m.entry path ≡ file s
      → Has (setup_loggers c day m)
  unfolding setup_loggers
  setup_loggers-Has c day m h =
      bind-Has (prepare_log_folder c _ m) _ (prepare_log_folder-Has c _ m h) (λ _ m h.
        bind-Has (open_log c _ m) _ (open_log-Has c _ m h) (λ _ m h.
          bind-Has (open_log c _ m) _ (open_log-Has c _ m h) (λ _ m h.
            bind-Has (open_log c _ m) _ (open_log-Has c _ m h)
              (λ _ m h. bind-Has (open_log c _ m) _ (open_log-Has c _ m h) (λ _ m h. h)))))

  made-Has :
      (e : Entry) (able : Bool) (q : Text) (m : Machine)
      → m.entry q ≡ e
      → m.entry path ≡ file s
      → Has (made e able q m)
  made-Has missing true q m k h = ground (arith, text_eq_iff q path)
  made-Has missing false q m k h = h
  made-Has folder able q m k h = h
  made-Has hidden able q m k h = h
  made-Has unreadable able q m k h = h
  made-Has (file t) able q m k h = h

  create_folder-Has : (q : Text) (m : Machine) → m.entry path ≡ file s → Has (create_folder q m)
  create_folder-Has q m h =
      rw (create_folder_lem q m) (made-Has (m.entry q) (m.writable q) q m refl h)

  make_folders-Has :
      (c : Configuration) (m : Machine) → m.entry path ≡ file s → Has (make_folders c m)
  unfolding make_folders
  make_folders-Has c m h = bind-Has (create_folder _ m) _ (create_folder-Has _ m h) (λ err.
      error-Has err _ (λ _ m. next false m)
        (λ m h.
          bind-Has (create_folder _ m) _ (create_folder-Has _ m h)
            (λ err. error-Has err (λ m. next true m) (λ _ m. next false m) (λ m h. h) (λ _ m h. h)))
        (λ _ m h. h))

  located-Has :
      (c : Configuration) (e : Surroundings) (w : World) (m : Machine)
      → m.entry path ≡ file s
      → Has (located c e w m)
  unfolding located
  located-Has c e w m h = elim (Bool-cases (e.zone_known c.default_jobs_infos_timezone)) [
    | inl known ↦ rw known h
    | inr unknown ↦ rw unknown h
  ]

  with_queue-Has :
      (c : Configuration) (e : Surroundings) (n : ℕ) (m : Machine)
      → m.entry path ≡ file s
      → Has (with_queue c e n m)
  unfolding with_queue
  with_queue-Has c e n m h =
      bind-Has ((if e.template_parses then make_folders c else (λ m. next false m)) m) _
        (if-Has e.template_parses (make_folders c) (λ m. next false m) m (make_folders-Has c m h) h)
        (λ made m h.
          if-Has made (located c e (empty_world n)) (λ m. next none m) m (located-Has c e _ m h) h)

  pub initialize-Has :
      (c : Configuration) (e : Surroundings) (m : Machine)
      → m.entry path ≡ file s
      → Has (initialize_worker_settings c e m)
  unfolding initialize_worker_settings make_queue
  initialize-Has c e m h = queue c.max_jobs_queue_buffer
    where
      queue : (size : ℤ) → Has (bind (make_queue size m) (with_queue c e))
      queue (pos n) = with_queue-Has c e n m h
      queue (negsuc n) = tt
