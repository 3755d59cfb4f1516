-- ===== src/Startup/Stages.antt =====
-- The loggers and the web server: if they end the program they remove the pid file.
use web_based_jobs_worker_se.Base.{◌≡◌, refl, Bool, true, false, arith, Text, if◌then◌else◌}
use web_based_jobs_worker_se.Config.{Configuration}
use web_based_jobs_worker_se.Host.{
  Entry, missing, folder, hidden, unreadable, file, Machine, next, panicked, S, mkdir, mkdir_all,
  stat, create_folder,
}
use web_based_jobs_worker_se.Routes.{setup_routes}
use web_based_jobs_worker_se.Logging.{
  stop_with, open_log, prepare_log_folder, make_log_folder, check_log_folder, setup_loggers,
}
use web_based_jobs_worker_se.Security.{
  require, save_or_stop, template, Crypto, generate_server_certificate,
}
use web_based_jobs_worker_se.Startup.{
  regenerate, load_certificate, serve, shut_down, set_up_router, start_web_server,
}
use web_based_jobs_worker_se.Startup.Tidy.{
  Removable, IsTidy, bind-IsTidy, on_error, if-IsTidy, stop_with-IsTidy, create_folder-IsTidy,
  open_log-IsTidy, save_or_stop-IsTidy, require-IsTidy,
}

module _ (c : Configuration) where
  mkdir-IsTidy :
      (e : Entry) (able : Bool) (path : Text) (m : Machine)
      → Removable c m
      → IsTidy c (mkdir e able path m)
  mkdir-IsTidy missing true path m r = r
  mkdir-IsTidy missing false path m r = r
  mkdir-IsTidy folder able path m r = r
  mkdir-IsTidy hidden able path m r = r
  mkdir-IsTidy unreadable able path m r = r
  mkdir-IsTidy (file s) able path m r = r

  make_log_folder-IsTidy :
      (path : Text) (m : Machine) → Removable c m → IsTidy c (make_log_folder c path m)
  unfolding make_log_folder mkdir_all
  make_log_folder-IsTidy path m r =
      bind-IsTidy c (mkdir_all path m) _ (mkdir-IsTidy (m.entry path) (m.writable path) path m r)
        (λ err.
          on_error c err (λ m. next tt m) (λ _ m. stop_with c 1 m) (λ m r. r)
            (λ _. stop_with-IsTidy c (Unit {0}) 1))

  check_log_folder-IsTidy :
      (path : Text) (m : Machine) → Removable c m → IsTidy c (check_log_folder c path m)
  unfolding check_log_folder
  check_log_folder-IsTidy path m r = by_kind _
    where
      by_kind : (dir : Bool) → IsTidy c ((if dir then (λ m. next tt m) else stop_with c 0) m)
      by_kind true = r
      by_kind false = stop_with-IsTidy c (Unit {0}) 0 m r

  prepare_log_folder-IsTidy :
      (path : Text) (m : Machine) → Removable c m → IsTidy c (prepare_log_folder c path m)
  unfolding prepare_log_folder stat
  prepare_log_folder-IsTidy path m r = by_entry (m.entry path) refl
    where
      by_entry : (e : Entry) → m.entry path ≡ e → IsTidy c (prepare_log_folder c path m)
      by_entry missing h = rw h (make_log_folder-IsTidy path m r)
      by_entry hidden h = rw h r
      by_entry folder h = rw h (check_log_folder-IsTidy path m r)
      by_entry unreadable h = rw h (check_log_folder-IsTidy path m r)
      by_entry (file s) h = rw h (check_log_folder-IsTidy path m r)

  pub setup_loggers-IsTidy :
      (day : Text) (m : Machine) → Removable c m → IsTidy c (setup_loggers c day m)
  unfolding setup_loggers
  setup_loggers-IsTidy day m r =
      bind-IsTidy c (prepare_log_folder c _ m) _ (prepare_log_folder-IsTidy _ m r) (λ _ m r.
        bind-IsTidy c (open_log c _ m) _ (open_log-IsTidy c _ m r) (λ _ m r.
          bind-IsTidy c (open_log c _ m) _ (open_log-IsTidy c _ m r) (λ _ m r.
            bind-IsTidy c (open_log c _ m) _ (open_log-IsTidy c _ m r)
              (λ _ m r. bind-IsTidy c (open_log c _ m) _ (open_log-IsTidy c _ m r) (λ _ m r. r)))))

  generate-IsTidy :
      (k : Crypto) (m : Machine) → Removable c m → IsTidy c (generate_server_certificate c k m)
  unfolding generate_server_certificate
  generate-IsTidy k m r =
      bind-IsTidy c (create_folder _ m) _ (create_folder-IsTidy c _ m r) (λ _ m r.
        bind-IsTidy c (require c 1 k.generate_key m) _ (require-IsTidy c 1 k.generate_key m r)
          (λ key m r.
            bind-IsTidy c (require c 2 (k.pem_encode key) m) _
              (require-IsTidy c 2 (k.pem_encode key) m r)
              (λ key_pem m r.
                bind-IsTidy c (save_or_stop c _ key_pem m) _ (save_or_stop-IsTidy c _ key_pem m r)
                  (λ _ m r.
                    let cert = k.create_certificate (template c k) key in
                    bind-IsTidy c (require c 1 cert m) _ (require-IsTidy c 1 cert m r) (λ cert m r.
                      bind-IsTidy c (require c 2 (k.pem_encode cert) m) _
                        (require-IsTidy c 2 (k.pem_encode cert) m r)
                        (λ cert_pem m r.
                          bind-IsTidy c (save_or_stop c _ cert_pem m) _
                            (save_or_stop-IsTidy c _ cert_pem m r) (λ _ m r. r)))))))

  load_certificate-IsTidy :
      (k : Crypto) (m : Machine) → Removable c m → IsTidy c (load_certificate c k m)
  unfolding load_certificate regenerate
  load_certificate-IsTidy k m r =
      if-IsTidy c k.pair_loads (λ m. next tt m) (regenerate c k) (λ m r. r)
        (λ m r.
          bind-IsTidy c (generate_server_certificate c k m) _ (generate-IsTidy k m r) (λ pair m r.
            if-IsTidy c (k.pair_fits pair.0 pair.1) (λ m. next tt m) (stop_with c 1) (λ m r. r)
              (stop_with-IsTidy c (Unit {0}) 1) m r))
        m r

  set_up_router-IsTidy : (m : Machine) → Removable c m → IsTidy c (set_up_router c m)
  unfolding set_up_router
  set_up_router-IsTidy m r =
      let stop : S (Unit {0}) = λ m. panicked m in
      on_error c (setup_routes c) stop (λ _ m. next tt m) (λ m r. r) (λ _ m r. r) m r

  pub start_web_server-IsTidy :
      (k : Crypto) (m : Machine) → Removable c m → IsTidy c (start_web_server c k shut_down m)
  unfolding start_web_server serve
  start_web_server-IsTidy k m r =
      bind-IsTidy c (load_certificate c k m) _ (load_certificate-IsTidy k m r) (λ _ m r.
        bind-IsTidy c (set_up_router c m) _ (set_up_router-IsTidy m r) (λ _ m r. ground arith))
