-- ===== src/Main/Ending.antt =====
-- How the program ends.
use web_based_jobs_worker_se.Base.{
  ℕ, ◌≡◌, ◌⊎◌, inl, inr, refl, ap, ◌∙◌, Bool, true, false, List, Option, none, some, Text, text_key,
  ◌==◌, Option-cases, if◌then◌else◌, get_elem?,
}
use web_based_jobs_worker_se.Config.{Configuration, default_config}
use web_based_jobs_worker_se.Strconv.{to_lower}
use web_based_jobs_worker_se.Http.{text}
use web_based_jobs_worker_se.Host.{
  Error, Machine, Step, next, exited, panicked, S, bind, create, write_file, write_string,
}
use web_based_jobs_worker_se.Settings.{
  default_config_file, load_config_file, fall_back, dump_default_config, dump_to,
}
use web_based_jobs_worker_se.Settings.Loading.{load_parsed, load_unparsed}
use web_based_jobs_worker_se.Settings.Loading.{parsed as parsed_settings}
use web_based_jobs_worker_se.Service.{start, restart, stop, status, run_command}
use web_based_jobs_worker_se.Main.{
  Flags, parsed, ends, Program, drop, with_flags, run_flagged, dispatch, main_option, main,
}
use web_based_jobs_worker_se.Main.Commands.{
  GoesOn, bind-GoesOn, either-GoesOn, create-GoesOn, write_string-GoesOn, commands-GoesOn,
}

-- The exit codes of the program with these arguments on a machine: where the settings cannot be
-- loaded, 1; and else that of the package flag, if it ends the program, or 0.
abbrev pub IsCode : Program → List Text → Machine → ℕ → Type 0
IsCode e args m code =
    ((code ≡ 1)
      × (m₁ : Machine) × (load_config_file e.json e.zero_config default_config_file m
          ≡ exited 1 m₁))
    ⊎ ((code ≡ 0)
        ⊎ ((c : Configuration) × (m₁ : Machine) × (load_config_file e.json e.zero_config
                default_config_file m
              ≡ next c m₁)
            × (e.parse (drop 2 args) c.https_server_host c.https_server_port ≡ ends code)))

-- It has ended with such a code.
abbrev pub HasEnded : Program → List Text → Machine → Step (Unit {0}) → Type 0
HasEnded e args m (next a m') = ⊥
HasEnded e args m (exited code m') = IsCode e args m code
HasEnded e args m (panicked m') = ⊥

-- It goes on, or ends with one of these codes.
abbrev IsFine : {A : Type 0} → (ℕ → Type 0) → Step A → Type 0
IsFine code_of (next a m) = Unit
IsFine code_of (exited code m) = code_of code
IsFine code_of (panicked m) = ⊥

GoesOn-IsFine : {A : Type 0} (code_of : ℕ → Type 0) (s : Step A) → GoesOn s → IsFine code_of s
GoesOn-IsFine code_of (next a m) h = tt
GoesOn-IsFine code_of (exited code m) h = absurd h
GoesOn-IsFine code_of (panicked m) h = absurd h

if-IsFine :
    {A : Type 0} (code_of : ℕ → Type 0) (b : Bool) (x y : S A) (m : Machine)
    → IsFine code_of (x m)
    → IsFine code_of (y m)
    → IsFine code_of ((if b then x else y) m)
if-IsFine code_of true x y m h k = h
if-IsFine code_of false x y m h k = k

dump_to-GoesOn : (path : Text) (o : Option Text) (m : Machine) → GoesOn (dump_to path o m)
unfolding dump_to write_file
dump_to-GoesOn path none m = tt
dump_to-GoesOn path (some s) m = bind-GoesOn (create path m) _ (create-GoesOn path m) (λ err.
    either-GoesOn err (write_string path s) (λ x m. next (some x) m) (write_string-GoesOn path s)
      (λ x m. tt))

module _ (e : Program) where
  -- The codes of the package flag with these settings, and 0.
  IsFlagCode : List Text → Configuration → ℕ → Type 0
  IsFlagCode args c code =
      (code ≡ 0) ⊎ (e.parse (drop 2 args) c.https_server_host c.https_server_port ≡ ends code)

  written-IsFine :
      (s : Step (Option Error))
      → GoesOn s
      → IsFine
          (λ code. code ≡ 1)
          (bind s
            (λ err. elim err [ none ↦ (λ m. next default_config m) | some _ ↦ (λ m. exited 1 m) ]))
  written-IsFine (next none m) h = tt
  written-IsFine (next (some x) m) h = refl
  written-IsFine (exited code m) h = absurd h
  written-IsFine (panicked m) h = absurd h

  dump-GoesOn : (m : Machine) → GoesOn (dump_default_config e.json m)
  unfolding dump_default_config
  dump-GoesOn m = dump_to-GoesOn default_config_file (e.json.marshal default_config) m

  fall_back-IsFine : (m : Machine) → IsFine (λ code. code ≡ 1) (fall_back e.json m)
  unfolding fall_back
  fall_back-IsFine m = written-IsFine (dump_default_config e.json m) (dump-GoesOn m)

  load-IsFine :
      (m : Machine)
      → IsFine (λ code. code ≡ 1) (load_config_file e.json e.zero_config default_config_file m)
  load-IsFine m =
      elim (Option-cases (parsed_settings e.json e.zero_config (m.entry default_config_file))) [
        | inl h ↦
            rw (load_unparsed e.json e.zero_config m default_config_file h) (fall_back-IsFine m)
        | inr (c, h) ↦ rw (load_parsed e.json e.zero_config m default_config_file h) tt
      ]

  flagged-IsFine :
      (args : List Text) (c : Configuration) (flags : Flags)
      → e.parse (drop 2 args) c.https_server_host c.https_server_port ≡ flags
      → (f : Configuration → S (Option Error))
      → ((c : Configuration) (m : Machine) → GoesOn (f c m))
      → (m : Machine) → IsFine (IsFlagCode args c) (with_flags flags c f m)
  unfolding with_flags IsFlagCode
  flagged-IsFine args c (parsed h p) k f goes m =
      GoesOn-IsFine (IsFlagCode args c) (f _ m) (goes _ m)
  flagged-IsFine args c (ends code) k f goes m = inr k

  dispatch-IsFine :
      (c : Configuration) (args : List Text) (option : Text) (m : Machine)
      → (option == text "run") ≡ false
      → IsFine (IsFlagCode args c) (dispatch e c args option m)
  unfolding dispatch run_flagged IsFlagCode
  dispatch-IsFine c args option m h =
      let fine = IsFlagCode args c in
      rw h (
        if-IsFine fine (option == text "start") _ _ m
          (flagged-IsFine args c _ refl (λ c. run_command c (start e.child))
            (λ c. commands-GoesOn c (start e.child)) m)
          (if-IsFine fine (option == text "restart") _ _ m
            (flagged-IsFine args c _ refl (λ c. run_command c (restart e.child))
              (λ c. commands-GoesOn c (restart e.child)) m)
            (if-IsFine fine (option == text "stop") (run_command c stop) _ m
              (GoesOn-IsFine fine _ (commands-GoesOn c stop m))
              (if-IsFine fine (option == text "status") (run_command c (status e.tasks)) _ m
                (GoesOn-IsFine fine _ (commands-GoesOn c (status e.tasks) m))
                (if-IsFine fine (option == text "help") (λ m. exited 0 m) _ m (inl refl)
                  (if-IsFine fine (option == text "version") (λ m. exited 0 m) (λ m. next none m) m
                    (inl refl) tt))))))

  module _ (args : List Text) (m : Machine) where
    -- After the command the program exits with 0.
    dispatched-HasEnded :
        (c : Configuration) (m₁ : Machine)
        → load_config_file e.json e.zero_config default_config_file m ≡ next c m₁
        → (x : Step (Option Error)) → IsFine (IsFlagCode args c) x
        → HasEnded e args m (bind x (λ err m. exited 0 m))
    unfolding IsFlagCode
    dispatched-HasEnded c m₁ l (next a m') h = inr (inl refl)
    dispatched-HasEnded c m₁ l (exited code m') (inl z) = inr (inl z)
    dispatched-HasEnded c m₁ l (exited code m') (inr k) = inr (inr (c, m₁, l, k))
    dispatched-HasEnded c m₁ l (panicked m') h = absurd h

    loaded-HasEnded :
        (option : Text)
        → (option == text "run") ≡ false
        → (x : Step Configuration) → load_config_file e.json e.zero_config default_config_file m ≡ x
        → IsFine (λ code. code ≡ 1) x
        → HasEnded e args m
            (bind x (λ c. λ m₁. bind (dispatch e c args option m₁) (λ err m. exited 0 m)))
    loaded-HasEnded option not_run (next c m₁) l h =
        dispatched-HasEnded c m₁ l (dispatch e c args option m₁)
          (dispatch-IsFine c args option m₁ not_run)
    loaded-HasEnded option not_run (exited code m₁) l h = inl (h, m₁, l ∙ ap (λ k. exited k m₁) h)
    loaded-HasEnded option not_run (panicked m₁) l h = absurd h

    -- Whatever the arguments, also none, except for the option run in any case of its letters, the
    -- program comes to its end with an exit code and does not panic. The code is 1 only if loading
    -- the settings ends the program with 1, and else 0, also where a command fails, unless the
    -- package flag ends the program with a code of its own for the arguments behind the option and
    -- the host and port of the settings.
    pub main_ends :
        ((option : Text) → get_elem? args 1 ≡ some option → (to_lower option == text "run") ≡ false)
        → HasEnded e args m (main e args m)
    unfolding main main_option
    main_ends not_run = elim (Option-cases (get_elem? args 1)) [
      | inl absent ↦ rw (absent, HasEnded) (inr (inl refl))
      | inr (option, given) ↦
          rw (given, HasEnded)
            (loaded-HasEnded (to_lower option) (not_run option given)
              (load_config_file e.json e.zero_config default_config_file m) refl (load-IsFine m))
    ]
