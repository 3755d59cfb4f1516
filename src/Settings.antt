-- ===== src/Settings.antt =====
-- The settings when the service starts: `loadConfigFile` and `dumpDefaultConfig`
-- (configuration.go), `initializeWorkerSettings` (worker.go), and `enforceMaxOpenFiles`
-- (rlimits-linux.go). JSON is a parameter.
pub mod Loading
pub mod Initial
use web_based_jobs_worker_se.Base.{
  ℕ, Bool, true, false, not, ◌&&◌, ◌||◌, [], Option, none, some, Text, ℤ, pos, negsuc, length, ltb,
  nat_beq, if◌then◌else◌,
}
use web_based_jobs_worker_se.Models.{unlocked}
use web_based_jobs_worker_se.Config.{Configuration, default_config}
use web_based_jobs_worker_se.Http.{text}
use web_based_jobs_worker_se.Worker.{World}
use web_based_jobs_worker_se.Host.{
  Error, failed, Content, content, read_error, Rlimit, Machine, next, panicked, S, pure, exit_with,
  ◌>>=◌, ◌>>◌, read_file, write_file, path_exists, create_folder,
}

-- `json.Unmarshal(data, &Config)`, whose result may depend on what `Config` holds before, and
-- `json.MarshalIndent`.
pub record Json : Type 0 where
  pub unmarshal : Text → Configuration → Option Configuration
  pub marshal : Configuration → Option Text

abbrev pub default_config_file : Text
default_config_file = text "worker.config.json"

unfoldable pub dump_to : Text → Option Text → S (Option Error)
unfolding write_file
dump_to path none = pure (some failed)
dump_to path (some data') = write_file path data'

-- `dumpDefaultConfig`, which also makes the defaults the current settings.
unfoldable pub dump_default_config : Json → S (Option Error)
unfolding dump_to
dump_default_config json = dump_to default_config_file (json.marshal default_config)

-- The end of `loadConfigFile`.
unfoldable pub fall_back : Json → S Configuration
unfolding dump_default_config
fall_back json = do
  err ← dump_default_config json
  elim err [ none ↦ pure default_config | some _ ↦ exit_with 1 ]

unfoldable pub load_content : Json → Configuration → Content → S Configuration
unfolding fall_back
load_content json current (read_error e) = fall_back json
load_content json current (content s) = elim (json.unmarshal s current) [
  | none ↦ fall_back json
  | some c ↦ pure c
]

unfoldable pub load_existing : Json → Configuration → Text → S Configuration
unfolding read_file load_content
load_existing json current path = do found ← read_file path; load_content json current found

-- `loadConfigFile`, with the settings that `Config` holds before.
unfoldable pub load_config_file : Json → Configuration → Text → S Configuration
unfolding path_exists load_existing fall_back
load_config_file json current path = do
  (ok, err) ← path_exists path
  if ok then load_existing json current path else fall_back json

raise : ℕ → ℕ → ℕ
raise wanted limit = if ltb limit wanted then wanted else limit

-- `enforceMaxOpenFiles`: the limit afterwards, if `syscall.Setrlimit` permits it or not.
unfoldable pub enforce_max_open_files :
    Configuration → (permitted : Rlimit → Bool) → Rlimit → Rlimit
unfolding raise
enforce_max_open_files c permitted lim =
    if ltb lim.cur c.linux_worker_max_open_files || ltb lim.max c.linux_worker_max_open_files
    then (let raised : Rlimit = record {
      cur = raise c.linux_worker_max_open_files lim.cur;
      max = raise c.linux_worker_max_open_files lim.max;
    } in
        if permitted raised then raised else lim)
    else lim

-- `enforceMaxOpenFiles` on this machine; on Windows it does nothing (rlimits-windows.go).
unfoldable pub with_limit : Configuration → Machine → Machine
unfolding enforce_max_open_files
with_limit c m = record m {
  rlimit = if m.windows then m.rlimit else enforce_max_open_files c m.permits m.rlimit;
}

-- What `initializeWorkerSettings` reads of the template, the time zones and the environment.
pub record Surroundings : Type 0 where
  pub template_parses : Bool
  pub zone_known : Text → Bool
  pub shell : Text  -- `os.Getenv("SHELL")`

-- `make(chan *Job, n)` panics for a negative size.
unfoldable pub make_queue : ℤ → S ℕ
make_queue (pos n) m = next n m
make_queue (negsuc n) m = panicked m

abbrev pub empty_world : ℕ → World
empty_world capacity = record {
  maplock = unlocked;
  heap = [];
  results = [];
  queue = [];
  capacity = capacity;
}

-- The shell of the environment, where it is set.
unfoldable pub with_shell : Configuration → Bool → Text → Configuration
with_shell c windows shell =
    if not windows && not (nat_beq (length shell) 0)
    then record c { default_linux_shell = shell }
    else c

unfoldable pub located : Configuration → Surroundings → World → S (Option (Configuration × World))
unfolding with_shell with_limit
located c e w m =
    if e.zone_known c.default_jobs_infos_timezone
    then next (some (with_shell c m.windows e.shell, w)) (with_limit c m)
    else next none m

unfoldable pub make_folders : Configuration → S Bool
unfolding create_folder
make_folders c = do
  outputs_error ← create_folder c.jobs_outputs_folder
  elim outputs_error [
    | some _ ↦ pure false
    | none ↦ (do
      backups_error ← create_folder c.jobs_outputs_backups_folder
      elim backups_error [ some _ ↦ pure false | none ↦ pure true ])
  ]

-- `initializeWorkerSettings` once the queue is made.
unfoldable pub with_queue : Configuration → Surroundings → ℕ → S (Option (Configuration × World))
unfolding make_folders located
with_queue c e capacity = do
  made ← if e.template_parses then make_folders c else pure false
  if made then located c e (empty_world capacity) else pure none

-- `initializeWorkerSettings`; `none` where it returns an error.
unfoldable pub initialize_worker_settings :
    Configuration → Surroundings → S (Option (Configuration × World))
unfolding make_queue with_queue
initialize_worker_settings c e = do
  capacity ← make_queue c.max_jobs_queue_buffer
  with_queue c e capacity
