-- ===== src/Examples/Startup.antt =====
-- Settings, start-up and the program's arguments on a concrete machine.
use mathlib.Core.Path.{subst}
use mathlib.Core.Option.{some-injective}
use web_based_jobs_worker_se.Base.{
  get_elem?, ◌≡◌, ◌⊎◌, refl, true, false, [], ◌∷◌, List, none, some, Text, text_key, text_eq, codes,
  ◌==◌,
}
use web_based_jobs_worker_se.Config.{Configuration, default_config}
use web_based_jobs_worker_se.Strconv.{itoa, to_lower}
use web_based_jobs_worker_se.Http.{text}
use web_based_jobs_worker_se.Host.{file, Machine, next, exited, put_entry, join_path}
use web_based_jobs_worker_se.Settings.{
  Json, Surroundings, empty_world, default_config_file, load_config_file,
  initialize_worker_settings,
}
use web_based_jobs_worker_se.Settings.Loading.{parsed, dumped, load_config_file_twice}
use web_based_jobs_worker_se.Logging.{Loggers, setup_loggers}
use web_based_jobs_worker_se.Security.{Crypto}
use web_based_jobs_worker_se.Startup.{
  Serving, shut_down, listen_failed, Circumstances, run_worker_service,
}
use web_based_jobs_worker_se.Logging.Local.{local_loggers, setup_loggers_local}
use web_based_jobs_worker_se.Startup.Runs.{EndsClean, addressed, run_worker_service-EndsClean}
use web_based_jobs_worker_se.Startup.Failure.{listen_failure_leaves_pid_file}
use web_based_jobs_worker_se.Service.{start_worker_service, output}
use web_based_jobs_worker_se.Main.{Program, main}
use web_based_jobs_worker_se.Main.{parsed as flags}
use web_based_jobs_worker_se.Main.Ending.{HasEnded, main_ends}
use web_based_jobs_worker_se.Examples.Service.{machine, after}

-- JSON with a single value.
abbrev json : Json
json = record { unmarshal = λ s c. some default_config; marshal = λ c. some (codes "{}") }

load_config_file_twice_example :
    (c : Configuration) × (m₁ : Machine) × (load_config_file json default_config default_config_file
        machine
      ≡ next c m₁)
    × (load_config_file json default_config default_config_file m₁ ≡ next c m₁)
    × (((m₁ ≡ machine) × (parsed json default_config (machine.entry default_config_file) ≡ some c))
        ⊎ ((c ≡ default_config) × (m₁ ≡ dumped json default_config machine (codes "{}"))))
load_config_file_twice_example =
    load_config_file_twice json default_config machine (codes "{}") refl refl refl refl

abbrev surroundings : Surroundings
surroundings = record { template_parses = true; zone_known = λ _. true; shell = codes "/bin/bash" }

abbrev crypto : Crypto
crypto = record {
  parse_ip = λ _. none;
  generate_key = some (codes "key");
  pem_encode = λ s. some s;
  create_certificate = λ _ s. some s;
  pair_loads = true;
  pair_fits = λ _ _. true;
}

abbrev circumstances : Serving → Circumstances
circumstances ending = record {
  user_known = true;
  surroundings = surroundings;
  day = codes "20211019";
  crypto = crypto;
  ending = ending;
}

abbrev args : List Text
args = codes "worker" ∷ codes "run" ∷ codes "127.0.0.1" ∷ codes "8080" ∷ []

run_worker_service-EndsClean_example :
    EndsClean default_config
      (run_worker_service default_config args (circumstances shut_down) machine)
run_worker_service-EndsClean_example =
    run_worker_service-EndsClean default_config args (circumstances shut_down) machine refl refl
      refl refl refl

abbrev program : Program
program = record {
  json = json;
  zero_config = default_config;
  parse = λ _ host port. flags host port;
  child = some 7;
  tasks = output false;
  circumstances = circumstances shut_down;
}

not_run : (to_lower (codes "start") == text "run") ≡ false
unfolding to_lower text text_eq
not_run = refl

abbrev start_args : List Text
start_args = codes "worker" ∷ codes "start" ∷ []

not_run_given :
    (option : Text) → get_elem? start_args 1 ≡ some option → (to_lower option == text "run") ≡ false
not_run_given option given =
    subst (λ o. (to_lower o == text "run") ≡ false) (some-injective (codes "start") option given)
      not_run

main_ends_example : HasEnded program start_args machine (main program start_args machine)
main_ends_example = main_ends program start_args machine not_run_given

-- The day's log files.
abbrev logs : Loggers
logs = local_loggers default_config (codes "20211019")

loggers_set_up :
    setup_loggers default_config (codes "20211019") machine
    ≡ next logs (after (setup_loggers default_config (codes "20211019") machine))
unfolding setup_loggers text_eq join_path text
loggers_set_up = refl

setup_loggers_example : logs ≡ local_loggers default_config (codes "20211019")
setup_loggers_example =
    setup_loggers_local default_config (codes "20211019") machine
      (after (setup_loggers default_config (codes "20211019") machine)) logs loggers_set_up

-- The machine of a worker process that the service has started.
abbrev started : Machine
started = put_entry default_config.worker_pid_file_path (file (itoa 7)) machine

abbrev here : Configuration
here = addressed default_config (codes "127.0.0.1") (codes "8080")

abbrev settled : Machine
settled = after (initialize_worker_settings here surroundings started)

abbrev with_bash : Configuration
with_bash = record here { default_linux_shell = codes "/bin/bash" }

settings :
    initialize_worker_settings here surroundings started
    ≡ next (some (with_bash, empty_world 10)) settled
unfolding initialize_worker_settings text_eq
settings = refl

abbrev opened : Machine
opened = after (setup_loggers with_bash (codes "20211019") settled)

log_files_open : setup_loggers with_bash (codes "20211019") settled ≡ next logs opened
unfolding setup_loggers initialize_worker_settings text_eq join_path text
log_files_open = refl

named : started.entry default_config.worker_pid_file_path ≡ file (itoa 7)
unfolding text_eq
named = refl

listen_failure_example :
    (run_worker_service default_config args (circumstances listen_failed) started ≡ exited 1 opened)
    × (opened.entry default_config.worker_pid_file_path ≡ file (itoa 7))
    × (start_worker_service default_config (some 8) opened ≡ next none opened)
listen_failure_example =
    listen_failure_leaves_pid_file default_config with_bash (empty_world 10) args
      (circumstances listen_failed) started settled opened logs (some 8) (itoa 7) refl refl refl
      refl refl settings log_files_open named
