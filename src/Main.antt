-- ===== src/Main.antt =====
-- `main` (main.go): what the arguments make the program do, and how it ends. The texts that it
-- prints are left out; the package `flag` is a parameter.
pub mod Commands
pub mod Ending
use web_based_jobs_worker_se.Base.{
  ℕ, zero, suc, List, [], ◌∷◌, Option, none, some, Text, text_key, ◌==◌, get_elem?, if◌then◌else◌,
}
use web_based_jobs_worker_se.Config.{Configuration}
use web_based_jobs_worker_se.Strconv.{to_lower}
use web_based_jobs_worker_se.Http.{text}
use web_based_jobs_worker_se.Host.{
  Error, Machine, Step, next, exited, panicked, S, pure, exit_with, ◌>>=◌, ◌>>◌,
}
use web_based_jobs_worker_se.Settings.{Json, default_config_file, load_config_file}
use web_based_jobs_worker_se.Service.{Spawn, TaskList, start, restart, stop, status, run_command}
use web_based_jobs_worker_se.Startup.{Circumstances, run_worker_service}

-- What `flag.FlagSet.Parse` makes of the arguments with these defaults: host and port, or it ends
-- the program with a code.
pub data Flags : Type 0 where
  parsed : (host port : Text) → Flags
  ends : ℕ → Flags

-- What the program meets.
pub record Program : Type 0 where
  pub json : Json
  pub zero_config : Configuration  -- `Configuration{}`
  pub parse : List Text → (host port : Text) → Flags
  pub child : Spawn
  pub tasks : TaskList
  pub circumstances : Circumstances

unfoldable pub with_flags :
    Flags → Configuration → (Configuration → S (Option Error)) → S (Option Error)
with_flags (parsed host port) c f =
    f (record c { https_server_host = host; https_server_port = port })
with_flags (ends code) c f = exit_with code

unfoldable pub drop : ℕ → List Text → List Text
drop n [] = []
drop zero xs = xs
drop (suc n) (x ∷ xs) = drop n xs

unfoldable pub run_flagged :
    Program → Configuration → List Text → (Configuration → S (Option Error)) → S (Option Error)
unfolding with_flags drop
run_flagged e c args f =
    with_flags (e.parse (drop 2 args) c.https_server_host c.https_server_port) c f

-- The `switch` on the option.
unfoldable pub dispatch : Program → Configuration → List Text → Text → S (Option Error)
unfolding run_flagged run_command run_worker_service
dispatch e c args option =
    if option == text "run"
    then run_worker_service c args e.circumstances
    else if option == text "start"
    then run_flagged e c args (λ c. run_command c (start e.child))
    else if option == text "restart"
    then run_flagged e c args (λ c. run_command c (restart e.child))
    else if option == text "stop"
    then run_command c stop
    else if option == text "status"
    then run_command c (status e.tasks)
    else if option == text "help"
    then exit_with 0
    else if option == text "version"
    then exit_with 0
    else pure none

-- `main` with an option.
unfoldable pub main_option : Program → List Text → Text → S (Unit {0})
unfolding dispatch load_config_file
main_option e args option = do
  c ← load_config_file e.json e.zero_config default_config_file
  err ← dispatch e c args (to_lower option)
  exit_with 0

-- `main`.
unfoldable pub main : Program → List Text → S (Unit {0})
unfolding main_option
main e args = elim (get_elem? args 1) [
  | none ↦ exit_with 0
  | some option ↦ main_option e args option
]
