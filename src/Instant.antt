-- ===== src/Instant.antt =====
-- Instant commands: `instantCommandExecutor` (handlers.web.go), which runs a command and sends its
-- output line by line. The process and the end of the request are parameters; flushing, headers and
-- log lines are left out.
pub mod Sent
use web_based_jobs_worker_se.Base.{
  ℕ, Bool, true, false, ◌&&◌, List, [], ◌∷◌, ◌++◌, Option, none, some, Text, text_key, ℤ, pos, ltb,
  ltb_ℤ, int_scale, length, nat_beq, if◌then◌else◌,
}
use web_based_jobs_worker_se.Config.{Configuration}
use web_based_jobs_worker_se.Strconv.{atoi}
use web_based_jobs_worker_se.Http.{text, Request, query_get}
use web_based_jobs_worker_se.Executor.{null_device, pipe, Sink}
use web_based_jobs_worker_se.Tables.{fprintf, newline}

-- The command, with the limit of its context where the request sets one.
pub record InstantCmd : Type 0 where
  pub program : Text
  pub args : List Text
  pub timeout : Option ℤ  -- in nanoseconds
  pub stdout : Sink
  pub stderr : Sink

-- What the `select` takes.
pub data Ending : Type 0 where
  all_sent deadline_exceeded canceled : Ending

-- What the process does: whether it starts, what it writes to its standard output while the
-- handler waits, and what ends the wait.
pub record Execution : Type 0 where
  pub windows : Bool
  pub starts : InstantCmd → Bool
  pub output : InstantCmd → Text
  pub ending : Ending

minutes : Option ℤ → Option ℤ
minutes none = none
minutes (some n) = if ltb_ℤ (pos 0) n then some (int_scale n 60000000000) else none

-- The limit that the request asks for, in minutes.
unfoldable pub instant_timeout : Text → Option ℤ
unfolding minutes
instant_timeout s = minutes (atoi s)

-- The command: `cmd.Stderr = cmd.Stdout` copies a nil stream, and the pipe is set up afterwards.
unfoldable pub instant_command : Configuration → Bool → Request → InstantCmd
unfolding instant_timeout
instant_command c windows r =
    let stderr = null_device in
    record {
      program = if windows then text "cmd" else c.default_linux_shell;
      args = (if windows then text "/C" else text "-c") ∷ query_get (text "cmd") r.query ∷ [];
      timeout = instant_timeout (query_get (text "timeout") r.query);
      stdout = pipe;
      stderr = stderr;
    }

add_char : ℕ → List Text → List Text
add_char c [] = (c ∷ []) ∷ []
add_char c (line ∷ lines) = (c ∷ line) ∷ lines

-- The lines of an output, without their ends; the last one may have none.
unfoldable pub split_lines : Text → List Text
unfolding add_char
split_lines [] = []
split_lines (c ∷ s) =
    let lines = split_lines s in if nat_beq c 10 then [] ∷ lines else add_char c lines

-- A carriage return at the end is dropped.
unfoldable pub drop_cr : Text → Text
drop_cr [] = []
drop_cr (c ∷ []) = if nat_beq c 13 then [] else c ∷ []
drop_cr (c ∷ d ∷ s) = c ∷ drop_cr (d ∷ s)

-- `bufio.Scanner` stops at a line that does not fit its buffer of 64 KB.
unfoldable pub scanned : List Text → List Text
unfolding drop_cr
scanned [] = []
scanned (line ∷ lines) =
    let rest = scanned lines in if ltb (length line) 65536 then drop_cr line ∷ rest else []

unfoldable pub scan_lines : Text → List Text
unfolding split_lines scanned
scan_lines output = scanned (split_lines output)

-- The goroutine that scans the output, with what `Scan` takes.
unfoldable pub send_lines : (verb : Text → Text) → List Text → Text
unfolding fprintf
send_lines verb [] = []
send_lines verb (line ∷ lines) = fprintf verb (line ++ newline) ++ send_lines verb lines

unfoldable pub end_message : Ending → Text
end_message all_sent = []
end_message deadline_exceeded =
    newline ++ (newline ++ text "Finish. Timeout reached. Stopping the job process.")
end_message canceled = []

pub record InstantReply : Type 0 where
  pub code : ℕ
  pub sent : Text

-- The command that runs, if one does, and the answer.
unfoldable pub execute_instantly :
    (verb : Text → Text) → Execution → InstantCmd → Option InstantCmd × InstantReply
unfolding send_lines scan_lines end_message
execute_instantly verb e cmd =
    if e.starts cmd
    then (
      some cmd,
      record {
        code = 200;
        sent = send_lines verb (scan_lines (e.output cmd)) ++ end_message e.ending;
      },
    )
    else (
      none,
      record {
        code = 400;
        sent =
            newline
            ++ text
                "[+] failed to execute the command submitted. make sure it is valid and has all rights.";
      },
    )

-- `instantCommandExecutor`.
unfoldable pub instant_command_executor :
    Configuration → (verb : Text → Text) → Execution → Request → Option InstantCmd × InstantReply
unfolding instant_command execute_instantly
instant_command_executor c verb e r =
    if nat_beq (length (query_get (text "cmd") r.query)) 0
    then (
      none,
      record {
        code = 400;
        sent = fprintf verb (
            newline
            ++ (text
                  "[+] Sorry, the request submitted is malformed. To view the documentation, go to https://"
                ++ (c.https_server_host
                    ++ (text ":" ++ (c.https_server_port ++ text "/worker/web/v1/docs")))));
      },
    )
    else execute_instantly verb e (instant_command c e.windows r)
