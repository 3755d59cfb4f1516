-- ===== src/Diagnostics.antt =====
-- Signals and diagnostics: `handleSignals` with the flag `isDumping` (controllers.go),
-- `sendSignalForTraceDump` (helpers.go) and `getDiagnostics` (handlers.api.go), as the steps that
-- the goroutines of the service take on what they share. A step is one access to what is shared.
pub mod Dumps
pub mod Profiles
use web_based_jobs_worker_se.Base.{
  ℕ, ◌+◌, ◌-◌, ◌≡◌, Bool, true, false, not, ◌&&◌, List, [], ◌∷◌, ◌++◌, Option, none, some, length,
  ltb, if◌then◌else◌,
}

-- SIGQUIT asks for a dump; every other signal that the service is notified of ends it.
pub data Signal : Type 0 where
  quit terminate : Signal

-- Where `handleSignals` stands.
pub data Phase : Type 0 where
  waits : Phase  -- for a signal
  tests : Phase  -- has taken SIGQUIT and loads the flag next
  flags : Phase  -- has found no dump going on and sets the flag next
  spawns : Phase  -- starts the goroutine that collects next
  stops : Phase  -- has taken another signal and calls `signal.Stop` next
  removes : Phase  -- tries to remove the pid file next
  closes : Phase  -- closes the exit channel next
  left : Phase

pub record Signals : Type 0 where
  pub signals_chan : List Signal  -- oldest first
  pub is_dumping : Bool
  pub dumps : ℕ  -- goroutines that collect stack traces and have not reset the flag
  pub asking : ℕ  -- requests that have found no dump going on and wait to send
  pub notified : Bool  -- false once `signal.Stop` was called
  pub phase : Phase
  pub pid_file : Bool
  pub removable : Bool  -- whether the system lets the service remove the pid file
  pub exit_closed : Bool

-- As `initializeWorkerSettings` and `handleSignals` leave it before the first signal.
abbrev pub listening : (removable : Bool) → Signals
listening removable = record {
  signals_chan = [];
  is_dumping = false;
  dumps = 0;
  asking = 0;
  notified = true;
  phase = waits;
  pid_file = true;
  removable = removable;
  exit_closed = false;
}

-- `os/signal` does not wait: it drops a signal for which the channel has no room.
unfoldable pub deliver : Signal → Signals → Signals
deliver sig s =
    if s.notified && ltb (length s.signals_chan) 2
    then record s { signals_chan = s.signals_chan ++ sig ∷ [] }
    else s

-- The send in `sendSignalForTraceDump`, of some request; `none` while the channel is full, or if
-- there is no request.
unfoldable pub send_signal_for_trace_dump : Signals → Option Signals
send_signal_for_trace_dump s =
    if ltb 0 s.asking && ltb (length s.signals_chan) 2
    then some (record s { signals_chan = s.signals_chan ++ quit ∷ []; asking = s.asking - 1 })
    else none

pub data Answer : Type 0 where
  ignored : Answer
  going_on : Signals → Answer

-- `getDiagnostics` until it sends.
unfoldable pub get_diagnostics : Signals → Answer
get_diagnostics s = if s.is_dumping then ignored else going_on (record s { asking = s.asking + 1 })

-- The loop takes the oldest signal.
unfoldable pub receive_signal : List Signal → Signals → Signals
receive_signal [] s = s
receive_signal (quit ∷ rest) s = record s { signals_chan = rest; phase = tests }
receive_signal (terminate ∷ rest) s = record s { signals_chan = rest; phase = stops }

-- What `handleSignals` does next in this phase. The error of `os.Remove` is not looked at.
unfoldable pub handle_phase : Phase → Signals → Signals
unfolding receive_signal
handle_phase waits s = receive_signal s.signals_chan s
handle_phase tests s =
    if s.is_dumping then record s { phase = waits } else record s { phase = flags }
handle_phase flags s = record s { is_dumping = true; phase = spawns }
handle_phase spawns s = record s { dumps = s.dumps + 1; phase = waits }
handle_phase stops s = record s { notified = false; phase = removes }
handle_phase removes s = record s { pid_file = s.pid_file && not s.removable; phase = closes }
handle_phase closes s = record s { exit_closed = true; phase = left }
handle_phase left s = s

unfoldable pub handle_signals : Signals → Signals
unfolding handle_phase
handle_signals s = handle_phase s.phase s

-- The end of a goroutine that collects stack traces.
unfoldable pub finish_dump : Signals → Signals
finish_dump s = if ltb 0 s.dumps then record s { dumps = s.dumps - 1; is_dumping = false } else s

-- What the system, a client, the handlers of requests, the handler of signals and the collecting
-- goroutines do, in any order.
pub data SignalStep (s t : Signals) : Type 0 where
  delivers : (sig : Signal) → t ≡ deliver sig s → SignalStep s t
  asks : get_diagnostics s ≡ going_on t → SignalStep s t
  sends : send_signal_for_trace_dump s ≡ some t → SignalStep s t
  handles : t ≡ handle_signals s → SignalStep s t
  finishes : t ≡ finish_dump s → SignalStep s t

pub data SignalRun (s : Signals) : Signals → Type 0 where
  begins : SignalRun s s
  goes_on : {t u : Signals} → SignalRun s t → SignalStep t u → SignalRun s u
