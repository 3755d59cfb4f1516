-- ===== src/Examples/Diagnostics.antt =====
-- Signals and collections of diagnostics.
use web_based_jobs_worker_se.Base.{
  ℕ, ◌+◌, ◌-◌, ◌≡◌, ◌≤◌, ◌<◌, ◌⊎◌, refl, true, false, none, List, [], ◌∷◌, ◌++◌, some, text_key,
  text_eq, codes, length, All,
}
use web_based_jobs_worker_se.Http.{text}
use web_based_jobs_worker_se.Host.{file, Machine, next, join_path}
use web_based_jobs_worker_se.Diagnostics.{
  Signal, Signals, left, quit, terminate, listening, deliver, handle_signals, handle_phase,
  get_diagnostics, going_on, send_signal_for_trace_dump, SignalRun, delivers, sends, handles,
  begins, goes_on,
}
use web_based_jobs_worker_se.Diagnostics.Dumps.{IsOrderly, run-IsOrderly, diagnostics_after_exit}
use web_based_jobs_worker_se.Diagnostics.Profiles.{Profiles, collect_stack_trace}
use web_based_jobs_worker_se.Diagnostics.Profiles.Complete.{
  IsDumped, cpu_content, written_profiles, collect_stack_trace_complete,
}
use web_based_jobs_worker_se.Examples.Service.{machine, after}

abbrev profiles : Profiles
profiles = record {
  cpu = none;
  goroutine = some (codes "g");
  threadcreate = some (codes "t");
  block = some (codes "b");
  mutex = some (codes "m");
  heap = some (codes "h");
  allocs = some (codes "a");
}

-- A dump, an exit signal and the end of the handler, with a pid file that cannot be removed.
abbrev dumped : Signals
dumped =
    handle_signals
      (handle_signals (handle_signals (handle_signals (deliver quit (listening false)))))

abbrev signals : Signals
signals =
    handle_signals (handle_signals (handle_signals (handle_signals (deliver terminate dumped))))

dumped_run : SignalRun (listening false) dumped
dumped_run =
    goes_on
      (goes_on
        (goes_on (goes_on (goes_on begins (delivers quit refl)) (handles refl)) (handles refl))
        (handles refl))
      (handles refl)

signals_run : SignalRun (listening false) signals
signals_run =
    goes_on
      (goes_on
        (goes_on (goes_on (goes_on dumped_run (delivers terminate refl)) (handles refl))
          (handles refl))
        (handles refl))
      (handles refl)

signals-IsOrderly_example : IsOrderly false signals
signals-IsOrderly_example = run-IsOrderly signals_run

signals_kept : (signals.pid_file ≡ true) × (signals.dumps ≡ 1) × (signals.exit_closed ≡ true)
unfolding deliver handle_signals handle_phase
signals_kept = (refl, refl, refl)

-- The service after a signal to end it.
abbrev ended : Signals
ended = record (listening true) {
  notified = false;
  pid_file = false;
  exit_closed = true;
  phase = left;
}

abbrev with_requests : ℕ → List Signal → Signals
with_requests asking chan = record ended { asking = asking; signals_chan = chan }

asked : (n : ℕ) → get_diagnostics (with_requests n []) ≡ going_on (with_requests (n + 1) [])
unfolding get_diagnostics
asked n = refl

sent_once : send_signal_for_trace_dump (with_requests 3 []) ≡ some (with_requests 2 (quit ∷ []))
unfolding send_signal_for_trace_dump
sent_once = refl

sent_twice :
    send_signal_for_trace_dump (with_requests 2 (quit ∷ []))
    ≡ some (with_requests 1 (quit ∷ quit ∷ []))
unfolding send_signal_for_trace_dump
sent_twice = refl

abbrev full : Signals
full = with_requests 1 (quit ∷ quit ∷ [])

diagnostics_after_exit_example :
    (full.phase ≡ left)
    × (full.dumps ≤ (with_requests 2 (quit ∷ [])).dumps)
    × ((rest : List Signal) × (full.signals_chan ≡ quit ∷ [] ++ rest))
    × ((length {A = Signal} (quit ∷ []) < 2) ⊎ (send_signal_for_trace_dump full ≡ none))
    × ((full.asking ≡ 0)
        ⊎ ((2 ≤ length full.signals_chan)
            ⊎ (send_signal_for_trace_dump full
                ≡ some (record full {
                  signals_chan = full.signals_chan ++ quit ∷ [];
                  asking = full.asking - 1;
                }))))
diagnostics_after_exit_example = diagnostics_after_exit refl (goes_on begins (sends sent_twice))

-- The machine after a collection of diagnostics.
abbrev collected : Machine
collected = after (collect_stack_trace (codes "diags") (codes "1") profiles machine)

collection : collect_stack_trace (codes "diags") (codes "1") profiles machine ≡ next true collected
unfolding collect_stack_trace text_eq join_path text
collection = refl

collect_stack_trace_example :
    All (IsDumped (join_path (codes "diags") (codes "1")) collected) (written_profiles profiles)
    × (collected.entry (join_path (join_path (codes "diags") (codes "1")) (text "cpu.out"))
        ≡ file (cpu_content profiles.cpu))
collect_stack_trace_example =
    collect_stack_trace_complete (codes "diags") (codes "1") profiles machine collected collection
