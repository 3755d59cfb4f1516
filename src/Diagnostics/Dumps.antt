-- ===== src/Diagnostics/Dumps.antt =====
-- One dump at a time, and an orderly end.
use mathlib.Core.List.{append-nil, append_assoc}
use web_based_jobs_worker_se.Base.{
  ℕ, ◌+◌, ◌-◌, ◌<◌, ◌≤◌, ◌≡◌, refl, sym, ap, ◌∙◌, ◌⊎◌, Bool, true, false, not, ◌&&◌, ◌||◌, List, [],
  ◌∷◌, ◌++◌, none, some, arith, length, length-append, if◌then◌else◌,
}
use web_based_jobs_worker_se.Diagnostics.{
  Signal, quit, terminate, Signals, Phase, waits, tests, flags, spawns, stops, removes, closes,
  left, listening, deliver, going_on, get_diagnostics, send_signal_for_trace_dump, handle_phase,
  handle_signals, receive_signal, finish_dump, SignalStep, delivers, asks, sends, handles, finishes,
  SignalRun, begins, goes_on,
}

-- The dumps that the handler is about to start, with the flag set.
abbrev pub spawning : Phase → ℕ
spawning spawns = 1
spawning _ = 0

abbrev pub is_flagging : Phase → Bool
is_flagging flags = true
is_flagging _ = false

-- Whether the handler has still to stop the notification, to try to remove the pid file, and to
-- close the exit channel.
abbrev pub is_before_removal : Phase → Bool
is_before_removal removes = true
is_before_removal closes = false
is_before_removal left = false
is_before_removal _ = true

abbrev pub is_before_stop : Phase → Bool
is_before_stop removes = false
is_before_stop p = is_before_removal p

abbrev pub has_left : Phase → Bool
has_left left = true
has_left _ = false

-- The flag tells whether a dump goes on or is just being started, of which there is at most one;
-- the channel is within its capacity; and the handler ends in this order: the notification stops,
-- the pid file is removed, if it can be, and the exit channel is closed.
pub record IsOrderly (removable : Bool) (s : Signals) : Type 0 where
  pub flag : s.dumps + spawning s.phase ≡ (if s.is_dumping then 1 else 0)
  pub clear : is_flagging s.phase && s.is_dumping ≡ false
  pub room : length s.signals_chan ≤ 2
  pub told : s.notified ≡ is_before_stop s.phase
  pub lasting : s.removable ≡ removable
  pub file_kept : s.pid_file ≡ (is_before_removal s.phase || not removable)
  pub closed : s.exit_closed ≡ has_left s.phase

module _ {removable : Bool} where
  deliver-IsOrderly :
      (sig : Signal) {s : Signals} → IsOrderly removable s → IsOrderly removable (deliver sig s)
  unfolding deliver
  deliver-IsOrderly sig {s} v = ground (arith, length-append s.signals_chan (sig ∷ []))

  asks-IsOrderly :
      {s t : Signals}
      → get_diagnostics s ≡ going_on t
      → IsOrderly removable s
      → IsOrderly removable t
  unfolding get_diagnostics
  asks-IsOrderly h v = ground arith

  sends-IsOrderly :
      {s t : Signals}
      → send_signal_for_trace_dump s ≡ some t
      → IsOrderly removable s
      → IsOrderly removable t
  unfolding send_signal_for_trace_dump
  sends-IsOrderly {s} h v = ground (arith, length-append s.signals_chan (quit ∷ []))

  receive-IsOrderly :
      (l : List Signal) {s : Signals}
      → s.signals_chan ≡ l
      → s.phase ≡ waits
      → IsOrderly removable s
      → IsOrderly removable (receive_signal l s)
  unfolding receive_signal
  receive-IsOrderly [] e h v = v
  receive-IsOrderly (quit ∷ l) e h v = ground arith
  receive-IsOrderly (terminate ∷ l) e h v = ground arith

  handle-IsOrderly :
      (p : Phase) {s : Signals}
      → s.phase ≡ p
      → IsOrderly removable s
      → IsOrderly removable (handle_phase p s)
  unfolding handle_phase
  handle-IsOrderly waits {s} h v = receive-IsOrderly s.signals_chan refl h v
  handle-IsOrderly tests h v = ground arith
  handle-IsOrderly flags h v = ground arith
  handle-IsOrderly spawns h v = ground arith
  handle-IsOrderly stops h v = ground arith
  handle-IsOrderly removes h v = ground arith
  handle-IsOrderly closes h v = ground arith
  handle-IsOrderly left h v = v

  finish-IsOrderly : {s : Signals} → IsOrderly removable s → IsOrderly removable (finish_dump s)
  unfolding finish_dump
  finish-IsOrderly v = ground arith

  step-IsOrderly : {s t : Signals} → SignalStep s t → IsOrderly removable s → IsOrderly removable t
  unfolding handle_signals
  step-IsOrderly (delivers sig e) v = rw e (deliver-IsOrderly sig v)
  step-IsOrderly (asks e) v = asks-IsOrderly e v
  step-IsOrderly (sends e) v = sends-IsOrderly e v
  step-IsOrderly {s} (handles e) v = rw e (handle-IsOrderly s.phase refl v)
  step-IsOrderly (finishes e) v = rw e (finish-IsOrderly v)

-- Whatever signals and requests come, and in whatever order the goroutines take their steps,
-- whether the pid file can be removed or not: the flag `isDumping` is set exactly while a dump goes
-- on or is just being started, of which there is never more than one; the channel holds at most two
-- signals; and after an exit signal the notification of signals is stopped before the handler tries
-- to remove the pid file, the file is gone from then on exactly if it can be removed, and the exit
-- channel is closed after that, just when the handler leaves its loop.
pub run-IsOrderly :
    {removable : Bool} {s : Signals} → SignalRun (listening removable) s → IsOrderly removable s
run-IsOrderly begins = record {
  flag = refl;
  clear = refl;
  room = omega arith;
  told = refl;
  lasting = refl;
  file_kept = refl;
  closed = refl;
}
run-IsOrderly (goes_on r st) = step-IsOrderly st (run-IsOrderly r)

-- The handler has left its loop, and the channel holds what it held, and perhaps more behind it.
record IsOver (s t : Signals) : Type 0 where
  over : t.phase ≡ left
  kept : (rest : List Signal) × (t.signals_chan ≡ s.signals_chan ++ rest)
  fewer : t.dumps ≤ s.dumps

pushed :
    (before after : List Signal) (sig : Signal)
    → (rest : List Signal) × (after ≡ before ++ rest)
    → (rest : List Signal) × (after ++ sig ∷ [] ≡ before ++ rest)
pushed before after sig (rest, e) =
    (rest ++ sig ∷ [], ap (λ l. l ++ sig ∷ []) e ∙ append_assoc before rest (sig ∷ []))

step-IsOver : {s t u : Signals} → SignalStep t u → IsOver s t → IsOver s u
unfolding deliver get_diagnostics send_signal_for_trace_dump handle_signals handle_phase finish_dump
step-IsOver {s = s} {t = t} (delivers sig e) v =
    let more = pushed s.signals_chan t.signals_chan sig v.kept in ground arith
step-IsOver (asks e) v = ground arith
step-IsOver {s = s} {t = t} (sends e) v =
    let more = pushed s.signals_chan t.signals_chan quit v.kept in ground arith
step-IsOver (handles e) v = ground arith
step-IsOver (finishes e) v = ground arith

after_exit : {s t : Signals} → s.phase ≡ left → SignalRun s t → IsOver s t
after_exit {s} h begins = record {
  over = h;
  kept = ([], sym (append-nil s.signals_chan));
  fewer = omega arith;
}
after_exit h (goes_on r st) = step-IsOver st (after_exit h r)

-- Once the handler has left its loop it never returns to it, no dump is started any more, and what
-- is in the channel stays there, with what comes later behind it. If the channel is full then, a
-- request for diagnostics that has found no dump going on waits at its send in every later state.
-- In a later state in which the channel has room, such a request still gets its signal into the
-- channel.
pub diagnostics_after_exit :
    {s t : Signals}
    → s.phase ≡ left
    → SignalRun s t
    → (t.phase ≡ left)
      × (t.dumps ≤ s.dumps)
      × ((rest : List Signal) × (t.signals_chan ≡ s.signals_chan ++ rest))
      × ((length s.signals_chan < 2) ⊎ (send_signal_for_trace_dump t ≡ none))
      × ((t.asking ≡ 0)
          ⊎ ((2 ≤ length t.signals_chan)
              ⊎ (send_signal_for_trace_dump t
                  ≡ some (record t {
                    signals_chan = t.signals_chan ++ quit ∷ [];
                    asking = t.asking - 1;
                  }))))
unfolding send_signal_for_trace_dump
diagnostics_after_exit {s} {t} h r =
    let v = after_exit h r in
    let (rest, e) = v.kept in
    (v.over, v.fewer, v.kept, ground (arith, e, length-append s.signals_chan rest), ground arith)
