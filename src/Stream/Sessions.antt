-- ===== src/Stream/Sessions.antt =====
-- Streaming sessions: one client at a time in sequence, but not when two of them start together.
use web_based_jobs_worker_se.Base.{
  List, [], ◌∷◌, ◌++◌, ℕ, ◌≡◌, refl, ap, ◌∙◌, true, false, List, Option, none, some, Text, text_key,
  int_inc, set-set, if◌then◌else◌,
}
use web_based_jobs_worker_se.Models.{unlocked, reading, Job}
use web_based_jobs_worker_se.Http.{text}
use web_based_jobs_worker_se.Worker.{
  World, M, returned, panicked, pure, ◌>>=◌, ◌>>◌, load, put, job_rlock, job_runlock,
}
use web_based_jobs_worker_se.Worker.Cells.{At, put-put, put-At, load_lem}
use web_based_jobs_worker_se.Executor.Finish.{locked_update_last}
use web_based_jobs_worker_se.Status.Infos.{job_rlock_lem, job_runlock_lem, restored}
use web_based_jobs_worker_se.Stream.{
  Read, judge_idle, judge_stream, check_stream, claim_stream, release_stream, line, failed,
  stream_loop, end_message, stream_from, stream_found,
}

-- Reading a job under its lock leaves the world as it was.
observe :
    {A : Type 0} (p : ℕ) (j : Job) (k : Job → M A) (w : World)
    → At w p j
    → j.lock ≡ unlocked
    → (job_rlock p >> (load p >>= λ i. job_runlock p >> k i)) w
      ≡ k (record j { lock = reading 0 }) w
observe p j k w h free =
    let j₁ = record j { lock = reading 0 } in
    let w₁ = put p j₁ w in
    let h₁ = put-At p j₁ w h in
    rw (job_rlock_lem p j w h free) (
      rw (load_lem p j₁ w₁ h₁)
        (rw (job_runlock_lem p j₁ w₁ h₁ refl) (ap (λ v. k j₁ v) (restored p j j₁ w h free))))

-- A job that is being streamed to one more client.
abbrev pub claimed : Job → Job
claimed j = record j { isstreaming = true; fetchcount = int_inc j.fetchcount; lock = unlocked }

module _ (p : ℕ) (j : Job) (w : World) (h : At w p j) (free : j.lock ≡ unlocked) where
  claim_stream_lem : claim_stream p w ≡ returned tt (put p (claimed j) w)
  unfolding claim_stream
  claim_stream_lem =
      locked_update_last p (λ k. record k { isstreaming = true; fetchcount = int_inc k.fetchcount })
        j w h free refl

  release_stream_lem :
      release_stream p w ≡ returned tt (put p (record j { isstreaming = false; lock = unlocked }) w)
  unfolding release_stream
  release_stream_lem = locked_update_last p (λ k. record k { isstreaming = false }) j w h free refl

module _ (id : Text) (p : ℕ) (j : Job) (w : World) (h : At w p j) (free : j.lock ≡ unlocked) where
  check_stream_running :
      j.iscompleted ≡ false → j.islong ≡ true → check_stream id p w ≡ judge_idle j.isstreaming w
  unfolding check_stream judge_stream
  check_stream_running running long =
      observe p j (λ i. judge_stream i.iscompleted i.islong id p) w h free
      ∙ (ap (λ b. judge_stream b j.islong id p w) running
          ∙ (ap (λ b. judge_stream false b id p w) long
              ∙ observe p j (λ k. judge_idle k.isstreaming) w h free))

  check_stream_free :
      j.iscompleted ≡ false
      → j.islong ≡ true
      → j.isstreaming ≡ false
      → check_stream id p w ≡ returned none w
  unfolding judge_idle
  check_stream_free running long idle =
      check_stream_running running long ∙ ap (λ b. judge_idle b w) idle

abbrev pub busy : Text
busy =
    text
      "The job output stream is already being consumed. Only one live streaming at a moment or you can stop the job."

-- Two clients, the second of which makes its tests after the first has set the flag, or before.
abbrev pub in_turn : Text → ℕ → M (Option Text × Option Text)
in_turn id p = do
  first ← check_stream id p
  claim_stream p
  second ← check_stream id p
  pure (first, second)

abbrev pub at_once : Text → ℕ → M (Option Text × Option Text)
at_once id p = do
  first ← check_stream id p
  second ← check_stream id p
  claim_stream p
  claim_stream p
  pure (first, second)

module _ (id : Text) (p : ℕ) (j : Job) (w : World) (h : At w p j) (free : j.lock ≡ unlocked)
    (running : j.iscompleted ≡ false) (long : j.islong ≡ true) (idle : j.isstreaming ≡ false) where
  -- For a running long job that no one streams and no one has locked, a client that comes when
  -- another one has started its session is refused, and one that comes after the end of that
  -- session is not.
  pub one_stream_in_sequence :
      (in_turn id p w ≡ returned (none, some busy) (put p (claimed j) w))
      × ((claim_stream p >> (release_stream p >> check_stream id p)) w
          ≡ returned none (put p (record (claimed j) { isstreaming = false }) w))
  unfolding judge_idle
  one_stream_in_sequence =
      let w₁ = put p (claimed j) w in
      let h₁ = put-At p (claimed j) w h in
      let j₂ = record (claimed j) { isstreaming = false } in
      (
        rw (check_stream_free id p j w h free running long idle) (
            rw (claim_stream_lem p j w h free)
              (rw (check_stream_running id p (claimed j) w₁ h₁ refl running long) refl)),
        rw (claim_stream_lem p j w h free) (
            rw (release_stream_lem p (claimed j) w₁ h₁ refl) (
              rw (put-put p (claimed j) j₂ w)
                (check_stream_free id p j₂ (put p j₂ w) (put-At p j₂ w h) refl running long refl))),
      )

  -- Two clients of a running long job that no one streams and no one has locked both pass the tests
  -- of `streamJob`, if the second one makes its tests before the first one has set the flag.
  pub two_streams_at_once : at_once id p w ≡ returned (none, none) (put p (claimed (claimed j)) w)
  two_streams_at_once =
      let w₁ = put p (claimed j) w in
      let tested = check_stream_free id p j w h free running long idle in
      rw tested (
        rw tested (
          rw (claim_stream_lem p j w h free) (
            rw (claim_stream_lem p (claimed j) w₁ (put-At p (claimed j) w h) refl) (simp set-set))))

  -- Streaming a running long job with the dump option that has no reader, and that no one streams
  -- or has locked, panics: the flag is reset first, and the fetch is counted.
  pub stream_dumping_panics :
      (reads : List Read)
      → j.dump ≡ true
      → j.outstream ≡ false
      → stream_found reads id p w ≡ panicked (put p (record (claimed j) { isstreaming = false }) w)
  unfolding stream_found stream_from
  stream_dumping_panics reads dump no_reader =
      let w₁ = put p (claimed j) w in
      let h₁ = put-At p (claimed j) w h in
      rw (check_stream_free id p j w h free running long idle) (
        rw (claim_stream_lem p j w h free) (
          rw (load_lem p (claimed j) w₁ h₁) (
            ap (λ b. stream_from b reads p w₁)
              (ap (λ b. if b then j.outstream else j.outpipe) dump ∙ no_reader)
            ∙ rw (release_stream_lem p (claimed j) w₁ h₁ refl) (simp set-set))))

abbrev pub lines_of : List Text → List Read
lines_of [] = failed true ∷ []
lines_of (b ∷ bs) = line b true ∷ lines_of bs

stream_loop_lines :
    (bs : List Text) (p : ℕ) (k : Job) (w : World)
    → At w p k
    → k.iscompleted ≡ true
    → stream_loop (lines_of bs) p w ≡ returned (bs ++ text "Job completed. No more stream." ∷ []) w
unfolding stream_loop end_message
stream_loop_lines [] p k w h over = rw (load_lem p k w h) (rw over refl)
stream_loop_lines (b ∷ bs) p k w h over = rw (stream_loop_lines bs p k w h over) refl

-- A session that has started on a job that no one has locked, and reads the lines of its output and
-- then the end of the stream when the job is completed, with a client that takes every line, sends
-- exactly these lines in order and the final message, and leaves the job free for the next session.
pub stream_sends_output :
    (bs : List Text) (p : ℕ) (k : Job) (w : World)
    → At w p k
    → k.lock ≡ unlocked
    → k.iscompleted ≡ true
    → stream_from true (lines_of bs) p w
      ≡ returned
          (bs ++ text "Job completed. No more stream." ∷ [])
          (put p (record k { isstreaming = false; lock = unlocked }) w)
unfolding stream_from
stream_sends_output bs p k w h free over =
    rw (stream_loop_lines bs p k w h over) (rw (release_stream_lem p k w h free) refl)
