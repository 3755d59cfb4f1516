-- ===== src/Executor/Launch.antt =====
-- How a job starts: `executeJob` up to its `select`.
use web_based_jobs_worker_se.Base.{
  ℕ, ◌<◌, ◌*◌, ◌≡◌, refl, ap, ◌∙◌, Bool, true, false, none, some, arith, Text, pos, int_scale,
  int_scale-pos, if◌then◌else◌,
}
use web_based_jobs_worker_se.Models.{unlocked, Job}
use web_based_jobs_worker_se.Config.{Configuration}
use web_based_jobs_worker_se.Env.{Calendar}
use web_based_jobs_worker_se.Worker.{World, returned, put}
use web_based_jobs_worker_se.Worker.Cells.{At, put-At, load_lem, modify_lem}
use web_based_jobs_worker_se.Executor.{
  null_device, Cmd, Launching, timeout_of, command_of, dump_path, launch,
}
use web_based_jobs_worker_se.Executor.Outputs.{
  Kind, short, streaming, teeing, dumping, discarding, kind_of, sink_of, error_of, opened, launched,
  launched-put, launch_output_lem,
}

opened-restart :
    (kind : Kind) (path : Text) (e : Launching) (j : Job)
    → opened kind path e (record j { starttime = e.now }) ≡ opened kind path e j
unfolding opened
opened-restart short path e j = refl
opened-restart streaming path e j = refl
opened-restart teeing path e j = refl
opened-restart dumping path e j = refl
opened-restart discarding path e j = refl

module _ (c : Configuration) (cal : Calendar) (e : Launching) (p : ℕ) (j : Job) (w : World)
    (h : At w p j) (free : j.lock ≡ unlocked) where
  abbrev pub dump_file : Text
  dump_file = dump_path c.jobs_outputs_folder cal j

  -- The command that runs, if nothing fails.
  abbrev pub command : Cmd
  command = record (command_of c e.windows j) { stdout = sink_of (kind_of j) dump_file }

  -- For a job whose lock is free, `executeJob` always comes through to its `select` or returns
  -- before it. It gives each kind of job its output and stops at the first error that the kind can
  -- meet: then the job is completed with that message and not successful; with no error the process
  -- runs and its id is recorded.
  pub launch_lem :
      launch c cal e p w
      ≡ launched e p command (error_of (kind_of j) e) (opened (kind_of j) dump_file e j) w
  unfolding launch kind_of dump_path command_of timeout_of
  launch_lem =
      let j₀ = record j { starttime = e.now } in
      let w₀ = put p j₀ w in
      let h₀ = put-At p j₀ w h in
      rw (modify_lem p j w h (λ k. record k { starttime = e.now })) (
        rw (load_lem p j₀ w₀ h₀) (
          rw
            (launch_output_lem e p j₀ w₀ h₀ free dump_file (command_of c e.windows j) j.islong
              j.stream j.dump)
            (rw (opened-restart (kind_of j) dump_file e j) (
              launched-put e p command (error_of (kind_of j) e) (opened (kind_of j) dump_file e j)
                j₀ w))))

  -- Whatever the job, if its lock is free and no error is met, the process starts with its standard
  -- error on the null device: the output that the job keeps, streams or dumps is the standard
  -- output only.
  pub launch_loses_stderr :
      error_of (kind_of j) e ≡ none
      → (cmd : Cmd) × (w' : World) × (launch c cal e p w ≡ returned (some cmd) w')
        × (cmd.stdout ≡ sink_of (kind_of j) dump_file)
        × (cmd.stderr ≡ null_device)
  unfolding launched command_of
  launch_loses_stderr ok = (
    command,
    put p (record (opened (kind_of j) dump_file e j) { pid = e.pid; lock = unlocked }) w,
    rw launch_lem (rw ok refl),
    refl,
    refl,
  )

scaled_timeout :
    (n : ℕ) (islong : Bool)
    → n < 150000000
    → int_scale (pos n) (if islong then 60000000000 else 1000000000)
      ≡ pos (n * (if islong then 60000000000 else 1000000000))
scaled_timeout n true hi = int_scale-pos n 60000000000 (omega arith)
scaled_timeout n false hi = int_scale-pos n 1000000000 (omega arith)

scaled_positive :
    (n : ℕ) (islong : Bool) → 0 < n → 0 < n * (if islong then 60000000000 else 1000000000)
scaled_positive n true lo = omega arith
scaled_positive n false lo = omega arith

-- The timeout of a command neither overflows nor is negative for a job whose timeout is positive
-- and below 150 million: it is that many minutes for a long job and seconds for a short one.
pub timeout_of_bounds :
    (n : ℕ) (j : Job)
    → j.timeout ≡ pos n
    → 0 < n
    → n < 150000000
    → (ns : ℕ) × (timeout_of j ≡ pos ns)
      × (ns ≡ n * (if j.islong then 60000000000 else 1000000000))
      × (0 < ns)
unfolding timeout_of
timeout_of_bounds n j e lo hi = (
  n * (if j.islong then 60000000000 else 1000000000),
  ap (λ t. int_scale t (if j.islong then 60000000000 else 1000000000)) e
      ∙ scaled_timeout n j.islong hi,
  refl,
  scaled_positive n j.islong lo,
)
