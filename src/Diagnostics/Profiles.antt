-- ===== src/Diagnostics/Profiles.antt =====
-- `collectStackTrace` (controllers.go): the files of one collection of diagnostics. The profiles of
-- the runtime are a parameter.
pub mod Complete
use web_based_jobs_worker_se.Base.{Bool, true, false, Option, none, some, Text}
use web_based_jobs_worker_se.Http.{text}
use web_based_jobs_worker_se.Host.{
  file, Machine, put_entry, next, S, pure, ◌>>=◌, ◌>>◌, create, create_folder, join_path,
}

-- What the runtime writes for each profile; `none` where `WriteTo` fails, and for the CPU where the
-- profiling cannot be started.
pub record Profiles : Type 0 where
  pub cpu : Option Text
  pub goroutine : Option Text
  pub threadcreate : Option Text
  pub block : Option Text
  pub mutex : Option Text
  pub heap : Option Text
  pub allocs : Option Text

-- Writing a profile into its file, with what `allgood` is then.
unfoldable pub write_profile : Text → Option Text → Bool → S Bool
write_profile path none allgood m = next false m
write_profile path (some profile) allgood m = next allgood (put_entry path (file profile) m)

-- Creating the file and writing the profile.
unfoldable pub dump_profile : Text → Text → Option Text → Bool → S Bool
unfolding create write_profile
dump_profile folder name profile allgood = do
  err ← create (join_path folder name)
  elim err [ some _ ↦ pure false | none ↦ write_profile (join_path folder name) profile allgood ]

-- The error of `StartCPUProfile` is not looked at: the file stays as it was created.
unfoldable pub write_cpu_profile : Text → Option Text → S Bool
write_cpu_profile path none m = next true m
write_cpu_profile path (some profile) m = next true (put_entry path (file profile) m)

unfoldable pub dump_cpu_profile : Text → Option Text → S Bool
unfolding create write_cpu_profile
dump_cpu_profile folder profile = do
  err ← create (join_path folder (text "cpu.out"))
  elim err [
    | some _ ↦ pure false
    | none ↦ write_cpu_profile (join_path folder (text "cpu.out")) profile
  ]

-- What follows the file of the block profile.
after_block : Text → Profiles → Bool → S Bool
unfolding dump_profile write_profile
after_block folder p allgood = do
  block ← write_profile (join_path folder (text "block.out")) p.block allgood
  mutex ← dump_profile folder (text "mutex.out") p.mutex block
  heap ← dump_profile folder (text "memory.out") p.heap mutex
  dump_profile folder (text "allocs.out") p.allocs heap

-- If the file of the block profile cannot be created, the function returns at once.
unfoldable pub dump_profiles : Text → Profiles → S Bool
unfolding dump_profile dump_cpu_profile after_block create
dump_profiles folder p = do
  cpu ← dump_cpu_profile folder p.cpu
  goroutine ← dump_profile folder (text "goroutine.out") p.goroutine cpu
  threads ← dump_profile folder (text "threads.out") p.threadcreate goroutine
  err ← create (join_path folder (text "block.out"))
  elim err [ some _ ↦ pure false | none ↦ after_block folder p threads ]

-- `collectStackTrace`.
unfoldable pub collect_stack_trace : Text → Text → Profiles → S Bool
unfolding create_folder dump_profiles
collect_stack_trace location diagid p = do
  err ← create_folder (join_path location diagid)
  elim err [ some _ ↦ pure false | none ↦ dump_profiles (join_path location diagid) p ]
