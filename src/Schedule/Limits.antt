-- ===== src/Schedule/Limits.antt =====
-- The limits that a scheduled job ends up with, whatever the request asks for.
use web_based_jobs_worker_se.Base.{
  ℕ, ◌+◌, ◌≡◌, refl, ◌⊎◌, inl, inr, Bool-cases, ◌↔◌, Bool, true, false, List, [], none, some, arith,
  Text, ℤ, pos, ◌≤ℤ◌, ◌<ℤ◌, if◌then◌else◌,
}
use web_based_jobs_worker_se.Models.{Job, JobScheduleModel}
use web_based_jobs_worker_se.Config.{Configuration}
use web_based_jobs_worker_se.Env.{Ticket}
use web_based_jobs_worker_se.Strconv.{atoi}
use web_based_jobs_worker_se.Http.{text, query_get}
use web_based_jobs_worker_se.Jobs.{
  fresh_job, api_timeout, api_job, limit_of, web_memlimit, web_cpulimit, web_timeout, short_job,
  streaming_job, dumping_job,
}

-- Every default is positive and within its maximum.
pub record HasSoundLimits (c : Configuration) : Type 0 where
  pub short_timeout : pos 0 <ℤ c.short_job_timeout
  pub long_timeout : pos 0 <ℤ c.long_job_timeout
  pub mem_default : pos 0 <ℤ c.memory_limit_default_megabytes
  pub mem_max : c.memory_limit_default_megabytes ≤ℤ c.memory_limit_max_megabytes
  pub cpu_default : pos 0 <ℤ c.cpu_limit_default_percentage
  pub cpu_max : c.cpu_limit_default_percentage ≤ℤ c.cpu_limit_max_percentage

-- Memory and cpu of a job are positive and within the configured maximum.
pub record IsWithinLimits (c : Configuration) (j : Job) : Type 0 where
  pub mem_low : pos 0 <ℤ j.memlimit
  pub mem_high : j.memlimit ≤ℤ c.memory_limit_max_megabytes
  pub cpu_low : pos 0 <ℤ j.cpulimit
  pub cpu_high : j.cpulimit ≤ℤ c.cpu_limit_max_percentage

-- A short job has a result buffer and neither streams nor dumps; a long job has no buffer.
abbrev pub IsWellFormed : Job → Type 0
IsWellFormed j =
    ((j.islong ≡ true) × (j.result ≡ none))
    ⊎ ((j.islong ≡ false)
        × (j.stream ≡ false)
        × (j.dump ≡ false)
        × (buf : Text) × (j.result ≡ some buf))

limit_of_bounds :
    (value : Text) (default max : ℤ)
    → pos 0 <ℤ default
    → default ≤ℤ max
    → (pos 0 <ℤ limit_of value default max) × (limit_of value default max ≤ℤ max)
unfolding limit_of
limit_of_bounds value default max lo hi = ground arith

api_limits :
    (c : Configuration) (m : JobScheduleModel) (t : Ticket)
    → HasSoundLimits c
    → IsWithinLimits c (api_job c m t)
unfolding api_job
api_limits c m t s = ground arith

-- If the configured defaults are positive and within their maxima, a job scheduled through the API
-- is within the memory and cpu limits. A long one times out after at most the long timeout; a short
-- one after the short timeout or before the long one.
pub api_job_limits :
    (c : Configuration) (m : JobScheduleModel) (t : Ticket)
    → HasSoundLimits c
    → let j = api_job c m t in
      IsWithinLimits c j
      × (pos 0 <ℤ j.timeout)
      × (((j.islong ≡ true) × (j.timeout ≤ℤ c.long_job_timeout))
          ⊎ ((j.islong ≡ false)
              × ((j.timeout ≡ c.short_job_timeout) ⊎ (j.timeout <ℤ c.long_job_timeout))))
unfolding api_job
api_job_limits c m t s = (api_limits c m t s, ground arith, ground arith)

-- Whatever the request asks, a short job that is scheduled through the API has a result buffer and
-- neither streams nor dumps, and a long one has no buffer.
pub api_job-IsWellFormed :
    (c : Configuration) (m : JobScheduleModel) (t : Ticket) → IsWellFormed (api_job c m t)
unfolding api_job
api_job-IsWellFormed c m t = elim (Bool-cases m.islong) [
  | inl long ↦ inl (long, ground arith)
  | inr short ↦ inr (short, ground arith, ground arith, [], ground arith)
]

module _ (c : Configuration) (q : List (Text × List Text)) (s : HasSoundLimits c) where
  fresh_limits :
      (t : Ticket) (cmd : Text) (islong stream dump : Bool)
      → IsWithinLimits c (
          fresh_job t cmd islong stream dump
            (web_memlimit c q)
            (web_cpulimit c q)
            (web_timeout c q islong))
  unfolding fresh_job web_memlimit web_cpulimit
  fresh_limits t cmd islong stream dump =
      let mem =
        limit_of_bounds (query_get (text "mem") q) c.memory_limit_default_megabytes
          c.memory_limit_max_megabytes s.mem_default s.mem_max in
      let cpu =
        limit_of_bounds (query_get (text "cpu") q) c.cpu_limit_default_percentage
          c.cpu_limit_max_percentage s.cpu_default s.cpu_max in
      record { mem_low = mem.0; mem_high = mem.1; cpu_low = cpu.0; cpu_high = cpu.1 }

  web_timeout_bounds :
      (islong : Bool)
      → (pos 0 <ℤ web_timeout c q islong)
        × (web_timeout c q islong ≤ℤ (if islong then c.long_job_timeout else c.short_job_timeout))
  unfolding web_timeout
  web_timeout_bounds true =
      limit_of_bounds (query_get (text "timeout") q) c.long_job_timeout c.long_job_timeout
        s.long_timeout (omega arith)
  web_timeout_bounds false =
      limit_of_bounds (query_get (text "timeout") q) c.short_job_timeout c.short_job_timeout
        s.short_timeout (omega arith)

  -- If the configured defaults are positive and within their maxima, the short, streaming and
  -- dumping jobs of a web request are well formed and within the memory, cpu and timeout limits,
  -- whatever the query says.
  pub web_jobs_limits :
      (t : Ticket) (cmd : Text) (dump : Bool)
      → let short = short_job c q t cmd in
        let streaming = streaming_job c q dump t cmd in
        let dumping = dumping_job c q t cmd in
        (IsWithinLimits c short
          × IsWellFormed short
          × (pos 0 <ℤ short.timeout)
          × (short.timeout ≤ℤ c.short_job_timeout))
        × (IsWithinLimits c streaming
            × IsWellFormed streaming
            × (pos 0 <ℤ streaming.timeout)
            × (streaming.timeout ≤ℤ c.long_job_timeout))
        × (IsWithinLimits c dumping
            × IsWellFormed dumping
            × (pos 0 <ℤ dumping.timeout)
            × (dumping.timeout ≤ℤ c.long_job_timeout))
  unfolding short_job streaming_job dumping_job
  web_jobs_limits t cmd dump =
      let short = web_timeout_bounds false in
      let long = web_timeout_bounds true in
      (
        (
          grind (arith, fresh_limits t cmd false false false),
          inr (refl, refl, refl, [], refl),
          short.0,
          short.1,
        ),
        (fresh_limits t cmd true true dump, inl (refl, refl), long.0, long.1),
        (fresh_limits t cmd true false true, inl (refl, refl), long.0, long.1),
      )

-- The API and the web handler give a short job with the same positive timeout `n` the same limit
-- exactly if `n` is the short timeout, or below both timeouts, or not below the long timeout and
-- above the short one: the API tests `n` against the timeout of long jobs.
pub short_timeouts_agree :
    (c : Configuration) (m : JobScheduleModel) (q : List (Text × List Text)) (n : ℕ)
    → m.islong ≡ false
    → m.timeout ≡ pos (n + 1)
    → atoi (query_get (text "timeout") q) ≡ some (pos (n + 1))
    → (api_timeout c m ≡ web_timeout c q false) ↔ (
        (pos (n + 1) ≡ c.short_job_timeout)
        ⊎ ((pos (n + 1) <ℤ c.short_job_timeout) × (pos (n + 1) <ℤ c.long_job_timeout)
            ⊎ (c.short_job_timeout <ℤ pos (n + 1)) × (c.long_job_timeout ≤ℤ pos (n + 1))))
unfolding api_timeout web_timeout limit_of
short_timeouts_agree c m q n short e f = (ground arith, ground arith)
