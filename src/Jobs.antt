-- ===== src/Jobs.antt =====
-- The jobs that requests ask for: their limits, options and links. The API's are made in
-- `apiScheduleJobs` (handlers.api.go), the others in `scheduleShortRunningJobs` (handlers.web.go),
-- `scheduleLongJobsWithStreaming` and `scheduleLongJobsWithDumping` (streaming.go); their details
-- are those of `scheduledInfos` (helpers.go).
use web_based_jobs_worker_se.Base.{
  ℕ, Bool, true, false, ◌&&◌, ◌||◌, List, [], ◌++◌, none, some, Text, text_key, ℤ, pos, negsuc,
  ltb_ℤ, leb_ℤ, if◌then◌else◌,
}
use web_based_jobs_worker_se.Models.{unlocked, Job, JobScheduleModel, JobScheduledInfos}
use web_based_jobs_worker_se.Config.{Configuration}
use web_based_jobs_worker_se.Env.{Calendar, Ticket, time_location}
use web_based_jobs_worker_se.JobId.{generate_id}
use web_based_jobs_worker_se.Strconv.{atoi}
use web_based_jobs_worker_se.Http.{text, query_get}
use web_based_jobs_worker_se.Worker.{M, pure, ◌>>=◌, ◌>>◌, load, job_rlock, job_runlock}

module _ (c : Configuration) where
  -- A link of the worker to one job.
  unfoldable pub job_link : Text → Text → Text
  job_link path id =
      text "https://"
      ++ (c.https_server_host ++ (text ":" ++ (c.https_server_port ++ (path ++ id))))

  -- The link under which the output of a job is to be had.
  unfoldable pub output_link : Job → Text
  output_link j =
      if j.islong
      then (if j.stream
          then job_link (text "/worker/web/v1/jobs/long/output/stream?id=") j.id
          else if j.dump
          then job_link (text "/worker/web/v1/jobs/x/output/download?id=") j.id
          else text "n/a")
      else job_link (text "/worker/api/v1/jobs/fetch?id=") j.id

  unfoldable pub infos_of : Calendar → Text → Job → JobScheduledInfos
  unfolding output_link
  infos_of cal location j = record {
    id = j.id;
    task = j.task;
    islong = j.islong;
    memlimit = j.memlimit;
    cpulimit = j.cpulimit;
    timeout = j.timeout;
    stream = j.stream;
    dump = j.dump;
    submittime = cal.format location j.submittime;
    statuslink = job_link (text "/worker/api/v1/jobs/status?id=") j.id;
    outputlink = output_link j;
  }

  -- `scheduledInfos`.
  unfoldable pub scheduled_infos : Calendar → Text → ℕ → M JobScheduledInfos
  unfolding infos_of
  scheduled_infos cal location p = do
    job_rlock p
    j ← load p
    job_runlock p
    pure (infos_of cal location j)

-- The `&Job{…}` of the four handlers, without the result buffer.
unfoldable pub fresh_job : Ticket → Text → Bool → Bool → Bool → ℤ → ℤ → ℤ → Job
fresh_job t task islong stream dump memlimit cpulimit timeout = record {
  id = generate_id t.random t.unixnano;
  pid = 0;
  task = task;
  islong = islong;
  stream = stream;
  dump = dump;
  memlimit = memlimit;
  cpulimit = cpulimit;
  timeout = timeout;
  iscompleted = false;
  issuccess = false;
  exitcode = negsuc 0;
  errormsg = [];
  fetchcount = pos 0;
  stop = 0;
  outpipe = false;
  outstream = false;
  isstreaming = false;
  lock = unlocked;
  result = none;
  filename = [];
  submittime = t.now;
  starttime = 0;
  endtime = 0;
}

module _ (c : Configuration) (m : JobScheduleModel) where
  unfoldable pub api_timeout : ℤ
  api_timeout =
      if leb_ℤ m.timeout (pos 0) || leb_ℤ c.long_job_timeout m.timeout
      then (if m.islong then c.long_job_timeout else c.short_job_timeout)
      else m.timeout

  unfoldable pub api_cpulimit : ℤ
  api_cpulimit =
      if ltb_ℤ (pos 0) m.cpulimit && leb_ℤ m.cpulimit c.cpu_limit_max_percentage
      then m.cpulimit
      else c.cpu_limit_default_percentage

  unfoldable pub api_memlimit : ℤ
  api_memlimit =
      if ltb_ℤ (pos 0) m.memlimit && leb_ℤ m.memlimit c.memory_limit_max_megabytes
      then m.memlimit
      else c.memory_limit_default_megabytes

  -- The job made of one entry of the request: only a long job can stream or dump, and only a
  -- short one has a result buffer.
  unfoldable pub api_job : Ticket → Job
  unfolding api_timeout api_cpulimit api_memlimit fresh_job
  api_job t =
      let j =
        fresh_job t m.task m.islong (m.islong && m.stream) (m.islong && m.dump) api_memlimit
          api_cpulimit api_timeout in
      record j { result = if m.islong then none else some [] }

-- `if n, err := strconv.Atoi(query.Get(key)); err == nil && n > 0 && n <= max { limit = n }`.
unfoldable pub limit_of : Text → ℤ → ℤ → ℤ
limit_of value default max = elim (atoi value) [
  | none ↦ default
  | some n ↦ if ltb_ℤ (pos 0) n && leb_ℤ n max then n else default
]

module _ (c : Configuration) (q : List (Text × List Text)) where
  unfoldable pub web_memlimit : ℤ
  unfolding limit_of
  web_memlimit =
      limit_of (query_get (text "mem") q) c.memory_limit_default_megabytes
        c.memory_limit_max_megabytes

  unfoldable pub web_cpulimit : ℤ
  unfolding limit_of
  web_cpulimit =
      limit_of (query_get (text "cpu") q) c.cpu_limit_default_percentage c.cpu_limit_max_percentage

  unfoldable pub web_timeout : Bool → ℤ
  unfolding limit_of
  web_timeout islong =
      let max = if islong then c.long_job_timeout else c.short_job_timeout in
      limit_of (query_get (text "timeout") q) max max

  unfoldable pub web_location : Calendar → Text
  unfolding time_location
  web_location cal = time_location cal c.default_jobs_infos_timezone (query_get (text "timezone") q)

  -- The jobs of the three web handlers; only the short one has a result buffer.
  unfoldable pub short_job : Ticket → Text → Job
  unfolding web_memlimit web_cpulimit web_timeout fresh_job
  short_job t cmd =
      let j = fresh_job t cmd false false false web_memlimit web_cpulimit (web_timeout false) in
      record j { result = some [] }

  unfoldable pub streaming_job : Bool → Ticket → Text → Job
  unfolding web_memlimit web_cpulimit web_timeout fresh_job
  streaming_job dump t cmd =
      fresh_job t cmd true true dump web_memlimit web_cpulimit (web_timeout true)

  unfoldable pub dumping_job : Ticket → Text → Job
  unfolding web_memlimit web_cpulimit web_timeout fresh_job
  dumping_job t cmd = fresh_job t cmd true false true web_memlimit web_cpulimit (web_timeout true)
