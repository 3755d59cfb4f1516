-- ===== src/Examples/Data.antt =====
-- The data that the examples share.
use web_based_jobs_worker_se.Base.{
  ℕ, ◌%◌, ◌≡◌, refl, true, false, List, [], ◌∷◌, none, some, arith, Text, text_key, text_eq,
  text_eq_iff, codes, pos, negsuc,
}
use web_based_jobs_worker_se.GoMap.{lookup, IsRangeOrder}
use web_based_jobs_worker_se.Models.{unlocked, Job, JobScheduleModel}
use web_based_jobs_worker_se.Config.{default_config}
use web_based_jobs_worker_se.Env.{Calendar, Ticket}
use web_based_jobs_worker_se.JobId.{is_id_char, match_here, match_string}
use web_based_jobs_worker_se.Http.{Request, text, query_values, query_get}
use web_based_jobs_worker_se.Worker.{World}
use web_based_jobs_worker_se.Executor.{Launching}
use web_based_jobs_worker_se.Schedule.Limits.{HasSoundLimits}

abbrev pub calendar : Calendar
calendar = record {
  known = λ name. false;
  format = λ location t. codes "2021-10-19 20:44:50";
  day = λ t. codes "20211019";
}

abbrev pub tickets : ℕ → Ticket
tickets i = record {
  random = some (0 ∷ 0 ∷ 0 ∷ 0 ∷ 0 ∷ 0 ∷ 0 ∷ i % 256 ∷ []);
  unixnano = 0;
  now = 1000;
}

abbrev pub launching : Launching
launching = record {
  windows = false;
  now = 2000;
  file_error = none;
  pipe_error = none;
  start_error = none;
  failed_at = 2001;
  pid = 77;
}

abbrev pub job_id : Text
job_id = codes "00000000000000ab"

-- A short job that waits in the queue, and a long one that streams.
abbrev pub waiting_job : Job
waiting_job = record {
  id = job_id;
  pid = 0;
  task = codes "ls";
  islong = false;
  stream = false;
  dump = false;
  memlimit = pos 100;
  cpulimit = pos 10;
  timeout = pos 60;
  iscompleted = false;
  issuccess = false;
  exitcode = negsuc 0;
  errormsg = [];
  fetchcount = pos 0;
  stop = 0;
  outpipe = false;
  outstream = false;
  isstreaming = false;
  lock = unlocked;
  result = some [];
  filename = [];
  submittime = 1000;
  starttime = 0;
  endtime = 0;
}

abbrev pub running_job : Job
running_job = record waiting_job { islong = true; stream = true; result = none; starttime = 2000 }

abbrev pub completed_job : Job
completed_job = record waiting_job {
  iscompleted = true;
  issuccess = true;
  exitcode = pos 0;
  result = some (codes "out");
  endtime = 3000;
}

-- A worker with one job.
abbrev pub worker : Job → World
worker j = record {
  maplock = unlocked;
  heap = j ∷ [];
  results = (job_id, 0) ∷ [];
  queue = [];
  capacity = 10;
}

abbrev pub empty_worker : World
empty_worker = record { maplock = unlocked; heap = []; results = []; queue = []; capacity = 10 }

abbrev pub same_order : List Text → List Text
same_order ids = ids

pub same_order-IsRangeOrder : IsRangeOrder same_order
same_order-IsRangeOrder = record { same = λ k l. refl; once = λ l h. h }

-- A request about that job.
abbrev pub id_request : Request
id_request = record {
  method = text "GET";
  host = codes "localhost";
  query = (codes "id", job_id ∷ []) ∷ [];
  body = none;
  requestid = none;
  client_reads = true;
}

pub id_query : query_values (text "id") id_request.query ≡ job_id ∷ []
unfolding query_values lookup text text_eq
id_query = refl

pub id_first : query_get (text "id") id_request.query ≡ job_id
unfolding query_get query_values lookup text text_eq
id_first = refl

pub job_id-match : match_string job_id ≡ true
unfolding match_string match_here is_id_char
job_id-match = refl

abbrev pub table : List (Text × ℕ)
table = (job_id, 0) ∷ []

pub job_id_found : lookup job_id table ≡ some 0
unfolding lookup text_eq
job_id_found = refl

pub lookup_one : (id : Text) (p : ℕ) → lookup id table ≡ some p → (p ≡ 0) × (id ≡ job_id)
unfolding lookup
lookup_one id p found = (ground arith, ground (arith, text_eq_iff job_id id))

abbrev pub task : JobScheduleModel
task = record {
  task = codes "ls";
  islong = false;
  stream = false;
  dump = false;
  memlimit = pos 0;
  cpulimit = pos 0;
  timeout = pos 60;
}

abbrev pub post_request : Request
post_request = record {
  method = text "POST";
  host = codes "localhost";
  query = [];
  body = some (task ∷ task ∷ []);
  requestid = none;
  client_reads = true;
}

pub default_config-HasSoundLimits : HasSoundLimits default_config
default_config-HasSoundLimits = record {
  short_timeout = omega arith;
  long_timeout = omega arith;
  mem_default = omega arith;
  mem_max = omega arith;
  cpu_default = omega arith;
  cpu_max = omega arith;
}
