-- ===== src/Models.antt =====
-- models.go: the job and the data that requests and responses carry.
use web_based_jobs_worker_se.Base.{ℕ, Bool, List, Option, ℤ, Text}

-- A `sync.RWMutex`: `reading n` is held by n + 1 readers.
pub data RwMutex : Type 0 where
  unlocked : RwMutex
  reading : ℕ → RwMutex
  writing : RwMutex

-- Nanoseconds since the zero time, so that `time.Time{}` is 0.
abbrev pub Time : Type 0
Time = ℕ

-- The pipes of a job's process exist from its start on: `io.ReadCloser` and `io.Reader` are nil
-- or not, and `*bytes.Buffer` is nil or holds the bytes written so far.
pub record Job : Type 0 where
  pub id : Text
  pub pid : ℕ
  pub task : Text
  pub islong : Bool
  pub stream : Bool
  pub dump : Bool
  pub memlimit : ℤ
  pub cpulimit : ℤ
  pub timeout : ℤ
  pub iscompleted : Bool
  pub issuccess : Bool
  pub exitcode : ℤ
  pub errormsg : Text
  pub fetchcount : ℤ
  pub stop : ℕ  -- values waiting in the channel, whose capacity is 1
  pub outpipe : Bool
  pub outstream : Bool
  pub isstreaming : Bool
  pub lock : RwMutex
  pub result : Option Text
  pub filename : Text
  pub submittime : Time
  pub starttime : Time
  pub endtime : Time

pub record ApiErrorMessage : Type 0 where
  pub status : Bool
  pub message : Text
  pub code : ℕ
  pub requestid : Text

pub record JobScheduleModel : Type 0 where
  pub task : Text
  pub islong : Bool
  pub stream : Bool
  pub dump : Bool
  pub memlimit : ℤ
  pub cpulimit : ℤ
  pub timeout : ℤ

pub record JobScheduledInfos : Type 0 where
  pub id : Text
  pub task : Text
  pub islong : Bool
  pub memlimit : ℤ
  pub cpulimit : ℤ
  pub timeout : ℤ
  pub stream : Bool
  pub dump : Bool
  pub submittime : Text
  pub statuslink : Text
  pub outputlink : Text

pub record ResponseJobsSchedule : Type 0 where
  pub requestid : Text
  pub jobs : List JobScheduledInfos

pub record JobStatusInfos : Type 0 where
  pub id : Text
  pub pid : ℕ
  pub task : Text
  pub islong : Bool
  pub iscompleted : Bool
  pub issuccess : Bool
  pub exitcode : ℤ
  pub datasize : Text
  pub fetchcount : ℤ
  pub memlimit : ℤ
  pub cpulimit : ℤ
  pub timeout : ℤ
  pub stream : Bool
  pub dump : Bool
  pub submittime : Text
  pub starttime : Text
  pub endtime : Text
  pub outputlink : Text

pub record ResponseCheckJobsStatus : Type 0 where
  pub requestid : Text
  pub infos : List JobStatusInfos
  pub unknownids : List Text

pub record ResponseFetchJobOutput : Type 0 where
  pub requestid : Text
  pub output : Text
