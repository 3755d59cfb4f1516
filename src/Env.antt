-- ===== src/Env.antt =====
-- What the handlers take from outside the program: the time zone data base with the layout of
-- dates, the state of the disk, the random source and the clock, and the order of map iteration.
use web_based_jobs_worker_se.Base.{ℕ, Bool, List, Option, Text, if◌then◌else◌}
use web_based_jobs_worker_se.Models.{Time}

-- A `*time.Location` is known by its name.
pub record Calendar : Type 0 where
  pub known : Text → Bool  -- whether `time.LoadLocation` finds the name
  pub format : Text → Time → Text  -- `t.In(location).Format("2006-01-02 15:04:05")`
  pub day : Time → Text  -- year, month and day by "%02d%02d%02d"

-- What one round of a scheduling loop reads: `rand.Read`, `time.Now().UnixNano()`, `time.Now()`.
pub record Ticket : Type 0 where
  pub random : Option (List ℕ)
  pub unixnano : ℕ
  pub now : Time

-- The location named in the request, where it is known.
unfoldable pub time_location : Calendar → Text → Text → Text
time_location cal default name = if cal.known name then name else default
