-- ===== src/Routes/Middleware.antt =====
-- `requestMiddleware` (middlewares.go), with the request ids that it makes by
-- `generateApiRequestID` and `generateWebRequestID` (helpers.go).
use web_based_jobs_worker_se.Base.{
  ℕ, ◌<◌, ◌≤◌, Bool, false, not, List, ◌∷◌, ◌++◌, Option, Text, text_key, ◌==◌, length, ltb,
  nat_beq, if◌then◌else◌,
}
use web_based_jobs_worker_se.Config.{Configuration}
use web_based_jobs_worker_se.Strconv.{itoa}
use web_based_jobs_worker_se.Http.{text}
use web_based_jobs_worker_se.JobId.{generate_id}
use web_based_jobs_worker_se.Routes.{has_prefix}

-- The parts of a moment that the ids show.
pub record Civil : Type 0 where
  pub year : ℕ
  pub month : ℕ
  pub day : ℕ
  pub hour : ℕ
  pub minute : ℕ
  pub second : ℕ

-- "%02d".
unfoldable pub two_digits : ℕ → Text
two_digits n = if ltb n 10 then b'0' ∷ itoa n else itoa n

-- "%02d%02d%02d.%02d%02d%02d".
unfoldable pub stamp : Civil → Text
unfolding two_digits
stamp t =
    two_digits t.year
    ++ (two_digits t.month
        ++ (two_digits t.day
            ++ (text "." ++ (two_digits t.hour ++ (two_digits t.minute ++ two_digits t.second)))))

-- What making an id reads: the moment, in UTC or in the local zone, the random source, the clock.
pub record Moment : Type 0 where
  pub at_utc : Bool → Civil
  pub random : Option (List ℕ)
  pub unixnano : ℕ

unfoldable pub generate_api_request_id : Configuration → Moment → Text
unfolding stamp
generate_api_request_id c t =
    text "API."
    ++ (stamp (t.at_utc c.enable_logs_timestamp_in_utc)
        ++ (text "." ++ generate_id t.random t.unixnano))

unfoldable pub generate_web_request_id : Configuration → Moment → Text
unfolding stamp
generate_web_request_id c t =
    text "WEB."
    ++ (stamp (t.at_utc c.enable_logs_timestamp_in_utc)
        ++ (text "." ++ generate_id t.random t.unixnano))

unfoldable pub generate_diagnostics_request_id : Configuration → Moment → Text
unfolding stamp
generate_diagnostics_request_id c t =
    text "diag." ++ stamp (t.at_utc c.enable_logs_timestamp_in_utc)

-- What becomes of a request, and whether the headers for other origins are set.
pub data Passage : Type 0 where
  preflight : (cors : Bool) → Passage
  forwarded : (requestid : Text) → (cors : Bool) → Passage

-- `enableCORS`, by the header "Origin".
unfoldable pub enable_cors : Text → Bool
enable_cors origin = not (nat_beq (length origin) 0)

unfoldable pub request_middleware : Configuration → Moment → Text → Text → Text → Passage
unfolding enable_cors
request_middleware c t method path origin =
    if has_prefix path (text "/worker/api/")
    then (if method == text "OPTIONS"
        then preflight (enable_cors origin)
        else forwarded (generate_api_request_id c t) (enable_cors origin))
    else forwarded (generate_web_request_id c t) false

-- A moment of a year with four digits.
pub record IsCivil (t : Civil) : Type 0 where
  pub year_lo : 1000 ≤ t.year
  pub year_hi : t.year < 10000
  pub month_hi : t.month < 100
  pub day_hi : t.day < 100
  pub hour_hi : t.hour < 100
  pub minute_hi : t.minute < 100
  pub second_hi : t.second < 100
