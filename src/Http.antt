-- ===== src/Http.antt =====
-- What the handlers read of a request and write to a response, and the helpers of helpers.go that
-- they share. Tables are rows of values: the padding and the rules between rows are left out.
use web_based_jobs_worker_se.Base.{
  ℕ, zero, suc, Bool, false, List, [], ◌∷◌, Option, none, some, String, Text, text_key, codes, ℤ,
  ltb, length, if◌then◌else◌,
}
use web_based_jobs_worker_se.GoMap.{lookup}
use web_based_jobs_worker_se.Models.{
  ApiErrorMessage, JobScheduleModel, ResponseJobsSchedule, ResponseCheckJobsStatus,
  ResponseFetchJobOutput,
}

-- A literal of the program. It stays shut, so that a proof does not compute long texts.
unfoldable pub text : String → Text
text s = codes s

pub record Request : Type 0 where
  pub method : Text
  pub host : Text
  pub query : List (Text × List Text)  -- `r.URL.Query()`
  pub body : Option (List JobScheduleModel)  -- `none` where `Decode` fails
  pub requestid : Option Text  -- the value that the middleware put into the context
  pub client_reads : Bool  -- false where writing the response fails

-- `getFromRequest(r, "requestid")`.
unfoldable pub get_from_request : Option Text → Text
get_from_request none = text "n/a"
get_from_request (some value) = value

first_or_empty : List Text → Text
first_or_empty [] = []
first_or_empty (v ∷ _) = v

-- `query[key]` with its test for no value at all.
unfoldable pub query_values : Text → List (Text × List Text) → List Text
query_values key q = elim (lookup key q) [ none ↦ [] | some vs ↦ vs ]

-- `query.Get(key)`.
unfoldable pub query_get : Text → List (Text × List Text) → Text
unfolding query_values first_or_empty
query_get key q = first_or_empty (query_values key q)

abbrev take {ℓ} : {A : Type ℓ} → ℕ → List A → List A
take zero xs = []
take (suc n) [] = []
take (suc n) (x ∷ xs) = x ∷ take n xs

-- `truncateSyntax`, over code points.
unfoldable pub truncate_syntax : Text → ℕ → Text
truncate_syntax syntax maxlength =
    if ltb maxlength (length syntax) then take maxlength syntax else syntax

pub record ScheduledRow : Type 0 where
  pub nb : ℕ
  pub id : Text
  pub islong : Bool
  pub stream : Bool
  pub dump : Bool
  pub memlimit : ℤ
  pub cpulimit : ℤ
  pub timeout : ℤ
  pub submitted : Text
  pub syntax : Text

pub record StatusRow : Type 0 where
  pub nb : ℕ
  pub id : Text
  pub pid : ℕ
  pub islong : Bool
  pub stream : Bool
  pub dump : Bool
  pub iscompleted : Bool
  pub issuccess : Bool
  pub exitcode : ℤ
  pub datasize : Text
  pub fetchcount : ℤ
  pub memlimit : ℤ
  pub cpulimit : ℤ
  pub timeout : ℤ
  pub submitted : Text
  pub started : Text
  pub ended : Text
  pub syntax : Text

pub data Line : Type 0 where
  plain : Text → Line
  scheduled_row : ScheduledRow → Line
  status_row : StatusRow → Line
  -- number, id, was running, stop triggered
  stop_row : ℕ → Text → Text → Text → Line
  -- number, id, was running, stop triggered, restarted
  restart_row : ℕ → Text → Text → Text → Text → Line

-- The streaming page of a job: its address on the server, and how it shows the output.
pub record StreamPage : Type 0 where
  pub server : Text
  pub id : Text
  pub fgcolor : Text
  pub bgcolor : Text
  pub bold : Bool
  pub size : ℤ

pub data Body : Type 0 where
  api_error : ApiErrorMessage → Body
  jobs_scheduled : ResponseJobsSchedule → Body
  jobs_status : ResponseCheckJobsStatus → Body
  job_output : ResponseFetchJobOutput → Body
  page : List Line → Body
  file : Text → Body
  stream_page : StreamPage → Body
  redirect : StreamPage → Body

pub record Response : Type 0 where
  pub code : ℕ
  pub body : Body

-- `SendErrorMessage`.
unfoldable pub send_error_message : Text → Text → ℕ → Response
send_error_message requestid message code = record {
  code = code;
  body =
      api_error (record { status = false; message = message; code = code; requestid = requestid });
}

abbrev pub plain_page : ℕ → Text → Response
plain_page code message = record { code = code; body = page (plain message ∷ []) }
