-- ===== src/Stream.antt =====
-- The streaming of a long job's output (streaming.go): `isWebsocketRequest`, `serveStreamPage`,
-- `streamJobsOutputById` and `streamJob`. `check_stream` and `claim_stream` are the two steps of
-- `streamJob` before its loop; between them other goroutines can run.
pub mod Sessions
use web_based_jobs_worker_se.Base.{
  ℕ, zero, suc, Bool, true, false, not, ◌&&◌, ◌||◌, List, [], ◌∷◌, ◌++◌, Option, none, some, Text,
  codes, text_key, ◌==◌, int_inc, nat_beq, if◌then◌else◌,
}
use web_based_jobs_worker_se.Models.{Job}
use web_based_jobs_worker_se.Config.{Configuration}
use web_based_jobs_worker_se.Strconv.{to_lower}
use web_based_jobs_worker_se.JobId.{match_string}
use web_based_jobs_worker_se.Http.{Request, Response, stream_page, text, query_get, plain_page}
use web_based_jobs_worker_se.Worker.{
  M, pure, block, panic, ◌>>=◌, ◌>>◌, load, job_lock, job_unlock, job_rlock, job_runlock, modify,
}
use web_based_jobs_worker_se.Schedule.{stream_page_of}
use web_based_jobs_worker_se.Output.{look_up}

is_space : ℕ → Bool
is_space c = nat_beq c b' ' || nat_beq c 9 || nat_beq c 10 || nat_beq c 12 || nat_beq c 13

-- What follows a prefix.
after_prefix : Text → Text → Option Text
after_prefix [] s = some s
after_prefix (c ∷ cs) [] = none
after_prefix (c ∷ cs) (d ∷ ds) = let rest = after_prefix cs ds in if nat_beq c d then rest else none

-- `\s*,` at the start of a text.
comma_next : Text → Bool
comma_next [] = false
comma_next (c ∷ s) = nat_beq c b',' || is_space c && comma_next s

-- `($|\s*,)`.
unfoldable ends_here : Text → Bool
unfolding comma_next is_space
ends_here [] = true
ends_here (c ∷ s) = comma_next (c ∷ s)

unfoldable upgrade_here : Text → Bool
unfolding after_prefix ends_here
upgrade_here s = elim (after_prefix (codes "upgrade") s) [
  | none ↦ false
  | some rest ↦ ends_here rest
]

-- `(^|.*,\s*)upgrade($|\s*,)` from a position on: `fresh` at the start of the text, and where only
-- white space lies between the position and a comma before it.
unfoldable upgrade_from : Bool → Bool → Text → Bool
unfolding upgrade_here is_space
upgrade_from start after_comma [] = false
upgrade_from start after_comma (c ∷ s) =
    let later = upgrade_from false (nat_beq c b',' || after_comma && is_space c) s in
    (start || after_comma) && upgrade_here (c ∷ s) || later

-- `isWebsocketRequest`, of the two headers.
unfoldable pub is_websocket_request : Text → Text → Bool
unfolding upgrade_from
is_websocket_request connection upgrade =
    upgrade_from true false (to_lower connection) && (to_lower upgrade == codes "websocket")

-- `serveStreamPage`; its template does not fail.
unfoldable pub serve_stream_page : Configuration → Request → Response
unfolding stream_page_of
serve_stream_page c r =
    let id = query_get (text "id") r.query in
    if not (match_string id)
    then plain_page 400 (text "Sorry, the Job ID provided is invalid.")
    else record { code = 200; body = stream_page (stream_page_of c r.query r.host id) }

-- The tests of `streamJob` on a job that was found: the message that ends the session, or none.
unfoldable pub judge_idle : Bool → M (Option Text)
judge_idle true = pure (
    some (
      text
        "The job output stream is already being consumed. Only one live streaming at a moment or you can stop the job."))
judge_idle false = pure none

-- By whether the job is completed and whether it is long.
unfoldable pub judge_stream : Bool → Bool → Text → ℕ → M (Option Text)
unfolding judge_idle load job_rlock job_runlock
judge_stream true long id p = pure (
    some (
      text "Sorry, the job []"
      ++ (id ++ text "] is no longer running - you can check its status.")))
judge_stream false false id p = pure (
    some (
      text
        "The job was not submitted as a long running task - pull its full output from worker/web/v1/jobs/output/fetch?id="
      ++ id))
judge_stream false true id p = do job_rlock p; k ← load p; job_runlock p; judge_idle k.isstreaming

unfoldable pub check_stream : Text → ℕ → M (Option Text)
unfolding judge_stream load job_rlock job_runlock
check_stream id p = do
  job_rlock p
  j ← load p
  job_runlock p
  judge_stream j.iscompleted j.islong id p

unfoldable pub claim_stream : ℕ → M (Unit {0})
unfolding job_lock job_unlock modify
claim_stream p = do
  job_lock p
  modify p (λ j. record j { isstreaming = true; fetchcount = int_inc j.fetchcount })
  job_unlock p

-- The deferred function.
unfoldable pub release_stream : ℕ → M (Unit {0})
unfolding job_lock job_unlock modify
release_stream p = do job_lock p; modify p (λ j. record j { isstreaming = false }); job_unlock p

-- What a read gives: a line and whether the client still takes it, or an error, which may be EOF.
pub data Read : Type 0 where
  line : Text → Bool → Read
  failed : Bool → Read

-- The message for an error, by whether it is EOF and whether the job is completed.
unfoldable pub end_message : Bool → Bool → Text
end_message true true = text "Job completed. No more stream."
end_message false false =
    text
      "Ooops, error occured. Job might still be running. Retry the streaming or stop/restart the job."
end_message true false =
    text
      "Ooops, unexpected error occured on server side. Retry the streaming or report for investigation."
end_message false true =
    text
      "Ooops, unexpected error occured on server side. Retry the streaming or report for investigation."

-- The loop of `streamJob` over its reads: the messages that the client gets. With no read left it
-- waits for the process.
unfoldable pub stream_loop : List Read → ℕ → M (List Text)
unfolding end_message load
stream_loop [] p = block
stream_loop (failed eof ∷ reads) p = do j ← load p; pure (end_message eof j.iscompleted ∷ [])
stream_loop (line b taken ∷ reads) p =
    if taken then (do rest ← stream_loop reads p; pure (b ∷ rest)) else pure []

-- Reading through a nil reader panics; the deferred function runs all the same.
unfoldable pub stream_from : Bool → List Read → ℕ → M (List Text)
unfolding stream_loop release_stream
stream_from false reads p = do release_stream p; panic
stream_from true reads p = do sent ← stream_loop reads p; release_stream p; pure sent

-- `streamJob` on a job that was found.
unfoldable pub stream_found : List Read → Text → ℕ → M (List Text)
unfolding check_stream claim_stream stream_from load
stream_found reads id p = do
  refused ← check_stream id p
  elim refused [
    | some message ↦ pure (message ∷ [])
    | none ↦ (do
      claim_stream p
      j ← load p
      stream_from (if j.dump then j.outstream else j.outpipe) reads p)
  ]

-- `streamJob`: the messages of the session.
unfoldable pub stream_job : List Read → Text → M (List Text)
unfolding stream_found look_up
stream_job reads id = do
  found ← look_up id
  elim found [
    | none ↦ pure (
        (text "Sorry, this Job ID ["
          ++ (id ++ text "] provided does not exist - could have been removed or expired"))
        ∷ [])
    | some p ↦ stream_found reads id p
  ]

-- `streamJobsOutputById` on a websocket connection.
unfoldable pub stream_jobs_output_by_id : List Read → Request → M (List Text)
unfolding stream_job
stream_jobs_output_by_id reads r =
    let id = query_get (text "id") r.query in
    if not (match_string id)
    then pure (
        (text "Sorry, this Job ID [" ++ (id ++ text "] provided into the request is not valid."))
        ∷ [])
    else stream_job reads id
