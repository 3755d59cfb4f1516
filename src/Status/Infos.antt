-- ===== src/Status/Infos.antt =====
-- What the status handlers report, and that they leave everything as it was.
use mathlib.Core.List.{append_assoc, append-nil}
use web_based_jobs_worker_se.Base.{
  ℕ, ◌≡◌, refl, ap, sym, ◌∙◌, ◌⊎◌, inl, inr, true, false, text_eq_iff, List, [], ◌∷◌, ◌++◌, Option,
  none, some, arith, Text, text_key, length, set_id, Option-cases, if◌then◌else◌,
}
use web_based_jobs_worker_se.GoMap.{lookup}
use web_based_jobs_worker_se.Models.{unlocked, reading, Job, JobStatusInfos}
use web_based_jobs_worker_se.Config.{Configuration}
use web_based_jobs_worker_se.Env.{Calendar}
use web_based_jobs_worker_se.Http.{
  Request, Response, jobs_status, get_from_request, text, query_values,
}
use web_based_jobs_worker_se.JobId.{remove_duplicate_job_ids}
use web_based_jobs_worker_se.Worker.{World, returned, put, job_rlock, job_runlock, map_runlock}
use web_based_jobs_worker_se.Worker.Cells.{At, put-put, put-At, load_lem, map_rlock_lem}
use web_based_jobs_worker_se.Worker.Lookup.{job_of, job_of_missing, job_of_found}
use web_based_jobs_worker_se.Status.{
  format_size, file_size, buffer_size, data_size, status_of, collect_status_infos, api_status_loop,
  location_of, api_status_body, api_status_ids, api_check_jobs_status_by_id,
}

-- A job that nobody has locked, and that has a buffer if it is short.
abbrev pub CanReport : Job → Type 0
CanReport j = (j.lock ≡ unlocked) × ((j.islong ≡ true) ⊎ ((buf : Text) × (j.result ≡ some buf)))

-- Every id in the table leads to such a job.
abbrev pub AllCanReport : World → Type 0
AllCanReport w =
    (id : Text) (p : ℕ) → lookup id w.results ≡ some p → (j : Job) × At w p j × CanReport j

module _ (p : ℕ) (j : Job) (w : World) (h : At w p j) where
  pub job_rlock_lem :
      j.lock ≡ unlocked → job_rlock p w ≡ returned tt (put p (record j { lock = reading 0 }) w)
  unfolding job_rlock
  job_rlock_lem free = ground (arith, load_lem p j w h)

  pub job_runlock_lem :
      j.lock ≡ reading 0 → job_runlock p w ≡ returned tt (put p (record j { lock = unlocked }) w)
  unfolding job_runlock
  job_runlock_lem held = ground (arith, load_lem p j w h)

free_again : (j : Job) → j.lock ≡ unlocked → record j { lock = unlocked } ≡ j
free_again j free = ap (λ l. record j { lock = l }) (sym free)

-- Locking a job and unlocking it again leaves the world as it was.
pub restored :
    (p : ℕ) (j k : Job) (w : World)
    → At w p j
    → j.lock ≡ unlocked
    → put p (record j { lock = unlocked }) (put p k w) ≡ w
restored p j k w h free =
    put-put p k (record j { lock = unlocked }) w
    ∙ (ap (λ i. put p i w) (free_again j free)
        ∙ ap (λ h. record w { heap = h }) (set_id w.heap p h))

pub buffer_length : Option Text → Text
buffer_length none = []
buffer_length (some buf) = format_size (length buf)

module _ (c : Configuration) (cal : Calendar) (files : Text → Option ℕ) where
  -- The size column: the bytes in the buffer of a short job, those of the file of a dumping job.
  unfoldable pub size_of : Job → Text
  unfolding buffer_length
  size_of j =
      if j.islong
      then (if j.dump then file_size (files j.filename) else text "N/A")
      else buffer_length j.result

  buffer_size_lem :
      (result : Option Text) (w : World) {buf : Text}
      → result ≡ some buf
      → buffer_size result w ≡ returned (buffer_length result) w
  unfolding buffer_size buffer_length
  buffer_size_lem result w e = rw e refl

  data_size_lem :
      (j : Job) (w : World)
      → (j.islong ≡ true) ⊎ ((buf : Text) × (j.result ≡ some buf))
      → data_size files j w ≡ returned (size_of j) w
  unfolding data_size size_of
  data_size_lem j w (inl long) = ground arith
  data_size_lem j w (inr (buf, e)) = ground (arith, buffer_size_lem j.result w e)

  collect_status_infos_lem :
      (location : Text) (p : ℕ) (j : Job) (w : World)
      → At w p j
      → CanReport j
      → collect_status_infos c cal files location p w
        ≡ returned (status_of c cal files location (size_of j) j) w
  unfolding collect_status_infos size_of status_of
  collect_status_infos_lem location p j w h (free, shape) =
      let j₁ = record j { lock = reading 0 } in
      let w₁ = put p j₁ w in
      let h₁ = put-At p j₁ w h in
      rw (job_rlock_lem p j w h free) (
        rw (load_lem p j₁ w₁ h₁) (
          rw (data_size_lem j₁ w₁ shape) (
            rw (job_runlock_lem p j₁ w₁ h₁ refl) (
              ap (λ v. returned (status_of c cal files location (size_of j) j) v)
                (restored p j j₁ w h free)))))

  reported : Text → Option Job → List JobStatusInfos
  reported location none = []
  reported location (some j) = status_of c cal files location (size_of j) j ∷ []

  -- What is to be reported of a list of ids: the status of each that the table has, in order.
  unfoldable pub reports : Text → List Job → List (Text × ℕ) → List Text → List JobStatusInfos
  unfolding reported
  reports location heap m [] = []
  reports location heap m (id ∷ ids) =
      reported location (job_of heap m id) ++ reports location heap m ids

  unknown_one : Text → Option Job → List Text
  unknown_one id none = id ∷ []
  unknown_one id (some j) = []

  -- The ids that it does not have, in order.
  unfoldable pub unknown_ids : List Job → List (Text × ℕ) → List Text → List Text
  unfolding unknown_one
  unknown_ids heap m [] = []
  unknown_ids heap m (id ∷ ids) = unknown_one id (job_of heap m id) ++ unknown_ids heap m ids

  api_status_loop_lem :
      (location : Text) (infos : List JobStatusInfos) (unknown ids : List Text) (w : World)
      → AllCanReport w
      → api_status_loop c cal files location infos unknown ids w
        ≡ returned
            (
              infos ++ reports location w.heap w.results ids,
              unknown ++ unknown_ids w.heap w.results ids,
            )
            w
  unfolding api_status_loop reports unknown_ids reported unknown_one
  api_status_loop_lem location infos unknown [] w can = simp append-nil
  api_status_loop_lem location infos unknown (id ∷ ids) w can =
      elim (Option-cases (lookup id w.results)) [
        | inl missing ↦ rw missing (
            rw (api_status_loop_lem location infos (unknown ++ id ∷ []) ids w can)
              (rw (job_of_missing w.heap w.results id missing) (simp append_assoc)))
        | inr (p, found) ↦
            (let (j, at_p, ready) = can id p found in
              rw found (
                rw (collect_status_infos_lem location p j w at_p ready) (
                  rw
                    (api_status_loop_lem location
                      (infos ++ status_of c cal files location (size_of j) j ∷ []) unknown ids w
                      can)
                    (rw (job_of_found w.heap w.results id found at_p) (simp append_assoc)))))
      ]

  -- When nobody has the table or a job of it locked, and every short job has a buffer, the API's
  -- report on given ids has the status of each one that the table knows, in the order of the ids,
  -- lists the others, and leaves the state exactly as it was: no lock stays taken.
  pub api_status_body_lem :
      (r : Request) (ids : List Text) (w : World)
      → w.maplock ≡ unlocked
      → AllCanReport w
      → api_status_body c cal files r ids w
        ≡ returned
            (record {
              code = 200;
              body = jobs_status (record {
                requestid = get_from_request r.requestid;
                infos = reports (location_of c cal files r) w.heap w.results ids;
                unknownids = unknown_ids w.heap w.results ids;
              });
            })
            w
  unfolding api_status_body map_runlock
  api_status_body_lem r ids w free can =
      let w₁ = record w { maplock = reading 0 } in
      let answer : Response = record {
        code = 200;
        body = jobs_status (record {
          requestid = get_from_request r.requestid;
          infos = reports (location_of c cal files r) w.heap w.results ids;
          unknownids = unknown_ids w.heap w.results ids;
        });
      } in
      rw (map_rlock_lem w free) (
        rw (api_status_loop_lem (location_of c cal files r) [] [] ids w₁ can)
          (ap (λ l. returned answer (record w { maplock = l })) (sym free)))

  -- For a GET request with ids some of which are valid, when nobody has the table or a job of it
  -- locked and every short job has a buffer, the API reports on the ids that
  -- `removeDuplicateJobIds` leaves: the status of each one that the table knows, in their order,
  -- and the list of the others. It leaves the state exactly as it was.
  pub api_check_jobs_status_lem :
      (order : List Text → List Text) (r : Request) (id : Text) (ids kept : List Text) (w : World)
      → r.method ≡ text "GET"
      → query_values (text "id") r.query ≡ id ∷ ids
      → remove_duplicate_job_ids order (id ∷ ids) ≡ (false, kept)
      → w.maplock ≡ unlocked
      → AllCanReport w
      → api_check_jobs_status_by_id c cal files order r w
        ≡ returned
            (record {
              code = 200;
              body = jobs_status (record {
                requestid = get_from_request r.requestid;
                infos = reports (location_of c cal files r) w.heap w.results kept;
                unknownids = unknown_ids w.heap w.results kept;
              });
            })
            w
  unfolding api_check_jobs_status_by_id api_status_ids
  api_check_jobs_status_lem order r id ids kept w get query checked free can =
      rw ((text_eq_iff r.method (text "GET")).1 get, query, checked)
        (api_status_body_lem r kept w free can)
