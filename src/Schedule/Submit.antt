-- ===== src/Schedule/Submit.antt =====
-- The scheduling loops against a plain account of what they leave behind: each job is allocated,
-- registered under its id and queued, in the order of the request, and the table is unlocked.
use mathlib.Core.List.{append_assoc, append-nil}
use web_based_jobs_worker_se.Base.{
  ℕ, suc, ◌+◌, ◌≤◌, ◌<◌, ◌≡◌, refl, ◌∙◌, ap, List, [], ◌∷◌, ◌++◌, arith, Text, text_key, length,
  length-append, ltb, ltb→lt, not_ltb→le, Bool-cases, inl, inr, map, get_elem?-append_new, set,
}
use web_based_jobs_worker_se.GoMap.{insert}
use web_based_jobs_worker_se.Models.{unlocked, reading, Job, JobScheduleModel, JobScheduledInfos}
use web_based_jobs_worker_se.Config.{Configuration}
use web_based_jobs_worker_se.Env.{Calendar, Ticket}
use web_based_jobs_worker_se.Http.{Line, scheduled_row}
use web_based_jobs_worker_se.Worker.{
  World, returned, blocked, M, ◌>>=◌, ◌>>◌, map_lock, map_unlock, load, new_job, put_job, enqueue,
  job_rlock, job_runlock,
}
use web_based_jobs_worker_se.Schedule.{
  submit, api_schedule_loop, scheduled_row_of, web_schedule_loop,
}
use web_based_jobs_worker_se.Jobs.{output_link, infos_of, scheduled_infos, api_job}

-- The worker after one more job was scheduled.
unfoldable pub register : Job → World → World
register j w = record w {
  maplock = unlocked;
  heap = w.heap ++ j ∷ [];
  results = insert j.id (length w.heap) w.results;
  queue = w.queue ++ length w.heap ∷ [];
}

unfoldable pub register_all : List Job → World → World
register_all [] w = w
register_all (j ∷ js) w = register_all js (register j w)

submit_lem :
    (id : Text) (p : ℕ) (w : World)
    → w.maplock ≡ unlocked
    → length w.queue < w.capacity
    → submit id p w
      ≡ returned tt (record w {
        maplock = unlocked;
        results = insert id p w.results;
        queue = w.queue ++ p ∷ [];
      })
unfolding submit map_lock map_unlock put_job enqueue
submit_lem id p w free room = ground arith

-- With the queue full the sender waits, but the job is registered and the table is unlocked.
submit_blocks :
    (id : Text) (p : ℕ) (w : World)
    → w.maplock ≡ unlocked
    → w.capacity ≤ length w.queue
    → submit id p w ≡ blocked (record w { maplock = unlocked; results = insert id p w.results })
unfolding submit map_lock map_unlock put_job enqueue
submit_blocks id p w free full = ground arith

pub load_new :
    (j : Job) (w w' : World) → w'.heap ≡ w.heap ++ j ∷ [] → load (length w.heap) w' ≡ returned j w'
unfolding load
load_new j w w' e = ground (arith, get_elem?-append_new w.heap j)

-- One round of the loop of the web handlers.
web_round :
    {A : Type 0} (j : Job) (k : ℕ → Job → M A) (w : World)
    → w.maplock ≡ unlocked
    → length w.queue < w.capacity
    → (new_job j >>= λ p. load p >>= λ j. submit j.id p >> (load p >>= λ j'. k p j')) w
      ≡ k (length w.heap) j (register j w)
unfolding new_job register
web_round j k w free room =
    let w₁ = record w { heap = w.heap ++ j ∷ [] } in
    rw (load_new j w w₁ refl) (
      rw (submit_lem j.id (length w.heap) w₁ free room)
        (rw (load_new j w (register j w) (unfold register in refl))))

-- A single job, without the row.
pub single_round :
    {A : Type 0} (j : Job) (k : Job → M A) (w : World)
    → w.maplock ≡ unlocked
    → length w.queue < w.capacity
    → (new_job j >>= λ p. load p >>= λ j. submit j.id p >> k j) w ≡ k j (register j w)
unfolding new_job register
single_round j k w free room =
    let w₁ = record w { heap = w.heap ++ j ∷ [] } in
    rw (load_new j w w₁ refl) (rw (submit_lem j.id (length w.heap) w₁ free room))

set-append_new :
    {A : Type 0} (xs : List A) (a b : A) → set (xs ++ a ∷ []) (length xs) b ≡ xs ++ b ∷ []
set-append_new [] a b = refl
set-append_new (x ∷ xs) a b = ap (◌∷◌ x) (set-append_new xs a b)

-- Reading the details of the job under its lock leaves it as it was.
pub scheduled_infos_lem :
    (c : Configuration) (cal : Calendar) (location : Text) (j : Job) (w : World)
    → j.lock ≡ unlocked
    → scheduled_infos c cal location (length w.heap) (record w { heap = w.heap ++ j ∷ [] })
      ≡ returned (infos_of c cal location j) (record w { heap = w.heap ++ j ∷ [] })
unfolding scheduled_infos job_rlock job_runlock load infos_of output_link
scheduled_infos_lem c cal location j w free = ground (
  arith,
  get_elem?-append_new w.heap j,
  get_elem?-append_new w.heap (record j { lock = reading 0 }),
  set-append_new w.heap j (record j { lock = reading 0 }),
  set-append_new w.heap (record j { lock = reading 0 }) j,
)

api_round :
    {A : Type 0} (c : Configuration) (cal : Calendar) (location : Text) (j : Job)
    (k : JobScheduledInfos → M A) (w : World)
    → j.lock ≡ unlocked
    → w.maplock ≡ unlocked
    → length w.queue < w.capacity
    → (new_job j >>= λ p.
          scheduled_infos c cal location p >>= λ info. load p >>= λ j. submit j.id p >> k info)
        w
      ≡ k (infos_of c cal location j) (register j w)
unfolding new_job register
api_round c cal location j k w idle free room =
    let w₁ = record w { heap = w.heap ++ j ∷ [] } in
    rw (scheduled_infos_lem c cal location j w idle)
      (rw (load_new j w w₁ refl) (rw (submit_lem j.id (length w.heap) w₁ free room)))

-- The jobs that a loop makes, and the rows that it writes.
unfoldable pub jobs_of {ℓ} :
    {A : Type ℓ} → (Ticket → A → Job) → (ℕ → Ticket) → ℕ → List A → List Job
jobs_of make ticket i [] = []
jobs_of make ticket i (a ∷ rest) = make (ticket i) a ∷ jobs_of make ticket (i + 1) rest

unfoldable pub rows_of : Calendar → Text → ℕ → List Job → List Line
rows_of cal location i [] = []
rows_of cal location i (j ∷ js) =
    scheduled_row (scheduled_row_of cal location (i + 1) j) ∷ rows_of cal location (i + 1) js

register_free : (j : Job) (w : World) → (register j w).maplock ≡ unlocked
unfolding register
register_free j w = refl

length-queue-register : (j : Job) (w : World) → length (register j w).queue ≡ suc (length w.queue)
unfolding register
length-queue-register j w = omega (arith, length-append w.queue (length w.heap ∷ []))

capacity-register : (j : Job) (w : World) → (register j w).capacity ≡ w.capacity
unfolding register
capacity-register j w = refl

register_room :
    (j : Job) (w : World) (n : ℕ)
    → length w.queue + suc n ≤ w.capacity
    → length (register j w).queue + n ≤ (register j w).capacity
register_room j w n h = omega (arith, length-queue-register j w, capacity-register j w)

pub api_job_unlocked :
    (c : Configuration) (m : JobScheduleModel) (t : Ticket) → (api_job c m t).lock ≡ unlocked
unfolding api_job
api_job_unlocked c m t = refl

-- With room in the queue the loop of the web handlers schedules every command, in order, and
-- writes a row for each.
pub web_schedule_loop_lem :
    (make : Ticket → Text → Job) (cal : Calendar) (location : Text) (ticket : ℕ → Ticket) (i : ℕ)
    (lines : List Line) (cmds : List Text) (w : World)
    → w.maplock ≡ unlocked
    → length w.queue + length cmds ≤ w.capacity
    → web_schedule_loop make cal location ticket i lines cmds w
      ≡ returned
          (lines ++ rows_of cal location i (jobs_of make ticket i cmds))
          (register_all (jobs_of make ticket i cmds) w)
unfolding web_schedule_loop jobs_of rows_of register_all
web_schedule_loop_lem make cal location ticket i lines [] w free room = rw append-nil
web_schedule_loop_lem make cal location ticket i lines (cmd ∷ cmds) w free room =
    let j = make (ticket i) cmd in
    web_round j
      (λ p j'.
        web_schedule_loop make cal location ticket (i + 1)
          (lines ++ scheduled_row (scheduled_row_of cal location (i + 1) j') ∷ []) cmds)
      w free (omega arith)
    ∙ web_schedule_loop_lem make cal location ticket (i + 1)
        (lines ++ scheduled_row (scheduled_row_of cal location (i + 1) j) ∷ []) cmds (register j w)
        (register_free j w) (register_room j w (length cmds) room)
    ∙ ap
        (λ (l : List Line).
          returned l (register_all (jobs_of make ticket (i + 1) cmds) (register j w)))
        (append_assoc lines (scheduled_row (scheduled_row_of cal location (i + 1) j) ∷ []) _)

-- So does the loop of the API handler, which answers with the details of each job.
pub api_schedule_loop_lem :
    (c : Configuration) (cal : Calendar) (location : Text) (ticket : ℕ → Ticket) (i : ℕ)
    (done : List JobScheduledInfos) (ms : List JobScheduleModel) (w : World)
    → w.maplock ≡ unlocked
    → length w.queue + length ms ≤ w.capacity
    → let js = jobs_of (λ t m. api_job c m t) ticket i ms in
      api_schedule_loop c cal location ticket i done ms w
      ≡ returned (done ++ map (infos_of c cal location) js) (register_all js w)
unfolding api_schedule_loop jobs_of register_all
api_schedule_loop_lem c cal location ticket i done [] w free room = rw append-nil
api_schedule_loop_lem c cal location ticket i done (m ∷ ms) w free room =
    let j = api_job c m (ticket i) in
    api_round c cal location j
      (λ info. api_schedule_loop c cal location ticket (i + 1) (done ++ info ∷ []) ms) w
      (api_job_unlocked c m (ticket i)) free (omega arith)
    ∙ api_schedule_loop_lem c cal location ticket (i + 1) (done ++ infos_of c cal location j ∷ [])
        ms (register j w) (register_free j w) (register_room j w (length ms) room)
    ∙ ap
        (λ (l : List JobScheduledInfos).
          returned l
            (register_all (jobs_of (λ t m. api_job c m t) ticket (i + 1) ms) (register j w)))
        (append_assoc done (infos_of c cal location j ∷ []) _)

web_round_blocks :
    {A : Type 0} (j : Job) (k : ℕ → Job → M A) (w : World)
    → w.maplock ≡ unlocked
    → w.capacity ≤ length w.queue
    → (new_job j >>= λ p. load p >>= λ j. submit j.id p >> (load p >>= λ j'. k p j')) w
      ≡ blocked (record (register j w) { queue = w.queue })
unfolding new_job register
web_round_blocks j k w free full =
    let w₁ = record w { heap = w.heap ++ j ∷ [] } in
    rw (load_new j w w₁ refl) (rw (submit_blocks j.id (length w.heap) w₁ free full))

-- With the table unlocked and more commands than the queue has room for, the loop of the web
-- handlers fills the queue and then blocks, and it does not hold the table of results while it
-- waits.
pub web_schedule_loop_full :
    (make : Ticket → Text → Job) (cal : Calendar) (location : Text) (ticket : ℕ → Ticket) (i : ℕ)
    (lines : List Line) (cmds : List Text) (w : World)
    → w.maplock ≡ unlocked
    → length w.queue ≤ w.capacity
    → w.capacity < length w.queue + length cmds
    → (w' : World) × (web_schedule_loop make cal location ticket i lines cmds w ≡ blocked w')
      × (w'.maplock ≡ unlocked)
      × (length w'.queue ≡ w.capacity)
unfolding web_schedule_loop
web_schedule_loop_full make cal location ticket i lines [] w free le full = absurd (omega arith)
web_schedule_loop_full make cal location ticket i lines (cmd ∷ cmds) w free le full =
    elim (Bool-cases (ltb (length w.queue) w.capacity)) [
      | inl room ↦
          let j = make (ticket i) cmd in
          let (w', e, f, l) =
            web_schedule_loop_full make cal location ticket (i + 1)
              (lines ++ scheduled_row (scheduled_row_of cal location (i + 1) j) ∷ []) cmds
              (register j w) (register_free j w)
              (omega (
                arith,
                ltb→lt (length w.queue) w.capacity room,
                length-queue-register j w,
                capacity-register j w,
              ))
              (omega (arith, length-queue-register j w, capacity-register j w)) in
          (w', web_round j _ w free (ltb→lt _ _ room) ∙ e, f, l ∙ capacity-register j w)
      | inr none_left ↦ (
        _,
        web_round_blocks (make (ticket i) cmd) _ w free (not_ltb→le _ _ none_left),
        register_free _ w,
        omega (arith, not_ltb→le (length w.queue) w.capacity none_left),
      )
    ]
