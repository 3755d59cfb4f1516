-- ===== src/Schedule/Registered.antt =====
-- The jobs of a request can be found under their ids, and wait in the queue.
use web_based_jobs_worker_se.Base.{
  ℕ, ◌+◌, ◌≤◌, ◌≡◌, refl, true, false, List, [], ◌∷◌, ◌++◌, some, arith, Text, text_key, nat_eq,
  ◌==◌, text_eq_refl, length, get_elem?, get_elem?-append_new, get_elem?-append_old, All,
}
use web_based_jobs_worker_se.GoMap.{lookup, lookup-insert, contains, IsNodup}
use web_based_jobs_worker_se.Models.{unlocked, Job, JobScheduleModel}
use web_based_jobs_worker_se.Config.{Configuration}
use web_based_jobs_worker_se.Env.{Calendar, Ticket}
use web_based_jobs_worker_se.Http.{Request, Response, text}
use web_based_jobs_worker_se.Worker.{World, returned}
use web_based_jobs_worker_se.Schedule.{api_schedule_jobs}
use web_based_jobs_worker_se.Jobs.{api_job}
use web_based_jobs_worker_se.Schedule.Submit.{register, register_all, jobs_of}
use web_based_jobs_worker_se.Schedule.Handlers.{api_schedule_jobs_lem}

-- The table leads from the id of a job to the job itself, and the queue holds it.
pub record IsScheduled (w : World) (j : Job) : Type 0 where
  pub address : ℕ
  pub registered : lookup j.id w.results ≡ some address
  pub stored : get_elem? w.heap address ≡ some j
  pub queued : contains address w.queue ≡ true

unfoldable pub ids_of : List Job → List Text
ids_of [] = []
ids_of (j ∷ js) = j.id ∷ ids_of js

contains-append_left :
    (a : ℕ) (xs ys : List ℕ) → contains a xs ≡ true → contains a (xs ++ ys) ≡ true
unfolding contains
contains-append_left a [] ys h = absurd (cc)
contains-append_left a (x ∷ xs) ys h = ground (arith, contains-append_left a xs ys)

contains-append_new : (a : ℕ) (xs : List ℕ) → contains a (xs ++ a ∷ []) ≡ true
unfolding contains
contains-append_new a [] = ground arith
contains-append_new a (x ∷ xs) = ground (arith, contains-append_new a xs)

register-IsScheduled : (j : Job) (w : World) → IsScheduled (register j w) j
unfolding register
register-IsScheduled j w = record {
  address = length w.heap;
  registered = rw (lookup-insert, text_eq_refl j.id);
  stored = get_elem?-append_new w.heap j;
  queued = contains-append_new (length w.heap) w.queue;
}

-- Another job under another id changes nothing for a scheduled one.
register-keeps :
    (j k : Job) (w : World)
    → (k.id == j.id) ≡ false
    → IsScheduled w j
    → IsScheduled (register k w) j
unfolding register
register-keeps j k w ne s = record {
  address = s.address;
  registered = rw (lookup-insert, ne) s.registered;
  stored = get_elem?-append_old w.heap (k ∷ []) s.address s.stored;
  queued = contains-append_left s.address w.queue _ s.queued;
}

register_all-keeps :
    (j : Job) (ks : List Job) (w : World)
    → contains j.id (ids_of ks) ≡ false
    → IsScheduled w j
    → IsScheduled (register_all ks w) j
unfolding register_all ids_of contains
register_all-keeps j [] w ne s = s
register_all-keeps j (k ∷ ks) w ne s =
    register_all-keeps j ks (register k w) (ground arith) (register-keeps j k w (ground arith) s)

register_all-IsScheduled :
    (js : List Job) (w : World) → IsNodup (ids_of js) → All (IsScheduled (register_all js w)) js
unfolding register_all ids_of
register_all-IsScheduled [] w h = tt
register_all-IsScheduled (j ∷ js) w h = (
  register_all-keeps j js (register j w) h.0 (register-IsScheduled j w),
  register_all-IsScheduled js (register j w) h.1,
)

-- After a POST of at least one job, with the table unlocked, room in the queue and distinct new
-- ids, the handler answers with code 200, and every job of the request can be found under its id
-- and waits in the queue.
pub api_schedule_jobs-IsScheduled :
    (c : Configuration) (cal : Calendar) (ticket : ℕ → Ticket) (r : Request) (w : World)
    (m : JobScheduleModel) (ms : List JobScheduleModel)
    → r.method ≡ text "POST"
    → r.body ≡ some (m ∷ ms)
    → w.maplock ≡ unlocked
    → length w.queue + length (m ∷ ms) ≤ w.capacity
    → IsNodup (ids_of (jobs_of (λ t m. api_job c m t) ticket 0 (m ∷ ms)))
    → (resp : Response) × (w' : World) × (api_schedule_jobs c cal ticket r w ≡ returned resp w')
      × (resp.code ≡ 200)
      × All (IsScheduled w') (jobs_of (λ t m. api_job c m t) ticket 0 (m ∷ ms))
api_schedule_jobs-IsScheduled c cal ticket r w m ms post body free room distinct = (
  _,
  _,
  api_schedule_jobs_lem c cal ticket r w m ms post body free room,
  refl,
  register_all-IsScheduled _ w distinct,
)
