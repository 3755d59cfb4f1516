-- ===== src/Control/RestartAll.antt =====
-- What `restartAllJobs` does to every registered job.
use mathlib.Core.List.{append_assoc, append-nil}
use web_based_jobs_worker_se.Base.{
  ℕ, ◌+◌, ◌<◌, ◌≤◌, ◌≡◌, refl, ◌∙◌, ◌⊎◌, inl, inr, true, false, ◌||◌, List, [], ◌∷◌, ◌++◌, Option,
  none, some, arith, Text, text_key, length-append, nat_eq, nat_beq_iff, ◌==◌, length, get_elem?,
  set, set_id, All, Bool-cases, if◌then◌else◌,
}
use web_based_jobs_worker_se.GoMap.{lookup, keys, contains, IsNodup, IsRangeOrder, contains-keys}
use web_based_jobs_worker_se.Models.{unlocked, writing, Job}
use web_based_jobs_worker_se.Http.{Response, Line, plain, page, restart_row, text}
use web_based_jobs_worker_se.Worker.{World, returned, map_unlock}
use web_based_jobs_worker_se.Worker.Cells.{At, load_lem, map_lock_lem, send_stop_lem}
use web_based_jobs_worker_se.Worker.Consistent.{IsConsistent}
use web_based_jobs_worker_se.Control.{
  pointers, restart_short_job, restart_all_loop, restart_all_jobs,
}
use web_based_jobs_worker_se.Control.Pointers.{
  pointers_complete, pointers-IsNodup, update_at, update_all, get_elem?-update_at,
  get_elem?-update_all, HasJob, HasJob-update_at, All-pointers,
}
use web_based_jobs_worker_se.Control.Reset.{reset_of, reset_completed_job_infos_lem}

-- A job that is long stays as it is; a short one is reset if it is completed, and stopped if not.
unfoldable pub again_of : Job → Job
again_of j = if j.islong then j else if j.iscompleted then reset_of j else record j { stop = 1 }

-- The restart can go on: a completed short job has a free lock and a buffer, and a running one has
-- no stop request pending.
abbrev pub CanRestart : Job → Type 0
CanRestart j =
    (j.islong ≡ true)
    ⊎ ((j.iscompleted ≡ true) × (j.lock ≡ unlocked) × (buf : Text) × (j.result ≡ some buf))
    ⊎ ((j.iscompleted ≡ false) × (j.stop ≡ 0))

-- What is put into the queue for a job.
unfoldable due : ℕ → Job → List ℕ
due p j = if j.islong then [] else if j.iscompleted then p ∷ [] else []

update_at_lem :
    (f : Job → Job) (p : ℕ) (heap : List Job) (j : Job)
    → get_elem? heap p ≡ some j
    → update_at f p heap ≡ set heap p (f j)
unfolding update_at
update_at_lem f p heap j h = ground (arith, h)

restart_short_job_lem :
    (nb p : ℕ) (j : Job) (w : World)
    → At w p j
    → CanRestart j
    → length w.queue < w.capacity
    → (row : Option Line) × (restart_short_job nb p w
        ≡ returned row
            (record w { heap = update_at again_of p w.heap; queue = w.queue ++ due p j }))
unfolding restart_short_job again_of due
restart_short_job_lem nb p j w h can room = elim (Bool-cases j.islong) [
  | inl long ↦ (
    none,
    ground (
      arith,
      load_lem p j w h,
      update_at_lem again_of p w.heap j h,
      set_id w.heap p h,
      append-nil w.queue,
    ),
  )
  | inr short ↦ elim can [
    | inl long ↦ absurd (cc)
    | inr (inl (over, idle, buf, stored)) ↦ (
      some (restart_row nb j.id (text "no") (text "n/a") (text "yes")),
      ground (
        arith,
        load_lem p j w h,
        reset_completed_job_infos_lem p j w h idle stored,
        update_at_lem again_of p w.heap j h,
      ),
    )
    | inr (inr (running, free)) ↦ (
      some (restart_row nb j.id (text "yes") (text "yes") (text "n/a")),
      ground (
        arith,
        load_lem p j w h,
        send_stop_lem p j w h free,
        update_at_lem again_of p w.heap j h,
        append-nil w.queue,
      ),
    )
  ]
]

-- A short job that is completed.
abbrev pub IsDue : Job → Type 0
IsDue j = (j.islong ≡ false) × (j.iscompleted ≡ true)

length-due : (p : ℕ) (j : Job) → length (due p j) ≤ 1
unfolding due
length-due p j = ground arith

contains-due : (p : ℕ) (j : Job) → IsDue j → contains p (due p j) ≡ true
unfolding due contains
contains-due p j (short, over) = ground (arith, nat_beq_iff p p)

contains-append :
    (q : ℕ) (xs ys : List ℕ) → contains q (xs ++ ys) ≡ (contains q xs || contains q ys)
unfolding contains
contains-append q [] ys = refl
contains-append q (x ∷ xs) ys = ground (arith, contains-append q xs ys)

-- The job at another address, after a change at `p`.
at_other :
    (p q : ℕ) (heap : List Job) {k : Job}
    → (p == q) ≡ false
    → get_elem? heap q ≡ some k
    → get_elem? (update_at again_of p heap) q ≡ some k
at_other p q heap other h = ground (arith, get_elem?-update_at again_of p q heap)

-- Of the jobs that are due, the one at `p` is queued first and the others later.
contains-queued :
    (p q : ℕ) (ps more : List ℕ) (heap : List Job) (j k : Job)
    → get_elem? heap p ≡ some j
    → ((r : ℕ) (i : Job)
        → contains r ps ≡ true
        → get_elem? (update_at again_of p heap) r ≡ some i
        → IsDue i
        → contains r more ≡ true)
    → contains q (p ∷ ps) ≡ true
    → get_elem? heap q ≡ some k
    → IsDue k
    → contains q (due p j ++ more) ≡ true
unfolding contains
contains-queued p q ps more heap j k h later c at_q d = elim (Bool-cases (p == q)) [
  | inl here ↦
      let same : p ≡ q = (nat_beq_iff p q).0 here in
      let is_j : k ≡ j = cc in
      let first : contains q (due p j) ≡ true = rw (← same, ← is_j) (contains-due p k d) in
      ground (arith, contains-append q (due p j) more, first)
  | inr other ↦
      let last = later q k (ground arith) (at_other p q heap other at_q) d in
      ground (arith, contains-append q (due p j) more, last)
]

-- The loop over `ps` returns, changes each job once and queues those that are due.
abbrev Runs : ℕ → List Line → List ℕ → World → Type 0
Runs i lines ps w =
    (rows : List Line) × (more : List ℕ) × (restart_all_loop i lines ps w
      ≡ returned rows (record w { heap = update_all again_of ps w.heap; queue = w.queue ++ more }))
    × ((q : ℕ) (k : Job)
        → contains q ps ≡ true
        → get_elem? w.heap q ≡ some k
        → IsDue k
        → contains q more ≡ true)

-- One round, and then the rest of the loop.
round_then :
    (i : ℕ) (lines : List Line) (p : ℕ) (ps : List ℕ) (j : Job) (w : World) (row : Option Line)
    → get_elem? w.heap p ≡ some j
    → let w₁ = record w { heap = update_at again_of p w.heap; queue = w.queue ++ due p j } in
      restart_short_job (i + 1) p w ≡ returned row w₁
      → ((i : ℕ) (lines : List Line) → Runs i lines ps w₁)
      → Runs i lines (p ∷ ps) w
unfolding restart_all_loop update_all
round_then i lines p ps j w none h e next =
    let (rows, more, run, queued) = next i lines in
    (
      rows,
      due p j ++ more,
      rw e (run ∙ simp append_assoc),
      λ q k c at_q d. contains-queued p q ps more w.heap j k h queued c at_q d,
    )
round_then i lines p ps j w (some line) h e next =
    let (rows, more, run, queued) = next (i + 1) (lines ++ line ∷ []) in
    (
      rows,
      due p j ++ more,
      rw e (run ∙ simp append_assoc),
      λ q k c at_q d. contains-queued p q ps more w.heap j k h queued c at_q d,
    )

restart_all_loop_lem :
    (i : ℕ) (lines : List Line) (ps : List ℕ) (w : World)
    → IsNodup ps
    → All (HasJob CanRestart w.heap) ps
    → length w.queue + length ps ≤ w.capacity
    → Runs i lines ps w
unfolding restart_all_loop update_all contains
restart_all_loop_lem i lines [] w n all room = (lines, [], simp append-nil, λ q k c h d. absurd cc)
restart_all_loop_lem i lines (p ∷ ps) w n ((j, h, can), all) room =
    let w₁ = record w { heap = update_at again_of p w.heap; queue = w.queue ++ due p j } in
    let all₁ = HasJob-update_at CanRestart again_of p ps w.heap n.0 all in
    let room₁ : length w₁.queue + length ps ≤ w₁.capacity =
      omega (arith, length-append w.queue (due p j), length-due p j) in
    let (row, e) = restart_short_job_lem (i + 1) p j w h can (omega arith) in
    round_then i lines p ps j w row h e
      (λ i lines. restart_all_loop_lem i lines ps w₁ n.1 all₁ room₁)

module _ (order : List Text → List Text) (o : IsRangeOrder order) (w : World) where
  abbrev pub restarted : List ℕ
  restarted = pointers (order (keys w.results)) w.results

  -- If table and jobs agree, no id stands twice, the table is unlocked, every registered job is
  -- long, or completed with a free lock and a buffer, or runs with no stop request pending, and the
  -- queue has room for all of them, `restartAllJobs` returns with the table unlocked and unchanged.
  -- Any registered job is then as it was if it is long, is reset and waits in the queue if it is
  -- short and completed, and has a stop request pending otherwise.
  pub restart_all_jobs_lem :
      (id : Text) (p : ℕ) (j : Job)
      → IsConsistent w
      → IsNodup (keys w.results)
      → w.maplock ≡ unlocked
      → ((id : Text) (p : ℕ) (j : Job) → lookup id w.results ≡ some p → At w p j → CanRestart j)
      → length w.queue + length (pointers (order (keys w.results)) w.results) ≤ w.capacity
      → lookup id w.results ≡ some p
      → At w p j
      → (resp : Response) × (w' : World) × (restart_all_jobs order w ≡ returned resp w')
        × (resp.code ≡ 200)
        × (w'.maplock ≡ unlocked)
        × (w'.results ≡ w.results)
        × At w' p (again_of j)
        × ((j.islong ≡ true) ⊎ ((j.iscompleted ≡ false) ⊎ (contains p w'.queue ≡ true)))
  unfolding restart_all_jobs
  restart_all_jobs_lem id p j s nodup free can room found at_p =
      let w₁ = record w { maplock = writing } in
      let once = pointers-IsNodup w s (order (keys w.results)) (o.once (keys w.results) nodup) in
      let all = All-pointers w s CanRestart can (order (keys w.results)) in
      let (rows, more, run, queued) = restart_all_loop_lem 0 [] restarted w₁ once all room in
      let visited =
        pointers_complete id p (order (keys w.results)) w.results
          (o.same id (keys w.results) ∙ contains-keys id w.results found) found in
      (
        record {
          code = 200;
          body = page (
              plain (
                text
                  "[+] restart summary - retry or check status for not restarted jobs. zoom in to fit the screen")
              ∷ rows);
        },
        record w {
          maplock = unlocked;
          heap = update_all again_of restarted w.heap;
          queue = w.queue ++ more;
        },
        rw (map_lock_lem w free) (rw run (unfold map_unlock in refl)),
        refl,
        refl,
        refl,
        get_elem?-update_all again_of restarted p w.heap once ∙ ground (arith, visited, at_p),
        elim (Bool-cases j.islong) [
          | inl long ↦ inl long
          | inr short ↦ elim (Bool-cases j.iscompleted) [
            | inl over ↦
                let waits = queued p j visited at_p (short, over) in
                inr (inr (ground (arith, contains-append p w.queue more, waits)))
            | inr running ↦ inr (inl running)
          ]
        ],
      )
