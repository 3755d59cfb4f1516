-- ===== src/Control/Reset.antt =====
-- `resetCompletedJobInfos`: what it resets, and that it panics on a job without a buffer.
use web_based_jobs_worker_se.Base.{ℕ, ◌≡◌, refl, ap, [], set-set, Option, none, some, Text}
use web_based_jobs_worker_se.Models.{unlocked, writing, Job}
use web_based_jobs_worker_se.Worker.{World, returned, panicked, put, modify}
use web_based_jobs_worker_se.Worker.Cells.{
  At, put-At, load_lem, modify_lem, job_lock_lem, job_unlock_lem,
}
use web_based_jobs_worker_se.Control.{reset_fields, reset_result, reset_completed_job_infos}

-- A job after the reset.
abbrev pub reset_of : Job → Job
reset_of j = record (reset_fields j) { result = some []; lock = unlocked }

reset_result-some :
    (result : Option Text) (p : ℕ) (w : World) {buf : Text}
    → result ≡ some buf
    → reset_result result p w ≡ modify p (λ j. record j { result = some [] }) w
unfolding reset_result
reset_result-some result p w e = ap (λ r. reset_result r p w) e

reset_result-none :
    (result : Option Text) (p : ℕ) (w : World)
    → result ≡ none
    → reset_result result p w ≡ panicked w
unfolding reset_result
reset_result-none result p w e = ap (λ r. reset_result r p w) e

module _ (p : ℕ) (j : Job) (w : World) (h : At w p j) (free : j.lock ≡ unlocked) where
  pub reset_completed_job_infos_lem :
      {buf : Text}
      → j.result ≡ some buf
      → reset_completed_job_infos p w ≡ returned tt (put p (reset_of j) w)
  unfolding reset_completed_job_infos
  reset_completed_job_infos_lem e =
      let j₁ = record j { lock = writing } in
      let j₂ = reset_fields j₁ in
      let j₃ = record j₂ { result = some [] } in
      let w₁ = put p j₁ w in
      let w₂ = put p j₂ w₁ in
      let w₃ = put p j₃ w₂ in
      let h₁ = put-At p j₁ w h in
      let h₂ = put-At p j₂ w₁ h₁ in
      let h₃ = put-At p j₃ w₂ h₂ in
      rw (job_lock_lem p j w h free) (
        rw (modify_lem p j₁ w₁ h₁ reset_fields) (
          rw (load_lem p j₂ w₂ h₂) (
            rw (reset_result-some j.result p w₂ e) (
              rw (modify_lem p j₂ w₂ h₂ (λ j. record j { result = some [] }))
                (rw (job_unlock_lem p j₃ w₃ h₃ refl) (simp set-set))))))

  pub reset_completed_job_infos_panics :
      j.result ≡ none
      → reset_completed_job_infos p w
        ≡ panicked (put p (record (reset_fields j) { lock = writing }) w)
  unfolding reset_completed_job_infos
  reset_completed_job_infos_panics e =
      let j₁ = record j { lock = writing } in
      let w₁ = put p j₁ w in
      let h₁ = put-At p j₁ w h in
      let h₂ = put-At p (reset_fields j₁) w₁ h₁ in
      rw (job_lock_lem p j w h free) (
        rw (modify_lem p j₁ w₁ h₁ reset_fields) (
          rw (load_lem p (reset_fields j₁) (put p (reset_fields j₁) w₁) h₂)
            (rw (reset_result-none j.result p (put p (reset_fields j₁) w₁) e) (simp set-set))))
