-- ===== src/Host/Posts.antt =====
-- What holds when a step goes on.
use web_based_jobs_worker_se.Host.{Machine, Step, next, exited, panicked, S, bind}

-- If the step goes on, this holds of its value and of the machine.
abbrev pub Post : {A : Type 0} → (A → Machine → Type 0) → Step A → Type 0
Post P (next a m) = P a m
Post P (exited code m) = Unit
Post P (panicked m) = Unit

pub bind-Post :
    {A B : Type 0} (P : A → Machine → Type 0) (Q : B → Machine → Type 0) (x : Step A) (f : A → S B)
    → Post P x
    → ((a : A) (m : Machine) → P a m → Post Q (f a m))
    → Post Q (bind x f)
bind-Post P Q (next a m) f h k = k a m h
bind-Post P Q (exited code m) f h k = tt
bind-Post P Q (panicked m) f h k = tt

pub Post-trivial : {A : Type 0} (x : Step A) → Post (λ _ _. Unit {0}) x
Post-trivial (next a m) = tt
Post-trivial (exited code m) = tt
Post-trivial (panicked m) = tt
