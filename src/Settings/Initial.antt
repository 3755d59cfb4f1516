-- ===== src/Settings/Initial.antt =====
-- The state that the service starts with.
use web_based_jobs_worker_se.Base.{
  ℕ, ◌≡◌, ◌⊎◌, inl, inr, refl, Bool, true, false, Option, none, some, arith, Text, text_key, ℤ, pos,
  negsuc, text_eq, text_eq_refl, Bool-cases,
}
use web_based_jobs_worker_se.Config.{Configuration}
use web_based_jobs_worker_se.Host.{
  Entry, missing, folder, hidden, unreadable, file, Machine, put_entry, Step, bind, next, exited,
  panicked, create_folder, Error, failed,
}
use web_based_jobs_worker_se.Host.Folders.{made, create_folder_lem}
use web_based_jobs_worker_se.GoMap.{lookup}
use web_based_jobs_worker_se.Worker.{World}
use web_based_jobs_worker_se.Worker.Consistent.{IsConsistent}
use web_based_jobs_worker_se.Settings.{
  Surroundings, make_folders, make_queue, empty_world, located, with_shell, with_queue,
  initialize_worker_settings,
}

-- Something is at the path that can be looked at.
abbrev pub IsThere : Entry → Type 0
IsThere missing = ⊥
IsThere hidden = ⊥
IsThere folder = Unit
IsThere unreadable = Unit
IsThere (file s) = Unit

-- What was there stays there.
abbrev pub Keeps : Machine → Machine → Type 0
Keeps m m' = (q : Text) → IsThere (m.entry q) → IsThere (m'.entry q)

folder-Keeps : (path : Text) (m : Machine) → Keeps m (put_entry path folder m)
folder-Keeps path m q h = elim (Bool-cases (text_eq path q)) [ inl e ↦ rw e tt | inr e ↦ rw e h ]

-- What `createFolder` ends with.
abbrev pub Made : Text → Machine → Step (Option Error) → Type 0
Made path m s =
    (m' : Machine) × ((s ≡ next none m') × IsThere (m'.entry path) × Keeps m m'
      ⊎ (s ≡ next (some failed) m'))

made-Made :
    (path : Text) (m : Machine) (e : Entry) (able : Bool)
    → m.entry path ≡ e
    → Made path m (made e able path m)
made-Made path m missing true h =
    (put_entry path folder m, inl (refl, rw (text_eq_refl path) tt, folder-Keeps path m))
made-Made path m missing false h = (m, inr refl)
made-Made path m hidden able h = (m, inr refl)
made-Made path m folder able h = (m, inl (refl, rw h tt, λ q k. k))
made-Made path m unreadable able h = (m, inl (refl, rw h tt, λ q k. k))
made-Made path m (file s) able h = (m, inl (refl, rw h tt, λ q k. k))

pub create_folder-Made : (path : Text) (m : Machine) → Made path m (create_folder path m)
create_folder-Made path m =
    rw (create_folder_lem path m) (made-Made path m (m.entry path) (m.writable path) refl)

-- What making the folders of the service ends with.
abbrev FoldersMade : Configuration → Machine → Step Bool → Type 0
FoldersMade c m s =
    (m' : Machine) × ((s ≡ next false m')
      ⊎ ((s ≡ next true m')
          × IsThere (m'.entry c.jobs_outputs_folder)
          × IsThere (m'.entry c.jobs_outputs_backups_folder)))

make_folders_lem : (c : Configuration) (m : Machine) → FoldersMade c m (make_folders c m)
unfolding make_folders
make_folders_lem c m =
    let (m₁, outputs) = create_folder-Made c.jobs_outputs_folder m in
    elim outputs [
      | inr failure ↦ (m₁, inl (rw failure refl))
      | inl (done, there, keeps) ↦
          let (m₂, backups) = create_folder-Made c.jobs_outputs_backups_folder m₁ in
          elim backups [
            | inr failure ↦ (m₂, inl (rw done (rw failure refl)))
            | inl (done₂, there₂, keeps₂) ↦
                (m₂, inr (rw done (rw done₂ refl), keeps₂ c.jobs_outputs_folder there, there₂))
          ]
    ]

empty_world-IsConsistent : (n : ℕ) → IsConsistent (empty_world n)
unfolding lookup
empty_world-IsConsistent n id p found = absurd cc

-- What initialising the settings ends with.
abbrev pub Initialised : Configuration → Step (Option (Configuration × World)) → Type 0
Initialised c (next none m) = (n : ℕ) × (c.max_jobs_queue_buffer ≡ pos n)
Initialised c (next (some (c', w)) m) =
    (c.max_jobs_queue_buffer ≡ pos w.capacity)
    × (w ≡ empty_world w.capacity)
    × IsConsistent w
    × IsThere (m.entry c.jobs_outputs_folder)
    × IsThere (m.entry c.jobs_outputs_backups_folder)
    × (c'.jobs_outputs_folder ≡ c.jobs_outputs_folder)
Initialised c (exited code m) = ⊥
Initialised c (panicked m) = (n : ℕ) × (c.max_jobs_queue_buffer ≡ negsuc n)

located_lem :
    (c : Configuration) (e : Surroundings) (n : ℕ) (m : Machine)
    → c.max_jobs_queue_buffer ≡ pos n
    → IsThere (m.entry c.jobs_outputs_folder)
    → IsThere (m.entry c.jobs_outputs_backups_folder)
    → Initialised c (located c e (empty_world n) m)
unfolding located with_shell
located_lem c e n m size outputs backups =
    elim (Bool-cases (e.zone_known c.default_jobs_infos_timezone)) [
      | inl known ↦
          rw known (size, refl, empty_world-IsConsistent n, outputs, backups, ground arith)
      | inr unknown ↦ rw unknown (n, size)
    ]

made_folders_lem :
    (c : Configuration) (e : Surroundings) (n : ℕ) (m : Machine)
    → c.max_jobs_queue_buffer ≡ pos n
    → Initialised c (with_queue c e n m)
unfolding with_queue
made_folders_lem c e n m size = elim (Bool-cases e.template_parses) [
  | inr fails ↦ rw fails (n, size)
  | inl parses ↦
      let (m', folders) = make_folders_lem c m in
      elim folders [
        | inl failure ↦ rw parses (rw failure (n, size))
        | inr (done, outputs, backups) ↦
            rw parses (rw done (located_lem c e n m' size outputs backups))
      ]
]

queue_made :
    (c : Configuration) (e : Surroundings) (m : Machine) (size : ℤ)
    → c.max_jobs_queue_buffer ≡ size
    → Initialised c (bind (make_queue size m) (with_queue c e))
unfolding make_queue
queue_made c e m (pos n) h = made_folders_lem c e n m h
queue_made c e m (negsuc n) h = (n, h)

-- If the settings are initialised, the table of jobs and the queue are empty and free, the queue
-- has the configured capacity, table and jobs agree, and there is something at the paths of both
-- folders; else the program panics, exactly if the configured capacity is negative, or an error is
-- returned.
pub initialize_worker_settings_lem :
    (c : Configuration) (e : Surroundings) (m : Machine)
    → Initialised c (initialize_worker_settings c e m)
unfolding initialize_worker_settings
initialize_worker_settings_lem c e m = queue_made c e m c.max_jobs_queue_buffer refl
