-- ===== src/Settings/Loading.antt =====
-- Loading the settings, and the limit on open files.
use web_based_jobs_worker_se.Base.{
  ◌≤◌, ◌≡◌, ◌∙◌, ◌⊎◌, inl, inr, refl, Bool, true, ◌&&◌, [], Option, none, some, arith, Text,
  text_eq_refl, Option-cases,
}
use web_based_jobs_worker_se.Config.{Configuration, default_config}
use web_based_jobs_worker_se.Host.{
  Rlimit, Entry, missing, folder, hidden, unreadable, file, Machine, put_entry, next, opens,
}
use web_based_jobs_worker_se.Settings.{
  Json, default_config_file, load_config_file, fall_back, enforce_max_open_files,
}

-- The settings that are in the file, where it can be read and parsed.
abbrev pub parsed : Json → Configuration → Entry → Option Configuration
parsed json current (file s) = json.unmarshal s current
parsed json current missing = none
parsed json current folder = none
parsed json current hidden = none
parsed json current unreadable = none

module _ (json : Json) (current : Configuration) (m : Machine) where
  -- The machine once the defaults are saved.
  abbrev pub dumped : Text → Machine
  dumped d = put_entry default_config_file (file d) (put_entry default_config_file (file []) m)

  fall_back_writes :
      (d : Text)
      → json.marshal default_config ≡ some d
      → (opens (m.entry default_config_file) && m.writable default_config_file) ≡ true
      → m.has_space ≡ true
      → fall_back json m ≡ next default_config (dumped d)
  unfolding fall_back
  fall_back_writes d e able space = ground (arith, e, able, space)

  pub load_parsed :
      (path : Text) {c : Configuration}
      → parsed json current (m.entry path) ≡ some c
      → load_config_file json current path m ≡ next c m
  unfolding load_config_file
  load_parsed path h = ground arith

  pub load_unparsed :
      (path : Text)
      → parsed json current (m.entry path) ≡ none
      → load_config_file json current path m ≡ fall_back json m
  unfolding load_config_file
  load_unparsed path h = by_entry (m.entry path) refl
    where
      by_entry :
          (e : Entry) → m.entry path ≡ e → load_config_file json current path m ≡ fall_back json m
      by_entry missing k = ground (arith, k)
      by_entry folder k = ground (arith, k)
      by_entry hidden k = ground (arith, k)
      by_entry unreadable k = ground (arith, k)
      by_entry (file s) k = ground (arith, h, k)

-- Where the defaults survive the way through JSON and the default file can be written: loading the
-- settings ends with those that the file holds and changes nothing, or, if none can be read from
-- it, with the defaults, which are in the file then; and loading them again gives the same and
-- changes nothing.
pub load_config_file_twice :
    (json : Json) (current : Configuration) (m : Machine) (d : Text)
    → json.marshal default_config ≡ some d
    → json.unmarshal d current ≡ some default_config
    → (opens (m.entry default_config_file) && m.writable default_config_file) ≡ true
    → m.has_space ≡ true
    → (c : Configuration) × (m₁ : Machine) × (load_config_file json current default_config_file m
        ≡ next c m₁)
      × (load_config_file json current default_config_file m₁ ≡ next c m₁)
      × (((m₁ ≡ m) × (parsed json current (m.entry default_config_file) ≡ some c))
          ⊎ ((c ≡ default_config) × (m₁ ≡ dumped json current m d)))
load_config_file_twice json current m d e back able space =
    elim (Option-cases (parsed json current (m.entry default_config_file))) [
      | inr (c, h) ↦ (
        c,
        m,
        load_parsed json current m default_config_file h,
        load_parsed json current m default_config_file h,
        inl (refl, h),
      )
      | inl h ↦
          let m₁ = dumped json current m d in
          (
            default_config,
            m₁,
            load_unparsed json current m default_config_file h
                ∙ fall_back_writes json current m d e able space,
            load_parsed json current m₁ default_config_file
                (rw (text_eq_refl default_config_file) back),
            inr (refl, refl),
          )
    ]

-- Raising the limit on open files lowers neither bound and keeps the current one at most the
-- maximum, whether or not the system permits it; if it permits every limit, both bounds are at
-- least the configured number afterwards.
pub enforce_max_open_files_bounds :
    (c : Configuration) (permitted : Rlimit → Bool) (lim : Rlimit)
    → lim.cur ≤ lim.max
    → (lim.cur ≤ (enforce_max_open_files c permitted lim).cur)
      × (lim.max ≤ (enforce_max_open_files c permitted lim).max)
      × ((enforce_max_open_files c permitted lim).cur
          ≤ (enforce_max_open_files c permitted lim).max)
      × (c.linux_worker_max_open_files ≤ (enforce_max_open_files c (λ _. true) lim).cur)
      × (c.linux_worker_max_open_files ≤ (enforce_max_open_files c (λ _. true) lim).max)
unfolding enforce_max_open_files
enforce_max_open_files_bounds c permitted lim h =
    (ground arith, ground arith, ground arith, ground arith, ground arith)
