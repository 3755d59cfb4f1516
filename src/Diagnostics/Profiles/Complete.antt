-- ===== src/Diagnostics/Profiles/Complete.antt =====
-- A collection that reports success is complete.
use mathlib.Core.Option.{some-injective}
use web_based_jobs_worker_se.Base.{
  ◌≡◌, refl, ap, sym, ◌∙◌, Bool, true, false, ◌&&◌, List, [], ◌∷◌, ◌++◌, Option, none, some, arith,
  Text, text_key, text_eq, text_eq_refl, All, Bool-cases, inl, inr, nat_beq_iff,
}
use web_based_jobs_worker_se.Http.{text}
use web_based_jobs_worker_se.Paths.{is_name, lead, join_path-name}
use web_based_jobs_worker_se.Host.{
  Error, Entry, file, Machine, put_entry, next, S, opens, create, create_folder, join_path,
}
use web_based_jobs_worker_se.Host.Posts.{Post, bind-Post, Post-trivial}
use web_based_jobs_worker_se.Diagnostics.Profiles.{
  Profiles, write_profile, dump_profile, write_cpu_profile, dump_cpu_profile, after_block,
  dump_profiles, collect_stack_trace,
}

text_eq-append : (p a b : Text) → text_eq (p ++ a) (p ++ b) ≡ text_eq a b
unfolding text_eq
text_eq-append [] a b = refl
text_eq-append (c ∷ p) a b = ground (arith, text_eq-append p a b, nat_beq_iff c c)

-- What stands in the file of the CPU profile: nothing where the profiling did not start.
abbrev pub cpu_content : Option Text → Text
cpu_content none = []
cpu_content (some profile) = profile

-- The profiles that are written with an error looked at.
abbrev pub written_profiles : Profiles → List (Text × Option Text)
written_profiles p =
    (text "allocs.out", p.allocs)
    ∷ (text "memory.out", p.heap)
    ∷ (text "mutex.out", p.mutex)
    ∷ (text "block.out", p.block)
    ∷ (text "threads.out", p.threadcreate)
    ∷ (text "goroutine.out", p.goroutine)
    ∷ []

module _ (folder : Text) where
  text_eq-join_path :
      (a b : Text)
      → is_name a ≡ true
      → is_name b ≡ true
      → text_eq (join_path folder a) (join_path folder b) ≡ text_eq a b
  text_eq-join_path a b h k =
      rw (join_path-name folder a h, join_path-name folder b k) (text_eq-append (lead folder) a b)

  -- The profile is in its file.
  abbrev pub IsDumped : Machine → Text × Option Text → Type 0
  IsDumped m (name, o) = (d : Text) × (o ≡ some d) × (m.entry (join_path folder name) ≡ file d)

  -- If all went well so far, these profiles are in their files.
  abbrev SoFar : List (Text × Option Text) → Bool → Machine → Type 0
  SoFar l allgood m = allgood ≡ true → All (IsDumped m) l

  abbrev IsNew : Text → List (Text × Option Text) → Type 0
  IsNew name l =
      (is_name name ≡ true) × All (λ r. (is_name r.0 ≡ true) × (text_eq name r.0 ≡ false)) l

  put-All :
      (name : Text) (e : Entry) (m : Machine) (l : List (Text × Option Text))
      → IsNew name l
      → All (IsDumped m) l
      → All (IsDumped (put_entry (join_path folder name) e m)) l
  put-All name e m [] new h = tt
  put-All name e m ((n, o) ∷ l) new h = (
    (h.0.0, h.0.1, ground (arith, text_eq-join_path name n new.0 new.1.0.0, h.0.2, new.1.0.1)),
    put-All name e m l (new.0, new.1.1) h.1,
  )

  write_profile-Post :
      (name : Text) (o : Option Text) (l : List (Text × Option Text)) (allgood : Bool) (m : Machine)
      → IsNew name l
      → SoFar l allgood m
      → Post (SoFar ((name, o) ∷ l)) (write_profile (join_path folder name) o allgood m)
  unfolding write_profile
  write_profile-Post name none l allgood m new h = λ e. absurd (cc)
  write_profile-Post name (some d) l allgood m new h = λ e. (
    (d, refl, rw (text_eq_refl (join_path folder name)) refl),
    put-All name (file d) m l new (h e),
  )

  create-Post :
      (name : Text) (l : List (Text × Option Text)) (allgood : Bool) (m : Machine)
      → IsNew name l
      → SoFar l allgood m
      → Post (λ _. SoFar l allgood) (create (join_path folder name) m)
  unfolding create
  create-Post name l allgood m new h =
      elim (Bool-cases
        (opens (m.entry (join_path folder name)) && m.writable (join_path folder name))) [
          | inl able ↦ rw able (λ e. put-All name (file []) m l new (h e))
          | inr unable ↦ rw unable h
        ]

  -- A file that could be created is written; else nothing is well any more.
  continued :
      (err : Option Error) (go_on : S Bool) (l l' : List (Text × Option Text)) (allgood : Bool)
      (m : Machine)
      → SoFar l allgood m
      → ((m : Machine) → SoFar l allgood m → Post (SoFar l') (go_on m))
      → Post
          (SoFar l')
          (let k : S Bool = elim err [ some _ ↦ (λ m. next false m) | none ↦ go_on ] in k m)
  continued none go_on l l' allgood m h k = k m h
  continued (some e) go_on l l' allgood m h k = λ e. absurd (cc)

  dump_profile-Post :
      (name : Text) (o : Option Text) (l : List (Text × Option Text)) (allgood : Bool) (m : Machine)
      → IsNew name l
      → SoFar l allgood m
      → Post (SoFar ((name, o) ∷ l)) (dump_profile folder name o allgood m)
  unfolding dump_profile
  dump_profile-Post name o l allgood m new h =
      bind-Post (λ _. SoFar l allgood) (SoFar ((name, o) ∷ l)) (create (join_path folder name) m) _
        (create-Post name l allgood m new h)
        (λ err m h.
          continued err (write_profile (join_path folder name) o allgood) l ((name, o) ∷ l) allgood
            m h (λ m h. write_profile-Post name o l allgood m new h))

  -- The profiles of a collection, the last one first.
  abbrev first_one : Profiles → List (Text × Option Text)
  first_one p = (text "cpu.out", some (cpu_content p.cpu)) ∷ []

  abbrev first_two : Profiles → List (Text × Option Text)
  first_two p = (text "goroutine.out", p.goroutine) ∷ first_one p

  abbrev first_three : Profiles → List (Text × Option Text)
  first_three p = (text "threads.out", p.threadcreate) ∷ first_two p

  abbrev first_four : Profiles → List (Text × Option Text)
  first_four p = (text "block.out", p.block) ∷ first_three p

  abbrev first_five : Profiles → List (Text × Option Text)
  first_five p = (text "mutex.out", p.mutex) ∷ first_four p

  abbrev first_six : Profiles → List (Text × Option Text)
  first_six p = (text "memory.out", p.heap) ∷ first_five p

  abbrev all_profiles : Profiles → List (Text × Option Text)
  all_profiles p = (text "allocs.out", p.allocs) ∷ first_six p

  write_cpu_profile-Post :
      (o : Option Text) (m : Machine)
      → Post (SoFar ((text "cpu.out", some (cpu_content o)) ∷ [])) (
          write_cpu_profile
            (join_path folder (text "cpu.out"))
            o
            (put_entry (join_path folder (text "cpu.out")) (file []) m))
  unfolding write_cpu_profile
  write_cpu_profile-Post none m =
      λ _. (([], refl, rw (text_eq_refl (join_path folder (text "cpu.out"))) refl), tt)
  write_cpu_profile-Post (some d) m =
      λ _. ((d, refl, rw (text_eq_refl (join_path folder (text "cpu.out"))) refl), tt)

  dump_cpu_profile-Post :
      (p : Profiles) (m : Machine) → Post (SoFar (first_one p)) (dump_cpu_profile folder p.cpu m)
  unfolding dump_cpu_profile create
  dump_cpu_profile-Post p m =
      let path = join_path folder (text "cpu.out") in
      elim (Bool-cases (opens (m.entry path) && m.writable path)) [
        | inl able ↦ rw able (write_cpu_profile-Post p.cpu m)
        | inr unable ↦ rw unable (λ e. absurd (cc))
      ]

  after_block-Post :
      (p : Profiles) (allgood : Bool) (m : Machine)
      → SoFar (first_three p) allgood m
      → Post (SoFar (all_profiles p)) (after_block folder p allgood m)
  unfolding after_block text text_eq is_name
  after_block-Post p allgood m h =
      bind-Post (SoFar (first_four p)) (SoFar (all_profiles p)) _ _
        (write_profile-Post (text "block.out") p.block (first_three p) allgood m
          (refl, ((refl, refl), ((refl, refl), ((refl, refl), tt)))) h)
        (λ b m h.
          bind-Post (SoFar (first_five p)) (SoFar (all_profiles p)) _ _
            (dump_profile-Post (text "mutex.out") p.mutex (first_four p) b m
              (refl, ((refl, refl), ((refl, refl), ((refl, refl), ((refl, refl), tt))))) h)
            (λ b m h.
              bind-Post (SoFar (first_six p)) (SoFar (all_profiles p)) _ _
                (dump_profile-Post (text "memory.out") p.heap (first_five p) b m
                  (
                    refl,
                    (
                      (refl, refl),
                      ((refl, refl), ((refl, refl), ((refl, refl), ((refl, refl), tt)))),
                    ),
                  )
                  h)
                (λ b m h.
                  dump_profile-Post (text "allocs.out") p.allocs (first_six p) b m
                    (
                      refl,
                      (
                        (refl, refl),
                        (
                          (refl, refl),
                          ((refl, refl), ((refl, refl), ((refl, refl), ((refl, refl), tt)))),
                        ),
                      ),
                    )
                    h)))

  dump_profiles-Post :
      (p : Profiles) (m : Machine) → Post (SoFar (all_profiles p)) (dump_profiles folder p m)
  unfolding dump_profiles text text_eq is_name
  dump_profiles-Post p m =
      bind-Post (SoFar (first_one p)) (SoFar (all_profiles p)) _ _ (dump_cpu_profile-Post p m)
        (λ b m h.
          bind-Post (SoFar (first_two p)) (SoFar (all_profiles p)) _ _
            (dump_profile-Post (text "goroutine.out") p.goroutine (first_one p) b m
              (refl, ((refl, refl), tt)) h)
            (λ b m h.
              bind-Post (SoFar (first_three p)) (SoFar (all_profiles p)) _ _
                (dump_profile-Post (text "threads.out") p.threadcreate (first_two p) b m
                  (refl, ((refl, refl), ((refl, refl), tt))) h)
                (λ b m h.
                  bind-Post (λ _. SoFar (first_three p) b) (SoFar (all_profiles p)) _ _
                    (create-Post (text "block.out") (first_three p) b m
                      (refl, ((refl, refl), ((refl, refl), ((refl, refl), tt)))) h)
                    (λ err m h.
                      continued err (after_block folder p b) (first_three p) (all_profiles p) b m h
                        (λ m h. after_block-Post p b m h)))))

collect-Post :
    (location diagid : Text) (p : Profiles) (m : Machine)
    → Post
        (SoFar (join_path location diagid) (all_profiles (join_path location diagid) p))
        (collect_stack_trace location diagid p m)
unfolding collect_stack_trace
collect-Post location diagid p m =
    bind-Post (λ _ _. Unit {0}) _ (create_folder (join_path location diagid) m) _ (Post-trivial _)
      by_error
  where
    by_error :
        (err : Option Error) (m : Machine)
        → Unit {0}
        → Post (SoFar (join_path location diagid) (all_profiles (join_path location diagid) p)) (
            let k : S Bool = elim err [
              | some _ ↦ (λ m. next false m)
              | none ↦ dump_profiles (join_path location diagid) p
            ] in
            k m)
    by_error none m _ = dump_profiles-Post (join_path location diagid) p m
    by_error (some e) m _ = λ e. absurd (cc)

-- If a collection of diagnostics reports success, each of the six profiles other than that of the
-- CPU could be written and is in its file in the folder of the collection; and the file of the CPU
-- profile is there, with the profile if the profiling could be started, and else empty.
pub collect_stack_trace_complete :
    (location diagid : Text) (p : Profiles) (m m' : Machine)
    → collect_stack_trace location diagid p m ≡ next true m'
    → All (IsDumped (join_path location diagid) m') (written_profiles p)
      × (m'.entry (join_path (join_path location diagid) (text "cpu.out"))
          ≡ file (cpu_content p.cpu))
collect_stack_trace_complete location diagid p m m' h =
    let all = (rw h at (collect-Post location diagid p m)) refl in
    let (allocs, (heap, (mutex, (block, (threads, (goroutine, ((d, e, cpu), _))))))) = all in
    (
      (allocs, (heap, (mutex, (block, (threads, (goroutine, tt)))))),
      cpu ∙ ap file (sym (some-injective (cpu_content p.cpu) d e)),
    )
