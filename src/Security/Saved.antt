-- ===== src/Security/Saved.antt =====
-- The certificate that the server makes for itself.
use web_based_jobs_worker_se.Base.{
  ◌≡◌, inl, inr, refl, ◌∙◌, false, ◌&&◌, Option, none, some, Text, text_key, text_eq, text_eq_refl,
  Bool-cases, ℕ,
}
use web_based_jobs_worker_se.Config.{Configuration}
use web_based_jobs_worker_se.Host.{
  Machine, Step, next, exited, panicked, S, Error, file, opens, join_path, create_folder,
  write_file,
}
use web_based_jobs_worker_se.Host.Posts.{Post, bind-Post, Post-trivial}
use web_based_jobs_worker_se.Logging.{stop_with}
use web_based_jobs_worker_se.Security.{
  Crypto, template, require, save_or_stop, generate_server_certificate,
}

-- The file at the path has this content, and the others are as before.
abbrev Written : Text → Text → Machine → Machine → Type 0
Written path s m m' =
    (m'.entry path ≡ file s) × ((q : Text) → text_eq path q ≡ false → m'.entry q ≡ m.entry q)

write_file-Post :
    (path s : Text) (m : Machine)
    → Post (λ err m'. err ≡ none → Written path s m m') (write_file path s m)
unfolding write_file
write_file-Post path s m = elim (Bool-cases (opens (m.entry path) && m.writable path)) [
  | inr unable ↦ rw unable (λ e. cc)
  | inl able ↦ rw able (elim (Bool-cases m.has_space) [
    | inr full ↦ rw full (λ e. cc)
    | inl room ↦ rw room (λ _. (rw (text_eq_refl path) refl, λ q d. rw d refl))
  ])
]

save_or_stop-Post :
    (c : Configuration) (path s : Text) (m : Machine)
    → Post (λ _ m'. Written path s m m') (save_or_stop c path s m)
unfolding save_or_stop
save_or_stop-Post c path s m =
    bind-Post (λ err m'. err ≡ none → Written path s m m') _ (write_file path s m) _
      (write_file-Post path s m) by_error
  where
    by_error :
        (err : Option Error) (m' : Machine)
        → (err ≡ none → Written path s m m')
        → Post
            (λ _ m'. Written path s m m')
            (let k : S (Unit {0}) = elim err [ some _ ↦ stop_with c 1 | none ↦ (λ m. next tt m) ] in
              k m')
    by_error none m' h = h refl
    by_error (some e) m' h = tt

weaken :
    {A : Type 0} {P Q : Machine → Type 0} (x : Step A)
    → ((m : Machine) → P m → Q m)
    → Post (λ _ m. P m) x
    → Post (λ _ m. Q m) x
weaken (next a m) f h = f m h
weaken (exited code m) f h = tt
weaken (panicked m) f h = tt

-- What a step keeps: a value that has to be there changes nothing.
require-Post :
    {A : Type 0} (c : Configuration) (P : Machine → Type 0) (code : ℕ) (o : Option A) (m : Machine)
    → P m
    → Post (λ _ m'. P m') (require c code o m)
unfolding require stop_with
require-Post c P code none m h = tt
require-Post c P code (some a) m h = h

module _ (c : Configuration) (k : Crypto)
    (apart : text_eq
        (join_path c.https_server_certs_path c.https_server_certs)
        (join_path c.https_server_certs_path c.https_server_key)
      ≡ false) where
  abbrev pub key_path : Text
  key_path = join_path c.https_server_certs_path c.https_server_key

  abbrev pub cert_path : Text
  cert_path = join_path c.https_server_certs_path c.https_server_certs

  abbrev Saved : Text × Text → Machine → Type 0
  Saved pair m = (m.entry cert_path ≡ file pair.0) × (m.entry key_path ≡ file pair.1)

  generate-Saved : (m : Machine) → Post Saved (generate_server_certificate c k m)
  unfolding generate_server_certificate
  generate-Saved m =
      bind-Post (λ _ _. Unit {0}) _ (create_folder _ m) _ (Post-trivial _)
        (λ _ m _.
          bind-Post (λ _ _. Unit {0}) _ (require c 1 k.generate_key m) _ (Post-trivial _)
            (λ key m _.
              bind-Post (λ _ _. Unit {0}) _ (require c 2 (k.pem_encode key) m) _ (Post-trivial _)
                (λ key_pem m _.
                  bind-Post (λ _ m. m.entry key_path ≡ file key_pem) _
                    (save_or_stop c key_path key_pem m) _
                    (weaken (save_or_stop c key_path key_pem m) (λ m' h. h.0)
                      (save_or_stop-Post c key_path key_pem m))
                    (λ _ m h.
                      let cert = k.create_certificate (template c k) key in
                      bind-Post (λ _ m. m.entry key_path ≡ file key_pem) _ (require c 1 cert m) _
                        (require-Post c (λ m. m.entry key_path ≡ file key_pem) 1 cert m h)
                        (λ cert m h.
                          bind-Post (λ _ m. m.entry key_path ≡ file key_pem) _
                            (require c 2 (k.pem_encode cert) m) _
                            (require-Post c (λ m. m.entry key_path ≡ file key_pem) 2
                              (k.pem_encode cert) m h)
                            (λ cert_pem m h.
                              bind-Post (λ _ m'. Written cert_path cert_pem m m') _
                                (save_or_stop c cert_path cert_pem m) _
                                (save_or_stop-Post c cert_path cert_pem m)
                                (λ _ m' v. (v.0, v.1 key_path apart ∙ h))))))))

  -- If the certificate and its key are made, the two files that the next start reads them from hold
  -- just what is returned, provided that their paths differ.
  pub generate_server_certificate_saves :
      (m m' : Machine) (cert key : Text)
      → generate_server_certificate c k m ≡ next (cert, key) m'
      → (m'.entry cert_path ≡ file cert) × (m'.entry key_path ≡ file key)
  generate_server_certificate_saves m m' cert key h = rw h at (generate-Saved m)
