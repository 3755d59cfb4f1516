-- ===== src/Security.antt =====
-- The certificate of the server: `generateServerCertificate` (security.go). Cryptography is a
-- parameter; dates and the serial number are left out.
pub mod Saved
use web_based_jobs_worker_se.Base.{
  ℕ, Bool, true, false, ◌||◌, List, [], ◌∷◌, ◌++◌, Option, none, some, Text, text_key, ◌==◌,
  get_elem?, if◌then◌else◌,
}
use web_based_jobs_worker_se.Config.{Configuration}
use web_based_jobs_worker_se.Http.{text}
use web_based_jobs_worker_se.Worker.{World}
use web_based_jobs_worker_se.Host.{
  Error, not_exist, failed, Machine, Step, next, exited, panicked, S, pure, exit_with, ◌>>=◌, ◌>>◌,
  stat, stat_is_dir, remove, open_append, write_file, mkdir_all, create_folder, join_path,
}
use web_based_jobs_worker_se.Routes.{setup_routes}
use web_based_jobs_worker_se.Settings.{Surroundings, initialize_worker_settings}
use web_based_jobs_worker_se.Logging.{stop_with}

-- `x509.Certificate`, as far as the settings decide it.
pub record Certificate : Type 0 where
  pub organization : Text
  pub country : Text
  pub province : Text
  pub locality : Text
  pub street_address : Text
  pub postal_code : Text
  pub common_name : Text
  pub email_addresses : List Text
  pub ip_addresses : List Text
  pub dns_names : List Text

-- `net.ParseIP`, `rsa.GenerateKey` with `x509.MarshalPKCS1PrivateKey`, `pem.Encode`,
-- `x509.CreateCertificate`, `tls.LoadX509KeyPair` and `tls.X509KeyPair`.
pub record Crypto : Type 0 where
  pub parse_ip : Text → Option Text
  pub generate_key : Option Text
  pub pem_encode : Text → Option Text
  pub create_certificate : Certificate → Text → Option Text
  pub pair_loads : Bool
  pub pair_fits : Text → Text → Bool

is_local : Text → Bool
is_local host = host == text "127.0.0.1" || host == text "0.0.0.0" || host == text "localhost"

unfoldable pub template : Configuration → Crypto → Certificate
unfolding is_local
template c k =
    let base : Certificate = record {
      organization = c.organization_name_for_certs;
      country = c.country_code_for_certs;
      province = c.province_name_for_certs;
      locality = c.city_name_for_certs;
      street_address = c.street_address_for_certs;
      postal_code = c.postal_code_for_certs;
      common_name = c.https_server_host;
      email_addresses = c.https_server_certs_email ∷ [];
      ip_addresses = [];
      dns_names = [];
    } in
    if is_local c.https_server_host
    then record base {
      ip_addresses = text "127.0.0.1" ∷ text "::1" ∷ [];
      dns_names = text "localhost" ∷ [];
    }
    else elim (k.parse_ip c.https_server_host) [
      | some ip ↦ record base { ip_addresses = ip ∷ [] }
      | none ↦ record base { dns_names = c.https_server_host ∷ [] }
    ]

-- A value that has to be there, or the program stops.
unfoldable pub require : {A : Type 0} → Configuration → ℕ → Option A → S A
unfolding stop_with
require c code none = stop_with c code
require c code (some a) = pure a

-- Saving a file that has to be saved.
unfoldable pub save_or_stop : Configuration → Text → Text → S (Unit {0})
unfolding write_file stop_with
save_or_stop c path s = do
  err ← write_file path s
  elim err [ some _ ↦ stop_with c 1 | none ↦ pure tt ]

-- `generateServerCertificate`: the certificate and the key. It does not look at the error of
-- `createFolder`.
unfoldable pub generate_server_certificate : Configuration → Crypto → S (Text × Text)
unfolding create_folder require save_or_stop
generate_server_certificate c k = do
  ignored ← create_folder c.https_server_certs_path
  key ← require c 1 k.generate_key
  key_pem ← require c 2 (k.pem_encode key)
  save_or_stop c (join_path c.https_server_certs_path c.https_server_key) key_pem
  cert ← require c 1 (k.create_certificate (template c k) key)
  cert_pem ← require c 2 (k.pem_encode cert)
  save_or_stop c (join_path c.https_server_certs_path c.https_server_certs) cert_pem
  pure (cert_pem, key_pem)
