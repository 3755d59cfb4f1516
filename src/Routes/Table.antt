-- ===== src/Routes/Table.antt =====
-- The tables of routes, for every choice of the settings.
use web_based_jobs_worker_se.Base.{
  ◌≡◌, ◌≢◌, ◌↔◌, refl, ap, ◌∙◌, true, false, Bool, ◌&&◌, ◌||◌, ◌∷◌, All, some, Text, text_key,
  text_eq, arith,
}
use web_based_jobs_worker_se.Config.{Configuration}
use web_based_jobs_worker_se.Http.{text}
use web_based_jobs_worker_se.GoMap.{lookup, keys, contains}
use web_based_jobs_worker_se.Routes.{
  Mux, setup_routes, route, handled, not_found, api_pong, web_pong, web_v1_help, get_diagnostics,
  handle_func, pong_message,
}
use web_based_jobs_worker_se.Routes.Mux.{is_nodup, is_nodup_sound, All-route, route_under_root}

with_flags : Configuration → Bool → Bool → Bool → Configuration
with_flags c web api diagnostics = record c {
  enable_web_access = web;
  enable_api_gateway = api;
  enable_ondemand_diagnostics = diagnostics;
}

both : {A B : Type 0} → A → B → A ↔ B
both a b = (λ _. b, λ _. a)

neither : {A B : Type 0} → ¬ A → ¬ B → A ↔ B
neither p q = (λ a. absurd (p a), λ b. absurd (q b))

available :
    (c : Configuration) (web api diagnostics : Bool)
    → (mux : Mux) × (setup_routes (with_flags c web api diagnostics) ≡ some mux)
      × (is_nodup (keys mux) ≡ true)
      × (((pong_message (with_flags c web api diagnostics)).web_routes ≡ text "enabled")
          ↔ (route mux (text "/worker/web/ping") ≡ handled web_pong))
      × (((pong_message (with_flags c web api diagnostics)).api_routes ≡ text "enabled")
          ↔ (route mux (text "/worker/api/ping") ≡ handled api_pong))
      × (((diagnostics && (web || api)) ≡ true)
          ↔ (route mux (text "/worker/diagnostics") ≡ handled get_diagnostics))
unfolding setup_routes text text_eq lookup with_flags handle_func pong_message route is_nodup
    contains
available c true true true = (_, refl, refl, both refl refl, both refl refl, both refl refl)
available c true true false =
    (_, refl, refl, both refl refl, both refl refl, neither (λ h. cc) (λ h. cc))
available c true false true =
    (_, refl, refl, both refl refl, neither (λ h. ground arith) (λ h. cc), both refl refl)
available c true false false = (
  _,
  refl,
  refl,
  both refl refl,
  neither (λ h. ground arith) (λ h. cc),
  neither (λ h. cc) (λ h. cc),
)
available c false true true =
    (_, refl, refl, neither (λ h. ground arith) (λ h. cc), both refl refl, both refl refl)
available c false true false = (
  _,
  refl,
  refl,
  neither (λ h. ground arith) (λ h. cc),
  both refl refl,
  neither (λ h. cc) (λ h. cc),
)
available c false false true = (
  _,
  refl,
  refl,
  neither (λ h. ground arith) (λ h. cc),
  neither (λ h. ground arith) (λ h. cc),
  neither (λ h. cc) (λ h. cc),
)
available c false false false = (
  _,
  refl,
  refl,
  neither (λ h. ground arith) (λ h. cc),
  neither (λ h. ground arith) (λ h. cc),
  neither (λ h. cc) (λ h. cc),
)

-- Whatever the settings, no pattern is registered twice, so that the routes can be set up, and
-- every pattern that is registered leads to its own handler. The answer to a ping says that web or
-- API routes are enabled exactly if the ping of these routes is served, and diagnostics can be
-- asked for exactly if they are enabled and web or API is.
pub routes_lem :
    (c : Configuration)
    → (mux : Mux) × (setup_routes c ≡ some mux)
      × All (λ r. route mux r.0 ≡ handled r.1) mux
      × (((pong_message c).web_routes ≡ text "enabled")
          ↔ (route mux (text "/worker/web/ping") ≡ handled web_pong))
      × (((pong_message c).api_routes ≡ text "enabled")
          ↔ (route mux (text "/worker/api/ping") ≡ handled api_pong))
      × (((c.enable_ondemand_diagnostics && (c.enable_web_access || c.enable_api_gateway)) ≡ true)
          ↔ (route mux (text "/worker/diagnostics") ≡ handled get_diagnostics))
unfolding with_flags
routes_lem c =
    let (mux, up, once, web, api, diagnostics) =
      available c c.enable_web_access c.enable_api_gateway c.enable_ondemand_diagnostics in
    (mux, up, All-route mux (is_nodup_sound (keys mux) once), web, api, diagnostics)

rooted :
    (c : Configuration) (api diagnostics : Bool)
    → (mux : Mux) × (setup_routes (with_flags c true api diagnostics) ≡ some mux)
      × (lookup (text "/") mux ≡ some web_v1_help)
unfolding setup_routes text text_eq lookup with_flags handle_func
rooted c true true = (_, refl, refl)
rooted c true false = (_, refl, refl)
rooted c false true = (_, refl, refl)
rooted c false false = (_, refl, refl)

-- With web access every path is answered: none is reported as not found.
pub web_access_answers :
    (c : Configuration)
    → c.enable_web_access ≡ true
    → (mux : Mux) × (setup_routes c ≡ some mux) × ((s : Text) → route mux (b'/' ∷ s) ≢ not_found)
unfolding with_flags
web_access_answers c h =
    let (mux, up, root) = rooted c c.enable_api_gateway c.enable_ondemand_diagnostics in
    (
      mux,
      ap (λ b. setup_routes (record c { enable_web_access = b })) h ∙ up,
      λ s. route_under_root s mux root,
    )
