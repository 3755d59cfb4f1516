-- ===== src/Routes.antt =====
-- The routes (routers.go), the multiplexer of `net/http` that holds them, the middleware before it
-- (middlewares.go), and `pong` (handlers.api.go), which tells which routes are there.
pub mod Mux
pub mod Table
pub mod Middleware
pub mod Requests
use web_based_jobs_worker_se.Base.{
  ℕ, suc, Bool, true, false, not, ◌&&◌, ◌||◌, List, [], ◌∷◌, ◌++◌, Option, none, some, Text,
  text_key, ◌==◌, length, ltb, nat_beq, if◌then◌else◌,
}
use web_based_jobs_worker_se.GoMap.{lookup}
use web_based_jobs_worker_se.Config.{Configuration}
use web_based_jobs_worker_se.Http.{text}

-- The handlers, by their names.
pub data Handler : Type 0 where
  pong get_settings web_pong get_health get_diagnostics web_v1_help : Handler
  instant_command_executor schedule_short_running_jobs : Handler
  check_jobs_status_by_id get_all_jobs_status get_jobs_output_by_id : Handler
  stop_jobs_by_id stop_all_jobs restart_jobs_by_id restart_all_jobs : Handler
  stream_jobs_output_by_id download_jobs_output_by_id : Handler
  schedule_long_jobs_with_streaming schedule_long_jobs_with_dumping : Handler
  api_pong api_schedule_jobs api_check_jobs_status_by_id api_check_all_jobs_status : Handler
  api_fetch_jobs_output_by_id : Handler

-- `http.ServeMux`: its patterns with their handlers.
abbrev pub Mux : Type 0
Mux = List (Text × Handler)

-- `router.HandleFunc`: `none` where it panics, as the pattern is there already.
unfoldable pub handle_func : Text → Handler → Mux → Option Mux
handle_func pattern h mux = elim (lookup pattern mux) [
  | none ↦ some (mux ++ (pattern, h) ∷ [])
  | some _ ↦ none
]

-- A function that registers handlers.
abbrev pub Setup : Type 0
Setup = Mux → Option Mux

infixl 5 ◌>>>◌
abbrev pub ◌>>>◌ : Setup → Setup → Setup
◌>>>◌ f g mux = elim (f mux) [ none ↦ none | some mux' ↦ g mux' ]

abbrev pub skip : Setup
skip mux = some mux

-- A block of registrations under a test of the settings.
abbrev pub only_if : Bool → Setup → Setup
only_if true setup = setup
only_if false setup = skip

unfoldable pub setup_web_server_routes : Configuration → Setup
unfolding handle_func
setup_web_server_routes c =
    handle_func (text "/worker/ping") pong
    >>> handle_func (text "/worker/settings") get_settings
    >>> handle_func (text "/worker/web/ping") web_pong
    >>> handle_func (text "/worker/health") get_health
    >>> only_if c.enable_ondemand_diagnostics
        (handle_func (text "/worker/diagnostics") get_diagnostics)
    >>> handle_func (text "/") web_v1_help
    >>> handle_func (text "/worker/web/v1/docs") web_v1_help
    >>> handle_func (text "/worker/web/v1/cmd/execute") instant_command_executor
    >>> handle_func (text "/worker/web/v1/jobs/short/schedule") schedule_short_running_jobs
    >>> handle_func (text "/worker/web/v1/jobs/x/status/check") check_jobs_status_by_id
    >>> handle_func (text "/worker/web/v1/jobs/x/status/check/all") get_all_jobs_status
    >>> handle_func (text "/worker/web/v1/jobs/short/output/fetch") get_jobs_output_by_id
    >>> handle_func (text "/worker/web/v1/jobs/x/stop") stop_jobs_by_id
    >>> handle_func (text "/worker/web/v1/jobs/x/stop/all") stop_all_jobs
    >>> handle_func (text "/worker/web/v1/jobs/x/restart") restart_jobs_by_id
    >>> handle_func (text "/worker/web/v1/jobs/x/restart/all") restart_all_jobs
    >>> handle_func (text "/worker/web/v1/jobs/long/output/stream") stream_jobs_output_by_id
    >>> handle_func (text "/worker/web/v1/jobs/x/output/download") download_jobs_output_by_id
    >>> handle_func (text "/worker/web/v1/jobs/long/stream/schedule")
        schedule_long_jobs_with_streaming
    >>> handle_func (text "/worker/web/v1/jobs/long/dump/schedule") schedule_long_jobs_with_dumping

-- The routes that are shared with the web are set up here if there are no web routes.
unfoldable pub setup_global_routes : Configuration → Setup
unfolding handle_func
setup_global_routes c =
    handle_func (text "/worker/ping") pong
    >>> handle_func (text "/worker/settings") get_settings
    >>> handle_func (text "/worker/health") get_health
    >>> only_if c.enable_ondemand_diagnostics
        (handle_func (text "/worker/diagnostics") get_diagnostics)

unfoldable pub setup_api_gateway_routes : Configuration → Setup
unfolding handle_func setup_global_routes
setup_api_gateway_routes c =
    handle_func (text "/worker/api/ping") api_pong
    >>> only_if (not c.enable_web_access) (setup_global_routes c)
    >>> handle_func (text "/worker/api/v1/jobs/schedule/") api_schedule_jobs
    >>> handle_func (text "/worker/api/v1/jobs/schedule") api_schedule_jobs
    >>> handle_func (text "/worker/api/v1/jobs/status") api_check_jobs_status_by_id
    >>> handle_func (text "/worker/api/v1/jobs/status/") api_check_all_jobs_status
    >>> handle_func (text "/worker/api/v1/jobs/fetch") api_fetch_jobs_output_by_id

-- The router of `startWebServer`.
unfoldable pub setup_routes : Configuration → Option Mux
unfolding setup_web_server_routes setup_api_gateway_routes
setup_routes c =
    (only_if c.enable_web_access (setup_web_server_routes c)
        >>> only_if c.enable_api_gateway (setup_api_gateway_routes c))
      []

-- `strings.HasPrefix(s, prefix)`.
unfoldable pub has_prefix : Text → Text → Bool
has_prefix s [] = true
has_prefix [] (p ∷ prefix) = false
has_prefix (c ∷ s) (p ∷ prefix) = nat_beq c p && has_prefix s prefix

unfoldable pub ends_in_slash : Text → Bool
ends_in_slash [] = false
ends_in_slash (c ∷ []) = nat_beq c b'/'
ends_in_slash (c ∷ d ∷ s) = ends_in_slash (d ∷ s)

unfoldable pub longer : Option (Text × Handler) → Text → Handler → Option (Text × Handler)
longer none pattern h = some (pattern, h)
longer (some (p, g)) pattern h =
    if ltb (length p) (length pattern) then some (pattern, h) else some (p, g)

-- The longest pattern that ends in a slash and with which the path begins.
unfoldable pub longest_subtree : Text → Mux → Option (Text × Handler)
unfolding has_prefix ends_in_slash longer
longest_subtree path [] = none
longest_subtree path ((pattern, h) ∷ mux) =
    let rest = longest_subtree path mux in
    if ends_in_slash pattern && has_prefix path pattern then longer rest pattern h else rest

pub data Route : Type 0 where
  handled : Handler → Route
  redirected : Text → Route
  not_found : Route

-- What `mux.ServeHTTP` does with a clean path: a pattern that is the path comes first, then a
-- redirection to the path with a slash, then the longest subtree.
unfoldable pub route : Mux → Text → Route
unfolding longest_subtree
route mux path = elim (lookup path mux) [
  | some h ↦ handled h
  | none ↦ elim (lookup (path ++ text "/") mux) [
    | some h ↦ redirected (path ++ text "/")
    | none ↦ elim (longest_subtree path mux) [ some found ↦ handled found.1 | none ↦ not_found ]
  ]
]

pub record PongMessage : Type 0 where
  pub web_routes : Text
  pub api_routes : Text

-- `pong`.
unfoldable pub pong_message : Configuration → PongMessage
pong_message c =
    if c.enable_web_access && c.enable_api_gateway
    then record { web_routes = text "enabled"; api_routes = text "enabled" }
    else if c.enable_web_access && not c.enable_api_gateway
    then record { web_routes = text "enabled"; api_routes = text "disabled" }
    else if not c.enable_web_access && c.enable_api_gateway
    then record { web_routes = text "disabled"; api_routes = text "enabled" }
    else record { web_routes = []; api_routes = [] }
