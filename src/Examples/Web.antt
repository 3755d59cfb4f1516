-- ===== src/Examples/Web.antt =====
-- Routes, requests, tables and instant commands at concrete inputs.
use web_based_jobs_worker_se.Base.{
  replicate, ◌≡◌, ◌↔◌, refl, true, false, not, ◌&&◌, ◌||◌, [], ◌∷◌, ◌++◌, none, some, arith, Text,
  text_key, text_eq, ◌==◌, codes, pos, length, All,
}
use web_based_jobs_worker_se.Config.{default_config}
use web_based_jobs_worker_se.Http.{text, Request, StatusRow}
use web_based_jobs_worker_se.Strconv.{itoa}
use web_based_jobs_worker_se.Routes.{
  Mux, setup_routes, route, handled, web_pong, api_pong, get_diagnostics, pong_message, has_prefix,
}
use web_based_jobs_worker_se.Routes.Table.{routes_lem}
use web_based_jobs_worker_se.Routes.Middleware.{Moment, request_middleware, forwarded, enable_cors}
use web_based_jobs_worker_se.Routes.Requests.{request_middleware_forwards}
use web_based_jobs_worker_se.Tables.{
  int_text, bool_text, row_line, rule_line, newline, status_cells, status_widths, status_title,
  format_jobs_status_table_headers, format_status_as_table_row, fprintf, has_percent,
}
use web_based_jobs_worker_se.Tables.Alignment.{status_page_aligned}
use web_based_jobs_worker_se.Instant.{Execution, all_sent}

routes_example :
    (mux : Mux) × (setup_routes default_config ≡ some mux)
    × All (λ r. route mux r.0 ≡ handled r.1) mux
    × (((pong_message default_config).web_routes ≡ text "enabled")
        ↔ (route mux (text "/worker/web/ping") ≡ handled web_pong))
    × (((pong_message default_config).api_routes ≡ text "enabled")
        ↔ (route mux (text "/worker/api/ping") ≡ handled api_pong))
    × (((true && (true || true)) ≡ true)
        ↔ (route mux (text "/worker/diagnostics") ≡ handled get_diagnostics))
routes_example = routes_lem default_config

abbrev moment : Moment
moment = record {
  at_utc = λ _. record { year = 2021; month = 10; day = 19; hour = 20; minute = 44; second = 50 };
  random = some (1 ∷ 2 ∷ 3 ∷ []);
  unixnano = 0;
}

abbrev ping_path : Text
ping_path = codes "/worker/api/ping"

not_preflight :
    (has_prefix ping_path (text "/worker/api/") && codes "GET" == text "OPTIONS") ≡ false
unfolding has_prefix text text_eq
not_preflight = refl

request_middleware_example :
    (id : Text) × (request_middleware default_config moment
        (codes "GET")
        ping_path
        (codes "https://a.b")
      ≡ forwarded id
          (has_prefix ping_path (text "/worker/api/") && enable_cors (codes "https://a.b")))
    × (length id ≡ 26)
    × (has_prefix id (text "API.") ≡ has_prefix ping_path (text "/worker/api/"))
    × (has_prefix id (text "WEB.") ≡ not (has_prefix ping_path (text "/worker/api/")))
request_middleware_example =
    request_middleware_forwards default_config moment
      (record {
        year_lo = omega arith;
        year_hi = omega arith;
        month_hi = omega arith;
        day_hi = omega arith;
        hour_hi = omega arith;
        minute_hi = omega arith;
        second_hi = omega arith;
      })
      (1 ∷ 2 ∷ 3 ∷ []) refl refl (codes "GET") ping_path (codes "https://a.b") not_preflight

-- A row whose command is the given text.
abbrev row_of : Text → StatusRow
row_of command = record {
  nb = 1;
  id = codes "00000000000000ab";
  pid = 4242;
  islong = false;
  stream = false;
  dump = false;
  iscompleted = true;
  issuccess = true;
  exitcode = pos 0;
  datasize = codes "0.5";
  fetchcount = pos 0;
  memlimit = pos 100;
  cpulimit = pos 10;
  timeout = pos 3600;
  submitted = codes "2021-10-19 20:44:50";
  started = codes "2021-10-19 20:44:51";
  ended = codes "2021-10-19 20:44:52";
  syntax = command;
}

no_percent : has_percent (format_status_as_table_row (row_of (codes "ls"))) ≡ false
unfolding format_status_as_table_row has_percent int_text bool_text text itoa
no_percent = refl

status_page_example :
    (fprintf (λ s. s) (format_status_as_table_row (row_of (codes "ls")))
      ≡ row_line (status_cells (row_of (codes "ls")))
        ++ (newline ++ (rule_line status_widths ++ newline)))
    × (length (row_line (status_cells (row_of (codes "ls")))) ≡ length (rule_line status_widths))
    × (length (fprintf (λ s. s) status_title) ≡ length (rule_line status_widths))
    × (fprintf (λ s. s) format_jobs_status_table_headers
        ≡ replicate (length (rule_line status_widths)) b'='
          ++ (newline
              ++ (fprintf (λ s. s) status_title
                  ++ (newline ++ (rule_line status_widths ++ newline)))))
unfolding int_text itoa
status_page_example =
    status_page_aligned (λ s. s) (row_of (codes "ls"))
      (record {
        nb = omega arith;
        id = omega arith;
        pid = omega arith;
        exitcode = omega arith;
        datasize = omega arith;
        fetchcount = omega arith;
        memlimit = omega arith;
        cpulimit = omega arith;
        timeout = omega arith;
        submitted = omega arith;
        started = omega arith;
        ended = omega arith;
        syntax = omega arith;
      })
      no_percent

abbrev ls_request : Request
ls_request = record {
  method = codes "GET";
  host = codes "localhost";
  query = (codes "cmd", codes "ls" ∷ []) ∷ (codes "timeout", codes "5" ∷ []) ∷ [];
  body = none;
  requestid = none;
  client_reads = true;
}

abbrev listing : Execution
listing = record {
  windows = false;
  starts = λ _. true;
  output = λ _. codes "a" ++ (newline ++ (codes "b" ++ newline));
  ending = all_sent;
}
