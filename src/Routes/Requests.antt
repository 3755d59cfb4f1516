-- ===== src/Routes/Requests.antt =====
-- What the middleware does with a request, and the form of request ids.
use web_based_jobs_worker_se.Base.{
  ℕ, suc, ◌+◌, ◌/◌, ◌<◌, ◌≤◌, ◌≡◌, refl, ◌∙◌, ap, true, false, not, ◌&&◌, List, ◌++◌, some, arith,
  Text, text_key, ◌==◌, length, length-append, Bool-cases, inl, inr,
}
use web_based_jobs_worker_se.Config.{Configuration}
use web_based_jobs_worker_se.Strconv.{digits, itoa}
use web_based_jobs_worker_se.Strconv.Decimal.{digits_small, digits_large}
use web_based_jobs_worker_se.Http.{text}
use web_based_jobs_worker_se.JobId.{generate_id}
use web_based_jobs_worker_se.JobId.Generate.{length-hex_bytes}
use web_based_jobs_worker_se.Routes.{has_prefix}
use web_based_jobs_worker_se.Routes.Middleware.{
  Civil, two_digits, stamp, Moment, generate_api_request_id, generate_web_request_id, forwarded,
  enable_cors, request_middleware, IsCivil,
}

length-digits_small : (f n : ℕ) → n < 10 → length (digits (suc f) n) ≡ 1
length-digits_small f n h = ap length (digits_small f n h)

length-digits_large :
    (f n : ℕ) → 10 ≤ n → length (digits (suc f) n) ≡ length (digits f (n / 10)) + 1
length-digits_large f n h = ap length (digits_large f n h) ∙ length-append _ _

length-two_digits : (n : ℕ) → n < 100 → length (two_digits n) ≡ 2
unfolding two_digits itoa
length-two_digits n h =
    ground
      (arith, length-digits_small 18 n, length-digits_large 18 n, length-digits_small 17 (n / 10))

length-four_digits : (n : ℕ) → 1000 ≤ n → n < 10000 → length (two_digits n) ≡ 4
unfolding two_digits itoa
length-four_digits n lo hi = ground (
  arith,
  length-digits_large 18 n,
  length-digits_large 17 (n / 10),
  length-digits_large 16 (n / 10 / 10),
  length-digits_small 15 (n / 10 / 10 / 10),
)

length-stamp : (t : Civil) → IsCivil t → length (stamp t) ≡ 15
unfolding stamp text
length-stamp t v = omega (
  arith,
  length-append {0},
  length-four_digits t.year v.year_lo v.year_hi,
  length-two_digits t.month v.month_hi,
  length-two_digits t.day v.day_hi,
  length-two_digits t.hour v.hour_hi,
  length-two_digits t.minute v.minute_hi,
  length-two_digits t.second v.second_hi,
)

module _ (c : Configuration) (t : Moment)
    (civil : IsCivil (t.at_utc c.enable_logs_timestamp_in_utc)) (b : List ℕ) (three : length b ≡ 3)
    (filled : t.random ≡ some b) where
  length-id : length (generate_id t.random t.unixnano) ≡ 6
  unfolding generate_id
  length-id = rw filled (omega (arith, length-hex_bytes b))

  length-request_id :
      (name : Text)
      → length name ≡ 4
      → length (
          name
          ++ (stamp (t.at_utc c.enable_logs_timestamp_in_utc)
              ++ (text "." ++ generate_id t.random t.unixnano)))
        ≡ 26
  unfolding text
  length-request_id name four = omega (arith, length-append {0}, length-stamp _ civil, length-id)

  -- The id of a request to the API.
  api_request_id :
      (length (generate_api_request_id c t) ≡ 26)
      × (has_prefix (generate_api_request_id c t) (text "API.") ≡ true)
      × (has_prefix (generate_api_request_id c t) (text "WEB.") ≡ false)
  unfolding generate_api_request_id has_prefix text
  api_request_id = (length-request_id (text "API.") refl, refl, refl)

  web_request_id :
      (length (generate_web_request_id c t) ≡ 26)
      × (has_prefix (generate_web_request_id c t) (text "API.") ≡ false)
      × (has_prefix (generate_web_request_id c t) (text "WEB.") ≡ true)
  unfolding generate_web_request_id has_prefix text
  web_request_id = (length-request_id (text "WEB.") refl, refl, refl)

  -- In a year of four digits, with three random bytes: a request that is no OPTIONS request to the
  -- API goes on to the router with an id of 26 characters, which begins with API. for a path of the
  -- API and with WEB. for any other. The headers for other origins are set for an API request that
  -- names its origin, and for no other.
  pub request_middleware_forwards :
      (method path origin : Text)
      → (has_prefix path (text "/worker/api/") && method == text "OPTIONS") ≡ false
      → (id : Text) × (request_middleware c t method path origin
          ≡ forwarded id (has_prefix path (text "/worker/api/") && enable_cors origin))
        × (length id ≡ 26)
        × (has_prefix id (text "API.") ≡ has_prefix path (text "/worker/api/"))
        × (has_prefix id (text "WEB.") ≡ not (has_prefix path (text "/worker/api/")))
  unfolding request_middleware
  request_middleware_forwards method path origin h =
      elim (Bool-cases (has_prefix path (text "/worker/api/"))) [
        | inl api ↦ (
          generate_api_request_id c t,
          ground arith,
          api_request_id.0,
          rw api api_request_id.1,
          rw api api_request_id.2,
        )
        | inr web ↦ (
          generate_web_request_id c t,
          ground arith,
          web_request_id.0,
          rw web web_request_id.1,
          rw web web_request_id.2,
        )
      ]
