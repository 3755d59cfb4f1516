-- ===== src/Instant/Sent.antt =====
-- What the client of an instant command gets.
use web_based_jobs_worker_se.Base.{◌<◌, ◌≡◌, false, List, [], ◌∷◌, ◌++◌, Text, length, nat_beq, All}
use web_based_jobs_worker_se.Tables.{has_percent, newline}
use web_based_jobs_worker_se.Instant.{drop_cr}

-- The lines, each with its end.
unfoldable pub joined : List Text → Text
joined [] = []
joined (line ∷ lines) = line ++ (newline ++ joined lines)

-- A line that is sent as it is: no sign of percentage or end of line is in it, no carriage return at
-- its end, and the scanner has room for it.
pub record IsPlain (line : Text) : Type 0 where
  pub no_percent : has_percent line ≡ false
  pub no_end : All (λ c. nat_beq c 10 ≡ false) line
  pub no_cr : drop_cr line ≡ line
  pub fits : length line < 65536
