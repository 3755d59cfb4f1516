-- ===== src/Tables.antt =====
-- The text of the summary tables (helpers.go): `Dashs`, the headers and the rows, with the verbs of
-- `fmt.Sprintf` that they use, and `fmt.Fprintf` of a text without arguments, by which the handlers
-- send them. Widths count code points.
pub mod Widths
pub mod Alignment
use web_based_jobs_worker_se.Base.{
  ℕ, zero, suc, ◌+◌, ◌-◌, Bool, true, false, ◌||◌, List, [], ◌∷◌, ◌++◌, Text, ℤ, pos, negsuc,
  length, replicate, nat_beq, if◌then◌else◌,
}
use web_based_jobs_worker_se.Strconv.{itoa}
use web_based_jobs_worker_se.Http.{text, ScheduledRow, StatusRow}

-- `Dashs`, and `strings.Repeat("=", n)`.
abbrev pub dashs : ℕ → Text
dashs n = replicate n b'-'

-- "%-ws".
abbrev pub pad_right : ℕ → Text → Text
pad_right w s = s ++ replicate (w - length s) b' '

-- "%0wd" of a number that is not negative.
abbrev pub pad_zeros : ℕ → ℕ → Text
pad_zeros w n = replicate (w - length (itoa n)) b'0' ++ itoa n

-- "%d" and "%v".
unfoldable pub int_text : ℤ → Text
int_text (pos n) = itoa n
int_text (negsuc n) = b'-' ∷ itoa (n + 1)

unfoldable pub bool_text : Bool → Text
bool_text true = text "true"
bool_text false = text "false"

-- The cells of a row, with their rules, up to the end of the line.
abbrev pub join_cells : Text → List Text → Text
join_cells between [] = []
join_cells between (cell ∷ []) = cell
join_cells between (cell ∷ next ∷ cells) = cell ++ (between ++ join_cells between (next ∷ cells))

abbrev pub row_line : List Text → Text
row_line cells = b'|' ∷ join_cells (b' ' ∷ b'|' ∷ b' ' ∷ []) cells ++ b' ' ∷ b'|' ∷ []

abbrev pub dashes : List ℕ → List Text
dashes [] = []
dashes (w ∷ ws) = dashs w ∷ dashes ws

abbrev pub rule_line : List ℕ → Text
rule_line ws = b'+' ∷ join_cells (b'-' ∷ b'+' ∷ b'-' ∷ []) (dashes ws) ++ b'-' ∷ b'+' ∷ []

abbrev pub newline : Text
newline = 10 ∷ []

abbrev pub status_widths : List ℕ
status_widths = 4 ∷ 16 ∷ 5 ∷ 5 ∷ 6 ∷ 5 ∷ 5 ∷ 5 ∷ 4 ∷ 9 ∷ 5 ∷ 5 ∷ 5 ∷ 7 ∷ 20 ∷ 20 ∷ 20 ∷ 30 ∷ []

abbrev pub scheduled_widths : List ℕ
scheduled_widths = 4 ∷ 18 ∷ 5 ∷ 6 ∷ 5 ∷ 5 ∷ 5 ∷ 7 ∷ 20 ∷ 30 ∷ []

abbrev pub restart_widths : List ℕ
restart_widths = 4 ∷ 18 ∷ 14 ∷ 16 ∷ 12 ∷ []

unfoldable pub status_title : Text
status_title = row_line (
    pad_right 4 (text "Nb")
    ∷ pad_right 16 (text "Job ID")
    ∷ pad_right 5 (text "PID")
    ∷ pad_right 5 (text "Long")
    ∷ pad_right 6 (text "Stream")
    ∷ pad_right 5 (text "Dump")
    ∷ pad_right 5 (text "Done")
    ∷ pad_right 5 (text "Succ")
    ∷ pad_right 4 (text "Exit")
    ∷ pad_right 9 (text "Data [KB]")
    ∷ pad_right 5 (text "Count")
    ∷ pad_right 5 (text "Mem")
    ∷ pad_right 6 (text "CPU%%")
    ∷ pad_right 7 (text "Timeout")
    ∷ pad_right 20 (text "Submitted Time")
    ∷ pad_right 20 (text "Started Time")
    ∷ pad_right 20 (text "Ended Time")
    ∷ pad_right 30 (text "Command Syntax")
    ∷ [])

unfoldable pub scheduled_title : Text
scheduled_title = row_line (
    pad_right 4 (text "Nb")
    ∷ pad_right 18 (text "Job ID")
    ∷ pad_right 5 (text "Long")
    ∷ pad_right 6 (text "Stream")
    ∷ pad_right 5 (text "Dump")
    ∷ pad_right 5 (text "Mem")
    ∷ pad_right 6 (text "CPU%%")
    ∷ pad_right 7 (text "Timeout")
    ∷ pad_right 20 (text "Submitted At")
    ∷ pad_right 30 (text "Command Syntax")
    ∷ [])

unfoldable pub restart_title : Text
restart_title = row_line (
    pad_right 4 (text "Nb")
    ∷ pad_right 18 (text "Job ID")
    ∷ pad_right 14 (text "Was Running")
    ∷ pad_right 16 (text "Stop Triggered")
    ∷ pad_right 12 (text "Restarted")
    ∷ [])

-- A header: a double rule, the title and a rule.
abbrev pub header : ℕ → Text → List ℕ → Text
header double title widths =
    replicate double b'=' ++ (newline ++ (title ++ (newline ++ (rule_line widths ++ newline))))

unfoldable pub format_jobs_status_table_headers : Text
unfolding status_title
format_jobs_status_table_headers = header (length status_title - 1) status_title status_widths

unfoldable pub format_jobs_scheduled_table_headers : Text
unfolding scheduled_title
format_jobs_scheduled_table_headers =
    header (length scheduled_title - 1) scheduled_title scheduled_widths

unfoldable pub format_jobs_restart_table_headers : Text
unfolding restart_title
format_jobs_restart_table_headers = header (length restart_title) restart_title restart_widths

abbrev pub status_cells : StatusRow → List Text
status_cells r =
    pad_zeros 4 r.nb
    ∷ pad_right 16 r.id
    ∷ pad_zeros 5 r.pid
    ∷ pad_right 5 (bool_text r.islong)
    ∷ pad_right 6 (bool_text r.stream)
    ∷ pad_right 5 (bool_text r.dump)
    ∷ pad_right 5 (bool_text r.iscompleted)
    ∷ pad_right 5 (bool_text r.issuccess)
    ∷ pad_right 4 (int_text r.exitcode)
    ∷ pad_right 9 r.datasize
    ∷ pad_right 5 (int_text r.fetchcount)
    ∷ pad_right 5 (int_text r.memlimit)
    ∷ pad_right 5 (int_text r.cpulimit)
    ∷ pad_right 7 (int_text r.timeout)
    ∷ pad_right 20 r.submitted
    ∷ pad_right 20 r.started
    ∷ pad_right 20 r.ended
    ∷ pad_right 30 r.syntax
    ∷ []

unfoldable pub format_status_as_table_row : StatusRow → Text
format_status_as_table_row r =
    row_line (status_cells r) ++ (newline ++ (rule_line status_widths ++ newline))

abbrev pub scheduled_cells : ScheduledRow → List Text
scheduled_cells r =
    pad_zeros 4 r.nb
    ∷ pad_right 18 r.id
    ∷ pad_right 5 (bool_text r.islong)
    ∷ pad_right 6 (bool_text r.stream)
    ∷ pad_right 5 (bool_text r.dump)
    ∷ pad_right 5 (int_text r.memlimit)
    ∷ pad_right 5 (int_text r.cpulimit)
    ∷ pad_right 7 (int_text r.timeout)
    ∷ pad_right 20 r.submitted
    ∷ pad_right 30 r.syntax
    ∷ []

unfoldable pub format_scheduled_infos_as_table_row : ScheduledRow → Text
format_scheduled_infos_as_table_row r =
    row_line (scheduled_cells r) ++ (newline ++ (rule_line scheduled_widths ++ newline))

abbrev pub restart_cells : ℕ → Text → Text → Text → Text → List Text
restart_cells i id wasrunning stoptrigger restarted =
    pad_zeros 4 i
    ∷ pad_right 18 id
    ∷ pad_right 14 wasrunning
    ∷ pad_right 16 stoptrigger
    ∷ pad_right 12 restarted
    ∷ []

unfoldable pub format_restart_infos_as_table_row : ℕ → Text → Text → Text → Text → Text
format_restart_infos_as_table_row i id wasrunning stoptrigger restarted =
    row_line (restart_cells i id wasrunning stoptrigger restarted)
    ++ (newline ++ (rule_line restart_widths ++ newline))

-- `fmt.Fprintf(w, s)`: what is written. Two signs of percentage are one; any other one begins a
-- verb, for which `verb` says what `fmt` makes of all that follows.
unfoldable pub fprintf : (verb : Text → Text) → Text → Text
fprintf verb [] = []
fprintf verb (c ∷ []) = if nat_beq c b'%' then verb [] else c ∷ []
fprintf verb (c ∷ d ∷ s) =
    let escaped = b'%' ∷ fprintf verb s in
    let plain = c ∷ fprintf verb (d ∷ s) in
    if nat_beq c b'%' then (if nat_beq d b'%' then escaped else verb (d ∷ s)) else plain

unfoldable pub has_percent : Text → Bool
has_percent [] = false
has_percent (c ∷ s) = nat_beq c b'%' || has_percent s
