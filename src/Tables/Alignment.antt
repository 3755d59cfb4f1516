-- ===== src/Tables/Alignment.antt =====
-- The columns of the tables.
use web_based_jobs_worker_se.Base.{
  ℕ, ◌≤◌, ◌≡◌, refl, Bool, false, ◌∷◌, arith, Text, length, nat_beq, ◌++◌, replicate,
}
use web_based_jobs_worker_se.Strconv.{itoa}
use web_based_jobs_worker_se.Http.{text, StatusRow}
use web_based_jobs_worker_se.Tables.{
  int_text, bool_text, pad_right, row_line, rule_line, status_widths, status_title, status_cells,
  format_jobs_status_table_headers, format_status_as_table_row, fprintf, has_percent, newline,
}
use web_based_jobs_worker_se.Tables.Widths.{
  length-pad_right, length-pad_zeros, length-bool_text, lengths, length-row_line, fprintf_plain,
  fprintf_verb,
}

-- Every value of the row fits its column.
pub record IsFitting (r : StatusRow) : Type 0 where
  pub nb : length (itoa r.nb) ≤ 4
  pub id : length r.id ≤ 16
  pub pid : length (itoa r.pid) ≤ 5
  pub exitcode : length (int_text r.exitcode) ≤ 4
  pub datasize : length r.datasize ≤ 9
  pub fetchcount : length (int_text r.fetchcount) ≤ 5
  pub memlimit : length (int_text r.memlimit) ≤ 5
  pub cpulimit : length (int_text r.cpulimit) ≤ 5
  pub timeout : length (int_text r.timeout) ≤ 7
  pub submitted : length r.submitted ≤ 20
  pub started : length r.started ≤ 20
  pub ended : length r.ended ≤ 20
  pub syntax : length r.syntax ≤ 30

pad-bool : (w : ℕ) (b : Bool) → 5 ≤ w → length (pad_right w (bool_text b)) ≡ w
pad-bool w b h = length-pad_right w (bool_text b) (omega (arith, length-bool_text b))

lengths-status_cells : (r : StatusRow) → IsFitting r → lengths (status_cells r) ≡ status_widths
lengths-status_cells r v = cc (
  length-pad_zeros 4 r.nb v.nb,
  length-pad_right 16 r.id v.id,
  length-pad_zeros 5 r.pid v.pid,
  pad-bool 5 r.islong (omega arith),
  pad-bool 6 r.stream (omega arith),
  pad-bool 5 r.dump (omega arith),
  pad-bool 5 r.iscompleted (omega arith),
  pad-bool 5 r.issuccess (omega arith),
  length-pad_right 4 (int_text r.exitcode) v.exitcode,
  length-pad_right 9 r.datasize v.datasize,
  length-pad_right 5 (int_text r.fetchcount) v.fetchcount,
  length-pad_right 5 (int_text r.memlimit) v.memlimit,
  length-pad_right 5 (int_text r.cpulimit) v.cpulimit,
  length-pad_right 7 (int_text r.timeout) v.timeout,
  length-pad_right 20 r.submitted v.submitted,
  length-pad_right 20 r.started v.started,
  length-pad_right 20 r.ended v.ended,
  length-pad_right 30 r.syntax v.syntax,
)

length-status_title :
    (verb : Text → Text) → length (fprintf verb status_title) ≡ length (rule_line status_widths)
unfolding fprintf status_title text
length-status_title verb = refl

-- Where the values of a status row fit their columns and the row has no sign of percentage: the row
-- is sent just as it is formatted, with a rule below it of its own length, and the title as it is
-- sent is of that length too. The header is sent as a double rule of just that length, the title,
-- and a rule like the one below each row.
pub status_page_aligned :
    (verb : Text → Text) (r : StatusRow)
    → IsFitting r
    → has_percent (format_status_as_table_row r) ≡ false
    → (fprintf verb (format_status_as_table_row r)
        ≡ row_line (status_cells r) ++ (newline ++ (rule_line status_widths ++ newline)))
      × (length (row_line (status_cells r)) ≡ length (rule_line status_widths))
      × (length (fprintf verb status_title) ≡ length (rule_line status_widths))
      × (fprintf verb format_jobs_status_table_headers
          ≡ replicate (length (rule_line status_widths)) b'='
            ++ (newline
                ++ (fprintf verb status_title
                    ++ (newline ++ (rule_line status_widths ++ newline)))))
unfolding format_status_as_table_row format_jobs_status_table_headers fprintf text
status_page_aligned verb r v plain = (
  fprintf_plain verb
      (row_line (status_cells r) ++ (newline ++ (rule_line status_widths ++ newline))) plain,
  length-row_line (status_cells r) status_widths (lengths-status_cells r v),
  length-status_title verb,
  refl,
)

-- A status row whose first sign of percentage is followed by another character is not sent as it is
-- formatted: from that sign on the client gets what `fmt` makes of a verb without a value.
pub percent_garbles_row :
    (verb : Text → Text) (r : StatusRow) (before rest : Text) (d : ℕ)
    → format_status_as_table_row r ≡ before ++ b'%' ∷ d ∷ rest
    → has_percent before ≡ false
    → nat_beq d b'%' ≡ false
    → fprintf verb (format_status_as_table_row r) ≡ before ++ verb (d ∷ rest)
percent_garbles_row verb r before rest d h plain k = rw h (fprintf_verb verb before rest d plain k)
