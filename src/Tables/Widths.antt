-- ===== src/Tables/Widths.antt =====
-- How long padded cells, rows and rules are, and what printing changes.
use web_based_jobs_worker_se.Base.{
  ℕ, zero, suc, ◌-◌, ◌≤◌, ◌≡◌, refl, ap, sym, ◌∙◌, Bool, true, false, List, [], ◌∷◌, ◌++◌, arith,
  Text, length, length-append, replicate, nat_beq,
}
use web_based_jobs_worker_se.Strconv.{itoa}
use web_based_jobs_worker_se.Http.{text}
use web_based_jobs_worker_se.Tables.{
  pad_right, pad_zeros, bool_text, join_cells, row_line, rule_line, dashes, fprintf, has_percent,
}

pub length-replicate : (n c : ℕ) → length (replicate n c) ≡ n
length-replicate zero c = refl
length-replicate (suc n) c = ap suc (length-replicate n c)

pub length-pad_right : (w : ℕ) (s : Text) → length s ≤ w → length (pad_right w s) ≡ w
length-pad_right w s h =
    omega
      (arith, length-append s (replicate (w - length s) b' '), length-replicate (w - length s) b' ')

pub length-pad_zeros : (w n : ℕ) → length (itoa n) ≤ w → length (pad_zeros w n) ≡ w
length-pad_zeros w n h = omega (
  arith,
  length-append (replicate (w - length (itoa n)) b'0') (itoa n),
  length-replicate (w - length (itoa n)) b'0',
)

pub length-bool_text : (b : Bool) → length (bool_text b) ≤ 5
unfolding bool_text text
length-bool_text true = omega arith
length-bool_text false = omega arith

-- The lengths of cells.
abbrev pub lengths : List Text → List ℕ
lengths [] = []
lengths (s ∷ cells) = length s ∷ lengths cells

pub lengths-dashes : (ws : List ℕ) → lengths (dashes ws) ≡ ws
lengths-dashes [] = refl
lengths-dashes (w ∷ ws) = ground (arith, length-replicate w b'-', lengths-dashes ws)

-- Cells of the same lengths, joined by texts of the same length.
length-join_cells :
    (a b : Text) (cells others : List Text)
    → length a ≡ length b
    → lengths cells ≡ lengths others
    → length (join_cells a cells) ≡ length (join_cells b others)
length-join_cells a b [] [] h e = refl
length-join_cells a b [] (t ∷ others) h e = absurd cc
length-join_cells a b (s ∷ cells) [] h e = absurd cc
length-join_cells a b (s ∷ []) (t ∷ []) h e = cc
length-join_cells a b (s ∷ []) (t ∷ t' ∷ others) h e = absurd cc
length-join_cells a b (s ∷ s' ∷ cells) (t ∷ []) h e = absurd cc
length-join_cells a b (s ∷ s' ∷ cells) (t ∷ t' ∷ others) h e = ground (
  arith,
  length-append s (a ++ join_cells a (s' ∷ cells)),
  length-append a (join_cells a (s' ∷ cells)),
  length-append t (b ++ join_cells b (t' ∷ others)),
  length-append b (join_cells b (t' ∷ others)),
  length-join_cells a b (s' ∷ cells) (t' ∷ others) h,
)

pub length-row_line :
    (cells : List Text) (ws : List ℕ)
    → lengths cells ≡ ws
    → length (row_line cells) ≡ length (rule_line ws)
length-row_line cells ws h = omega (
  arith,
  length-append (join_cells (b' ' ∷ b'|' ∷ b' ' ∷ []) cells) (b' ' ∷ b'|' ∷ []),
  length-append (join_cells (b'-' ∷ b'+' ∷ b'-' ∷ []) (dashes ws)) (b'-' ∷ b'+' ∷ []),
  length-join_cells (b' ' ∷ b'|' ∷ b' ' ∷ []) (b'-' ∷ b'+' ∷ b'-' ∷ []) cells (dashes ws) refl
      (h ∙ sym (lengths-dashes ws)),
)

-- Printing a text without a sign of percentage changes nothing.
pub fprintf_plain : (verb : Text → Text) (s : Text) → has_percent s ≡ false → fprintf verb s ≡ s
unfolding fprintf has_percent
fprintf_plain verb [] h = refl
fprintf_plain verb (c ∷ []) h = ground arith
fprintf_plain verb (c ∷ d ∷ s) h = ground (arith, fprintf_plain verb (d ∷ s))

-- The first sign of percentage, if no other follows it, hands the rest over to its verb.
pub fprintf_verb :
    (verb : Text → Text) (before rest : Text) (d : ℕ)
    → has_percent before ≡ false
    → nat_beq d b'%' ≡ false
    → fprintf verb (before ++ b'%' ∷ d ∷ rest) ≡ before ++ verb (d ∷ rest)
unfolding fprintf has_percent
fprintf_verb verb [] rest d h k = ground arith
fprintf_verb verb (c ∷ []) rest d h k = ground arith
fprintf_verb verb (c ∷ e ∷ before) rest d h k =
    ground (arith, fprintf_verb verb (e ∷ before) rest d)
