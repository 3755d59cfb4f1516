-- ===== src/JobId.antt =====
-- Job identifiers (helpers.go): the pattern that every handler checks, `generateID` and
-- `removeDuplicateJobIds`.
pub mod Pattern
pub mod Generate
pub mod Dedup
use web_based_jobs_worker_se.Base.{
  ℕ, zero, suc, ◌+◌, ◌-◌, ◌/◌, ◌%◌, Bool, true, false, not, ◌&&◌, ◌||◌, List, [], ◌∷◌, ◌++◌, map,
  Option, none, some, Text, text_key, ltb, leb, length, nat_beq, if◌then◌else◌,
}
use web_based_jobs_worker_se.GoMap.{insert, keys}

-- The class `[a-z0-9]`.
unfoldable pub is_id_char : ℕ → Bool
is_id_char c = leb b'a' c && leb c b'z' || leb b'0' c && leb c b'9'

-- `[a-z0-9]{n}` at the start of a text.
unfoldable pub match_here : ℕ → Text → Bool
match_here zero s = true
match_here (suc n) [] = false
match_here (suc n) (c ∷ s) = is_id_char c && match_here n s

-- `regexp.MatchString("[a-z0-9]{16}", s)`: the pattern has no anchors, so it may match anywhere.
unfoldable pub match_string : Text → Bool
match_string [] = match_here 16 []
match_string (c ∷ s) = match_here 16 (c ∷ s) || match_string s

unfoldable pub hex_digit : ℕ → ℕ
hex_digit d = if ltb d 10 then b'0' + d else b'a' + (d - 10)

-- `fmt.Sprintf("%x", b)` of a slice of bytes.
unfoldable pub hex_bytes : List ℕ → Text
unfolding hex_digit
hex_bytes [] = []
hex_bytes (b ∷ bs) = hex_digit (b / 16) ∷ hex_digit (b % 16) ∷ hex_bytes bs

-- `fmt.Sprintf("%x", n)` of a number, whose digits `fuel` bounds.
unfoldable pub hex_number : ℕ → ℕ → Text
unfolding hex_digit
hex_number zero n = []
hex_number (suc fuel) n =
    let high = hex_number fuel (n / 16) in
    if ltb n 16 then hex_digit n ∷ [] else high ++ hex_digit (n % 16) ∷ []

-- `generateID`: the bytes that `rand.Read` filled, or the clock if it failed. 16 digits are
-- enough for an `int64`.
unfoldable pub generate_id : Option (List ℕ) → ℕ → Text
unfolding hex_bytes hex_number
generate_id (some b) now = hex_bytes b
generate_id none now = hex_number 16 now

-- The first test of `removeDuplicateJobIds`: a single id that is not valid.
unfoldable pub single_invalid : List Text → Bool
single_invalid [] = false
single_invalid (id ∷ []) = not (match_string id)
single_invalid (id ∷ _ ∷ _) = false

-- The loop that fills `temp`.
unfoldable pub collect_valid : List Text → List (Text × Unit {0}) → List (Text × Unit {0})
collect_valid [] temp = temp
collect_valid (id ∷ ids) temp =
    collect_valid ids (if match_string id then insert id tt temp else temp)

-- `removeDuplicateJobIds`: whether to ignore the request, and the ids that are left. Go ranges
-- over a map in an order of its own choice, here `order`.
unfoldable pub remove_duplicate_job_ids : (List Text → List Text) → List Text → Bool × List Text
unfolding single_invalid collect_valid
remove_duplicate_job_ids order ids =
    if single_invalid ids
    then (true, ids)
    else let kept = order (keys (collect_valid ids [])) in (nat_beq (length kept) 0, kept)
