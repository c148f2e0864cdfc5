-- ===== src/Repair/Patch/Header.antt =====
-- `_parse_hunk_header` of src/repoguard/_repair_patch.py.
use repo_guard.Base.{
  ℕ, ◌+◌, ◌-◌, ◌*◌, ◌≡◌, refl, Bool, ◌&&◌, Option, none, some, List, [], ◌∷◌, leb, ◌==◌,
  if◌then◌else◌, length,
}
use repo_guard.Base.Outcome.{ok, err, ◌>>=◌, ◌>>◌, require}
use repo_guard.Text.{codes, text_eq, strip_prefix}
use repo_guard.Repair.Patch.Lines.{Parsed}
use repo_guard.Repair.Patch.{patch_invalid}

-- [0-9]
abbrev pub is_digit : ℕ → Bool
is_digit c = leb b'0' c && leb c b'9'

-- The digits that the text begins with, and what follows them.
unfoldable pub take_digits : List ℕ → List ℕ × List ℕ
take_digits [] = ([], [])
take_digits (c ∷ s) =
    let (digits, rest) = take_digits s in if is_digit c then (c ∷ digits, rest) else ([], c ∷ s)

-- (0|[1-9][0-9]*)
unfoldable pub match_number : List ℕ → Option (List ℕ × List ℕ)
unfolding take_digits
match_number [] = none
match_number (c ∷ s) =
    if c == b'0'
    then some (c ∷ [], s)
    else if is_digit c
    then (let (digits, rest) = take_digits s in some (c ∷ digits, rest))
    else none

-- A number and the one behind a comma, if there is a comma: (number)(?:,(number))?
unfoldable pub match_range : List ℕ → Option (List ℕ × Option (List ℕ) × List ℕ)
unfolding match_number
match_range s = elim (match_number s) [
  | none ↦ none
  | some (start, rest) ↦ elim (strip_prefix (codes ",") rest) [
    | none ↦ some (start, none, rest)
    | some behind_comma ↦ elim (match_number behind_comma) [
      | none ↦ none
      | some (count, after) ↦ some (start, some count, after)
    ]
  ]
]

-- What _HUNK_HEADER captures.
pub record HeaderMatch : Type 0 where
  pub old_start : List ℕ
  pub old_count : Option (List ℕ)
  pub new_start : List ℕ
  pub new_count : Option (List ℕ)

abbrev finish_header :
    List ℕ → Option (List ℕ) → List ℕ → Option (List ℕ) → List ℕ → Option HeaderMatch
finish_header old_start old_count new_start new_count rest =
    if text_eq rest (codes " @@")
    then some (record {
      old_start = old_start;
      old_count = old_count;
      new_start = new_start;
      new_count = new_count;
    })
    else none

-- _HUNK_HEADER.fullmatch(value). A comma that no count follows matches nothing.
unfoldable pub match_header : List ℕ → Option HeaderMatch
unfolding match_range
match_header value = elim (strip_prefix (codes "@@ -") value) [
  | none ↦ none
  | some s ↦ elim (match_range s) [
    | none ↦ none
    | some (old_start, old_count, middle) ↦ elim (strip_prefix (codes " +") middle) [
      | none ↦ none
      | some t ↦ elim (match_range t) [
        | none ↦ none
        | some (new_start, new_count, rest) ↦
            finish_header old_start old_count new_start new_count rest
      ]
    ]
  ]
]

-- int(..) refuses more digits than the interpreter's default limit.
abbrev pub max_int_digits : ℕ
max_int_digits = 4300

unfoldable pub digits_value : ℕ → List ℕ → ℕ
digits_value acc [] = acc
digits_value acc (c ∷ s) = digits_value (acc * 10 + (c - b'0')) s

unfoldable pub read_int : List ℕ → Parsed ℕ
unfolding digits_value
read_int s = do require (leb (length s) max_int_digits) patch_invalid; ok (digits_value 0 s)

abbrev pub count_or_one : Option (List ℕ) → Parsed ℕ
count_or_one none = ok 1
count_or_one (some s) = read_int s

pub record Coordinates : Type 0 where
  pub old_start : ℕ
  pub old_count : ℕ
  pub new_start : ℕ
  pub new_count : ℕ

abbrev pub header_coordinates : Option HeaderMatch → Parsed Coordinates
header_coordinates none = err patch_invalid
header_coordinates (some m) = do
  old_start ← read_int m.old_start
  old_count ← count_or_one m.old_count
  new_start ← read_int m.new_start
  new_count ← count_or_one m.new_count
  ok (record {
    old_start = old_start;
    old_count = old_count;
    new_start = new_start;
    new_count = new_count;
  })

unfoldable pub parse_hunk_header : List ℕ → Parsed Coordinates
unfolding match_header read_int
parse_hunk_header value = header_coordinates (match_header value)

header_example :
    parse_hunk_header (codes "@@ -3,10 +4 @@")
    ≡ ok (record { old_start = 3; old_count = 10; new_start = 4; new_count = 1 })
unfolding parse_hunk_header
header_example = refl

header_refused : parse_hunk_header (codes "@@ -03,1 +4,1 @@") ≡ err patch_invalid
unfolding parse_hunk_header
header_refused = refl
