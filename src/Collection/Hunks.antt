-- ===== src/Collection/Hunks.antt =====
-- `_parse_hunks` of src/repoguard/_git.py, over the bytes of a patch.
pub mod Runs
pub mod Sound
use repo_guard.Base.{
  ℕ, zero, suc, ◌+◌, Bool, true, false, not, ◌&&◌, ◌||◌, Option, none, some, List, [], ◌∷◌, ◌++◌,
  leb, ◌==◌, length, if◌then◌else◌,
}
use repo_guard.Base.Outcome.{Outcome, ok, err, ◌>>=◌, ◌>>◌, require}
use repo_guard.Text.{codes, text_eq, strip_prefix, starts_with}
use repo_guard.Text.Decode.{decode_utf8}
use repo_guard.Evidence.{
  DiffLineKind, context, addition, deletion, DiffLineEvidence, DiffHunkEvidence,
}
use repo_guard.Collection.{
  Collected, CollectionError, malformed, value_error, Budget, check_deadline, reserve_diff_line,
}
use repo_guard.Repair.Patch.Header.{
  take_digits, HeaderMatch, max_int_digits, digits_value, Coordinates,
}

abbrev pub add_to_first : ℕ → List (List ℕ) → List (List ℕ)
add_to_first b [] = (b ∷ []) ∷ []
add_to_first b (line ∷ lines) = (b ∷ line) ∷ lines

-- _split_lf: the lines with their newlines
unfoldable pub split_lf : List ℕ → List (List ℕ)
split_lf [] = []
split_lf (b ∷ data') =
    let lines = split_lf data' in if b == 10 then (b ∷ []) ∷ lines else add_to_first b lines

abbrev some_digits : List ℕ × List ℕ → Option (List ℕ × List ℕ)
some_digits ([], rest) = none
some_digits (d ∷ ds, rest) = some (d ∷ ds, rest)

-- [0-9]+
unfoldable pub match_digits : List ℕ → Option (List ℕ × List ℕ)
unfolding take_digits
match_digits s = some_digits (take_digits s)

-- [0-9]+(?:,[0-9]+)?
unfoldable pub match_pair : List ℕ → Option (List ℕ × Option (List ℕ) × List ℕ)
unfolding match_digits
match_pair s = elim (match_digits s) [
  | none ↦ none
  | some (start, rest) ↦ elim (strip_prefix (codes ",") rest) [
    | none ↦ some (start, none, rest)
    | some behind_comma ↦ elim (match_digits behind_comma) [
      | none ↦ some (start, none, rest)
      | some (count, after) ↦ some (start, some count, after)
    ]
  ]
]

-- (?: .*)?\n?$ for what stands behind the header on one line
abbrev pub is_tail : List ℕ → Bool
is_tail [] = true
is_tail (c ∷ rest) = text_eq (c ∷ rest) (codes "\n") || starts_with (codes " ") (c ∷ rest)

abbrev pub whole_match :
    List ℕ → Option (List ℕ) → List ℕ → Option (List ℕ) → Option (List ℕ) → Option HeaderMatch
whole_match a b c d none = none
whole_match a b c d (some rest) =
    if is_tail rest
    then some (record { old_start = a; old_count = b; new_start = c; new_count = d })
    else none

-- _HUNK_PATTERN.match(line), for a line that has its newline at the end only
unfoldable pub match_hunk : List ℕ → Option HeaderMatch
unfolding match_pair
match_hunk line = elim (strip_prefix (codes "@@ -") line) [
  | none ↦ none
  | some s ↦ elim (match_pair s) [
    | none ↦ none
    | some (a, b, middle) ↦ elim (strip_prefix (codes " +") middle) [
      | none ↦ none
      | some t ↦ elim (match_pair t) [
        | none ↦ none
        | some (c, d, rest) ↦ whole_match a b c d (strip_prefix (codes " @@") rest)
      ]
    ]
  ]
]

-- int(digits)
abbrev pub to_int : List ℕ → Collected ℕ
to_int s = require (leb (length s) max_int_digits) value_error >> ok (digits_value 0 s)

abbrev pub one_or_int : Option (List ℕ) → Collected ℕ
one_or_int none = ok 1
one_or_int (some s) = to_int s

-- current_header
unfoldable pub read_header : HeaderMatch → Collected Coordinates
unfolding digits_value
read_header m = do
  old_start ← to_int m.old_start
  new_start ← to_int m.new_start
  old_count ← one_or_int m.old_count
  new_count ← one_or_int m.new_count
  ok record {
    old_start = old_start;
    old_count = old_count;
    new_start = new_start;
    new_count = new_count;
  }

-- The variables of the loop.
pub record HunkState : Type 0 where
  pub hunks : List DiffHunkEvidence
  pub header : Option Coordinates
  pub lines : List DiffLineEvidence
  pub old_line : ℕ
  pub new_line : ℕ
  pub budget : Option Budget

abbrev pub is_old : DiffLineKind → Bool
is_old addition = false
is_old _ = true

abbrev pub is_new : DiffLineKind → Bool
is_new deletion = false
is_new _ = true

-- sum(.. for line in current_lines)
abbrev pub count_kinds : (DiffLineKind → Bool) → List DiffLineEvidence → ℕ
count_kinds test [] = 0
count_kinds test (line ∷ lines) = (if test line.kind then 1 else 0) + count_kinds test lines

abbrev pub hunk_of : Coordinates → List DiffLineEvidence → DiffHunkEvidence
hunk_of c lines = record {
  old_start = c.old_start;
  old_count = c.old_count;
  new_start = c.new_start;
  new_count = c.new_count;
  lines = lines;
}

abbrev pub close_hunk : HunkState → Option Coordinates → Collected HunkState
close_hunk s none = ok s
close_hunk s (some c) = do
  require
      ((count_kinds is_old s.lines == c.old_count) && (count_kinds is_new s.lines == c.new_count))
      malformed
  ok (record s { hunks = s.hunks ++ hunk_of c s.lines ∷ []; header = none; lines = [] })

-- finish_current
unfoldable pub finish_current : HunkState → Collected HunkState
unfolding check_deadline
finish_current s = do
  budget ← check_deadline s.budget
  let t : HunkState = record s { budget = budget } in close_hunk t t.header

abbrev pub start_hunk : HunkState → Coordinates → HunkState
start_hunk s c = record s {
  header = some c;
  lines = [];
  old_line = c.old_start;
  new_line = c.new_start;
}

-- replace(lines[-1], has_trailing_newline=False)
abbrev pub without_newline : List DiffLineEvidence → List DiffLineEvidence
without_newline [] = []
without_newline (line ∷ []) = record line { has_trailing_newline = false } ∷ []
without_newline (line ∷ next ∷ lines) = line ∷ without_newline (next ∷ lines)

abbrev pub mark_last : HunkState → List DiffLineEvidence → Collected HunkState
mark_last s [] = err malformed
mark_last s (line ∷ lines) = ok (record s { lines = without_newline (line ∷ lines) })

abbrev pub drop_newline : List ℕ → List ℕ
drop_newline [] = []
drop_newline (c ∷ []) = if c == 10 then [] else c ∷ []
drop_newline (c ∷ d ∷ s) = c ∷ drop_newline (d ∷ s)

abbrev pub or_malformed : Option (List ℕ) → Collected (List ℕ)
or_malformed none = err malformed
or_malformed (some content) = ok content

-- The numbers of a line and those behind it.
abbrev pub old_number : DiffLineKind → ℕ → Option ℕ
old_number addition n = none
old_number _ n = some n

abbrev pub new_number : DiffLineKind → ℕ → Option ℕ
new_number deletion n = none
new_number _ n = some n

abbrev pub behind_old : DiffLineKind → ℕ → ℕ
behind_old addition n = n
behind_old _ n = n + 1

abbrev pub behind_new : DiffLineKind → ℕ → ℕ
behind_new deletion n = n
behind_new _ n = n + 1

unfoldable pub add_diff_line : HunkState → DiffLineKind → List ℕ → Collected HunkState
unfolding reserve_diff_line decode_utf8
add_diff_line s kind payload = do
  budget ← reserve_diff_line s.budget
  content ← or_malformed (decode_utf8 (drop_newline payload))
  let line : DiffLineEvidence = record {
    kind = kind;
    old_line_number = old_number kind s.old_line;
    new_line_number = new_number kind s.new_line;
    content = content;
    has_trailing_newline = true;
  } in
      ok (record s {
        lines = s.lines ++ line ∷ [];
        old_line = behind_old kind s.old_line;
        new_line = behind_new kind s.new_line;
        budget = budget;
      })

abbrev pub kind_of : ℕ → Option DiffLineKind
kind_of c =
    if c == b' '
    then some context
    else if c == b'-'
    then some deletion
    else if c == b'+'
    then some addition
    else none

abbrev pub take_marker : HunkState → Option DiffLineKind → List ℕ → Collected HunkState
take_marker s none payload = finish_current s
take_marker s (some kind) payload = add_diff_line s kind payload

-- A line of a hunk that is no marker of a missing newline.
abbrev pub take_body_line : HunkState → List ℕ → Collected HunkState
take_body_line s [] = err malformed
take_body_line s (c ∷ payload) = take_marker s (kind_of c) payload

-- _NO_NEWLINE_MARKER
abbrev no_newline_marker : List ℕ
no_newline_marker = codes "\\ No newline at end of file\n"

abbrev pub take_line : HunkState → Option Coordinates → List ℕ → Collected HunkState
take_line s none line = ok s
take_line s (some c) line =
    if text_eq line no_newline_marker then mark_last s s.lines else take_body_line s line

abbrev pub begin_hunk : HunkState → HeaderMatch → Collected HunkState
begin_hunk s m = do t ← finish_current s; c ← read_header m; ok (start_hunk t c)

-- The body of the loop of _parse_hunks.
unfoldable pub parse_line : HunkState → List ℕ → Collected HunkState
unfolding match_hunk read_header finish_current add_diff_line check_deadline
parse_line s line = do
  budget ← check_deadline s.budget
  let t : HunkState = record s { budget = budget } in
      elim (match_hunk line) [ some m ↦ begin_hunk t m | none ↦ take_line t t.header line ]

unfoldable pub parse_lines : HunkState → List (List ℕ) → Collected HunkState
unfolding parse_line
parse_lines s [] = ok s
parse_lines s (line ∷ lines) = parse_line s line >>= λ t. parse_lines t lines

abbrev pub first_state : Option Budget → HunkState
first_state budget = record {
  hunks = [];
  header = none;
  lines = [];
  old_line = 0;
  new_line = 0;
  budget = budget;
}

-- _parse_hunks, with the budget that it leaves
unfoldable pub parse_hunks :
    List ℕ → Option Budget → Collected (List DiffHunkEvidence × Option Budget)
unfolding split_lf parse_lines finish_current
parse_hunks patch budget = do
  read ← parse_lines (first_state budget) (split_lf patch)
  done ← finish_current read
  ok (done.hunks, done.budget)
