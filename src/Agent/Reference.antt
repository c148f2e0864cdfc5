-- ===== src/Agent/Reference.antt =====
-- `_parse_model_reference` of src/repoguard/_agent.py, and the reading of one JSON value.
use repo_guard.Base.{
  ℕ, zero, suc, ◌+◌, ◌-◌, Bool, true, false, not, ◌&&◌, ◌||◌, Option, none, some, List, [], ◌∷◌,
  ltb, leb, if◌then◌else◌, length, all, is_eq,
}
use repo_guard.Base.Outcome.{ok, err, ◌>>=◌, ◌>>◌, require}
use repo_guard.Text.{codes, text_eq, encodes, contains}
use repo_guard.Review.{
  FindingCategory, security, correctness, reviewability, supply_chain, FindingSeverity, info, low,
  medium, high, critical, EvidenceSide, old, new, EvidenceReference, EvidenceReference-discrete,
}
use repo_guard.Agent.{Agent, AgentReviewError, invalid_model_output, parse_response}
use repo_guard.Agent.Characters.{is_space}
use repo_guard.Agent.Targets.{ReferenceTarget, find_target}
use repo_guard.Agent.Json.{
  Json, json_null, json_int, json_text, json_list, json_object, Fields, get_field, to_list,
  has_exactly,
}

-- _raise_model_output_error
abbrev pub bad_output : ℕ → AgentReviewError
bad_output attempt_count = record {
  code = invalid_model_output;
  node = parse_response;
  attempt_count = attempt_count;
}

abbrev pub drop_spaces : List ℕ → List ℕ
drop_spaces [] = []
drop_spaces (c ∷ s) = let rest = drop_spaces s in if is_space c then rest else c ∷ s

abbrev pub is_blank : List ℕ → Bool
is_blank = all is_space

abbrev pub drop_last_spaces : List ℕ → List ℕ
drop_last_spaces [] = []
drop_last_spaces (c ∷ s) = if is_blank (c ∷ s) then [] else c ∷ drop_last_spaces s

-- value.strip()
abbrev pub strip : List ℕ → List ℕ
strip s = drop_last_spaces (drop_spaces s)

abbrev pub present : {A : Type 0} → ℕ → Option A → Agent A
present n none = err (bad_output n)
present n (some a) = ok a

-- `type(value) is str`
abbrev pub as_text : ℕ → Json → Agent (List ℕ)
as_text n (json_text s) = ok s
as_text n _ = err (bad_output n)

abbrev pub as_object : ℕ → Json → Agent Fields
as_object n (json_object fields) = ok fields
as_object n _ = err (bad_output n)

abbrev pub as_list : ℕ → Json → Agent (List Json)
as_list n (json_list items) = ok (to_list items)
as_list n _ = err (bad_output n)

-- raw[key], of a dictionary that has the key
abbrev pub field : ℕ → List ℕ → Fields → Agent Json
field n key fields = present n (get_field key fields)

-- FindingCategory(value)
unfoldable pub category_of : List ℕ → Option FindingCategory
category_of s =
    if text_eq s (codes "security")
    then some security
    else if text_eq s (codes "correctness")
    then some correctness
    else if text_eq s (codes "reviewability")
    then some reviewability
    else if text_eq s (codes "supply_chain")
    then some supply_chain
    else none

-- FindingSeverity(value)
unfoldable pub severity_of : List ℕ → Option FindingSeverity
severity_of s =
    if text_eq s (codes "info")
    then some info
    else if text_eq s (codes "low")
    then some low
    else if text_eq s (codes "medium")
    then some medium
    else if text_eq s (codes "high")
    then some high
    else if text_eq s (codes "critical")
    then some critical
    else none

-- EvidenceSide(value)
unfoldable pub side_of : List ℕ → Option EvidenceSide
side_of s =
    if text_eq s (codes "old") then some old else if text_eq s (codes "new") then some new else none

-- _validated_text
unfoldable pub validated_text : Json → ℕ → ℕ → Agent (List ℕ)
validated_text value maximum n = do
  s ← as_text n value
  require (not (is_blank s || ltb maximum (length s))) (bad_output n)
  require (encodes s) (bad_output n)
  require (not (contains 0 s)) (bad_output n)
  ok s

-- As many numbers from `start` on.
abbrev pub all_in : ℕ → ℕ → List ℕ → Bool
all_in start zero numbers = true
all_in start (suc count) numbers = contains start numbers && all_in (suc start) count numbers

-- _range_is_in_one_hunk, of a range that has start <= end
unfoldable pub range_is_in_one_hunk : ℕ → ℕ → List (List ℕ) → Bool
range_is_in_one_hunk start end_line [] = false
range_is_in_one_hunk start end_line (numbers ∷ hunks) =
    (leb (end_line - start + 1) (length numbers) && all_in start (end_line - start + 1) numbers)
    || range_is_in_one_hunk start end_line hunks

-- The two line numbers of a reference that is accepted.
abbrev pub Lines : Type 0
Lines = Option ℕ × Option ℕ

-- A line number as the model gives it: null, an int, or anything else.
pub data LineValue : Type 0 where
  absent bad_value : LineValue
  numbered : ℕ → LineValue

abbrev pub line_value : Json → LineValue
line_value json_null = absent
line_value (json_int n) = numbered n
line_value _ = bad_value

-- The condition on the two line numbers. An int below 1 is refused as any other value.
unfoldable pub accept_lines : ℕ → LineValue → LineValue → List (List ℕ) → Agent Lines
accept_lines n absent absent hunks = ok (none, none)
accept_lines n (numbered start) (numbered end_line) hunks = do
  require (leb 1 start && leb start end_line && range_is_in_one_hunk start end_line hunks)
      (bad_output n)
  ok (some start, some end_line)
accept_lines n absent (numbered end_line) hunks = err (bad_output n)
accept_lines n absent bad_value hunks = err (bad_output n)
accept_lines n (numbered start) absent hunks = err (bad_output n)
accept_lines n (numbered start) bad_value hunks = err (bad_output n)
accept_lines n bad_value end_line hunks = err (bad_output n)

abbrev pub reference_keys : List (List ℕ)
reference_keys = codes "path" ∷ codes "side" ∷ codes "start_line" ∷ codes "end_line" ∷ []

-- _parse_model_reference
unfoldable pub parse_model_reference : ℕ → List ReferenceTarget → Json → Agent EvidenceReference
parse_model_reference n targets value = do
  raw ← as_object n value
  require (has_exactly reference_keys raw) (bad_output n)
  path ← field n (codes "path") raw >>= as_text n
  side_value ← field n (codes "side") raw >>= as_text n
  side ← present n (side_of side_value)
  target ← present n (find_target path side targets)
  start ← field n (codes "start_line") raw
  end_line ← field n (codes "end_line") raw
  lines ← accept_lines n (line_value start) (line_value end_line) target.hunk_line_numbers
  ok (record {
    path = target.path;
    side = target.side;
    oid = target.oid;
    start_line = lines.0;
    end_line = lines.1;
  })

abbrev pub has_reference : EvidenceReference → List EvidenceReference → Bool
has_reference r [] = false
has_reference r (s ∷ rs) = is_eq EvidenceReference-discrete r s || has_reference r rs

-- The set with one more element.
abbrev pub add_reference : EvidenceReference → List EvidenceReference → List EvidenceReference
add_reference r rs = if has_reference r rs then rs else r ∷ rs

unfoldable pub parse_model_references :
    ℕ → List ReferenceTarget → List Json → Agent (List EvidenceReference)
parse_model_references n targets [] = ok []
parse_model_references n targets (value ∷ values) = do
  r ← parse_model_reference n targets value
  rs ← parse_model_references n targets values
  ok (add_reference r rs)
