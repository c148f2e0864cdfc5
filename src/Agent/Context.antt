-- ===== src/Agent/Context.antt =====
-- `_validate_context_evidence` of src/repoguard/_agent.py and the checks that it calls.
pub mod Changes
pub mod Sound
pub mod Reviewed
pub mod Numbered
use repo_guard.Base.{
  ℕ, zero, suc, ◌+◌, Bool, true, false, not, ◌&&◌, ◌||◌, Option, none, some, List, [], ◌∷◌, leb,
  ◌==◌, if◌then◌else◌, all, length,
}
use repo_guard.Base.Outcome.{Outcome, ok, err, ◌>>=◌, ◌>>◌, require, for_each}
use repo_guard.Text.{codes, text_eq, starts_with, encodes, contains}
use repo_guard.Evidence.{
  ChangeType, added, modified, deleted, renamed, type_changed, ContentKind, text, binary, symlink,
  submodule, other, DiffLineKind, context, addition, deletion, FileVersion, DiffLineEvidence,
  DiffHunkEvidence, FileChangeEvidence, EvidenceBundle,
}
use repo_guard.Review.{EvidenceSide, old, new}
use repo_guard.Review.Validate.{oid_length, is_hex_text}
use repo_guard.Agent.{
  Agent, AgentReviewError, AgentReviewErrorCode, invalid_evidence, unsupported_evidence_schema,
  AgentNode, validate,
}

-- _raise_invalid_evidence
abbrev pub bad_evidence : AgentReviewError
bad_evidence = record { code = invalid_evidence; node = validate; attempt_count = 0 }

abbrev pub bad_schema : AgentReviewError
bad_schema = record { code = unsupported_evidence_schema; node = validate; attempt_count = 0 }

-- _require_utf8
abbrev pub require_text : List ℕ → Agent Unit
require_text value = require (encodes value) bad_evidence

-- _validate_oid
abbrev pub require_oid : List ℕ → ℕ → Agent Unit
require_oid value oid_length =
    require ((length value == oid_length) && is_hex_text value) bad_evidence

-- Where the validation of a hunk stands, with the sets of numbers that its change has used.
pub record LineState : Type 0 where
  pub expected_old : ℕ
  pub expected_new : ℕ
  pub observed_old : ℕ
  pub observed_new : ℕ
  pub old_numbers : List ℕ
  pub new_numbers : List ℕ

abbrev pub required_old : LineState → DiffLineKind → Option ℕ
required_old s addition = none
required_old s context = some s.expected_old
required_old s deletion = some s.expected_old

abbrev pub required_new : LineState → DiffLineKind → Option ℕ
required_new s deletion = none
required_new s context = some s.expected_new
required_new s addition = some s.expected_new

abbrev pub same_number : Option ℕ → Option ℕ → Bool
same_number none none = true
same_number none (some n) = false
same_number (some m) none = false
same_number (some m) (some n) = m == n

abbrev pub take_old : LineState → Option ℕ → Agent LineState
take_old s none = ok s
take_old s (some n) = do
  require (leb 1 n && not (contains n s.old_numbers)) bad_evidence
  ok (record s { old_numbers = n ∷ s.old_numbers; expected_old = s.expected_old + 1 })

abbrev pub take_new : LineState → Option ℕ → Agent LineState
take_new s none = ok s
take_new s (some n) = do
  require (leb 1 n && not (contains n s.new_numbers)) bad_evidence
  ok (record s { new_numbers = n ∷ s.new_numbers; expected_new = s.expected_new + 1 })

-- _validate_context_line
unfoldable pub validate_context_line : LineState → DiffLineEvidence → Agent LineState
validate_context_line s line = do
  require_text line.content
  require
      (same_number line.old_line_number (required_old s line.kind)
        && same_number line.new_line_number (required_new s line.kind))
      bad_evidence
  s' ← take_old s line.old_line_number
  take_new s' line.new_line_number

-- The counts of `_validate_context_hunk` behind a line.
abbrev pub count_line : DiffLineKind → LineState → LineState
count_line addition s = record s { observed_new = s.observed_new + 1 }
count_line deletion s = record s { observed_old = s.observed_old + 1 }
count_line context s = record s {
  observed_old = s.observed_old + 1;
  observed_new = s.observed_new + 1;
}

unfoldable pub validate_context_lines : LineState → List DiffLineEvidence → Agent LineState
validate_context_lines s [] = ok s
validate_context_lines s (line ∷ lines) = do
  s' ← validate_context_line s line
  validate_context_lines (count_line line.kind s') lines

abbrev pub start_hunk : DiffHunkEvidence → List ℕ → List ℕ → LineState
start_hunk hunk olds news = record {
  expected_old = hunk.old_start;
  expected_new = hunk.new_start;
  observed_old = 0;
  observed_new = 0;
  old_numbers = olds;
  new_numbers = news;
}

-- _validate_context_hunk, with the two sets of numbers before it and after it
unfoldable pub validate_context_hunk : DiffHunkEvidence → List ℕ → List ℕ → Agent LineState
validate_context_hunk hunk olds news = do
  s ← validate_context_lines (start_hunk hunk olds news) hunk.lines
  require ((s.observed_old == hunk.old_count) && (s.observed_new == hunk.new_count)) bad_evidence
  ok s

unfoldable pub validate_context_hunks : List DiffHunkEvidence → List ℕ → List ℕ → Agent Unit
validate_context_hunks [] olds news = ok tt
validate_context_hunks (hunk ∷ hunks) olds news = do
  s ← validate_context_hunk hunk olds news
  validate_context_hunks hunks s.old_numbers s.new_numbers

abbrev pub is_empty : List ℕ → Bool
is_empty [] = true
is_empty (c ∷ s) = false

-- _validate_context_version
unfoldable pub validate_context_version : FileVersion → ℕ → Agent Unit
validate_context_version version oid_length = do
  require (not (is_empty version.path || is_empty version.mode)) bad_evidence
  require_text version.path
  require_text version.mode
  require_oid version.oid oid_length
