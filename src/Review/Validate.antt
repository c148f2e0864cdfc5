-- ===== src/Review/Validate.antt =====
-- `_validate_bundle` of src/repoguard/_review.py and the checks that it calls. The tests of
-- `isinstance` and `type(..)` are the types of the model.
pub mod Sound
pub mod Bundle
use repo_guard.Base.{
  ℕ, zero, suc, String, Bool, true, false, not, ◌&&◌, ◌||◌, Option, none, some, List, [], ◌∷◌, leb,
  ◌==◌, if◌then◌else◌, length, all,
}
use repo_guard.Base.Outcome.{Outcome, ok, err, ◌>>=◌, ◌>>◌, require, for_each}
use repo_guard.Text.{codes, text_eq, starts_with, encodes, contains}
use repo_guard.Evidence.{
  DiffLineKind, context, addition, deletion, FileVersion, DiffLineEvidence, DiffHunkEvidence,
  FileChangeEvidence, EvidenceBundle,
}
use repo_guard.Review.{ReviewErrorCode, unsupported_evidence_schema, invalid_evidence, ReviewError}

abbrev pub Checked : Type 0 → Type 0
Checked A = Outcome ReviewError A

abbrev pub invalid : String → ReviewError
invalid message = record { code = invalid_evidence; message = message }

-- _OID_LENGTHS.get(object_format)
unfoldable pub oid_length : List ℕ → Option ℕ
oid_length format =
    if text_eq format (codes "sha1")
    then some 40
    else if text_eq format (codes "sha256")
    then some 64
    else none

-- [0-9a-f]
unfoldable pub is_lowercase_hex : ℕ → Bool
is_lowercase_hex c = (leb b'0' c && leb c b'9') || (leb b'a' c && leb c b'f')

-- _LOWERCASE_HEX_PATTERN.fullmatch(oid), the pattern being ^[0-9a-f]+$
unfoldable pub is_hex_text : List ℕ → Bool
unfolding is_lowercase_hex
is_hex_text [] = false
is_hex_text (c ∷ s) = all is_lowercase_hex (c ∷ s)

unfoldable pub is_valid_oid : ℕ → List ℕ → Bool
unfolding is_hex_text
is_valid_oid n oid = (length oid == n) && is_hex_text oid

unfoldable pub validate_oid : List ℕ → ℕ → String → Checked Unit
unfolding is_valid_oid
validate_oid oid n message = require (is_valid_oid n oid) (invalid message)

unfoldable pub require_utf8 : List ℕ → String → Checked Unit
require_utf8 value message = require (encodes value) (invalid message)

abbrev unique_numbers : String
unique_numbers = "addition lines must have unique positive new line numbers per change"

-- One round of the loop over the lines: the set of the numbers seen so far, and after it.
unfoldable pub validate_addition : Option FileVersion → List ℕ → DiffLineEvidence → Checked (List ℕ)
validate_addition none seen line = err (invalid "addition lines require a new file side")
validate_addition (some new) seen line = elim line.old_line_number [
  | some n ↦ err (invalid "addition lines must not have an old line number")
  | none ↦ elim line.new_line_number [
    | none ↦ err (invalid unique_numbers)
    | some n ↦ if (n == 0) || contains n seen then err (invalid unique_numbers) else ok (n ∷ seen)
  ]
]

unfoldable pub validate_line : Option FileVersion → List ℕ → DiffLineEvidence → Checked (List ℕ)
unfolding validate_addition
validate_line new seen line = elim line.kind [
  | addition ↦ validate_addition new seen line
  | context ↦ ok seen
  | deletion ↦ ok seen
]

unfoldable pub validate_lines :
    Option FileVersion → List ℕ → List DiffLineEvidence → Checked (List ℕ)
unfolding validate_line
validate_lines new seen [] = ok seen
validate_lines new seen (line ∷ lines) = do
  seen' ← validate_line new seen line
  validate_lines new seen' lines

unfoldable pub validate_hunks :
    Option FileVersion → List ℕ → List DiffHunkEvidence → Checked (List ℕ)
unfolding validate_lines
validate_hunks new seen [] = ok seen
validate_hunks new seen (hunk ∷ hunks) = do
  seen' ← validate_lines new seen hunk.lines
  validate_hunks new seen' hunks

abbrev is_empty : List ℕ → Bool
is_empty [] = true
is_empty (c ∷ s) = false

unfoldable pub validate_new : ℕ → Option FileVersion → Checked Unit
unfolding validate_oid require_utf8
validate_new n none = ok tt
validate_new n (some new) = do
  require (not (is_empty new.path)) (invalid "new-side paths must be non-empty")
  require_utf8 new.path "new-side paths must be valid UTF-8"
  validate_oid new.oid n "new-side OIDs must match the object format"

unfoldable pub validate_change : ℕ → FileChangeEvidence → Checked Unit
unfolding validate_new validate_hunks
validate_change n change = do
  validate_new n change.new
  numbers ← validate_hunks change.new [] change.hunks
  ok tt

-- What follows once the length of an object id is known.
unfoldable pub validate_revisions : ℕ → EvidenceBundle → Checked Unit
unfolding validate_oid require_utf8 validate_change
validate_revisions n bundle = do
  require_utf8 bundle.revisions.base_ref "requested refs must be valid UTF-8"
  require_utf8 bundle.revisions.head_ref "requested refs must be valid UTF-8"
  validate_oid bundle.revisions.base_oid n "revision OIDs must match the object format"
  validate_oid bundle.revisions.head_oid n "revision OIDs must match the object format"
  validate_oid bundle.revisions.merge_base_oid n "revision OIDs must match the object format"
  for_each (validate_change n) bundle.changes

abbrev or_unknown_format : Option ℕ → Checked ℕ
or_unknown_format none = err (invalid "repository object format must be sha1 or sha256")
or_unknown_format (some n) = ok n

unfoldable pub validate_bundle : EvidenceBundle → Checked Unit
unfolding oid_length validate_revisions require_utf8
validate_bundle bundle = do
  require (bundle.schema_version == 1)
      (record { code = unsupported_evidence_schema; message = "evidence schema_version must be 1" })
  require (starts_with (codes "/") bundle.repository.root)
      (invalid "repository root must be an absolute path")
  require_utf8 bundle.repository.root "repository root must be valid UTF-8"
  n ← or_unknown_format (oid_length bundle.repository.object_format)
  validate_revisions n bundle
