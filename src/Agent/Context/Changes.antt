-- ===== src/Agent/Context/Changes.antt =====
-- `_validate_context_change` and `_validate_context_evidence` of src/repoguard/_agent.py.
use repo_guard.Base.{
  ℕ, Bool, true, false, not, ◌&&◌, ◌||◌, Option, none, some, List, [], ◌∷◌, leb, ◌==◌,
}
use repo_guard.Base.Outcome.{ok, err, ◌>>=◌, ◌>>◌, require}
use repo_guard.Text.{codes, text_eq, starts_with}
use repo_guard.Evidence.{
  ChangeType, added, modified, deleted, renamed, type_changed, ContentKind, text, binary, symlink,
  submodule, other, FileVersion, DiffHunkEvidence, FileChangeEvidence, EvidenceBundle,
}
use repo_guard.Review.{EvidenceSide, old, new}
use repo_guard.Review.Validate.{oid_length}
use repo_guard.Agent.{Agent}
use repo_guard.Agent.Context.{
  bad_evidence, bad_schema, require_text, require_oid, validate_context_hunks,
  validate_context_version,
}

-- The set `seen_targets`.
abbrev pub Targets : Type 0
Targets = List (List ℕ × EvidenceSide)

abbrev pub same_side : EvidenceSide → EvidenceSide → Bool
same_side old old = true
same_side old new = false
same_side new old = false
same_side new new = true

abbrev pub has_target : List ℕ → EvidenceSide → Targets → Bool
has_target path side [] = false
has_target path side (t ∷ ts) = (text_eq path t.0 && same_side side t.1) || has_target path side ts

abbrev pub is_none : {A : Type 0} → Option A → Bool
is_none none = true
is_none (some a) = false

abbrev pub is_text_kind : ContentKind → Bool
is_text_kind text = true
is_text_kind binary = false
is_text_kind symlink = false
is_text_kind submodule = false
is_text_kind other = false

abbrev pub has_similarity : ChangeType → Option ℕ → Bool
has_similarity renamed (some n) = leb n 100
has_similarity renamed none = false
has_similarity added similarity = is_none similarity
has_similarity modified similarity = is_none similarity
has_similarity deleted similarity = is_none similarity
has_similarity type_changed similarity = is_none similarity

abbrev pub has_sides : ChangeType → Option FileVersion → Option FileVersion → Bool
has_sides added before after = is_none before && not (is_none after)
has_sides deleted before after = not (is_none before) && is_none after
has_sides modified before after = not (is_none before) && not (is_none after)
has_sides renamed before after = not (is_none before) && not (is_none after)
has_sides type_changed before after = not (is_none before) && not (is_none after)

-- One round of the loop over the sides of a change.
unfoldable pub validate_side : EvidenceSide → Option FileVersion → ℕ → Targets → Agent Targets
validate_side side none oid_length seen = ok seen
validate_side side (some version) oid_length seen = do
  validate_context_version version oid_length
  require (not (has_target version.path side seen)) bad_evidence
  ok ((version.path, side) ∷ seen)

abbrev pub is_text : Option FileVersion → Bool
is_text none = true
is_text (some version) = is_text_kind version.content_kind

abbrev pub no_hunks : List DiffHunkEvidence → Bool
no_hunks [] = true
no_hunks (h ∷ hs) = false

-- _validate_context_change, with the targets seen before it and after it
unfoldable pub validate_context_change : FileChangeEvidence → ℕ → Targets → Agent Targets
validate_context_change change oid_length seen = do
  require (has_similarity change.change_type change.rename_similarity) bad_evidence
  require (has_sides change.change_type change.old change.new) bad_evidence
  seen_old ← validate_side old change.old oid_length seen
  seen_new ← validate_side new change.new oid_length seen_old
  require (no_hunks change.hunks || (is_text change.old && is_text change.new)) bad_evidence
  validate_context_hunks change.hunks [] []
  ok seen_new

unfoldable pub validate_context_changes : List FileChangeEvidence → ℕ → Targets → Agent Targets
validate_context_changes [] oid_length seen = ok seen
validate_context_changes (change ∷ changes) oid_length seen = do
  seen' ← validate_context_change change oid_length seen
  validate_context_changes changes oid_length seen'

-- What follows once the length of an object id is known.
unfoldable pub validate_context_revisions : EvidenceBundle → ℕ → Agent Targets
validate_context_revisions bundle oid_length = do
  require_text bundle.revisions.base_ref
  require_text bundle.revisions.head_ref
  require_oid bundle.revisions.base_oid oid_length
  require_oid bundle.revisions.head_oid oid_length
  require_oid bundle.revisions.merge_base_oid oid_length
  validate_context_changes bundle.changes oid_length []

abbrev pub or_bad_format : Option ℕ → Agent ℕ
or_bad_format none = err bad_evidence
or_bad_format (some n) = ok n

-- The targets at the end are those of all the changes.
unfoldable pub validate_context_evidence : EvidenceBundle → Agent Targets
validate_context_evidence bundle = do
  require (bundle.schema_version == 1) bad_schema
  require (starts_with (codes "/") bundle.repository.root) bad_evidence
  require_text bundle.repository.root
  n ← or_bad_format (oid_length bundle.repository.object_format)
  validate_context_revisions bundle n
