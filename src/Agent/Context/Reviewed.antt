-- ===== src/Agent/Context/Reviewed.antt =====
-- From the agent's validation of evidence to the deterministic review of src/repoguard/_review.py.
use repo_guard.Base.{
  ℕ, ◌≡◌, refl, inl, inr, Option, none, some, List, [], ◌∷◌, arith, All, Option-cases,
}
use repo_guard.Base.Outcome.{ok, for_each, Outcome-cases, >>=-eq-ok}
use repo_guard.Evidence.{FileVersion, FileChangeEvidence, EvidenceBundle}
use repo_guard.Review.{ReviewResult}
use repo_guard.Review.Validate.{
  oid_length, validate_new, validate_change, validate_revisions, require_utf8, validate_oid,
  is_valid_oid, validate_bundle,
}
use repo_guard.Review.Validate.Bundle.{validate_sound}
use repo_guard.Review.Engine.{review_evidence}
use repo_guard.Review.Engine.Correct.{review_evidence_total}
use repo_guard.Agent.Context.{validate_context_version, validate_context_hunks}
use repo_guard.Agent.Context.Changes.{
  Targets, validate_side, validate_context_change, validate_context_changes,
  validate_context_revisions, validate_context_evidence,
}
use repo_guard.Review.{old, new}
use repo_guard.Agent.Context.Sound.{IsPlaced, hunks_accepted}

-- No deleted file has added lines.
abbrev pub IsPlacedChange : FileChangeEvidence → Type 0
IsPlacedChange change = All (λ hunk. All (IsPlaced change.new) hunk.lines) change.hunks

new_side_accepted :
    (v : Option FileVersion) (n : ℕ) (seen seen' : Targets)
    → validate_side new v n seen ≡ ok seen'
    → validate_new n v ≡ ok tt
unfolding validate_side validate_new validate_context_version validate_oid require_utf8 is_valid_oid
new_side_accepted none n seen seen' h = refl
new_side_accepted (some v) n seen seen' h = ground arith

-- The two calls of the agent's validation that matter for the review.
pub change_parts :
    (change : FileChangeEvidence) (n : ℕ) (seen seen' : Targets)
    → validate_context_change change n seen ≡ ok seen'
    → (olds : Targets) × (validate_side new change.new n olds ≡ ok seen')
      × (validate_context_hunks change.hunks [] [] ≡ ok tt)
unfolding validate_context_change
change_parts change n seen seen' h = elim (Outcome-cases (validate_side old change.old n seen)) [
  | inl (olds, e) ↦ (olds, (ground arith), (ground arith))
  | inr (x, e) ↦ absurd (ground arith)
]

change_accepted :
    (change : FileChangeEvidence) (n : ℕ) (seen seen' : Targets)
    → IsPlacedChange change
    → validate_context_change change n seen ≡ ok seen'
    → validate_change n change ≡ ok tt
unfolding validate_context_change validate_change
change_accepted change n seen seen' placed h =
    let (olds, side_ok, hunks_ok) = change_parts change n seen seen' h in
    let (numbers, e) = hunks_accepted change.new change.hunks [] [] [] placed (λ m k. k) hunks_ok in
    rw (new_side_accepted change.new n olds seen' side_ok, e) refl

changes_accepted :
    (changes : List FileChangeEvidence) (n : ℕ) (seen seen' : Targets)
    → All IsPlacedChange changes
    → validate_context_changes changes n seen ≡ ok seen'
    → for_each (validate_change n) changes ≡ ok tt
unfolding validate_context_changes
changes_accepted [] n seen seen' placed h = refl
changes_accepted (change ∷ changes) n seen seen' placed h =
    let (t, first, later) = >>=-eq-ok (validate_context_change change n seen) _ h in
    rw (change_accepted change n seen t placed.0 first)
      (changes_accepted changes n t seen' placed.1 later)

bundle_accepted :
    (bundle : EvidenceBundle) (ts : Targets)
    → All IsPlacedChange bundle.changes
    → validate_context_evidence bundle ≡ ok ts
    → validate_bundle bundle ≡ ok tt
unfolding validate_context_evidence validate_context_revisions validate_bundle validate_revisions
    validate_oid require_utf8 is_valid_oid
bundle_accepted bundle ts placed h =
    elim (Option-cases (oid_length bundle.repository.object_format)) [
      | inl unknown ↦ absurd (ground arith)
      | inr (n, e) ↦ ground (arith, changes_accepted bundle.changes n [] ts placed)
    ]

-- A bundle that `_validate_context_evidence` accepts, in which no deleted file has added lines, is
-- reviewed by the deterministic review without an error.
pub context_valid-reviewed :
    (bundle : EvidenceBundle) (ts : Targets)
    → All IsPlacedChange bundle.changes
    → validate_context_evidence bundle ≡ ok ts
    → (r : ReviewResult) × (review_evidence bundle ≡ ok r)
context_valid-reviewed bundle ts placed h =
    review_evidence_total bundle (validate_sound bundle (bundle_accepted bundle ts placed h))
