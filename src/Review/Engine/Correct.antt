-- ===== src/Review/Engine/Correct.antt =====
-- `_review_evidence` as a whole (src/repoguard/_review.py).
use repo_guard.Base.{◌≡◌, refl, sym, subst, ◌∙◌, List, [], ◌++◌}
use mathlib.Core.List.{append_assoc}
use repo_guard.Base.Outcome.{ok, >>=-eq-ok, ok-injective}
use repo_guard.Evidence.{EvidenceBundle}
use repo_guard.Review.{Finding, ReviewResult}
use repo_guard.Review.Validate.{validate_bundle}
use repo_guard.Review.Validate.Bundle.{IsValidBundle, validate_sound, validate_complete}
use repo_guard.Review.Rules.{
  private_key_findings, merge_conflict_findings, executable_findings, symlink_findings,
  submodule_findings, binary_findings,
}
use repo_guard.Review.Canonical.{canonicalize_findings}
use repo_guard.Review.Canonical.Distinct.{IsCanonical, canonicalize-IsCanonical}
use repo_guard.Review.Engine.{run_rules, catalog, review_evidence}

-- What the six rules find, in the order of the catalog.
abbrev pub all_findings : EvidenceBundle → List Finding
all_findings b =
    private_key_findings b
    ++ (merge_conflict_findings b
        ++ (executable_findings b
            ++ (symlink_findings b ++ (submodule_findings b ++ binary_findings b))))

run-catalog : (b : EvidenceBundle) → run_rules catalog b [] ≡ ok (all_findings b)
unfolding run_rules
run-catalog b = simp append_assoc

pub record IsReview (bundle : EvidenceBundle) (r : ReviewResult) : Type 0 where
  pub valid : IsValidBundle bundle
  pub same_repository : r.repository ≡ bundle.repository
  pub same_revisions : r.revisions ≡ bundle.revisions
  pub schema : r.schema_version ≡ 1
  pub canonical : IsCanonical (all_findings bundle) r.findings

abbrev result_of : EvidenceBundle → List Finding → ReviewResult
result_of bundle findings = record {
  repository = bundle.repository;
  revisions = bundle.revisions;
  findings = canonicalize_findings findings;
  schema_version = 1;
}

valid_review :
    (bundle : EvidenceBundle)
    → validate_bundle bundle ≡ ok tt
    → review_evidence bundle ≡ ok (result_of bundle (all_findings bundle))
unfolding review_evidence
valid_review bundle v = rw (v, run-catalog bundle) refl

-- A returned review is that of a well-formed bundle, names its repository and revisions, and lists
-- what the six rules find in canonical form: in the order of the sort key, each rule and references
-- once, no finding lost and none invented.
pub review_evidence-IsReview :
    (bundle : EvidenceBundle) (r : ReviewResult) → review_evidence bundle ≡ ok r → IsReview bundle r
unfolding review_evidence
review_evidence-IsReview bundle r e =
    let (_, valid, e1) = >>=-eq-ok (validate_bundle bundle) _ e in
    let (findings, ran, e2) = >>=-eq-ok (run_rules catalog bundle []) _ e1 in
    let found = ok-injective (sym ran ∙ run-catalog bundle) in
    subst (IsReview bundle) (ok-injective e2) (record {
      valid = validate_sound bundle valid;
      same_repository = refl;
      same_revisions = refl;
      schema = refl;
      canonical =
          subst (λ fs. IsCanonical (all_findings bundle) (canonicalize_findings fs)) (sym found)
            (canonicalize-IsCanonical (all_findings bundle));
    })

-- Every well-formed bundle is reviewed.
pub review_evidence_total :
    (bundle : EvidenceBundle)
    → IsValidBundle bundle
    → (r : ReviewResult) × (review_evidence bundle ≡ ok r)
review_evidence_total bundle v =
    (result_of bundle (all_findings bundle), valid_review bundle (validate_complete bundle v))
