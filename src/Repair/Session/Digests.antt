-- ===== src/Repair/Session/Digests.antt =====
-- The digests of src/repoguard/_repair_models.py and the check of those that a snapshot holds.
use repo_guard.Base.{ℕ, Bool, true, false, ◌&&◌, Option, none, some, List, [], ◌∷◌, ◌++◌}
use repo_guard.Text.{codes, text_eq}
use repo_guard.Agent.Json.{Json, json_object, Fields, no_fields, with_field}
use repo_guard.Repair.Paths.{has_text}
use repo_guard.Repair.Records.{
  RepairCandidate, RepairValidation, RepairApproval, RepairApplication, RepairDecision,
  RepairSnapshot,
}
use repo_guard.Repair.Records.Write.{
  repair_candidate_to_dict, repair_validation_to_dict, repair_approval_to_dict,
  repair_application_to_dict, repair_decision_to_dict,
}

-- What the store takes of Python's hashlib and json.
pub record Hashing : Type 0 where
  -- hashlib.sha256(value).hexdigest()
  pub sha256 : List ℕ → List ℕ
  -- json.dumps(value, ..).encode("utf-8") with the arguments of _canonical_bytes
  pub canonical_bytes : Json → List ℕ

-- _domain_digest
unfoldable pub domain_digest : Hashing → List ℕ → Json → List ℕ
domain_digest h kind value =
    h.sha256 ((codes "repoguard.m5." ++ kind ++ codes ".v1") ++ (0 ∷ []) ++ h.canonical_bytes value)

abbrev pub drop_fields : List (List ℕ) → Fields → Fields
drop_fields names no_fields = no_fields
drop_fields names (with_field k v fs) = elim (has_text k names) [
  | true ↦ drop_fields names fs
  | false ↦ with_field k v (drop_fields names fs)
]

-- The mapping without some of its keys.
unfoldable pub without : List (List ℕ) → Json → Json
without names (json_object fields) = json_object (drop_fields names fields)
without names value = value

unfoldable pub candidate_digest : Hashing → RepairCandidate → List ℕ
unfolding domain_digest without
candidate_digest h c = domain_digest h (codes "candidate") (
    without
      (codes "candidate_id"
        ∷ codes "changed_paths"
        ∷ codes "changed_line_count"
        ∷ codes "provider_attempt_count"
        ∷ codes "input_tokens"
        ∷ codes "output_tokens"
        ∷ [])
      (repair_candidate_to_dict c))

unfoldable pub validation_digest : Hashing → RepairValidation → List ℕ
unfolding domain_digest without
validation_digest h v =
    domain_digest h (codes "validation")
      (without (codes "validation_sha256" ∷ []) (repair_validation_to_dict v))

unfoldable pub approval_digest : Hashing → RepairApproval → List ℕ
unfolding domain_digest without
approval_digest h a =
    domain_digest h (codes "approval")
      (without (codes "approval_sha256" ∷ []) (repair_approval_to_dict a))

unfoldable pub application_digest : Hashing → RepairApplication → List ℕ
unfolding domain_digest without
application_digest h p =
    domain_digest h (codes "application")
      (without (codes "application_sha256" ∷ []) (repair_application_to_dict p))

unfoldable pub decision_digest : Hashing → RepairDecision → List ℕ
unfolding domain_digest without
decision_digest h d =
    domain_digest h (codes "decision")
      (without (codes "decision_sha256" ∷ []) (repair_decision_to_dict d))

abbrev pub digest_fits : {A : Type 0} → (A → List ℕ) → (A → List ℕ) → Option A → Bool
digest_fits named computed none = true
digest_fits named computed (some value) = text_eq (named value) (computed value)

-- _snapshot_record_digests_are_valid
unfoldable pub snapshot_record_digests_are_valid : Hashing → RepairSnapshot → Bool
snapshot_record_digests_are_valid h s =
    digest_fits (λ c. c.candidate_id) (candidate_digest h) s.candidate
    && digest_fits (λ v. v.validation_sha256) (validation_digest h) s.validation
    && digest_fits (λ a. a.approval_sha256) (approval_digest h) s.approval
    && digest_fits (λ p. p.application_sha256) (application_digest h) s.application
    && digest_fits (λ d. d.decision_sha256) (decision_digest h) s.decision
