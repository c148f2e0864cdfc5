-- ===== src/Agent/Response/Sound.antt =====
-- What the findings say that the model's answer may add.
use repo_guard.Base.{
  ℕ, suc, ◌<◌, ◌≤◌, ◌≡◌, refl, sym, ap, subst, ◌∙◌, ◌≢◌, inl, inr, true, false, ◌&&◌, List, [], ◌∷◌,
  ltb, leb, arith, length, All, Bool-cases, is_eq_iff,
}
use repo_guard.Base.Outcome.{ok, ◌>>=◌, >>=-eq-ok, require-then, ok-injective}
use repo_guard.Base.Order.Sort.{
  sorted, IsSorted, AllPairs, All-sorted, AllPairs-sorted, sorted-IsSorted, length-sorted,
}
use repo_guard.Text.{codes, text_eq, encodes, contains}
use repo_guard.Review.{EvidenceReference, EvidenceReference-discrete}
use repo_guard.Review.Canonical.{compare_references}
use repo_guard.Review.Canonical.Order.{compare_references-IsOrder}
use repo_guard.Agent.{AgentReviewConfig}
use repo_guard.Agent.Json.{Json, Fields, JsonLoads, has_exactly, strict_object, reject_constant}
use repo_guard.Agent.Targets.{ReferenceTarget}
use repo_guard.Agent.Response.{
  agent, agent_reasoning, AgentFinding, finding_keys, parse_label, parse_text,
  parse_finding_references, parse_model_finding, parse_findings, is_version_one,
  parse_model_findings,
}
use repo_guard.Agent.Reference.{
  bad_output, strip, is_blank, present, as_text, as_object, as_list, field, validated_text,
  parse_model_reference, has_reference, add_reference, parse_model_references,
}
use repo_guard.Agent.Response.References.{IsGrounded, reference-IsGrounded}

-- A text of the model within its limit.
pub record IsText (maximum : ℕ) (s : List ℕ) : Type 0 where
  pub short : length s ≤ maximum
  pub not_blank : is_blank s ≡ false
  pub encodable : encodes s ≡ true
  pub no_nul : contains 0 s ≡ false

validated_text-IsText :
    (value : Json) (maximum n : ℕ) (s : List ℕ)
    → validated_text value maximum n ≡ ok s
    → IsText maximum s
unfolding validated_text
validated_text-IsText value maximum n s h =
    let (t, _, h1) = >>=-eq-ok (as_text n value) _ h in
    let e : t ≡ s = ground arith in
    subst (IsText maximum) e (record {
      short = ground arith;
      not_blank = ground arith;
      encodable = ground arith;
      no_nul = ground arith;
    })

not_listed :
    (r : EvidenceReference) (rs : List EvidenceReference)
    → has_reference r rs ≡ false
    → All (λ s. r ≢ s) rs
not_listed r [] h = tt
not_listed r (s ∷ rs) h =
    (λ e. ground (arith, is_eq_iff EvidenceReference-discrete r s), not_listed r rs (ground arith))

pub record AreReferences (targets : List ReferenceTarget) (rs : List EvidenceReference)
    : Type 0 where
  pub grounded : All (IsGrounded targets) rs
  pub distinct : AllPairs ◌≢◌ rs

add_valid :
    (targets : List ReferenceTarget) (r : EvidenceReference) (rs : List EvidenceReference)
    → IsGrounded targets r
    → AreReferences targets rs
    → AreReferences targets (add_reference r rs)
      × (length (add_reference r rs) ≤ suc (length rs))
      × (add_reference r rs ≢ [])
add_valid targets r rs g v = elim (Bool-cases (has_reference r rs)) [
  | inl there ↦ rw there (v, (omega arith), listed_some r rs there)
  | inr fresh ↦ rw fresh (
    record { grounded = (g, v.grounded); distinct = (not_listed r rs fresh, v.distinct) },
    (omega arith),
    λ e. cc,
  )
]
  where
    listed_some :
        (s : EvidenceReference) (ss : List EvidenceReference) → has_reference s ss ≡ true → ss ≢ []
    listed_some s [] h e = cc
    listed_some s (t ∷ ss) h e = cc

references_valid :
    (n : ℕ) (targets : List ReferenceTarget) (values : List Json) (rs : List EvidenceReference)
    → parse_model_references n targets values ≡ ok rs
    → AreReferences targets rs × (length rs ≤ length values) × (0 < length values → rs ≢ [])
unfolding parse_model_references
references_valid n targets [] rs h =
    let e = ok-injective h in
    (
      subst (AreReferences targets) e (record { grounded = tt; distinct = tt }),
      (omega (arith, ap length e)),
      λ positive. absurd (omega (arith, positive)),
    )
references_valid n targets (value ∷ values) rs h =
    let (r, parsed, h1) = >>=-eq-ok (parse_model_reference n targets value) _ h in
    let (later, rest, h2) = >>=-eq-ok (parse_model_references n targets values) _ h1 in
    let (valid, short, some_there) = references_valid n targets values later rest in
    let e = ok-injective h2 in
    let (added, count, kept) =
      add_valid targets r later (reference-IsGrounded n targets value r parsed) valid in
    (
      subst (AreReferences targets) e added,
      (omega (arith, ap length e, count, short)),
      λ positive none_left. kept (e ∙ none_left),
    )

-- The references as the finding lists them.
sorted_references :
    (targets : List ReferenceTarget) (rs : List EvidenceReference)
    → AreReferences targets rs
    → AreReferences targets (sorted compare_references rs)
sorted_references targets rs v = record {
  grounded = All-sorted (IsGrounded targets) compare_references rs v.grounded;
  distinct = AllPairs-sorted ◌≢◌ (λ a b h e. h (sym e)) compare_references rs v.distinct;
}

sorted-ne-empty : (rs : List EvidenceReference) → rs ≢ [] → sorted compare_references rs ≢ []
sorted-ne-empty [] some_there e = absurd (some_there refl)
sorted-ne-empty (r ∷ rs) some_there e =
    absurd (omega (arith, sym (length-sorted compare_references (r ∷ rs)) ∙ ap length e))

parse_text-IsText :
    (n : ℕ) (key : List ℕ) (maximum : ℕ) (raw : Fields) (s : List ℕ)
    → parse_text n key maximum raw ≡ ok s
    → IsText maximum s
unfolding parse_text
parse_text-IsText n key maximum raw s h =
    let (value, _, valid) = >>=-eq-ok (field n key raw) _ h in
    validated_text-IsText value maximum n s valid

-- The references of one finding.
pub record IsReferenceList (config : AgentReviewConfig) (targets : List ReferenceTarget)
    (rs : List EvidenceReference) : Type 0 where
  pub some_there : rs ≢ []
  pub few : length rs ≤ config.max_references_per_finding
  pub valid : AreReferences targets rs
  pub in_order : IsSorted compare_references rs

parsed_references :
    (n : ℕ) (config : AgentReviewConfig) (targets : List ReferenceTarget) (raw : Fields)
    (rs : List EvidenceReference)
    → parse_finding_references n config targets raw ≡ ok rs
    → IsReferenceList config targets rs
unfolding parse_finding_references
parsed_references n config targets raw rs h =
    let (values, _, h1) = >>=-eq-ok (field n (codes "references") raw >>= as_list n) _ h in
    let test = ltb 0 (length values) && leb (length values) config.max_references_per_finding in
    let (counted, h2) = (require-then test (bad_output n) _ rs).0 h1 in
    let (found, parsed, h3) = >>=-eq-ok (parse_model_references n targets values) _ h2 in
    let (valid, short, some_there) = references_valid n targets values found parsed in
    subst (IsReferenceList config targets) (ok-injective h3) (record {
      some_there = sorted-ne-empty found (some_there (ground arith));
      few = ground (arith, length-sorted compare_references found);
      valid = sorted_references targets found valid;
      in_order = sorted-IsSorted compare_references compare_references-IsOrder found;
    })

-- A finding of the model that the review takes in.
pub record IsModelFinding (config : AgentReviewConfig) (targets : List ReferenceTarget)
    (f : AgentFinding) : Type 0 where
  pub source : f.source ≡ agent
  pub rule_id : f.rule_id ≡ agent_reasoning
  pub title : IsText config.max_title_chars f.title
  pub message : IsText config.max_message_chars f.message
  pub remediation : IsText config.max_remediation_chars f.remediation
  pub references : IsReferenceList config targets f.references

finding_valid :
    (n : ℕ) (config : AgentReviewConfig) (targets : List ReferenceTarget) (value : Json)
    (f : AgentFinding)
    → parse_model_finding n config targets value ≡ ok f
    → IsModelFinding config targets f
unfolding parse_model_finding
finding_valid n config targets value f h =
    let (raw, _, h1) = >>=-eq-ok (as_object n value) _ h in
    let (_, h2) = (require-then (has_exactly finding_keys raw) (bad_output n) _ f).0 h1 in
    let (label, _, h3) = >>=-eq-ok (parse_label n raw) _ h2 in
    let (title, titled, h4) =
      >>=-eq-ok (parse_text n (codes "title") config.max_title_chars raw) _ h3 in
    let (message, said, h5) =
      >>=-eq-ok (parse_text n (codes "message") config.max_message_chars raw) _ h4 in
    let (remediation, advised, h6) =
      >>=-eq-ok (parse_text n (codes "remediation") config.max_remediation_chars raw) _ h5 in
    let (rs, referred, h7) = >>=-eq-ok (parse_finding_references n config targets raw) _ h6 in
    subst (IsModelFinding config targets) (ok-injective h7) (record {
      source = refl;
      rule_id = refl;
      title = parse_text-IsText n (codes "title") config.max_title_chars raw title titled;
      message = parse_text-IsText n (codes "message") config.max_message_chars raw message said;
      remediation =
          parse_text-IsText n (codes "remediation") config.max_remediation_chars raw remediation
            advised;
      references = parsed_references n config targets raw rs referred;
    })

findings_valid :
    (n : ℕ) (config : AgentReviewConfig) (targets : List ReferenceTarget) (values : List Json)
    (fs : List AgentFinding)
    → parse_findings n config targets values ≡ ok fs
    → All (IsModelFinding config targets) fs × (length fs ≡ length values)
unfolding parse_findings
findings_valid n config targets [] fs h =
    subst (λ gs. All (IsModelFinding config targets) gs × (length gs ≡ 0)) (ok-injective h)
      (tt, refl)
findings_valid n config targets (value ∷ values) fs h =
    let (f, first, h1) = >>=-eq-ok (parse_model_finding n config targets value) _ h in
    let (later, rest, h2) = >>=-eq-ok (parse_findings n config targets values) _ h1 in
    let (valid, count) = findings_valid n config targets values later rest in
    subst (λ gs. All (IsModelFinding config targets) gs × (length gs ≡ suc (length values)))
      (ok-injective h2)
      ((finding_valid n config targets value f first, valid), ap (λ m. suc m) count)

pub model_findings_valid :
    (loads : JsonLoads) (n : ℕ) (config : AgentReviewConfig) (targets : List ReferenceTarget)
    (output_text : List ℕ) (fs : List AgentFinding)
    → parse_model_findings loads n config targets output_text ≡ ok fs
    → All (IsModelFinding config targets) fs × (length fs ≤ config.max_model_findings)
unfolding parse_model_findings
model_findings_valid loads n config targets output_text fs h =
    let keys = codes "schema_version" ∷ codes "findings" ∷ [] in
    let (_, h1) =
      (require-then (text_eq output_text (strip output_text)) (bad_output n) _ fs).0 h in
    let (value, _, h2) =
      >>=-eq-ok (present n (loads strict_object reject_constant output_text)) _ h1 in
    let (raw, _, h3) = >>=-eq-ok (as_object n value) _ h2 in
    let (_, h4) = (require-then (has_exactly keys raw) (bad_output n) _ fs).0 h3 in
    let (version, _, h5) = >>=-eq-ok (field n (codes "schema_version") raw) _ h4 in
    let (_, h6) = (require-then (is_version_one version) (bad_output n) _ fs).0 h5 in
    let (values, _, h7) = >>=-eq-ok (field n (codes "findings") raw >>= as_list n) _ h6 in
    let (few, h8) =
      (require-then (leb (length values) config.max_model_findings) (bad_output n) _ fs).0 h7 in
    let (valid, count) = findings_valid n config targets values fs h8 in (valid, (ground arith))
