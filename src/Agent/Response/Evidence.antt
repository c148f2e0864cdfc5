-- ===== src/Agent/Response/Evidence.antt =====
-- From the targets of the model's findings back to the evidence that was collected.
use repo_guard.Base.{
  ℕ, ◌≤◌, ◌≡◌, refl, sym, ap, subst, ◌∙◌, ◌⊎◌, inl, inr, true, Option, none, some, List, [], ◌∷◌,
  ◌++◌, map, arith, length, All, In, In-map, All-append, All-In, Bool-cases, Option-cases,
}
use repo_guard.Base.Outcome.{ok, >>=-eq-ok, ok-injective}
use repo_guard.Text.{contains}
use repo_guard.Evidence.{
  FileVersion, DiffLineEvidence, DiffHunkEvidence, FileChangeEvidence, EvidenceBundle,
}
use repo_guard.Review.{EvidenceSide, old, new, EvidenceReference}
use repo_guard.Agent.{AgentReviewConfig}
use repo_guard.Agent.Json.{JsonLoads}
use repo_guard.Agent.Targets.{
  ReferenceTarget, side_number, add_number, line_numbers, hunk_line_numbers, target_of, find_target,
  add_reference_target, reference_targets,
}
use repo_guard.Agent.Response.{AgentFinding, parse_model_findings}
use repo_guard.Agent.Response.References.{IsRange, IsGrounded}
use repo_guard.Agent.Response.Sound.{IsModelFinding, model_findings_valid}

abbrev pub side_version : EvidenceSide → FileChangeEvidence → Option FileVersion
side_version old change = change.old
side_version new change = change.new

-- A target that a change of the evidence gives.
pub record IsTarget (changes : List FileChangeEvidence) (t : ReferenceTarget) : Type 0 where
  pub change : FileChangeEvidence
  pub listed : In change changes
  pub version : FileVersion
  pub on_side : side_version t.side change ≡ some version
  pub made : t ≡ target_of version t.side change.hunks

added_targets :
    (all : List FileChangeEvidence) (change : FileChangeEvidence) (side : EvidenceSide)
    (v : Option FileVersion) (ts ts' : List ReferenceTarget)
    → In change all
    → side_version side change ≡ v
    → All (IsTarget all) ts
    → add_reference_target v side change.hunks ts ≡ ok ts'
    → All (IsTarget all) ts'
unfolding add_reference_target
added_targets all change side none ts ts' i e valid h =
    subst (All (IsTarget all)) (ok-injective h) valid
added_targets all change side (some v) ts ts' i e valid h =
    elim (Option-cases (find_target v.path side ts)) [
      | inr (t, there) ↦ absurd (ground arith)
      | inl free ↦
          let t = target_of v side change.hunks in
          let same : ts ++ t ∷ [] ≡ ts' = ground arith in
          subst (All (IsTarget all)) same (
            All-append (IsTarget all) ts (t ∷ []) valid
              (record { change = change; listed = i; version = v; on_side = e; made = refl }, tt))
    ]

targets_sound :
    (all changes : List FileChangeEvidence) (ts ts' : List ReferenceTarget)
    → ((c : FileChangeEvidence) → In c changes → In c all)
    → All (IsTarget all) ts
    → reference_targets changes ts ≡ ok ts'
    → All (IsTarget all) ts'
unfolding reference_targets
targets_sound all [] ts ts' within valid h = subst (All (IsTarget all)) (ok-injective h) valid
targets_sound all (change ∷ changes) ts ts' within valid h =
    let (ts1, e1, h1) = >>=-eq-ok (add_reference_target change.old old change.hunks ts) _ h in
    let (ts2, e2, h2) = >>=-eq-ok (add_reference_target change.new new change.hunks ts1) _ h1 in
    let here = within change (inl refl) in
    let valid1 = added_targets all change old change.old ts ts1 here refl valid e1 in
    let valid2 = added_targets all change new change.new ts1 ts2 here refl valid1 e2 in
    targets_sound all changes ts2 ts' (λ c i. within c (inr i)) valid2 h2

added_number :
    (k : ℕ) (o : Option ℕ) (numbers : List ℕ)
    → contains k (add_number o numbers) ≡ true
    → (o ≡ some k) ⊎ (contains k numbers ≡ true)
added_number k none numbers h = inr h
added_number k (some n) numbers h = elim (Bool-cases (contains k numbers)) [
  | inl there ↦ inr there
  | inr fresh ↦ let same : n ≡ k = ground arith in inl (ap (λ (x : ℕ). some x) same)
]

numbered_line :
    (side : EvidenceSide) (lines : List DiffLineEvidence) (k : ℕ)
    → contains k (line_numbers side lines) ≡ true
    → (line : DiffLineEvidence) × In line lines × (side_number side line ≡ some k)
unfolding line_numbers
numbered_line side [] k h = cc
numbered_line side (line ∷ lines) k h =
    elim (added_number k (side_number side line) (line_numbers side lines) h) [
      | inl e ↦ (line, inl refl, e)
      | inr later ↦ let (l, i, e) = numbered_line side lines k later in (l, inr i, e)
    ]

-- Lines of one hunk of the change bear every number of the range on that side.
abbrev pub CitesLines : EvidenceSide → FileChangeEvidence → Option ℕ → Option ℕ → Type 0
CitesLines side change none none = Unit
CitesLines side change none (some b) = ⊥
CitesLines side change (some a) none = ⊥
CitesLines side change (some a) (some b) =
    (1 ≤ a)
    × (a ≤ b)
    × ((hunk : DiffHunkEvidence) × In hunk change.hunks
        × ((k : ℕ)
            → a ≤ k
            → k ≤ b
            → (line : DiffLineEvidence) × In line hunk.lines × (side_number side line ≡ some k)))

-- A reference to a file version of a reviewed change, and to lines of its hunks if to any.
pub record Cites (bundle : EvidenceBundle) (r : EvidenceReference) : Type 0 where
  pub change : FileChangeEvidence
  pub listed : In change bundle.changes
  pub version : FileVersion
  pub on_side : side_version r.side change ≡ some version
  pub same_path : r.path ≡ version.path
  pub same_oid : r.oid ≡ version.oid
  pub lines : CitesLines r.side change r.start_line r.end_line

cited_lines :
    (side : EvidenceSide) (change : FileChangeEvidence) (start end_line : Option ℕ)
    → IsRange start end_line (map (hunk_line_numbers side) change.hunks)
    → CitesLines side change start end_line
cited_lines side change none none h = tt
cited_lines side change none (some b) h = h
cited_lines side change (some a) none h = h
cited_lines side change (some a) (some b) (positive, le, (numbers, i, covered)) =
    let (hunk, j, e) = In-map (hunk_line_numbers side) numbers change.hunks i in
    (
      positive,
      le,
      (
        hunk,
        j,
        λ k ge lt.
            numbered_line side hunk.lines k
              (subst (λ ns. contains k ns ≡ true) e (covered k ge lt)),
      ),
    )

reference-Cites :
    (bundle : EvidenceBundle) (targets : List ReferenceTarget) (r : EvidenceReference)
    → All (IsTarget bundle.changes) targets
    → IsGrounded targets r
    → Cites bundle r
reference-Cites bundle targets r valid g =
    let t = All-In (IsTarget bundle.changes) g.target targets valid g.listed in
    record {
      change = t.change;
      listed = t.listed;
      version = t.version;
      on_side =
          subst (λ side. side_version side t.change ≡ some t.version) (sym g.same_side) t.on_side;
      same_path = g.same_path ∙ ap (λ x. x.path) t.made;
      same_oid = g.same_oid ∙ ap (λ x. x.oid) t.made;
      lines = cited_lines r.side t.change r.start_line r.end_line (
          subst (IsRange r.start_line r.end_line)
            (ap (λ x. x.hunk_line_numbers) t.made
              ∙ ap (λ side. map (hunk_line_numbers side) t.change.hunks) (sym g.same_side))
            g.lines);
    }

references_cite :
    (bundle : EvidenceBundle) (targets : List ReferenceTarget) (rs : List EvidenceReference)
    → All (IsTarget bundle.changes) targets
    → All (IsGrounded targets) rs
    → All (Cites bundle) rs
references_cite bundle targets [] valid g = tt
references_cite bundle targets (r ∷ rs) valid g =
    (reference-Cites bundle targets r valid g.0, references_cite bundle targets rs valid g.1)

-- The findings of the model, and what each of their references points at.
pub record AreCited (config : AgentReviewConfig) (bundle : EvidenceBundle)
    (targets : List ReferenceTarget) (fs : List AgentFinding) : Type 0 where
  pub few : length fs ≤ config.max_model_findings
  pub valid : All (IsModelFinding config targets) fs
  pub cited : All (λ f. All (Cites bundle) f.references) fs

all_cited :
    (config : AgentReviewConfig) (bundle : EvidenceBundle) (targets : List ReferenceTarget)
    (fs : List AgentFinding)
    → All (IsTarget bundle.changes) targets
    → All (IsModelFinding config targets) fs
    → All (λ f. All (Cites bundle) f.references) fs
all_cited config bundle targets [] valid h = tt
all_cited config bundle targets (f ∷ fs) valid h = (
  references_cite bundle targets f.references valid h.0.references.valid.grounded,
  all_cited config bundle targets fs valid h.1,
)

-- What is read from a model's answer, whatever json.loads makes of it, is at most as many findings
-- as configured, each from the agent and with texts that are short, encodable, not blank and
-- without NUL, and with references that are some, not too many, distinct and in order, and that
-- cite the evidence: path and object id of a file version of a reviewed change on that side, and no
-- lines or a range whose numbers all stand on lines of one hunk of that change.
pub model_findings_cite_evidence :
    (loads : JsonLoads) (n : ℕ) (config : AgentReviewConfig) (bundle : EvidenceBundle)
    (targets : List ReferenceTarget) (output_text : List ℕ) (fs : List AgentFinding)
    → reference_targets bundle.changes [] ≡ ok targets
    → parse_model_findings loads n config targets output_text ≡ ok fs
    → AreCited config bundle targets fs
model_findings_cite_evidence loads n config bundle targets output_text fs made parsed =
    let (valid, few) = model_findings_valid loads n config targets output_text fs parsed in
    let from_evidence = targets_sound bundle.changes bundle.changes [] targets (λ c i. i) tt made in
    record {
      few = few;
      valid = valid;
      cited = all_cited config bundle targets fs from_evidence valid;
    }
