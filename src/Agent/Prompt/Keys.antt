-- ===== src/Agent/Prompt/Keys.antt =====
-- From the private keys that the deterministic review finds to the prompt.
use repo_guard.Base.{
  ℕ, ◌≤◌, ◌≡◌, refl, sym, ap, subst, inl, true, some, List, [], ◌∷◌, In, In-append, In-map, ◌∙◌,
}
use repo_guard.Base.Outcome.{ok}
use repo_guard.Evidence.{
  addition, FileVersion, DiffLineEvidence, DiffHunkEvidence, FileChangeEvidence, EvidenceBundle,
}
use repo_guard.Review.{ReviewResult, Finding, EvidenceReference}
use repo_guard.Review.Canonical.{key_of}
use repo_guard.Review.Texts.{located_at, text_finding, private_key_text}
use repo_guard.Review.Rules.{private_key_findings}
use repo_guard.Review.Engine.{review_evidence}
use repo_guard.Review.Engine.Correct.{review_evidence-IsReview}
use repo_guard.Agent.Prompt.{
  is_key_rule, private_key_redactions, redaction_sentinel, shown_number, shown_content,
  line_to_dict, hunk_to_dict, change_to_prompt_dict, prompt_changes, prompt_data,
}
use repo_guard.Agent.Prompt.Redacted.{IsKeyRange, IsNewRange, IsKeyLine, is_redacted_iff}

-- The first of a list, and `r` of an empty one.
abbrev head_or : EvidenceReference → List EvidenceReference → EvidenceReference
head_or r [] = r
head_or r (s ∷ ss) = s

key_range :
    (version : FileVersion) (start end_line : ℕ) (g : Finding)
    → key_of g ≡ key_of (text_finding version private_key_text start end_line)
    → IsKeyRange version.path version.oid (start, end_line) g
key_range version start end_line g same =
    let there : EvidenceReference = located_at version (some start) (some end_line) in
    let e : g.first_reference ≡ there = ap (λ k. head_or there k.1) same in
    record {
      rule = subst (λ k. is_key_rule k ≡ true) (sym (ap (λ k. k.0) same)) refl;
      reference = g.first_reference;
      listed = inl refl;
      range =
          subst (IsNewRange version.path version.oid (start, end_line)) (sym e) (refl, refl, refl);
    }

shown_redacted :
    (version : FileVersion) (n : ℕ) (line : DiffLineEvidence) (fs : List Finding)
    → line.kind ≡ addition
    → line.new_line_number ≡ some n
    → IsKeyLine version n fs
    → (line_to_dict (some version) (private_key_redactions fs) line).content ≡ redaction_sentinel
unfolding line_to_dict shown_content
shown_redacted version n line fs is_added numbered key =
    rw (is_added, numbered, shown_number, (is_redacted_iff version n fs).1 key) refl

-- Every change of the prompt is one of the bundle with its lines redacted.
prompt_line :
    (bundle : EvidenceBundle) (r : ReviewResult) (change : FileChangeEvidence)
    (hunk : DiffHunkEvidence) (line : DiffLineEvidence)
    → In change (prompt_data bundle r).changes
    → In hunk change.hunks
    → In line hunk.lines
    → (original : DiffLineEvidence) × (line
        ≡ line_to_dict change.new (private_key_redactions r.findings) original)
unfolding prompt_changes change_to_prompt_dict hunk_to_dict
prompt_line bundle r change hunk line in_prompt in_change in_hunk =
    let redactions = private_key_redactions r.findings in
    let (c, _, is_c) = In-map (change_to_prompt_dict redactions) change bundle.changes in_prompt in
    let (k, _, is_k) =
      In-map (hunk_to_dict c.new redactions) hunk c.hunks
        (subst (λ x. In hunk x.hunks) is_c in_change) in
    let (original, _, is_line) =
      In-map (line_to_dict c.new redactions) line k.lines
        (subst (λ x. In line x.lines) is_k in_hunk) in
    (original, is_line ∙ ap (λ v. line_to_dict v redactions original) (sym (ap (λ x. x.new) is_c)))

line_redacted :
    (version : FileVersion) (n : ℕ) (line original : DiffLineEvidence) (fs : List Finding)
    → line ≡ line_to_dict (some version) (private_key_redactions fs) original
    → line.kind ≡ addition
    → line.new_line_number ≡ some n
    → IsKeyLine version n fs
    → line.content ≡ redaction_sentinel
unfolding line_to_dict
line_redacted version n line original fs is_line is_added numbered key =
    ap (λ x. x.content) is_line
    ∙ shown_redacted version n original fs (sym (ap (λ x. x.kind) is_line) ∙ is_added)
        (sym (ap (λ x. x.new_line_number) is_line) ∙ numbered) key

-- When the deterministic review returns and its private-key rule finds a key from line `start` to
-- line `end_line` of a file version, then in the data that the prompt is written from, every added
-- line with a number in that range, in every hunk of every change whose new side is that version,
-- has the sentinel as its content.
pub private_keys_redacted :
    (bundle : EvidenceBundle) (r : ReviewResult) (version : FileVersion) (start end_line n : ℕ)
    (change : FileChangeEvidence) (hunk : DiffHunkEvidence) (line : DiffLineEvidence)
    → review_evidence bundle ≡ ok r
    → In (text_finding version private_key_text start end_line) (private_key_findings bundle)
    → In change (prompt_data bundle r).changes
    → change.new ≡ some version
    → In hunk change.hunks
    → In line hunk.lines
    → line.kind ≡ addition
    → line.new_line_number ≡ some n
    → start ≤ n
    → n ≤ end_line
    → line.content ≡ redaction_sentinel
private_keys_redacted bundle r version start end_line n change hunk line reviewed found in_prompt
      of_version in_change in_hunk is_added numbered low high =
    let f = text_finding version private_key_text start end_line in
    let canonical = (review_evidence-IsReview bundle r reviewed).canonical in
    let (g, listed, same) =
      canonical.complete f ((In-append f (private_key_findings bundle) _).1 (inl found)) in
    let (original, is_line) = prompt_line bundle r change hunk line in_prompt in_change in_hunk in
    let redactions = private_key_redactions r.findings in
    line_redacted version n line original r.findings
      (is_line ∙ ap (λ v. line_to_dict v redactions original) of_version) is_added numbered
      ((start, end_line), (g, listed, key_range version start end_line g same), low, high)
