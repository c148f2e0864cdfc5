-- ===== src/Agent/Merge/Faithful.antt =====
-- The merged list of `_merge_findings_node` in src/repoguard/_agent.py.
use repo_guard.Base.{
  ◌≡◌, sym, ◌⊎◌, ◌↔◌, inl, inr, true, List, [], ◌∷◌, ◌++◌, map, In, In-append, In-map, In-map_of,
  Bool-cases, is_eq, is_eq_iff, or_iff, subst,
}
use repo_guard.Base.Order.{
  compare_lists, IsOrder, compare_by-IsOrder, compare_then-IsOrder, compare_lists-IsOrder,
}
use repo_guard.Base.Order.Sort.{IsSorted, sorted-IsSorted, sorted-In}
use repo_guard.Text.{encode_utf8}
use repo_guard.Review.{Finding}
use repo_guard.Review.Canonical.{severity_rank, line_sort_value, compare_references}
use repo_guard.Review.Canonical.Order.{compare_references-IsOrder, by_text, by_number}
use repo_guard.Agent.Response.{AgentFinding}
use repo_guard.Agent.Merge.{
  promote_finding, source_rank, any_rule_value, category_value, of_first, compare_agent_findings,
  AgentFinding-discrete, has_finding, unique_candidates, merge_findings,
}

compare_agent_findings-IsOrder : IsOrder compare_agent_findings
compare_agent_findings-IsOrder =
    compare_then-IsOrder _ _ (by_number (λ f. severity_rank f.severity)) (
      compare_then-IsOrder _ _ (by_text (λ f. of_first [] (λ r. encode_utf8 r.path) f.references)) (
        compare_then-IsOrder _ _
          (by_number (λ f. of_first 0 (λ r. line_sort_value r.start_line) f.references))
          (compare_then-IsOrder _ _
            (by_number (λ f. of_first 0 (λ r. line_sort_value r.end_line) f.references))
            (compare_then-IsOrder _ _ (by_number (λ f. source_rank f.source)) (
              compare_then-IsOrder _ _ (by_text (λ f. any_rule_value f.rule_id)) (
                compare_then-IsOrder _ _
                  (compare_by-IsOrder (compare_lists compare_references) (λ f. f.references)
                    (compare_lists-IsOrder compare_references compare_references-IsOrder))
                  (compare_then-IsOrder _ _ (by_text (λ f. category_value f.category)) (
                    compare_then-IsOrder _ _ (by_text (λ f. f.title)) (
                      compare_then-IsOrder _ _ (by_text (λ f. f.message))
                        (by_text (λ f. f.remediation)))))))))))

has_finding_iff : (f : AgentFinding) (fs : List AgentFinding) → (has_finding f fs ≡ true) ↔ In f fs
has_finding_iff f [] = (λ h. cc, λ h. absurd h.1)
has_finding_iff f (g ∷ gs) =
    let ih = has_finding_iff f gs in
    let here = is_eq_iff AgentFinding-discrete f g in
    (
      λ h. elim ((or_iff (is_eq AgentFinding-discrete f g) (has_finding f gs)).0 h) [
        | inl e ↦ inl (here.0 e)
        | inr m ↦ inr (ih.0 m)
      ],
      λ h.
          (or_iff (is_eq AgentFinding-discrete f g) (has_finding f gs)).1
            (elim h [ inl e ↦ inl (here.1 e) | inr m ↦ inr (ih.1 m) ]),
    )

-- A candidate is kept unless it has been seen.
unique_In :
    (seen fs : List AgentFinding) (g : AgentFinding)
    → (In g (unique_candidates seen fs) → In g fs)
      × (In g fs → In g (unique_candidates seen fs) ⊎ In g seen)
unfolding unique_candidates
unique_In seen [] g = (λ h. h, λ h. inl h)
unique_In seen (f ∷ fs) g = elim (Bool-cases (has_finding f seen)) [
  | inl known ↦
      let ih = unique_In seen fs g in
      rw known (
        λ h. inr (ih.0 h),
        λ h. elim h [
          | inl e ↦ inr (subst (λ x. In x seen) (sym e) ((has_finding_iff f seen).0 known))
          | inr m ↦ ih.1 m
        ],
      )
  | inr fresh ↦
      let ih = unique_In (f ∷ seen) fs g in
      rw fresh (
        λ h. elim h [ inl e ↦ inl e | inr m ↦ inr (ih.0 m) ],
        λ h. elim h [
          | inl e ↦ inl (inl e)
          | inr m ↦ elim (ih.1 m) [
            | inl k ↦ inl (inr k)
            | inr s ↦ elim s [ inl e ↦ inl (inl e) | inr k ↦ inr k ]
          ]
        ],
      )
]

-- What stands in the merged list: the deterministic findings, promoted, and the model's.
abbrev pub IsFrom : List Finding → List AgentFinding → AgentFinding → Type 0
IsFrom found candidates g = ((f : Finding) × In f found × (g ≡ promote_finding f)) ⊎ In g candidates

pub record IsMerged (found : List Finding) (candidates merged : List AgentFinding) : Type 0 where
  pub in_order : IsSorted compare_agent_findings merged
  pub nothing_else : (g : AgentFinding) → In g merged → IsFrom found candidates g
  pub nothing_lost : (g : AgentFinding) → IsFrom found candidates g → In g merged

-- The merged findings are in the order of the sort key, hold every deterministic finding, promoted,
-- and every candidate of the model, and nothing else.
pub merge_findings-IsMerged :
    (found : List Finding) (candidates : List AgentFinding)
    → IsMerged found candidates (merge_findings found candidates)
unfolding merge_findings
merge_findings-IsMerged found candidates =
    let promoted = map promote_finding found in
    let unique = unique_candidates [] candidates in
    record {
      in_order =
          sorted-IsSorted compare_agent_findings compare_agent_findings-IsOrder
            (promoted ++ unique);
      nothing_else = λ g m.
          elim ((In-append g promoted unique).0
            ((sorted-In compare_agent_findings g (promoted ++ unique)).0 m)) [
              | inl p ↦ inl (In-map promote_finding g found p)
              | inr u ↦ inr ((unique_In [] candidates g).0 u)
            ];
      nothing_lost = λ g from. (sorted-In compare_agent_findings g (promoted ++ unique)).1 (
          (In-append g promoted unique).1 (elim from [
            | inl (f, i, e) ↦
                inl (subst (λ x. In x promoted) (sym e) (In-map_of promote_finding f found i))
            | inr m ↦ elim ((unique_In [] candidates g).1 m) [ inl k ↦ inr k | inr s ↦ absurd s.1 ]
          ]));
    }
