-- ===== src/Review/Canonical/Order.antt =====
-- The sort key of the findings as an order (src/repoguard/_review.py).
use repo_guard.Base.{ℕ, List, compare}
use repo_guard.Base.Order.{
  IsOrder, compare-IsOrder, compare_by-IsOrder, compare_then-IsOrder, compare_lists-IsOrder,
}
use repo_guard.Text.{encode_utf8}
use repo_guard.Review.Canonical.{
  compare_text, compare_references, compare_findings, references, severity_rank, rule_value,
  side_value, line_sort_value,
}

compare_text-IsOrder : IsOrder compare_text
compare_text-IsOrder = compare_lists-IsOrder compare compare-IsOrder

module _ {A : Type 0} where
  pub by_text : (key : A → List ℕ) → IsOrder (λ (a b : A). compare_text (key a) (key b))
  by_text key = compare_by-IsOrder compare_text key compare_text-IsOrder

  pub by_number : (key : A → ℕ) → IsOrder (λ (a b : A). compare (key a) (key b))
  by_number key = compare_by-IsOrder compare key compare-IsOrder

pub compare_references-IsOrder : IsOrder compare_references
compare_references-IsOrder = compare_then-IsOrder _ _ (by_text (λ r. encode_utf8 r.path)) (
    compare_then-IsOrder _ _ (by_text (λ r. side_value r.side)) (
      compare_then-IsOrder _ _ (by_text (λ r. r.oid)) (
        compare_then-IsOrder _ _ (by_number (λ r. line_sort_value r.start_line))
          (by_number (λ r. line_sort_value r.end_line)))))

pub compare_findings-IsOrder : IsOrder compare_findings
compare_findings-IsOrder = compare_then-IsOrder _ _ (by_number (λ f. severity_rank f.severity)) (
    compare_then-IsOrder _ _ (by_text (λ f. encode_utf8 f.first_reference.path)) (
      compare_then-IsOrder _ _ (by_number (λ f. line_sort_value f.first_reference.start_line)) (
        compare_then-IsOrder _ _ (by_number (λ f. line_sort_value f.first_reference.end_line)) (
          compare_then-IsOrder _ _ (by_text (λ f. rule_value f.rule_id)) (
            compare_by-IsOrder _ references
              (compare_lists-IsOrder compare_references compare_references-IsOrder))))))
