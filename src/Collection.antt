-- ===== src/Collection.antt =====
-- The collection of evidence in src/repoguard/_git.py: its errors and its budget.
pub mod Hunks
pub mod Materialize
pub mod Raw
mod Tests
use repo_guard.Base.{
  ℕ, suc, ◌+◌, Bool, true, false, not, ◌&&◌, Option, none, some, List, [], ◌∷◌, leb, ltb,
}
use repo_guard.Base.Outcome.{Outcome, ok, err, ◌>>=◌, ◌>>◌, require}

-- EvidenceErrorCode
pub data EvidenceErrorCode : Type 0 where
  git_unavailable repository_path_missing not_a_worktree invalid_base_ref : EvidenceErrorCode
  invalid_head_ref no_merge_base ambiguous_merge_base unsupported_path_encoding : EvidenceErrorCode
  git_command_failed git_timeout malformed_git_output resource_limit : EvidenceErrorCode

-- An EvidenceCollectionError by its code, a ValueError of int(..), a KeyError of the cache, and the
-- end of the fuel.
pub data CollectionError : Type 0 where
  collection_error : EvidenceErrorCode → CollectionError
  value_error : CollectionError
  key_error : CollectionError
  exhausted : CollectionError

abbrev pub Collected : Type 0 → Type 0
Collected A = Outcome CollectionError A

-- _raise_malformed
abbrev pub malformed : CollectionError
malformed = collection_error malformed_git_output

-- _CollectionBudget, as far as the parsers use it, with the readings of the clock and how many of
-- them have been taken.
pub record Budget : Type 0 where
  pub deadline : ℕ
  pub max_changed_files : ℕ
  pub max_blob_bytes : ℕ
  pub max_total_blob_bytes : ℕ
  pub max_diff_lines : ℕ
  pub blob_bytes : ℕ
  pub diff_lines : ℕ
  pub clock : ℕ → ℕ
  pub readings : ℕ

abbrev pub read_clock : Budget → Budget
read_clock b = record b { readings = suc b.readings }

-- _check_deadline
unfoldable pub check_deadline : Option Budget → Collected (Option Budget)
check_deadline none = ok none
check_deadline (some b) = do
  require (not (leb b.deadline (b.clock b.readings))) (collection_error git_timeout)
  ok (some (read_clock b))

abbrev count_diff_line : Option Budget → Collected (Option Budget)
count_diff_line none = ok none
count_diff_line (some b) = do
  require (not (leb b.max_diff_lines b.diff_lines)) (collection_error resource_limit)
  ok (some (record b { diff_lines = suc b.diff_lines }))

-- _reserve_diff_line, if there is a budget
unfoldable pub reserve_diff_line : Option Budget → Collected (Option Budget)
unfolding check_deadline
reserve_diff_line budget = do checked ← check_deadline budget; count_diff_line checked
