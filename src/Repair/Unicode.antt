-- ===== src/Repair/Unicode.antt =====
-- What src/repoguard/_repair_paths.py and _repair_patch.py take from Python's Unicode database.
use repo_guard.Base.{ℕ, Bool, List}

pub record Unicode : Type 0 where
  -- unicodedata.category(c).startswith("C")
  pub is_other : ℕ → Bool
  -- str.casefold
  pub casefold : List ℕ → List ℕ
