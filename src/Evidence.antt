-- ===== src/Evidence.antt =====
-- The evidence models of src/repoguard/evidence.py: what one base/head comparison collected.
-- Line numbers and counts are naturals; `root` is the POSIX spelling of the path.
use repo_guard.Base.{ℕ, Bool, Option, List}

pub data ChangeType : Type 0 where
  added modified deleted renamed type_changed : ChangeType

pub data ContentKind : Type 0 where
  text binary symlink submodule other : ContentKind

pub data DiffLineKind : Type 0 where
  context addition deletion : DiffLineKind

pub record RepositoryEvidence : Type 0 where
  pub root : List ℕ
  pub object_format : List ℕ

pub record RevisionEvidence : Type 0 where
  pub base_ref : List ℕ
  pub head_ref : List ℕ
  pub base_oid : List ℕ
  pub head_oid : List ℕ
  pub merge_base_oid : List ℕ

pub record FileVersion : Type 0 where
  pub path : List ℕ
  pub mode : List ℕ
  pub oid : List ℕ
  pub content_kind : ContentKind

pub record DiffLineEvidence : Type 0 where
  pub kind : DiffLineKind
  pub old_line_number : Option ℕ
  pub new_line_number : Option ℕ
  pub content : List ℕ
  pub has_trailing_newline : Bool

pub record DiffHunkEvidence : Type 0 where
  pub old_start : ℕ
  pub old_count : ℕ
  pub new_start : ℕ
  pub new_count : ℕ
  pub lines : List DiffLineEvidence

pub record FileChangeEvidence : Type 0 where
  pub change_type : ChangeType
  pub rename_similarity : Option ℕ
  pub old : Option FileVersion
  pub new : Option FileVersion
  pub hunks : List DiffHunkEvidence

pub record EvidenceBundle : Type 0 where
  pub repository : RepositoryEvidence
  pub revisions : RevisionEvidence
  pub changes : List FileChangeEvidence
  pub schema_version : ℕ

unfoldable pub ContentKind-discrete : Discrete ContentKind
ContentKind-discrete = hlevel

unfoldable pub DiffLineKind-discrete : Discrete DiffLineKind
DiffLineKind-discrete = hlevel

unfoldable pub ChangeType-discrete : Discrete ChangeType
ChangeType-discrete = hlevel
