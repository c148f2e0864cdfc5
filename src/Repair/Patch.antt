-- ===== src/Repair/Patch.antt =====
-- src/repoguard/_repair_patch.py: the grammar of a provider's patch. This file has the data and the
-- lines; Body, Hunks and Files have the nested loops from the inside out.
pub mod Lines
pub mod Header
pub mod Body
pub mod Hunks
pub mod Files
use repo_guard.Base.{ℕ, Bool, List}

-- The two errors of the stage; `exhausted` is no error of the source, but the fuel of a loop.
pub data PatchError : Type 0 where
  patch_invalid patch_limit exhausted : PatchError

pub data PatchLineKind : Type 0 where
  context addition deletion no_newline : PatchLineKind

pub record PatchLine : Type 0 where
  pub kind : PatchLineKind
  pub content : List ℕ

pub record PatchHunk : Type 0 where
  pub old_start : ℕ
  pub old_count : ℕ
  pub new_start : ℕ
  pub new_count : ℕ
  pub lines : List PatchLine

pub record PatchFile : Type 0 where
  pub path : List ℕ
  pub is_new : Bool
  pub hunks : List PatchHunk

pub record ParsedPatch : Type 0 where
  pub source : List ℕ
  pub files : List PatchFile
  pub changed_line_count : ℕ

-- The limits of a RepairGenerationPolicy that the parser reads.
pub record PatchPolicy : Type 0 where
  pub max_patch_bytes : ℕ
  pub max_patch_paths : ℕ
  pub max_changed_lines : ℕ
