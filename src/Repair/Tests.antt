-- ===== src/Repair/Tests.antt =====
-- The path and patch checks at concrete inputs, and the theorems there.
use repo_guard.Base.{ℕ, ◌≡◌, refl, ◌↔◌, ◌≢◌, false, ◌||◌, List, [], ◌∷◌, ltb, ◌==◌}
use repo_guard.Base.Outcome.{ok, err}
use repo_guard.Base.Order.Sort.{sorted}
use repo_guard.Text.{codes, encode_utf8}
use repo_guard.Repair.Unicode.{Unicode}
use repo_guard.Repair.Paths.{
  require_utf8, strip_spaces, split_on, is_unsafe_component, distinct_count,
  validate_repository_path, validate_container_path, posix_text, canonical_repository_paths,
  unsafe_component, not_canonical,
}
use repo_guard.Repair.Paths.Sound.{IsRepositoryPath, validate_path_iff}
use repo_guard.Repair.Patch.{exhausted, PatchPolicy, ParsedPatch, context, addition, deletion}
use repo_guard.Repair.Patch.Lines.{
  split_lines, strip_lf, header_path, parse_file_headers, validated_patch_bytes,
}
use repo_guard.Repair.Patch.Header.{parse_hunk_header}
use repo_guard.Repair.Patch.Body.{read_body}
use repo_guard.Repair.Patch.Hunks.{
  counts_match, fits_new_file, starts_in_file, follows, accept_hunk, read_hunk, read_hunks,
}
use repo_guard.Repair.Patch.Files.{
  comes_after, accept_path, accept_file, read_file_behind, read_file, read_files, parse_wire_patch,
}
use repo_guard.Repair.Patch.Files.Whole.{IsPatch, parse_wire_patch-IsPatch}
use repo_guard.Repair.Patch.Files.Ends.{parse_wire_patch-ne-exhausted}

-- The database on ASCII texts without capitals.
abbrev ascii : Unicode
ascii = record { is_other = λ c. ltb c 32 || (c == 127); casefold = λ s. s }

safe_path : validate_repository_path ascii (codes "src/a.py") ≡ ok (codes "src/a.py")
unfolding validate_repository_path require_utf8 strip_spaces split_on is_unsafe_component
    encode_utf8
safe_path = refl

git_path : validate_repository_path ascii (codes "x/.git/config") ≡ err unsafe_component
unfolding validate_repository_path require_utf8 strip_spaces split_on is_unsafe_component
    encode_utf8
git_path = refl

container_path :
    (validate_container_path ascii (codes "/work/a") ≡ ok (codes "/work/a"))
    × (validate_container_path ascii (codes "/work//a") ≡ err not_canonical)
unfolding validate_container_path require_utf8 posix_text encode_utf8
container_path = (refl, refl)

validate_path_iff_example :
    (validate_repository_path ascii (codes "src/a.py") ≡ ok (codes "src/a.py"))
    ↔ IsRepositoryPath ascii (codes "src/a.py")
validate_path_iff_example = validate_path_iff ascii (codes "src/a.py")

abbrev policy : PatchPolicy
policy = record { max_patch_bytes = 1000; max_patch_paths = 2; max_changed_lines = 10 }

abbrev patch : List ℕ
patch = codes "--- a/f\n+++ b/f\n@@ -1,2 +1,2 @@\n x\n-y\n+z\n"

abbrev allowed : List (List ℕ)
allowed = codes "f" ∷ codes "g" ∷ []

abbrev parsed : ParsedPatch
parsed = record {
  source = patch;
  files =
      record {
        path = codes "f";
        is_new = false;
        hunks =
            record {
              old_start = 1;
              old_count = 2;
              new_start = 1;
              new_count = 2;
              lines =
                  record { kind = context; content = codes "x" }
                  ∷ record { kind = deletion; content = codes "y" }
                  ∷ record { kind = addition; content = codes "z" }
                  ∷ [];
            }
            ∷ [];
      }
      ∷ [];
  changed_line_count = 2;
}

patch-parsed : parse_wire_patch ascii patch allowed policy ≡ ok parsed
unfolding parse_wire_patch canonical_repository_paths validate_repository_path require_utf8
    strip_spaces split_on is_unsafe_component sorted distinct_count validated_patch_bytes
    split_lines read_files read_file read_file_behind accept_path accept_file parse_file_headers
    header_path comes_after read_hunks read_hunk strip_lf parse_hunk_header read_body accept_hunk
    counts_match fits_new_file starts_in_file follows encode_utf8
patch-parsed = refl

parse_wire_patch-IsPatch_example : IsPatch ascii allowed policy patch parsed
parse_wire_patch-IsPatch_example =
    parse_wire_patch-IsPatch ascii patch allowed policy parsed patch-parsed

parse_wire_patch-ne-exhausted_example : parse_wire_patch ascii patch allowed policy ≢ err exhausted
parse_wire_patch-ne-exhausted_example = parse_wire_patch-ne-exhausted ascii patch allowed policy
