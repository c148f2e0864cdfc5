-- ===== src/Repair/Paths.antt =====
-- src/repoguard/_repair_paths.py: the paths that may cross a repair boundary.
pub mod Sound
use repo_guard.Base.{
  ℕ, zero, suc, ◌+◌, Bool, true, false, not, ◌&&◌, ◌||◌, List, [], ◌∷◌, ◌++◌, ltb, leb, ◌==◌,
  Ordering, if◌then◌else◌, length, all, any, compare,
}
use repo_guard.Base.Order.{compare_by, compare_lists}
use repo_guard.Base.Order.Sort.{sorted}
use repo_guard.Base.Outcome.{Outcome, ok, err, ◌>>=◌, ◌>>◌, require, for_each}
use repo_guard.Text.{codes, text_eq, starts_with, encodes, encode_utf8, contains}
use repo_guard.Repair.Unicode.{Unicode}

-- The `ValueError`s, by what their message says.
pub data PathError : Type 0 where
  not_utf8 unsafe_path outside_size outer_space control_character : PathError
  not_canonical unsafe_component outside_count not_sorted : PathError

unfoldable pub require_utf8 : List ℕ → Outcome PathError (List ℕ)
require_utf8 value = if encodes value then ok (encode_utf8 value) else err not_utf8

abbrev pub is_empty : List ℕ → Bool
is_empty [] = true
is_empty (c ∷ s) = false

unfoldable pub drop_leading : ℕ → List ℕ → List ℕ
drop_leading c [] = []
drop_leading c (d ∷ s) = let rest = drop_leading c s in if d == c then rest else d ∷ s

unfoldable pub drop_trailing : ℕ → List ℕ → List ℕ
drop_trailing c [] = []
drop_trailing c (d ∷ s) =
    let rest = drop_trailing c s in if (d == c) && is_empty rest then [] else d ∷ rest

-- value.strip(" ")
unfoldable pub strip_spaces : List ℕ → List ℕ
unfolding drop_leading drop_trailing
strip_spaces s = drop_trailing 32 (drop_leading 32 s)

abbrev onto_head : ℕ → List (List ℕ) → List (List ℕ)
onto_head c [] = (c ∷ []) ∷ []
onto_head c (part ∷ parts) = (c ∷ part) ∷ parts

-- value.split(separator), which is never empty
unfoldable pub split_on : ℕ → List ℕ → List (List ℕ)
split_on separator [] = [] ∷ []
split_on separator (c ∷ s) =
    let parts = split_on separator s in if c == separator then [] ∷ parts else onto_head c parts

unfoldable pub is_unsafe_component : Unicode → List ℕ → Bool
is_unsafe_component u component =
    is_empty component
    || (text_eq component (codes ".") || text_eq component (codes ".."))
    || text_eq (u.casefold component) (codes ".git")
    || ltb 255 (length (encode_utf8 component))

unfoldable pub validate_repository_path : Unicode → List ℕ → Outcome PathError (List ℕ)
validate_repository_path u value = do
  encoded ← require_utf8 value
  require
      (not (
        is_empty encoded
        || ltb 1024 (length encoded)
        || starts_with (codes "/") value
        || contains b'\\' value))
      unsafe_path
  require (text_eq value (strip_spaces value)) outer_space
  require (not (any u.is_other value)) control_character
  require (not (any (is_unsafe_component u) (split_on b'/' value))) unsafe_component
  ok value

-- The root of a PurePosixPath: two slashes stay two, and three or more are one.
unfoldable pub posix_root : List ℕ → List ℕ
posix_root value =
    if starts_with (codes "///") value
    then codes "/"
    else if starts_with (codes "//") value
    then codes "//"
    else if starts_with (codes "/") value
    then codes "/"
    else []

unfoldable pub kept_parts : List (List ℕ) → List (List ℕ)
kept_parts [] = []
kept_parts (part ∷ parts) =
    let rest = kept_parts parts in
    if is_empty part || text_eq part (codes ".") then rest else part ∷ rest

-- "/".join(parts)
unfoldable pub join_parts : List (List ℕ) → List ℕ
join_parts [] = []
join_parts (part ∷ []) = part
join_parts (part ∷ next ∷ parts) = part ++ b'/' ∷ join_parts (next ∷ parts)

-- str(PurePosixPath(value)); the parts behind the root are path.parts[1:] of an absolute path
unfoldable pub posix_parts : List ℕ → List (List ℕ)
unfolding kept_parts split_on
posix_parts value = kept_parts (split_on b'/' value)

unfoldable pub posix_text : List ℕ → List ℕ
unfolding posix_root posix_parts join_parts
posix_text value = posix_root value ++ join_parts (posix_parts value)

abbrev is_unsafe_part : List ℕ → Bool
is_unsafe_part part =
    is_empty part
    || (text_eq part (codes ".") || text_eq part (codes ".."))
    || ltb 255 (length (encode_utf8 part))

unfoldable pub validate_container_path : Unicode → List ℕ → Outcome PathError (List ℕ)
validate_container_path u value = do
  encoded ← require_utf8 value
  require (not (is_empty encoded || ltb 1024 (length encoded))) outside_size
  require (not (any u.is_other value)) control_character
  require (starts_with (codes "/") value && text_eq (posix_text value) value) not_canonical
  require (not (any is_unsafe_part (posix_parts value))) unsafe_component
  ok value

abbrev pub compare_paths : List ℕ → List ℕ → Ordering
compare_paths = compare_by (compare_lists compare) encode_utf8

abbrev pub has_text : List ℕ → List (List ℕ) → Bool
has_text s [] = false
has_text s (t ∷ ts) = text_eq s t || has_text s ts

abbrev pub texts_eq : List (List ℕ) → List (List ℕ) → Bool
texts_eq [] [] = true
texts_eq [] (t ∷ ts) = false
texts_eq (s ∷ ss) [] = false
texts_eq (s ∷ ss) (t ∷ ts) = text_eq s t && texts_eq ss ts

-- len(set(values))
unfoldable pub distinct_count : List (List ℕ) → ℕ
distinct_count [] = 0
distinct_count (s ∷ ss) = let rest = distinct_count ss in if has_text s ss then rest else suc rest

unfoldable pub canonical_repository_paths :
    Unicode → List (List ℕ) → ℕ → ℕ → Outcome PathError (List (List ℕ))
canonical_repository_paths u value minimum maximum = do
  require (leb minimum (length value) && leb (length value) maximum) outside_count
  for_each (λ path. validate_repository_path u path >>= λ _. ok tt) value
  require (texts_eq (sorted compare_paths value) value && (distinct_count value == length value))
      not_sorted
  ok value
