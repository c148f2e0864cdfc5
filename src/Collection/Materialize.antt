-- ===== src/Collection/Materialize.antt =====
-- `_materialize_change` of src/repoguard/_git.py: the versions and the hunks of a change. What Git
-- answers is a parameter.
pub mod Contents
pub mod Sound
pub mod Whole
use repo_guard.Base.{
  ℕ, zero, suc, ◌+◌, Bool, true, false, not, ◌&&◌, ◌||◌, Option, none, some, List, [], ◌∷◌, ◌++◌,
  leb, ◌==◌, length, if◌then◌else◌, all, is_eq,
}
use repo_guard.Base.Outcome.{Outcome, ok, err, ◌>>=◌, ◌>>◌, require}
use repo_guard.Text.{codes, text_eq, starts_with, contains}
use repo_guard.Text.Decode.{decode_utf8}
use repo_guard.Evidence.{
  ContentKind, text, binary, symlink, submodule, other, ContentKind-discrete, FileVersion,
  FileChangeEvidence, DiffHunkEvidence,
}
use repo_guard.Collection.{
  Collected, CollectionError, collection_error, key_error, malformed, resource_limit, Budget,
  check_deadline,
}
use repo_guard.Collection.Hunks.{to_int, parse_hunks}
use repo_guard.Collection.Raw.{RawChange, is_absent, is_number}

-- What is asked of Git: `cat-file -s` and `cat-file blob` for an object id, the latter with a limit
-- on the output if there is one; and _read_patch for two contents.
pub record Git : Type 0 where
  pub blob_size : List ℕ → Option Budget → Collected (List ℕ × Option Budget)
  pub blob : List ℕ → Option ℕ → Option Budget → Collected (List ℕ × Option Budget)
  pub patch : List ℕ → List ℕ → Option Budget → Collected (List ℕ × Option Budget)

-- The line before the newline at the end.
abbrev before_lf : List ℕ → Option (List ℕ)
before_lf [] = none
before_lf (c ∷ []) = if c == 10 then some [] else none
before_lf (c ∷ d ∷ s) = elim (before_lf (d ∷ s)) [ none ↦ none | some t ↦ some (c ∷ t) ]

abbrev pub one_line : Option (List ℕ) → Collected (List ℕ)
one_line none = err malformed
one_line (some []) = err malformed
one_line (some (c ∷ line)) = do
  require (not (contains 10 (c ∷ line) || contains 0 (c ∷ line))) malformed
  ok (c ∷ line)

-- _single_output_line
unfoldable pub single_output_line : List ℕ → Collected (List ℕ)
single_output_line output = one_line (before_lf output)

-- int(encoded_size), whose error is caught
abbrev pub or_too_large : Collected ℕ → Collected ℕ
or_too_large (ok n) = ok n
or_too_large (err e) = err malformed

-- _parse_blob_size
unfoldable pub parse_blob_size : List ℕ → Collected ℕ
unfolding single_output_line
parse_blob_size output = do
  encoded_size ← single_output_line output
  require (is_number encoded_size) malformed
  or_too_large (to_int encoded_size)

abbrev pub count_blob_bytes : Option Budget → ℕ → Collected (Option Budget)
count_blob_bytes none size = ok none
count_blob_bytes (some b) size = do
  require (leb size b.max_blob_bytes) (collection_error resource_limit)
  require (leb (b.blob_bytes + size) b.max_total_blob_bytes) (collection_error resource_limit)
  ok (some (record b { blob_bytes = b.blob_bytes + size }))

-- _reserve_blob_bytes
unfoldable pub reserve_blob_bytes : Option Budget → ℕ → Collected (Option Budget)
unfolding check_deadline
reserve_blob_bytes budget size = do checked ← check_deadline budget; count_blob_bytes checked size

abbrev pub is_given : {A : Type 0} → Option A → Bool
is_given none = false
is_given (some a) = true

-- The kind of a blob, and its bytes if it is text.
abbrev pub Content : Type 0
Content = ContentKind × Option (List ℕ)

abbrev pub decoded_kind : List ℕ → Option (List ℕ) → Content
decoded_kind content none = (binary, none)
decoded_kind content (some decoded) = (text, some content)

abbrev pub kind_of_bytes : List ℕ → Content
kind_of_bytes content =
    if contains 0 content then (binary, none) else decoded_kind content (decode_utf8 content)

abbrev pub is_symlink : List ℕ → Bool
is_symlink mode = text_eq mode (codes "120000")

abbrev pub is_regular : List ℕ → Bool
is_regular mode = starts_with (codes "100") mode

abbrev pub take_blob : Git → List ℕ → ℕ → Option Budget → Collected (Content × Option Budget)
take_blob git oid size budget = do
  found ← git.blob oid (some size) budget
  require (length found.0 == size) malformed
  ok (kind_of_bytes found.0, found.1)

-- The reading of a blob, without a budget and with one.
abbrev pub read_blob : Git → List ℕ → List ℕ → Option Budget → Collected (Content × Option Budget)
read_blob git mode oid none = do found ← git.blob oid none none; ok (kind_of_bytes found.0, found.1)
read_blob git mode oid (some b) = do
  measured ← git.blob_size oid (some b)
  size ← parse_blob_size measured.0
  reserved ← reserve_blob_bytes measured.1 size
  if is_symlink mode then ok ((symlink, none), reserved) else take_blob git oid size reserved

abbrev pub classify_mode :
    Git → List ℕ → List ℕ → Option Budget → Collected (Content × Option Budget)
classify_mode git mode oid budget =
    if is_symlink mode && not (is_given budget)
    then ok ((symlink, none), budget)
    else if text_eq mode (codes "160000")
    then ok ((submodule, none), budget)
    else if not (is_symlink mode) && not (is_regular mode)
    then ok ((other, none), budget)
    else read_blob git mode oid budget

-- _classify_content
unfoldable pub classify_content :
    Git → List ℕ → List ℕ → Option Budget → Collected (Content × Option Budget)
unfolding check_deadline parse_blob_size reserve_blob_bytes decode_utf8
classify_content git mode oid budget = do
  checked ← check_deadline budget
  classify_mode git mode oid checked

abbrev pub Key : Type 0
Key = List ℕ × List ℕ

-- _content_cache_key
abbrev pub content_cache_key : List ℕ → List ℕ → Key
content_cache_key mode oid = if is_regular mode then (codes "regular", oid) else (mode, oid)

abbrev pub Cache : Type 0
Cache = List (Key × Content)

-- content_cache.get(key)
unfoldable pub cached : Key → Cache → Option Content
cached key [] = none
cached key ((k, content) ∷ cache) =
    let found = cached key cache in
    if text_eq key.0 k.0 && text_eq key.1 k.1 then some content else found

abbrev pub version_of : List ℕ → List ℕ → List ℕ → Content → FileVersion
version_of path mode oid content = record {
  path = path;
  mode = mode;
  oid = oid;
  content_kind = content.0;
}

-- A version, the cache and the budget behind it.
abbrev pub Materialized : Type 0
Materialized = Option FileVersion × Cache × Option Budget

abbrev pub from_cache :
    Git → List ℕ → List ℕ → List ℕ → Cache → Option Budget → Option Content → Collected Materialized
from_cache git path mode oid cache budget (some content) =
    ok (some (version_of path mode oid content), cache, budget)
from_cache git path mode oid cache budget none = do
  read ← classify_content git mode oid budget
  ok (some (version_of path mode oid read.0), (content_cache_key mode oid, read.0) ∷ cache, read.1)

-- _materialize_version
unfoldable pub materialize_version :
    Git → List ℕ → List ℕ → List ℕ → Cache → Option Budget → Collected Materialized
unfolding classify_content cached
materialize_version git path mode oid cache budget =
    if is_absent mode
    then ok (none, cache, budget)
    else from_cache git path mode oid cache budget (cached (content_cache_key mode oid) cache)

-- content_cache[key] and the test of what it is
abbrev pub content_of : Option Content → Collected (List ℕ)
content_of none = err key_error
content_of (some (text, some content)) = ok content
content_of (some (kind, content)) = err malformed

-- _text_content
unfoldable pub text_content : Option FileVersion → Cache → Collected (List ℕ)
unfolding cached
text_content none cache = ok []
text_content (some v) cache = content_of (cached (content_cache_key v.mode v.oid) cache)

abbrev pub is_text : Option FileVersion → Bool
is_text none = true
is_text (some v) = is_eq ContentKind-discrete v.content_kind text

abbrev pub are_text : Option FileVersion → Option FileVersion → Bool
are_text old new = (is_given old || is_given new) && is_text old && is_text new

abbrev no_hunks : List DiffHunkEvidence → Bool
no_hunks [] = true
no_hunks (hunk ∷ hunks) = false

abbrev pub change_of :
    RawChange → Option FileVersion → Option FileVersion → List DiffHunkEvidence → FileChangeEvidence
change_of raw old new hunks = record {
  change_type = raw.change_type;
  rename_similarity = raw.rename_similarity;
  old = old;
  new = new;
  hunks = hunks;
}

-- The hunks of two versions that are text.
abbrev pub diff_versions :
    Git
    → Option FileVersion
    → Option FileVersion
    → Cache
    → Option Budget
    → Collected (List DiffHunkEvidence × Option Budget)
diff_versions git old new cache budget = do
  old_content ← text_content old cache
  new_content ← text_content new cache
  patch ← git.patch old_content new_content budget
  parsed ← parse_hunks patch.0 patch.1
  require (not (is_given budget && not (text_eq old_content new_content) && no_hunks parsed.0))
      malformed
  ok parsed

abbrev pub hunks_of :
    Git
    → Option FileVersion
    → Option FileVersion
    → Cache
    → Option Budget
    → Collected (List DiffHunkEvidence × Option Budget)
hunks_of git old new cache budget =
    if are_text old new then diff_versions git old new cache budget else ok ([], budget)

-- _materialize_change, with the cache and the budget that it leaves
unfoldable pub materialize_change :
    Git → RawChange → Cache → Option Budget → Collected (FileChangeEvidence × Cache × Option Budget)
unfolding check_deadline materialize_version text_content parse_hunks
materialize_change git raw cache budget = do
  checked ← check_deadline budget
  old ← materialize_version git raw.old_path raw.old_mode raw.old_oid cache checked
  new ← materialize_version git raw.new_path raw.new_mode raw.new_oid old.1 old.2
  found ← hunks_of git old.0 new.0 new.1 new.2
  ok (change_of raw old.0 new.0 found.0, new.1, found.1)

-- The changes in the order of the raw diff.
unfoldable pub materialize_changes :
    Git
    → List RawChange
    → Cache
    → Option Budget
    → Collected (List FileChangeEvidence × Cache × Option Budget)
unfolding materialize_change
materialize_changes git [] cache budget = ok ([], cache, budget)
materialize_changes git (raw ∷ raws) cache budget = do
  first ← materialize_change git raw cache budget
  rest ← materialize_changes git raws first.1 first.2
  ok (first.0 ∷ rest.0, rest.1, rest.2)
