-- ===== src/Repair/Session/Lease.antt =====
-- The lease of a validation run in src/repoguard/_repair_store.py: its checks and its JSON mapping.
pub mod RoundTrip
use repo_guard.Base.{
  ℕ, ℕ_discrete, Bool, true, false, not, ◌&&◌, ◌||◌, Option, none, some, List, [], ◌∷◌, leb, ◌==◌,
  all, length, map, compare, Ordering, is_eq,
}
use repo_guard.Base.Outcome.{ok, err, ◌>>=◌}
use repo_guard.Base.Order.{compare_then, compare_by, compare_lists}
use repo_guard.Base.Order.Sort.{sorted}
use repo_guard.Text.{codes, text_eq, contains}
use repo_guard.Agent.Json.{Json, json_null, json_text, json_list, no_items, item}
use repo_guard.Repair.Paths.{distinct_count, has_text}
use repo_guard.Repair.Records.Checks.{is_sha256, if_given}
use repo_guard.Repair.Records.Exact.{
  Read, invalid_record, exact_str, optional, exact_list, exact_mapping, field, ◌⊛◌, construct,
}
use repo_guard.Repair.Records.Write.{dict, or_null, write_list}

abbrev pub Label : Type 0
Label = List ℕ × List ℕ

-- _ValidationRunLease
pub record ValidationRunLease : Type 0 where
  pub container_id : Option (List ℕ)
  pub container_name : List ℕ
  pub labels : List Label
  pub session_id : List ℕ
  pub candidate_id : List ℕ
  pub run_token_sha256 : List ℕ

unfoldable pub ValidationRunLease-discrete : Discrete ValidationRunLease
ValidationRunLease-discrete = hlevel ℕ_discrete

abbrev is_alphanumeric : ℕ → Bool
is_alphanumeric c =
    (leb b'A' c && leb c b'Z') || (leb b'a' c && leb c b'z') || (leb b'0' c && leb c b'9')

-- _CONTAINER_NAME_PATTERN.fullmatch(name)
unfoldable pub is_container_name : List ℕ → Bool
is_container_name [] = false
is_container_name (c ∷ name) =
    is_alphanumeric c
    && all (λ d. is_alphanumeric d || contains d (codes "_.-")) name
    && leb (length name) 127

-- The order of pairs of strings.
abbrev compare_labels : Label → Label → Ordering
compare_labels =
    compare_then (compare_by (compare_lists compare) (λ label. label.0))
      (compare_by (compare_lists compare) (λ label. label.1))

abbrev pub labels_eq : List Label → List Label → Bool
labels_eq [] [] = true
labels_eq [] (l ∷ ls) = false
labels_eq (k ∷ ks) [] = false
labels_eq (k ∷ ks) (l ∷ ls) = text_eq k.0 l.0 && text_eq k.1 l.1 && labels_eq ks ls

-- dict(labels) for distinct names
abbrev label_is : List Label → List ℕ → List ℕ → Bool
label_is [] name value = false
label_is ((k, v) ∷ labels) name value = elim (text_eq k name) [
  | true ↦ text_eq v value
  | false ↦ label_is labels name value
]

-- _VALIDATION_LABELS
abbrev validation_labels : List (List ℕ)
validation_labels =
    codes "com.repoguard.component"
    ∷ codes "com.repoguard.session"
    ∷ codes "com.repoguard.candidate"
    ∷ codes "com.repoguard.run-token-sha256"
    ∷ []

-- _ValidationRunLease.__post_init__
unfoldable pub lease_is_valid : ValidationRunLease → Bool
unfolding is_container_name sorted distinct_count
lease_is_valid l =
    if_given is_sha256 l.container_id
    && (is_sha256 l.session_id && is_sha256 l.candidate_id && is_sha256 l.run_token_sha256)
    && is_container_name l.container_name
    && labels_eq (sorted compare_labels l.labels) l.labels
    && (distinct_count (map (λ label. label.0) l.labels) == length l.labels)
    && all (λ label. has_text label.0 validation_labels) l.labels
    && label_is l.labels (codes "com.repoguard.component") (codes "safe-repair-validation")
    && label_is l.labels (codes "com.repoguard.session") l.session_id
    && label_is l.labels (codes "com.repoguard.candidate") l.candidate_id
    && label_is l.labels (codes "com.repoguard.run-token-sha256") l.run_token_sha256

abbrev pub label_to_list : Label → Json
label_to_list (name, value) = json_list (item (json_text name) (item (json_text value) no_items))

-- _validation_run_lease_to_dict
unfoldable pub lease_to_dict : ValidationRunLease → Json
lease_to_dict l = dict (
    ("container_id", or_null json_text l.container_id)
    ∷ ("container_name", json_text l.container_name)
    ∷ ("labels", write_list label_to_list l.labels)
    ∷ ("session_id", json_text l.session_id)
    ∷ ("candidate_id", json_text l.candidate_id)
    ∷ ("run_token_sha256", json_text l.run_token_sha256)
    ∷ [])

abbrev pub label_from_list : Json → Read Label
label_from_list (json_list (item (json_text name) (item (json_text value) no_items))) =
    ok (name, value)
label_from_list _ = err invalid_record

abbrev pub lease_keys : List (List ℕ)
lease_keys =
    codes "container_id"
    ∷ codes "container_name"
    ∷ codes "labels"
    ∷ codes "session_id"
    ∷ codes "candidate_id"
    ∷ codes "run_token_sha256"
    ∷ []

abbrev pub build_lease :
    Option (List ℕ) → List ℕ → List Label → List ℕ → List ℕ → List ℕ → ValidationRunLease
build_lease v0 v1 v2 v3 v4 v5 = record {
  container_id = v0;
  container_name = v1;
  labels = v2;
  session_id = v3;
  candidate_id = v4;
  run_token_sha256 = v5;
}

-- The mapping of a lease, read by _optional_validation_run_lease_from_dict
unfoldable pub lease_from_dict : Json → Read ValidationRunLease
unfolding exact_mapping
lease_from_dict value = do
  mapping ← exact_mapping lease_keys value
  built ←
      ok build_lease
      ⊛ field mapping "container_id" (optional exact_str)
      ⊛ field mapping "container_name" exact_str
      ⊛ field mapping "labels" (exact_list label_from_list)
      ⊛ field mapping "session_id" exact_str
      ⊛ field mapping "candidate_id" exact_str
      ⊛ field mapping "run_token_sha256" exact_str
  construct lease_is_valid built

-- _optional_validation_run_lease_from_dict
unfoldable pub optional_lease_from_dict : Json → Read (Option ValidationRunLease)
unfolding lease_from_dict
optional_lease_from_dict = optional lease_from_dict

-- None if validation_run is None else _validation_run_lease_to_dict(validation_run)
unfoldable pub optional_lease_to_dict : Option ValidationRunLease → Json
unfolding lease_to_dict
optional_lease_to_dict = or_null lease_to_dict
