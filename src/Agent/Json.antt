-- ===== src/Agent/Json.antt =====
-- The values of Python's json.loads, and the hooks that src/repoguard/_agent.py gives it.
use repo_guard.Base.{ℕ, Bool, true, false, ◌&&◌, ◌||◌, Option, none, some, List, [], ◌∷◌, all}
use repo_guard.Text.{text_eq}

mutual
  pub data Json : Type 0 where
    json_null : Json
    json_bool : Bool → Json
    json_int : ℕ → Json
    json_negative : ℕ → Json
    json_real : Json
    json_text : List ℕ → Json
    json_list : Items → Json
    json_object : Fields → Json

  pub data Items : Type 0 where
    no_items : Items
    item : Json → Items → Items

  pub data Fields : Type 0 where
    no_fields : Fields
    with_field : List ℕ → Json → Fields → Fields

-- json.loads with its object_pairs_hook and its parse_constant, where `none` is a RecursionError,
-- TypeError or ValueError of it or of a hook.
abbrev pub JsonLoads : Type 0
JsonLoads = (Fields → Option Json) → (List ℕ → Option Json) → List ℕ → Option Json

abbrev pub to_list : Items → List Json
to_list no_items = []
to_list (item v vs) = v ∷ to_list vs

abbrev pub has_field : List ℕ → Fields → Bool
has_field key no_fields = false
has_field key (with_field k v fs) = text_eq key k || has_field key fs

abbrev pub get_field : List ℕ → Fields → Option Json
get_field key no_fields = none
get_field key (with_field k v fs) = elim (text_eq key k) [
  | true ↦ some v
  | false ↦ get_field key fs
]

abbrev pub has_repeats : Fields → Bool
has_repeats no_fields = false
has_repeats (with_field k v fs) = has_field k fs || has_repeats fs

-- _strict_object
unfoldable pub strict_object : Fields → Option Json
strict_object fields = elim (has_repeats fields) [ true ↦ none | false ↦ some (json_object fields) ]

-- _reject_json_constant
abbrev pub reject_constant : List ℕ → Option Json
reject_constant name = none

abbrev pub is_one_of : List (List ℕ) → List ℕ → Bool
is_one_of [] key = false
is_one_of (k ∷ ks) key = text_eq key k || is_one_of ks key

abbrev pub all_known : List (List ℕ) → Fields → Bool
all_known keys no_fields = true
all_known keys (with_field k v fs) = is_one_of keys k && all_known keys fs

-- set(fields) == keys
unfoldable pub has_exactly : List (List ℕ) → Fields → Bool
has_exactly keys fields = all (λ key. has_field key fields) keys && all_known keys fields
