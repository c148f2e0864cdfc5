-- ===== src/Repair/Records/Exact.antt =====
-- The readers of exact JSON values in src/repoguard/_repair_models.py.
use repo_guard.Base.{ℕ, String, Bool, true, false, Option, none, some, List, [], ◌∷◌}
use repo_guard.Base.Outcome.{Outcome, ok, err, ◌>>=◌}
use repo_guard.Text.{codes, text_eq}
use repo_guard.Agent.Json.{
  Json, json_null, json_bool, json_int, json_text, json_list, json_object, Items, no_items, item,
  Fields, get_field, has_exactly,
}

-- A TypeError or a ValueError, which all callers take alike.
pub data RecordError : Type 0 where
  invalid_record : RecordError

abbrev pub Read : Type 0 → Type 0
Read A = Outcome RecordError A

abbrev pub exact_str : Json → Read (List ℕ)
exact_str (json_text value) = ok value
exact_str _ = err invalid_record

-- No record takes a negative number: what is refused here at once, its constructor refuses.
abbrev pub exact_int : Json → Read ℕ
exact_int (json_int value) = ok value
exact_int _ = err invalid_record

abbrev pub exact_bool : Json → Read Bool
exact_bool (json_bool value) = ok value
exact_bool _ = err invalid_record

-- _optional_str, _optional_int and _optional_record
abbrev pub optional : {A : Type 0} → (Json → Read A) → Json → Read (Option A)
optional read json_null = ok none
optional read value = read value >>= λ v. ok (some v)

abbrev pub read_items : {A : Type 0} → (Json → Read A) → Items → Read (List A)
read_items read no_items = ok []
read_items read (item v vs) = read v >>= λ x. read_items read vs >>= λ xs. ok (x ∷ xs)

-- tuple(read(item) for item in _exact_list(value))
abbrev pub exact_list : {A : Type 0} → (Json → Read A) → Json → Read (List A)
exact_list read (json_list values) = read_items read values
exact_list read _ = err invalid_record

-- The member of an enum with a value.
abbrev pub member : {A : Type 0} → (A → List ℕ) → List A → List ℕ → Read A
member text [] value = err invalid_record
member text (a ∷ rest) value = elim (text_eq (text a) value) [
  | true ↦ ok a
  | false ↦ member text rest value
]

abbrev pub enum_value : {A : Type 0} → (A → List ℕ) → List A → Json → Read A
enum_value text all value = exact_str value >>= member text all

abbrev pub exact_object : Json → Read Fields
exact_object (json_object fields) = ok fields
exact_object _ = err invalid_record

abbrev pub if_exact : Bool → Fields → Read Fields
if_exact true mapping = ok mapping
if_exact false mapping = err invalid_record

-- _exact_mapping
unfoldable pub exact_mapping : List (List ℕ) → Json → Read Fields
unfolding has_exactly
exact_mapping keys value =
    exact_object value >>= λ mapping. if_exact (has_exactly keys mapping) mapping

-- read(mapping[key])
abbrev pub field : {A : Type 0} → Fields → String → (Json → Read A) → Read A
field mapping key read = elim (get_field (codes key) mapping) [
  | none ↦ err invalid_record
  | some v ↦ read v
]

infixl 5 ◌⊛◌
-- The next argument of a constructor.
abbrev pub ◌⊛◌ : {A B : Type 0} → Read (A → B) → Read A → Read B
build ⊛ argument = build >>= λ f. argument >>= λ a. ok (f a)

-- A constructor call: the record, or what its `__post_init__` raises.
abbrev pub construct : {A : Type 0} → (A → Bool) → A → Read A
construct is_valid value = elim (is_valid value) [ true ↦ ok value | false ↦ err invalid_record ]
