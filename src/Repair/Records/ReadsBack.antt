-- ===== src/Repair/Records/ReadsBack.antt =====
-- Readers that give back what was written.
use repo_guard.Base.{ℕ, Bool, true, false, ◌≡◌, refl, Option, none, some, List, [], ◌∷◌}
use repo_guard.Base.Outcome.{ok}
use repo_guard.Agent.Json.{
  Json, json_null, json_bool, json_int, json_negative, json_real, json_text, json_list, json_object,
}
use repo_guard.Repair.Records.Exact.{Read, exact_str, exact_int, optional, read_items, construct}
use repo_guard.Repair.Records.Write.{or_null, to_items}

abbrev pub is_null : Json → Bool
is_null json_null = true
is_null _ = false

-- A reader gives back what was written, which is not null.
abbrev pub ReadsBack : {A : Type 0} → (Json → Read A) → (A → Json) → A → Type 0
ReadsBack read write a = (is_null (write a) ≡ false) × (read (write a) ≡ ok a)

abbrev pub IfGiven : {A : Type 0} → (A → Type 0) → Option A → Type 0
IfGiven holds none = Unit
IfGiven holds (some a) = holds a

pub optional_value :
    {A : Type 0} (read : Json → Read A) (v : Json) (a : A)
    → is_null v ≡ false
    → read v ≡ ok a
    → optional read v ≡ ok (some a)
optional_value read json_null a n e = cc
optional_value read (json_bool b) a n e = rw e refl
optional_value read (json_int k) a n e = rw e refl
optional_value read (json_negative k) a n e = rw e refl
optional_value read json_real a n e = rw e refl
optional_value read (json_text t) a n e = rw e refl
optional_value read (json_list t) a n e = rw e refl
optional_value read (json_object t) a n e = rw e refl

pub optional-or_null :
    {A : Type 0} (read : Json → Read A) (write : A → Json) (o : Option A)
    → IfGiven (ReadsBack read write) o
    → optional read (or_null write o) ≡ ok o
optional-or_null read write none h = refl
optional-or_null read write (some a) h = optional_value read (write a) a h.0 h.1

pub texts_back : (xs : List (List ℕ)) → read_items exact_str (to_items json_text xs) ≡ ok xs
texts_back [] = refl
texts_back (x ∷ xs) = rw (texts_back xs) refl

pub text_back : (o : Option (List ℕ)) → optional exact_str (or_null json_text o) ≡ ok o
text_back none = refl
text_back (some x) = refl

pub int_back : (o : Option ℕ) → optional exact_int (or_null json_int o) ≡ ok o
int_back none = refl
int_back (some x) = refl

pub construct_valid :
    {A : Type 0} (is_valid : A → Bool) (r : A) → is_valid r ≡ true → construct is_valid r ≡ ok r
construct_valid is_valid r h = rw (construct, h) refl

pub map-IfGiven :
    {A : Type 0} {P Q : A → Type 0} (o : Option A)
    → ((a : A) → P a → Q a)
    → IfGiven P o
    → IfGiven Q o
map-IfGiven none f h = tt
map-IfGiven (some a) f h = f a h
