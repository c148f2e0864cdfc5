-- ===== src/Repair/Records/Yields.antt =====
-- What a reader returns, and what holds of it.
use repo_guard.Base.{
  String, ◌≡◌, refl, sym, ap, ◌∙◌, subst, Bool, true, false, Option, none, some, List, [], ◌∷◌, All,
}
use repo_guard.Base.Outcome.{ok, err, ◌>>=◌, >>=-eq-ok, ok-injective}
use repo_guard.Agent.Json.{
  Json, json_null, json_bool, json_int, json_negative, json_real, json_text, json_list, json_object,
  Items, no_items, item, Fields, get_field,
}
use repo_guard.Text.{codes}
use repo_guard.Repair.Records.Exact.{
  Read, optional, read_items, exact_list, field, construct, invalid_record,
}
use repo_guard.Repair.Records.ReadsBack.{IfGiven}

-- All that a reader returns.
abbrev pub Yields : {A : Type 0} → (Json → Read A) → (A → Type 0) → Type 0
Yields {A} read P = (v : Json) (a : A) → read v ≡ ok a → P a

pub field_yields :
    {A : Type 0} (read : Json → Read A) (P : A → Type 0) (m : Fields) (key : String) {a : A}
    → Yields read P
    → field m key read ≡ ok a
    → P a
field_yields read P m key {a} y h = found (get_field (codes key) m) h
  where
    found : (o : Option Json) → elim o [ none ↦ err invalid_record | some v ↦ read v ] ≡ ok a → P a
    found none h = cc
    found (some v) h = y v a h

pub construct_yields :
    {A : Type 0} (is_valid : A → Bool) (r s : A)
    → construct is_valid r ≡ ok s
    → (is_valid s ≡ true) × (s ≡ r)
construct_yields is_valid r s h = split (is_valid r) refl h
  where
    split :
        (b : Bool)
        → is_valid r ≡ b
        → elim b [ true ↦ ok r | false ↦ err invalid_record ] ≡ ok s
        → (is_valid s ≡ true) × (s ≡ r)
    split true e h = let q = ok-injective h in (ap is_valid (sym q) ∙ e, sym q)
    split false e h = cc

pub optional_yields :
    {A : Type 0} (read : Json → Read A) (P : A → Type 0)
    → Yields read P
    → Yields (optional read) (IfGiven P)
optional_yields {A} read P y v none h = tt
optional_yields {A} read P y v (some a) h = y v a (given v h)
  where
    through : (m : Read A) → (m >>= λ x. ok (some x)) ≡ ok (some a) → m ≡ ok a
    through (ok x) h = cc
    through (err e) h = cc

    given : (v : Json) → optional read v ≡ ok (some a) → read v ≡ ok a
    given json_null h = cc
    given (json_bool b) h = through (read (json_bool b)) h
    given (json_int k) h = through (read (json_int k)) h
    given (json_negative k) h = through (read (json_negative k)) h
    given json_real h = through (read json_real) h
    given (json_text t) h = through (read (json_text t)) h
    given (json_list t) h = through (read (json_list t)) h
    given (json_object t) h = through (read (json_object t)) h

pub items_yield :
    {A : Type 0} (read : Json → Read A) (P : A → Type 0)
    → Yields read P
    → (vs : Items) (xs : List A) → read_items read vs ≡ ok xs
    → All P xs
items_yield read P y no_items [] h = tt
items_yield read P y no_items (x ∷ xs) h = cc
items_yield read P y (item v vs) xs h =
    let (a, r, h1) = >>=-eq-ok (read v) _ h in
    let (rest, q, h2) = >>=-eq-ok (read_items read vs) _ h1 in
    subst (All P) (ok-injective h2) (y v a r, items_yield read P y vs rest q)

pub list_yields :
    {A : Type 0} (read : Json → Read A) (P : A → Type 0)
    → Yields read P
    → Yields (exact_list read) (All P)
list_yields read P y json_null xs h = cc
list_yields read P y (json_bool b) xs h = cc
list_yields read P y (json_int n) xs h = cc
list_yields read P y (json_negative n) xs h = cc
list_yields read P y json_real xs h = cc
list_yields read P y (json_text t) xs h = cc
list_yields read P y (json_list vs) xs h = items_yield read P y vs xs h
list_yields read P y (json_object fs) xs h = cc
