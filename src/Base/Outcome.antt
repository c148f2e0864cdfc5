-- ===== src/Base/Outcome.antt =====
-- Python's exceptions as values: a call returns or raises an error of the caller's type.
use mathlib.Core.Path.{◌≡◌, refl, ap}
use mathlib.Core.Logic.{◌⊎◌, inl, inr, ◌↔◌, ◌≢◌}
use mathlib.Core.Bool.{Bool, true, false}
use mathlib.Core.List.{List, [], ◌∷◌}
use repo_guard.Base.Lists.{All}
use repo_guard.Base.Tests.{if◌then◌else◌}

pub data Outcome (E A : Type 0) : Type 0 where
  err : E → Outcome E A
  ok : A → Outcome E A

infixl 5 ◌>>=◌ ◌>>◌
-- An error that is raised leaves the rest out.
abbrev pub ◌>>=◌ : {E A B : Type 0} → Outcome E A → (A → Outcome E B) → Outcome E B
err raised >>= rest = err raised
ok value >>= rest = rest value

-- The same behind a call for its checks alone.
abbrev pub ◌>>◌ : {E B : Type 0} → Outcome E (Unit {0}) → Outcome E B → Outcome E B
check >> rest = check >>= λ checked. rest

-- `if not test: raise e`
abbrev pub require : {E : Type 0} → Bool → E → Outcome E (Unit {0})
require test e = elim test [ false ↦ err e | true ↦ ok tt ]

-- `for x in xs: f(x)` where `f` may raise.
abbrev pub for_each : {E A : Type 0} → (A → Outcome E (Unit {0})) → List A → Outcome E (Unit {0})
for_each f [] = ok tt
for_each f (x ∷ xs) = f x >> for_each f xs

pub >>=-eq-ok :
    {E A B : Type 0} (call : Outcome E A) (rest : A → Outcome E B) {v : B}
    → (call >>= rest) ≡ ok v
    → (value : A) × (call ≡ ok value) × (rest value ≡ ok v)
>>=-eq-ok (err raised) rest returns = cc
>>=-eq-ok (ok value) rest returns = (value, refl, returns)

pub require-eq-ok : {E : Type 0} (b : Bool) (e : E) → require b e ≡ ok tt → b ≡ true
require-eq-ok true e h = refl
require-eq-ok false e h = cc

pub Outcome-cases :
    {E A : Type 0} (m : Outcome E A) → ((a : A) × (m ≡ ok a)) ⊎ ((e : E) × (m ≡ err e))
Outcome-cases (ok a) = inl (a, refl)
Outcome-cases (err e) = inr (e, refl)

-- A block that goes on after a check returns exactly when the check passes and the rest returns.
pub require-then :
    {E B : Type 0} (b : Bool) (e : E) (m : Outcome E B) (v : B)
    → ((require b e >> m) ≡ ok v) ↔ ((b ≡ true) × (m ≡ ok v))
require-then true e m v = (λ h. (refl, h), λ h. h.1)
require-then false e m v = (λ h. cc, λ h. cc)

pub bind-then :
    {E B : Type 0} (m : Outcome E Unit) (k : Outcome E B) (v : B)
    → ((m >> k) ≡ ok v) ↔ ((m ≡ ok tt) × (k ≡ ok v))
bind-then (ok tt) k v = (λ h. (refl, h), λ h. h.1)
bind-then (err e) k v = (λ h. cc, λ h. cc)

pub for_each_iff :
    {E A : Type 0} (f : A → Outcome E Unit) (xs : List A)
    → (for_each f xs ≡ ok tt) ↔ All (λ x. f x ≡ ok tt) xs
for_each_iff f [] = (λ h. tt, λ h. refl)
for_each_iff f (x ∷ xs) =
    let ih = for_each_iff f xs in
    let step = bind-then (f x) (for_each f xs) tt in
    (λ h. ((step.0 h).0, ih.0 (step.0 h).1), λ h. step.1 (h.0, ih.1 h.1))

pub ok-injective : {E A : Type 0} {a b : A} → ◌≡◌ {A = Outcome E A} (ok a) (ok b) → a ≡ b
ok-injective h = cc

-- An error that no part raises is not raised.
pub bind-ne-err :
    {E A B : Type 0} (x : E) (m : Outcome E A) (f : A → Outcome E B)
    → m ≢ err x
    → ((a : A) → m ≡ ok a → f a ≢ err x)
    → (m >>= f) ≢ err x
bind-ne-err x (ok a) f h k e = k a refl e
bind-ne-err {E} {B = B} x (err e) f h k e' = h (ap (λ (y : E). err y) (err-injective e'))
  where
    err-injective : ◌≡◌ {A = Outcome E B} (err e) (err x) → e ≡ x
    err-injective q = cc

-- A property of what either branch returns.
pub either_branch :
    {E A : Type 0} (P : A → Type 0) (b : Bool) (x y : Outcome E A) (v : A)
    → (x ≡ ok v → P v)
    → (y ≡ ok v → P v)
    → (if b then x else y) ≡ ok v
    → P v
either_branch P true x y v f g h = f h
either_branch P false x y v f g h = g h
