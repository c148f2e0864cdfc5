-- ===== src/Repair/Session/Diagram.antt =====
-- The diagram of the states of a repair session.
use repo_guard.Base.{
  ◌≡◌, refl, ◌⊎◌, inl, inr, true, ◌&&◌, and_iff, or_iff, is_eq_iff, List, [], ◌∷◌, any, In, All,
  All-In,
}
use repo_guard.Repair.Records.{
  RepairState, created, generating, validating, validated, approved, applying, applied, rejected,
  cancelled, expired, failed, RepairState-discrete,
}
use repo_guard.Repair.Records.Shape.{state_eq}
use repo_guard.Repair.Session.{
  EventKind, kind_created, kind_generating, kind_candidate, kind_validating, kind_validation_intent,
  kind_validation_intent_abandoned, kind_validation_run, kind_validation_result, kind_validated,
  kind_approved, kind_applying, kind_applied, kind_rejected, kind_cancelled, kind_expired,
  kind_failed, kind_application_conflict, kind_recovered, kind_cleanup_complete,
  kind_cleanup_pending, event_state_pairs, event_state_pair_is_valid,
}

-- The states in which a session may be given up.
pub data IsOpen : RepairState → Type 0 where
  open_created : IsOpen created
  open_generating : IsOpen generating
  open_validating : IsOpen validating
  open_validated : IsOpen validated
  open_approved : IsOpen approved

infix 40 ◌⟶◌ ◌⟶*◌
-- What may happen to a session.
pub data ◌⟶◌ : RepairState → RepairState → Type 0 where
  generate : created ⟶ generating
  validate : generating ⟶ validating
  pass : validating ⟶ validated
  approve : validated ⟶ approved
  apply : approved ⟶ applying
  publish : applying ⟶ applied
  return : applying ⟶ approved
  reject_validated : validated ⟶ rejected
  reject_approved : approved ⟶ rejected
  cancel : {s : RepairState} → IsOpen s → s ⟶ cancelled
  expire : {s : RepairState} → IsOpen s → s ⟶ expired
  fail_generating : generating ⟶ failed
  fail_validating : validating ⟶ failed

pub data ◌⟶*◌ : RepairState → RepairState → Type 0 where
  here : {s : RepairState} → s ⟶* s
  then : {s t u : RepairState} → s ⟶* t → t ⟶ u → s ⟶* u

abbrev IsMove : RepairState × RepairState → Type 0
IsMove p = (p.1 ≡ p.0) ⊎ (p.0 ⟶ p.1)

moves : (kind : EventKind) → All IsMove (event_state_pairs kind)
moves kind_created = tt
moves kind_generating = (inr generate, tt)
moves kind_candidate = (inl refl, tt)
moves kind_validating = (inr validate, tt)
moves kind_validation_intent = (inl refl, tt)
moves kind_validation_intent_abandoned = (inl refl, tt)
moves kind_validation_run = (inl refl, (inl refl, (inl refl, (inl refl, tt))))
moves kind_validation_result = (inl refl, tt)
moves kind_validated = (inr pass, tt)
moves kind_approved = (inr approve, tt)
moves kind_applying = (inr apply, tt)
moves kind_applied = (inr publish, tt)
moves kind_rejected = (inr reject_validated, (inr reject_approved, tt))
moves kind_cancelled = (
  inr (cancel open_created),
  (
    inr (cancel open_generating),
    (inr (cancel open_validating), (inr (cancel open_validated), (inr (cancel open_approved), tt))),
  ),
)
moves kind_expired = (
  inr (expire open_created),
  (
    inr (expire open_generating),
    (inr (expire open_validating), (inr (expire open_validated), (inr (expire open_approved), tt))),
  ),
)
moves kind_failed = (inr fail_generating, (inr fail_validating, tt))
moves kind_application_conflict = (inr return, tt)
moves kind_recovered = (inr return, tt)
moves kind_cleanup_complete = (inl refl, (inl refl, (inl refl, (inl refl, (inl refl, tt)))))
moves kind_cleanup_pending = (inl refl, (inl refl, (inl refl, (inl refl, (inl refl, tt)))))

pair_in :
    (s t : RepairState) (pairs : List (RepairState × RepairState))
    → any (λ p. state_eq s p.0 && state_eq t p.1) pairs ≡ true
    → In (s, t) pairs
pair_in s t [] h = cc
pair_in s t (p ∷ pairs) h = elim ((or_iff (state_eq s p.0 && state_eq t p.1) _).0 h) [
  | inl e ↦
      let (a, b) = (and_iff (state_eq s p.0) (state_eq t p.1)).0 e in
      inl (
        ap2 ((is_eq_iff RepairState-discrete s p.0).0 a)
          ((is_eq_iff RepairState-discrete t p.1).0 b))
  | inr m ↦ inr (pair_in s t pairs m)
]
  where
    ap2 :
        {a b c d : RepairState} → a ≡ c → b ≡ d → ◌≡◌ {A = RepairState × RepairState} (a, b) (c, d)
    ap2 e f = cc

pub event-In :
    (kind : EventKind) (s t : RepairState)
    → event_state_pair_is_valid kind s t ≡ true
    → In (s, t) (event_state_pairs kind)
unfolding event_state_pair_is_valid
event-In kind s t h =
    pair_in s t (event_state_pairs kind)
      ((and_iff (any (λ p. state_eq s p.0 && state_eq t p.1) (event_state_pairs kind)) _).0 h).0

-- An event stays in a state or follows an edge.
pub event-⟶ :
    (kind : EventKind) (s t : RepairState)
    → event_state_pair_is_valid kind s t ≡ true
    → (t ≡ s) ⊎ (s ⟶ t)
event-⟶ kind s t h =
    All-In IsMove (s, t) (event_state_pairs kind) (moves kind) (event-In kind s t h)
