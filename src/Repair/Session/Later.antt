-- ===== src/Repair/Session/Later.antt =====
-- What stays between two states of one session.
use repo_guard.Base.{
  ℕ, ◌≡◌, refl, sym, ap, ◌∙◌, subst, ◌⊎◌, inl, inr, ◌≤◌, true, false, not, and_iff, ==_iff,
  is_eq_iff, Option, none, some, List, [], ◌∷◌, ◌==◌, arith,
}
use repo_guard.Repair.Records.{
  RepairState, RepairSnapshot, RepairCandidate-discrete, RepairValidation-discrete,
  RepairApproval-discrete, RepairApplication-discrete, RepairDecision-discrete,
  RepairFailure-discrete,
}
use repo_guard.Repair.Records.Shape.{is_terminal, exists}
use repo_guard.Repair.Session.{EventKind}
use repo_guard.Text.{text_eq, text_eq_iff}
use repo_guard.Repair.Paths.{texts_eq}
use repo_guard.Repair.Session.Chain.{LoadedState}
use repo_guard.Repair.Session.Step.{IsStep}
use repo_guard.Repair.Session.Diagram.{
  IsOpen, open_created, open_generating, open_validating, open_validated, open_approved, ◌⟶◌,
  generate, validate, pass, approve, apply, publish, return, reject_validated, reject_approved,
  cancel, expire, fail_generating, fail_validating, ◌⟶*◌, here, then, event-⟶,
}
use repo_guard.Repair.Session.Updates.{
  candidate_field, validation_field, approval_field, application_field, decision_field,
  failure_field, option_eq, same_identity, mutable_update_is_valid, snapshot_update_is_valid,
}
use repo_guard.Repair.Session.Once.{update_once}

pub option_eq_iff : {A : Type 0} (d : Discrete A) (a b : Option A) → option_eq d a b ≡ true → b ≡ a
option_eq_iff d none none h = refl
option_eq_iff d none (some b) h = cc
option_eq_iff d (some a) none h = cc
option_eq_iff d (some a) (some b) h = ap (λ x. some x) (sym ((is_eq_iff d a b).0 h))

-- A value that is there stays as it is.
abbrev Persists : {A : Type 0} → Option A → Option A → Type 0
Persists a b = exists a ≡ true → b ≡ a

stays_kept :
    {A : Type 0} (d : Discrete A) (a b : Option A)
    → (option_eq d a b ≡ true) ⊎ (not (exists a) ≡ true)
    → Persists a b
stays_kept d a b (inl k) e = option_eq_iff d a b k
stays_kept d a b (inr n) e = cc

stays_trans : {A : Type 0} (a b c : Option A) → Persists a b → Persists b c → Persists a c
stays_trans a b c h k e = k (subst (λ x. exists x ≡ true) (sym (h e)) e) ∙ h e

texts_eq_iff : (s t : List (List ℕ)) → texts_eq s t ≡ true → t ≡ s
texts_eq_iff [] [] h = refl
texts_eq_iff [] (y ∷ ys) h = cc
texts_eq_iff (x ∷ xs) [] h = cc
texts_eq_iff (x ∷ xs) (y ∷ ys) h =
    let (a, b) = (and_iff (text_eq x y) (texts_eq xs ys)).0 h in
    let e = (text_eq_iff x y).0 a in let f = texts_eq_iff xs ys b in cc

-- The identity of a session.
abbrev pub identity : RepairSnapshot → List ℕ × List ℕ × ℕ × ℕ × List (List ℕ)
identity s = (s.session_id, s.request_sha256, s.created_at_us, s.target_count, s.allowed_paths)

pub same_identity-identity :
    (p c : RepairSnapshot) → same_identity p c ≡ true → identity c ≡ identity p
unfolding same_identity
same_identity-identity p c h =
    let (h1, a) = (and_iff _ (texts_eq p.allowed_paths c.allowed_paths)).0 h in
    let (h2, t) = (and_iff _ (p.target_count == c.target_count)).0 h1 in
    let (h3, d) = (and_iff _ (p.created_at_us == c.created_at_us)).0 h2 in
    let (h4, r) = (and_iff _ (text_eq p.request_sha256 c.request_sha256)).0 h3 in
    let (_, s) = (and_iff _ (text_eq p.session_id c.session_id)).0 h4 in
    let a' = texts_eq_iff p.allowed_paths c.allowed_paths a in
    let t' = (==_iff p.target_count c.target_count).0 t in
    let d' = (==_iff p.created_at_us c.created_at_us).0 d in
    let r' = (text_eq_iff p.request_sha256 c.request_sha256).0 r in
    let s' = (text_eq_iff p.session_id c.session_id).0 s in cc

-- What a later state of a session has kept of an earlier one.
pub record IsLater (a b : LoadedState) : Type 0 where
  pub same_session : identity b.snapshot ≡ identity a.snapshot
  pub candidate_stays : Persists a.snapshot.candidate b.snapshot.candidate
  pub validation_stays : Persists a.snapshot.validation b.snapshot.validation
  pub approval_stays : Persists a.snapshot.approval b.snapshot.approval
  pub application_stays : Persists a.snapshot.application b.snapshot.application
  pub decision_stays : Persists a.snapshot.decision b.snapshot.decision
  pub failure_stays : Persists a.snapshot.failure b.snapshot.failure
  pub no_earlier : a.snapshot.updated_at_us ≤ b.snapshot.updated_at_us
  pub moves : a.snapshot.state ⟶* b.snapshot.state
  pub ends : is_terminal a.snapshot.state ≡ true → b.snapshot.state ≡ a.snapshot.state

open_is_no_end : {s : RepairState} → IsOpen s → is_terminal s ≡ false
open_is_no_end open_created = refl
open_is_no_end open_generating = refl
open_is_no_end open_validating = refl
open_is_no_end open_validated = refl
open_is_no_end open_approved = refl

no_edge_from_end : {s t : RepairState} → s ⟶ t → is_terminal s ≡ false
no_edge_from_end generate = refl
no_edge_from_end validate = refl
no_edge_from_end pass = refl
no_edge_from_end approve = refl
no_edge_from_end apply = refl
no_edge_from_end publish = refl
no_edge_from_end return = refl
no_edge_from_end reject_validated = refl
no_edge_from_end reject_approved = refl
no_edge_from_end (cancel o) = open_is_no_end o
no_edge_from_end (expire o) = open_is_no_end o
no_edge_from_end fail_generating = refl
no_edge_from_end fail_validating = refl

pub IsLater-refl : (a : LoadedState) → IsLater a a
IsLater-refl a = record {
  same_session = refl;
  candidate_stays = λ e. refl;
  validation_stays = λ e. refl;
  approval_stays = λ e. refl;
  application_stays = λ e. refl;
  decision_stays = λ e. refl;
  failure_stays = λ e. refl;
  no_earlier = omega arith;
  moves = here;
  ends = λ e. refl;
}

step-moves : (a s t : RepairState) → a ⟶* s → (t ≡ s) ⊎ (s ⟶ t) → a ⟶* t
step-moves a s t m (inl e) = subst (λ x. a ⟶* x) (sym e) m
step-moves a s t m (inr e) = then m e

pub step-ends : (s t : RepairState) → (t ≡ s) ⊎ (s ⟶ t) → is_terminal s ≡ true → t ≡ s
step-ends s t (inl e) h = e
step-ends s t (inr e) h = let n = no_edge_from_end e in cc

-- A later state stays one over an event.
pub step-IsLater :
    (kind : EventKind) (a b c : LoadedState) → IsLater a b → IsStep kind b c → IsLater a c
unfolding snapshot_update_is_valid
step-IsLater kind a b c h step =
    let p = b.snapshot in
    let q = c.snapshot in
    let (i, m) =
      (and_iff (same_identity p q) (mutable_update_is_valid kind p q)).0 step.snapshot_updated in
    let once = update_once kind p q m in
    let move = event-⟶ kind p.state q.state step.moved in
    record {
      same_session = same_identity-identity p q i ∙ h.same_session;
      candidate_stays =
          stays_trans _ _ _ h.candidate_stays
            (stays_kept RepairCandidate-discrete _ _ (once candidate_field));
      validation_stays =
          stays_trans _ _ _ h.validation_stays
            (stays_kept RepairValidation-discrete _ _ (once validation_field));
      approval_stays =
          stays_trans _ _ _ h.approval_stays
            (stays_kept RepairApproval-discrete _ _ (once approval_field));
      application_stays =
          stays_trans _ _ _ h.application_stays
            (stays_kept RepairApplication-discrete _ _ (once application_field));
      decision_stays =
          stays_trans _ _ _ h.decision_stays
            (stays_kept RepairDecision-discrete _ _ (once decision_field));
      failure_stays =
          stays_trans _ _ _ h.failure_stays
            (stays_kept RepairFailure-discrete _ _ (once failure_field));
      no_earlier = omega (arith, h.no_earlier, step.updated_later);
      moves = step-moves a.snapshot.state p.state q.state h.moves move;
      ends = λ e.
          let back = h.ends e in
          step-ends p.state q.state move (subst (λ x. is_terminal x ≡ true) (sym back) e) ∙ back;
    }
