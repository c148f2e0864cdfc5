-- ===== src/Repair/Records/Shape/Parts.antt =====
-- What the shape of a snapshot says of its parts.
use repo_guard.Base.{
  ◌≡◌, refl, Bool, true, false, not, ◌&&◌, ◌||◌, and_iff, Option, none, some, is_eq_iff, subst,
}
use repo_guard.Text.{text_eq, text_eq_iff}
use repo_guard.Repair.Records.{
  applied, failed, RepairState-discrete, RepairCandidate, RepairValidation, RepairApproval,
  RepairApplication, RepairSnapshot,
}
use repo_guard.Repair.Records.Shape.{
  candidate_fits, validation_fits, approval_fits, application_fits, outcome_fits, failure_fits,
  has_what_state_requires, has_valid_shape, is_terminal, holds_of, exists, repair_ref, state_eq,
  requires_decision,
}

-- Each part of `_validate_snapshot_shape`.
pub record IsShaped (r : RepairSnapshot) : Type 0 where
  pub candidate_part : candidate_fits r r.candidate ≡ true
  pub validation_part : validation_fits r r.validation ≡ true
  pub approval_part : approval_fits r r.approval ≡ true
  pub application_part : application_fits r r.application ≡ true
  pub decision_part : outcome_fits r r.decision ≡ true
  pub failure_part : failure_fits r r.failure ≡ true
  pub state_part : has_what_state_requires r ≡ true
  pub cleanup_part : (not r.cleanup_pending || is_terminal r.state) ≡ true

pub has_valid_shape-IsShaped : (r : RepairSnapshot) → has_valid_shape r ≡ true → IsShaped r
unfolding has_valid_shape
has_valid_shape-IsShaped r h =
    let (h1, c) = (and_iff _ (not r.cleanup_pending || is_terminal r.state)).0 h in
    let (h2, s) = (and_iff _ (has_what_state_requires r)).0 h1 in
    let (h3, f) = (and_iff _ (failure_fits r r.failure)).0 h2 in
    let (h4, d) = (and_iff _ (outcome_fits r r.decision)).0 h3 in
    let (h5, p) = (and_iff _ (application_fits r r.application)).0 h4 in
    let (h6, a) = (and_iff _ (approval_fits r r.approval)).0 h5 in
    let (k, v) = (and_iff (candidate_fits r r.candidate) (validation_fits r r.validation)).0 h6 in
    record {
      candidate_part = k;
      validation_part = v;
      approval_part = a;
      application_part = p;
      decision_part = d;
      failure_part = f;
      state_part = s;
      cleanup_part = c;
    }

-- An applied repair: its parts name each other.
pub record IsRepaired (r : RepairSnapshot) (c : RepairCandidate) (v : RepairValidation)
    (a : RepairApproval) (p : RepairApplication) : Type 0 where
  pub candidate_there : r.candidate ≡ some c
  pub validation_there : r.validation ≡ some v
  pub approval_there : r.approval ≡ some a
  pub application_there : r.application ≡ some p
  pub succeeded : v.success ≡ true
  pub validates : v.candidate_id ≡ c.candidate_id
  pub approves : a.candidate_id ≡ c.candidate_id
  pub approves_validation : a.validation_sha256 ≡ v.validation_sha256
  pub applies : p.approval_sha256 ≡ a.approval_sha256
  pub publishes : p.commit_oid ≡ c.commit_oid
  pub publishes_at : p.ref ≡ repair_ref c.candidate_id

applied_needs_application :
    (r : RepairSnapshot)
    → has_what_state_requires r ≡ true
    → r.state ≡ applied
    → exists r.application ≡ true
unfolding has_what_state_requires
applied_needs_application r h e =
    let (h1, _) = (and_iff _ (not (state_eq r.state failed) || exists r.failure)).0 h in
    let (h2, _) = (and_iff _ (not (requires_decision r.state) || exists r.decision)).0 h1 in
    let (_, n) = (and_iff _ (not (state_eq r.state applied) || exists r.application)).0 h2 in
    implied (state_eq r.state applied) (exists r.application) n
      ((is_eq_iff RepairState-discrete r.state applied).1 e)
  where
    implied : (a b : Bool) → (not a || b) ≡ true → a ≡ true → b ≡ true
    implied true b h e = h
    implied false b h e = cc

holds-of :
    {A : Type 0} (test : A → Bool) (o : Option A)
    → holds_of test o ≡ true
    → (a : A) × (o ≡ some a) × (test a ≡ true)
holds-of test none h = cc
holds-of test (some a) h = (a, refl, h)

exists-of : {A : Type 0} (o : Option A) → exists o ≡ true → (a : A) × (o ≡ some a)
exists-of none h = cc
exists-of (some a) h = (a, refl)

-- In the applied state every part is there and names the one before it.
pub applied-IsRepaired :
    (r : RepairSnapshot)
    → IsShaped r
    → r.state ≡ applied
    → (c : RepairCandidate) × (v : RepairValidation) × (a : RepairApproval)
      × (p : RepairApplication) × IsRepaired r c v a p
applied-IsRepaired r shape e =
    let (p, is_p) = exists-of r.application (applied_needs_application r shape.state_part e) in
    let p_fits = subst (λ o. application_fits r o ≡ true) is_p shape.application_part in
    let (p1, p_names_c) =
      (and_iff _ (
          holds_of
            (λ c. text_eq p.commit_oid c.commit_oid && text_eq p.ref (repair_ref c.candidate_id))
            r.candidate)).0
        p_fits in
    let (_, p_names_a) =
      (and_iff (state_eq r.state applied)
          (holds_of (λ a. text_eq p.approval_sha256 a.approval_sha256) r.approval)).0
        p1 in
    let (a, is_a, pa) =
      holds-of (λ a. text_eq p.approval_sha256 a.approval_sha256) r.approval p_names_a in
    let (c, is_c, pc) =
      holds-of (λ c. text_eq p.commit_oid c.commit_oid && text_eq p.ref (repair_ref c.candidate_id))
        r.candidate p_names_c in
    let (commit, at_ref) =
      (and_iff (text_eq p.commit_oid c.commit_oid) (text_eq p.ref (repair_ref c.candidate_id))).0
        pc in
    let a_fits = subst (λ o. approval_fits r o ≡ true) is_a shape.approval_part in
    let (a_names_c, a_names_v) =
      (and_iff (holds_of (λ c. text_eq a.candidate_id c.candidate_id) r.candidate) _).0 a_fits in
    let (v, is_v, av) =
      holds-of (λ v. v.success && text_eq a.validation_sha256 v.validation_sha256) r.validation
        a_names_v in
    let (won, named) = (and_iff v.success (text_eq a.validation_sha256 v.validation_sha256)).0 av in
    let ac =
      subst (λ o. holds_of (λ c. text_eq a.candidate_id c.candidate_id) o ≡ true) is_c a_names_c in
    let v_fits = subst (λ o. validation_fits r o ≡ true) is_v shape.validation_part in
    let vc =
      subst (λ o. holds_of (λ c. text_eq v.candidate_id c.candidate_id) o ≡ true) is_c v_fits in
    (
      c,
      v,
      a,
      p,
      record {
        candidate_there = is_c;
        validation_there = is_v;
        approval_there = is_a;
        application_there = is_p;
        succeeded = won;
        validates = (text_eq_iff _ _).0 vc;
        approves = (text_eq_iff _ _).0 ac;
        approves_validation = (text_eq_iff _ _).0 named;
        applies = (text_eq_iff _ _).0 pa;
        publishes = (text_eq_iff _ _).0 commit;
        publishes_at = (text_eq_iff _ _).0 at_ref;
      },
    )
