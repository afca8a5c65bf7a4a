-- ===== src/Migration/Approval.antt =====
-- Whether an activation was reviewed.
use rider_crawl_baemin.Prelude.{
  Bool, true, false, ◌≡◌, refl, ◌∙◌, sym, ◌⊎◌, inl, inr, List, [], ◌∷◌, Any, here, there,
  Bool-cases, false≢true, arith,
}
use rider_crawl_baemin.Migration.{
  MigrationState, mark_dry_run_passed, pause, activate, roll_back, transition, same_state,
}
use rider_crawl_baemin.Migration.Cutover.{
  DryRunComparison, approve_after_review, activate_cutover, roll_back_cutover,
  assert_no_dual_active_send,
}
use rider_crawl_baemin.Migration.Single.{
  Course, CutoverOp, dry_run_passes, activates, pauses, rolls_back, switches_legacy_off, approves,
  after, run, with_target,
}

-- The states that a target reaches only by an approval
abbrev pub is_approved : MigrationState → Bool
is_approved MigrationState.approved = true
is_approved MigrationState.active = true
is_approved MigrationState.paused = true
is_approved _ = false

-- An approval of a message that is the baseline's, or whose difference an operator acknowledged
abbrev pub IsReviewed : CutoverOp → Type 0
IsReviewed (approves comparison acknowledged) = (comparison.matches ≡ true) ⊎ (acknowledged ≡ true)
IsReviewed dry_run_passes = (false ≡ true)
IsReviewed activates = (false ≡ true)
IsReviewed pauses = (false ≡ true)
IsReviewed rolls_back = (false ≡ true)
IsReviewed switches_legacy_off = (false ≡ true)

-- Approved before, or by this operation
abbrev Explained : Course → CutoverOp → Course → Type 0
Explained s op t =
    is_approved t.target.state ≡ true → (is_approved s.target.state ≡ true) ⊎ IsReviewed op

approved_before :
    (s : MigrationState) (expected : MigrationState)
    → same_state s expected ≡ true
    → is_approved expected ≡ true
    → is_approved s ≡ true
approved_before s expected e h = ground arith

transition-Explained :
    (s : Course) (expected to : MigrationState)
    → is_approved expected ≡ true
    → is_approved (with_target s (transition expected to s.target)).target.state ≡ true
    → is_approved s.target.state ≡ true
unfolding transition
transition-Explained s expected to known = elim (Bool-cases (same_state s.target.state expected)) [
  | inl e ↦ λ h. approved_before s.target.state expected e known
  | inr e ↦ simp e (λ h. h)
]

approves-Explained :
    (s : Course) (comparison : DryRunComparison) (acknowledged : Bool)
    → Explained s (approves comparison acknowledged) (after (approves comparison acknowledged) s)
unfolding after approve_after_review
approves-Explained s comparison acknowledged = elim (Bool-cases comparison.matches) [
  | inl e ↦ λ h. inr (inl e)
  | inr e ↦ elim (Bool-cases acknowledged) [
    | inl a ↦ λ h. inr (inr a)
    | inr a ↦ simp (e, a) (λ h. inl h)
  ]
]

activates-Explained : (s : Course) → Explained s activates (after activates s)
unfolding after activate_cutover assert_no_dual_active_send activate transition
activates-Explained s = elim (Bool-cases (same_state s.target.state MigrationState.approved)) [
  | inl e ↦ λ h. inl (approved_before s.target.state MigrationState.approved e refl)
  | inr e ↦ elim (Bool-cases s.legacy_path_active) [
    | inl l ↦ simp (e, l) (λ h. inl h)
    | inr l ↦ simp (e, l) (λ h. inl h)
  ]
]

dry_run-Explained : (s : Course) → Explained s dry_run_passes (after dry_run_passes s)
unfolding after mark_dry_run_passed transition
dry_run-Explained s = elim (Bool-cases (same_state s.target.state MigrationState.mapped)) [
  | inl e ↦ simp e (λ h. absurd (false≢true h))
  | inr e ↦ simp e (λ h. inl h)
]

after-Explained : (op : CutoverOp) (s : Course) → Explained s op (after op s)
unfolding after pause roll_back_cutover roll_back
after-Explained dry_run_passes s = dry_run-Explained s
after-Explained (approves comparison acknowledged) s = approves-Explained s comparison acknowledged
after-Explained activates s = activates-Explained s
after-Explained pauses s =
    λ h. inl (transition-Explained s MigrationState.active MigrationState.paused refl h)
after-Explained rolls_back s = λ h. absurd (false≢true h)
after-Explained switches_legacy_off s = λ h. inl h

-- Where a target that was not approved at first is approved, active or paused after some operations,
-- one of them is an approval whose comparison says that it matches or whose difference an operator
-- acknowledged.
pub run-IsReviewed :
    (ops : List CutoverOp) (s : Course)
    → is_approved s.target.state ≡ false
    → is_approved (run ops s).target.state ≡ true
    → Any IsReviewed ops
unfolding run
run-IsReviewed ops s fresh h = elim (explained ops s h) [
  | inl old ↦ absurd (false≢true (sym fresh ∙ old))
  | inr reviewed ↦ reviewed
]
  where
    explained :
        (ops : List CutoverOp) (s : Course)
        → is_approved (run ops s).target.state ≡ true
        → (is_approved s.target.state ≡ true) ⊎ Any IsReviewed ops
    explained [] s h = inl h
    explained (op ∷ ops) s h = elim (explained ops (after op s) h) [
      | inr later ↦ inr (there later)
      | inl now ↦ elim (after-Explained op s now) [ inl old ↦ inl old | inr this ↦ inr (here this) ]
    ]
