-- ===== src/Migration/Single.antt =====
-- The course of one cutover: the operations in any order, where one that raises changes nothing.
use rider_crawl_baemin.Prelude.{
  Bool, false, ◌≡◌, refl, ◌⊎◌, inl, inr, List, [], ◌∷◌, map, All, Bool-cases,
}
use rider_crawl_baemin.Delivery.{returned, raised, DeliveryRule, DeliveryLog}
use rider_crawl_baemin.Migration.{
  TargetMigration, Tried, mark_dry_run_passed, pause, transition, MigrationState, activate,
  same_state,
}
use rider_crawl_baemin.Migration.Cutover.{
  DryRunComparison, CutoverResult, RollbackResult, approve_after_review, activate_cutover,
  roll_back_cutover, with_enabled, assert_no_dual_active_send,
}

-- What the operations act on: the target, its rules, the logs, and whether the legacy path can send,
-- which no operation here switches off: `CutoverResult.legacy_path_active` is a report only.
pub record Course : Type 0 where
  pub target : TargetMigration
  pub rules : List DeliveryRule
  pub legacy_path_active : Bool
  pub delivery_logs : List DeliveryLog

-- `switches_legacy_off` stands for the operator who stops the legacy process.
pub data CutoverOp : Type 0 where
  dry_run_passes activates pauses rolls_back switches_legacy_off : CutoverOp
  approves : DryRunComparison → Bool → CutoverOp

abbrev pub with_target : Course → Tried TargetMigration → Course
with_target s (returned target) = record s { target = target }
with_target s (raised exc) = s

abbrev pub with_cutover : Course → Tried CutoverResult → Course
with_cutover s (returned result) = record s { target = result.target; rules = result.enabled_rules }
with_cutover s (raised exc) = s

-- The way back tells its caller to restore the legacy path, which then can send.
abbrev pub with_rollback : RollbackResult → Course
with_rollback result = record {
  target = result.target;
  rules = result.disabled_rules;
  legacy_path_active = result.legacy_path_restored;
  delivery_logs = result.preserved_logs;
}

unfoldable pub after : CutoverOp → Course → Course
after dry_run_passes s = with_target s (mark_dry_run_passed s.target)
after (approves comparison acknowledged) s =
    with_target s (approve_after_review s.target comparison acknowledged)
after activates s = with_cutover s (activate_cutover s.target s.rules s.legacy_path_active)
after pauses s = with_target s (pause s.target)
after rolls_back s = with_rollback (roll_back_cutover s.target s.rules s.delivery_logs)
after switches_legacy_off s = record s { legacy_path_active = false }

unfoldable pub run : List CutoverOp → Course → Course
run [] s = s
run (op ∷ ops) s = run ops (after op s)

-- At most one of the two paths can send, and the logs are these.
abbrev pub IsSingle : List DeliveryLog → Course → Type 0
IsSingle logs s =
    ((s.legacy_path_active ≡ false) ⊎ All (λ rule. rule.enabled ≡ false) s.rules)
    × (s.delivery_logs ≡ logs)

disabled-All :
    (rules : List DeliveryRule)
    → All (λ rule. rule.enabled ≡ false) (map (with_enabled false) rules)
disabled-All [] = tt
disabled-All (rule ∷ rules) = (refl, disabled-All rules)

with_target-IsSingle :
    (logs : List DeliveryLog) (s : Course) (tried : Tried TargetMigration)
    → IsSingle logs s
    → IsSingle logs (with_target s tried)
with_target-IsSingle logs s (returned target) h = h
with_target-IsSingle logs s (raised exc) h = h

with_cutover-IsSingle :
    (logs : List DeliveryLog) (s : Course)
    → IsSingle logs s
    → IsSingle logs (with_cutover s (activate_cutover s.target s.rules s.legacy_path_active))
unfolding activate_cutover assert_no_dual_active_send activate transition
with_cutover-IsSingle logs s h = elim (Bool-cases s.legacy_path_active) [
  | inl e ↦ simp e (simp e at h)
  | inr e ↦ simp e (elim (Bool-cases (same_state s.target.state MigrationState.approved)) [
    | inl a ↦ simp a (inl e, h.1)
    | inr a ↦ simp a h
  ])
]

after-IsSingle :
    (logs : List DeliveryLog) (op : CutoverOp) (s : Course)
    → IsSingle logs s
    → IsSingle logs (after op s)
unfolding after roll_back_cutover
after-IsSingle logs dry_run_passes s h =
    with_target-IsSingle logs s (mark_dry_run_passed s.target) h
after-IsSingle logs (approves comparison acknowledged) s h =
    with_target-IsSingle logs s (approve_after_review s.target comparison acknowledged) h
after-IsSingle logs activates s h = with_cutover-IsSingle logs s h
after-IsSingle logs pauses s h = with_target-IsSingle logs s (pause s.target) h
after-IsSingle logs rolls_back s h = (inr (disabled-All s.rules), h.1)
after-IsSingle logs switches_legacy_off s h = (inl refl, h.1)

-- Where the legacy path or the rules are switched off at first, no sequence of operations, an
-- activation while the legacy path still sends included, lets both send, and none changes the
-- delivery logs.
pub run-IsSingle :
    (ops : List CutoverOp) (s : Course)
    → (s.legacy_path_active ≡ false) ⊎ All (λ rule. rule.enabled ≡ false) s.rules
    → IsSingle s.delivery_logs (run ops s)
unfolding run
run-IsSingle ops s single = kept ops s (single, refl)
  where
    kept :
        (ops : List CutoverOp) (t : Course)
        → IsSingle s.delivery_logs t
        → IsSingle s.delivery_logs (run ops t)
    kept [] t h = h
    kept (op ∷ ops) t h = kept ops (after op t) (after-IsSingle s.delivery_logs op t h)
