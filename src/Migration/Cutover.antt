-- ===== src/Migration/Cutover.antt =====
-- src/rider_server/migration/cutover.py: the comparison of a dry run with the baseline, the approval,
-- the activation and the way back.
use rider_crawl_baemin.Prelude.{
  String, Bool, true, false, not, ◌&&◌, Option, none, some, List, map, if◌then◌else◌, is_text,
}
use rider_crawl_baemin.Delivery.{returned, raised, DeliveryRule, DeliveryLog, Message}
use rider_crawl_baemin.Migration.{
  MigrationSeed, TargetMigration, Tried, ◌>>=◌, dual_send_error, cutover_approval_error, approve,
  activate, roll_back,
}

pub record DryRunResult : Type 0 where
  pub target_id : String
  pub message : Message
  pub sent : Bool

pub record DryRunComparison : Type 0 where
  pub target_id : String
  pub matches : Bool
  pub baseline_hash : Option String
  pub new_hash : String
  pub preview_redacted : String

abbrev pub baseline_of : Option MigrationSeed → Option String
baseline_of none = none
baseline_of (some seed) = some seed.message_hash

unfoldable pub compare_to_baseline : DryRunResult → Option MigrationSeed → DryRunComparison
compare_to_baseline result seed = record {
  target_id = result.target_id;
  matches = is_text (baseline_of seed) result.message.text_hash;
  baseline_hash = baseline_of seed;
  new_hash = result.message.text_hash;
  preview_redacted = result.message.text_redacted_preview;
}

unfoldable pub approve_after_review :
    TargetMigration → DryRunComparison → Bool → Tried TargetMigration
approve_after_review target comparison operator_acknowledged_diff =
    if not comparison.matches && not operator_acknowledged_diff
    then raised cutover_approval_error
    else approve target

unfoldable pub assert_no_dual_active_send : Bool → Bool → Tried (Unit {0})
assert_no_dual_active_send legacy_path_active new_rule_enabled =
    if legacy_path_active && new_rule_enabled then raised dual_send_error else returned tt

pub record CutoverResult : Type 0 where
  pub target : TargetMigration
  pub enabled_rules : List DeliveryRule
  pub legacy_path_active : Bool

-- `replace(rule, enabled=...)`
abbrev pub with_enabled : Bool → DeliveryRule → DeliveryRule
with_enabled enabled rule = record rule { enabled = enabled }

-- `_target_id_for` only names the target in the text of the exception.
unfoldable pub activate_cutover : TargetMigration → List DeliveryRule → Bool → Tried CutoverResult
activate_cutover target rules legacy_path_active = do
  checked ← assert_no_dual_active_send legacy_path_active true
  activated ← activate target
  returned record {
    target = activated;
    enabled_rules = map (with_enabled true) rules;
    legacy_path_active = false;
  }

pub record RollbackResult : Type 0 where
  pub target : TargetMigration
  pub disabled_rules : List DeliveryRule
  pub preserved_logs : List DeliveryLog
  pub legacy_path_restored : Bool

unfoldable pub roll_back_cutover :
    TargetMigration → List DeliveryRule → List DeliveryLog → RollbackResult
roll_back_cutover target rules delivery_logs = record {
  target = roll_back target;
  disabled_rules = map (with_enabled false) rules;
  preserved_logs = delivery_logs;
  legacy_path_restored = true;
}
