-- ===== src/Migration/Examples.antt =====
-- A cutover of one target, and the mapping of one tab.
use rider_crawl_baemin.Prelude.{◌≡◌, refl, true, false, none, [], ◌∷◌, List, inr, Any}
use rider_crawl_baemin.Text.{Runtime, upper_ascii, lower_ascii, strip}
use rider_crawl_baemin.Delivery.{returned, DeliveryRule}
use rider_crawl_baemin.Migration.{
  MigrationState, UiSettings, TargetMapping, map_active_tab, secret_ref_only, platform_from_name,
  mark_dry_run_passed, approve, activate, transition, Platform, BaeminAuthState,
  MonitoringTargetStatus,
}
use rider_crawl_baemin.Domain.{CustomerLifecycleState}
use rider_crawl_baemin.Migration.Cutover.{
  DryRunComparison, approve_after_review, activate_cutover, assert_no_dual_active_send,
}
use rider_crawl_baemin.Migration.Secrets.{map_active_tab-references, HasReferences, AreReferenced}
use rider_crawl_baemin.Migration.Single.{
  Course, CutoverOp, dry_run_passes, approves, activates, switches_legacy_off, run, after,
  run-IsSingle, IsSingle,
}
use rider_crawl_baemin.Migration.Approval.{IsReviewed, run-IsReviewed}

abbrev rule : DeliveryRule
rule = record {
  id = "r1";
  target_id = "m1";
  channel_id = "c1";
  template_id = "t1";
  enabled = false;
  send_only_on_change = true;
}

abbrev start : Course
start = record {
  target = record {
    crawling_index = 1;
    legacy_alias = "tab";
    state = MigrationState.mapped;
    mapping = none;
    seed = none;
    state_copied_to = none;
  };
  rules = rule ∷ [];
  legacy_path_active = true;
  delivery_logs = [];
}

abbrev comparison : DryRunComparison
comparison = record {
  target_id = "m1";
  matches = false;
  baseline_hash = none;
  new_hash = "abc";
  preview_redacted = "";
}

abbrev ops : List CutoverOp
ops = dry_run_passes ∷ approves comparison true ∷ activates ∷ switches_legacy_off ∷ activates ∷ []

active_test : (run ops start).target.state ≡ MigrationState.active
unfolding run after mark_dry_run_passed approve approve_after_review activate_cutover
    assert_no_dual_active_send activate transition
active_test = refl

run-IsSingle_example : IsSingle [] (run ops start)
run-IsSingle_example = run-IsSingle ops start (inr (refl, tt))

run-IsReviewed_example : Any IsReviewed ops
unfolding run after mark_dry_run_passed approve approve_after_review activate_cutover
    assert_no_dual_active_send activate transition
run-IsReviewed_example = run-IsReviewed ops start refl refl

abbrev settings : UiSettings
settings = record {
  customer_id = "t1";
  customer_name = "";
  legacy_alias = "tab";
  platform_account_id = "p1";
  platform_name = "baemin";
  coupang_login_id = "";
  coupang_login_id_ref = "ref:id";
  coupang_login_password = "plain";
  coupang_login_password_ref = " ref:password ";
  verification_email_address = "";
  verification_email_address_ref = "";
  verification_email_app_password = "";
  verification_email_app_password_ref = "";
  verification_email_subject_keyword = "code";
  verification_email_sender_keyword = "coupang";
  monitoring_target_id = "m1";
  display_name = "Center";
  center_name = "Center";
  target_external_id = "";
  primary_url = "https://example.com";
  interval_minutes = 10;
}

abbrev runtime : Runtime
runtime = record {
  upper = upper_ascii;
  casefold = lower_ascii;
  fromisoformat = λ s. none;
  isoformat = λ t. "";
  sha256_head = λ s. 12345;
}

abbrev mapping : TargetMapping
mapping = record {
  tenant = record {
    id = "t1";
    name = "tab";
    status = CustomerLifecycleState.active;
    created_at = 5;
  };
  platform_account = record {
    id = "p1";
    tenant_id = "t1";
    platform = Platform.baemin;
    label = "tab";
    username = "ref:id";
    password = "ref:password";
    verification_email_address = "";
    verification_email_app_password = "";
    verification_email_subject_keyword = "code";
    verification_email_sender_keyword = "coupang";
    auth_state = BaeminAuthState.unknown;
  };
  monitoring_target = record {
    id = "m1";
    tenant_id = "t1";
    platform_account_id = "p1";
    name = "Center";
    center_name = "Center";
    external_id = "";
    url = "https://example.com";
    interval_minutes = 10;
    status = MonitoringTargetStatus.active;
  };
}

mapped_test : map_active_tab runtime settings 5 ≡ returned mapping
unfolding map_active_tab secret_ref_only platform_from_name strip lower_ascii
mapped_test = refl

map_active_tab-references_example :
    HasReferences settings mapping.platform_account × AreReferenced settings
map_active_tab-references_example = map_active_tab-references runtime settings 5 mapping mapped_test
