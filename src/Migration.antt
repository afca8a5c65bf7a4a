-- ===== src/Migration.antt =====
-- src/rider_server/migration/runner.py: the mapping of a legacy tab to the domain, and the states of a
-- migration.
pub mod Cutover
pub mod Secrets
pub mod Single
pub mod Approval
mod Examples
use rider_crawl_baemin.Prelude.{
  ℕ, String, Bool, true, false, ◌=ₛ◌, Option, none, some, if◌then◌else◌, truthy,
}
use rider_crawl_baemin.Text.{Runtime, strip}
use rider_crawl_baemin.Domain.{Time, CustomerLifecycleState}
use rider_crawl_baemin.Delivery.{Attempted, returned, raised}

pub data MigrationState : Type 0 where
  discovered mapped dry_run_passed approved active paused rolled_back : MigrationState

pub data BaeminAuthState : Type 0 where
  unknown active auth_required user_action_pending auth_verified : BaeminAuthState
  center_mismatch blocked_or_captcha : BaeminAuthState

pub data Platform : Type 0 where
  baemin coupang : Platform

pub data MonitoringTargetStatus : Type 0 where
  active paused inactive : MonitoringTargetStatus

-- The fields that a migration sets; the others have their defaults.
pub record Tenant : Type 0 where
  pub id : String
  pub name : String
  pub status : CustomerLifecycleState
  pub created_at : Time

pub record PlatformAccount : Type 0 where
  pub id : String
  pub tenant_id : String
  pub platform : Platform
  pub label : String
  pub username : String
  pub password : String
  pub verification_email_address : String
  pub verification_email_app_password : String
  pub verification_email_subject_keyword : String
  pub verification_email_sender_keyword : String
  pub auth_state : BaeminAuthState

-- The fields that a migration sets; the schedule has its defaults.
pub record MonitoringTarget : Type 0 where
  pub id : String
  pub tenant_id : String
  pub platform_account_id : String
  pub name : String
  pub center_name : String
  pub external_id : String
  pub url : String
  pub interval_minutes : ℕ
  pub status : MonitoringTargetStatus

-- What the mapping reads of `UiSettings` (src/rider_crawl/ui_settings.py): fields, and the properties
-- `display_name`, `center_name`, `target_external_id` and `primary_url`.
pub record UiSettings : Type 0 where
  pub customer_id : String
  pub customer_name : String
  pub legacy_alias : String
  pub platform_account_id : String
  pub platform_name : String
  pub coupang_login_id : String
  pub coupang_login_id_ref : String
  pub coupang_login_password : String
  pub coupang_login_password_ref : String
  pub verification_email_address : String
  pub verification_email_address_ref : String
  pub verification_email_app_password : String
  pub verification_email_app_password_ref : String
  pub verification_email_subject_keyword : String
  pub verification_email_sender_keyword : String
  pub monitoring_target_id : String
  pub display_name : String
  pub center_name : String
  pub target_external_id : String
  pub primary_url : String
  pub interval_minutes : ℕ

pub record TargetMapping : Type 0 where
  pub tenant : Tenant
  pub platform_account : PlatformAccount
  pub monitoring_target : MonitoringTarget

pub record MigrationSeed : Type 0 where
  pub monitoring_target_id : String
  pub message_hash : String
  pub scope_hash : String

-- `state_copied_to`, a path, is a text.
pub record TargetMigration : Type 0 where
  pub crawling_index : ℕ
  pub legacy_alias : String
  pub state : MigrationState
  pub mapping : Option TargetMapping
  pub seed : Option MigrationSeed
  pub state_copied_to : Option String

-- What the migration raises: a plain `ValueError`, or one of its two subclasses of the cutover.
pub data MigrationError : Type 0 where
  value_error cutover_approval_error dual_send_error : MigrationError

abbrev pub Tried : Type 0 → Type 0
Tried A = Attempted MigrationError A

infixl 10 ◌>>=◌
abbrev pub ◌>>=◌ : {A B : Type 0} → Tried A → (A → Tried B) → Tried B
returned a >>= f = f a
raised exc >>= f = raised exc

-- The reference, or nothing where there is no secret; a secret without a reference is an error.
unfoldable pub secret_ref_only : String → String → Tried String
secret_ref_only plaintext ref =
    if truthy (strip ref)
    then returned (strip ref)
    else if truthy (strip plaintext)
    then raised value_error
    else returned ""

unfoldable pub platform_from_name : Runtime → String → Tried Platform
platform_from_name rt platform_name =
    let name = rt.casefold (strip platform_name) in
    if name =ₛ "baemin"
    then returned Platform.baemin
    else if name =ₛ "coupang"
    then returned Platform.coupang
    else raised value_error

abbrev pub or_text : String → String → String
or_text s t = if truthy s then s else t

unfoldable pub map_active_tab : Runtime → UiSettings → Time → Tried TargetMapping
map_active_tab rt settings created_at = do
  platform ← platform_from_name rt settings.platform_name
  username ← secret_ref_only settings.coupang_login_id settings.coupang_login_id_ref
  password ← secret_ref_only settings.coupang_login_password settings.coupang_login_password_ref
  address ←
      secret_ref_only settings.verification_email_address settings.verification_email_address_ref
  app_password ←
      secret_ref_only settings.verification_email_app_password
        settings.verification_email_app_password_ref
  returned record {
    tenant = record {
      id = settings.customer_id;
      name = or_text settings.customer_name settings.legacy_alias;
      status = CustomerLifecycleState.active;
      created_at = created_at;
    };
    platform_account = record {
      id = settings.platform_account_id;
      tenant_id = settings.customer_id;
      platform = platform;
      label = settings.legacy_alias;
      username = username;
      password = password;
      verification_email_address = address;
      verification_email_app_password = app_password;
      verification_email_subject_keyword = settings.verification_email_subject_keyword;
      verification_email_sender_keyword = settings.verification_email_sender_keyword;
      auth_state = BaeminAuthState.unknown;
    };
    monitoring_target = record {
      id = settings.monitoring_target_id;
      tenant_id = settings.customer_id;
      platform_account_id = settings.platform_account_id;
      name = or_text settings.display_name settings.center_name;
      center_name = settings.center_name;
      external_id = settings.target_external_id;
      url = settings.primary_url;
      interval_minutes = settings.interval_minutes;
      status = MonitoringTargetStatus.active;
    };
  }

abbrev pub same_state : MigrationState → MigrationState → Bool
same_state MigrationState.discovered MigrationState.discovered = true
same_state MigrationState.mapped MigrationState.mapped = true
same_state MigrationState.dry_run_passed MigrationState.dry_run_passed = true
same_state MigrationState.approved MigrationState.approved = true
same_state MigrationState.active MigrationState.active = true
same_state MigrationState.paused MigrationState.paused = true
same_state MigrationState.rolled_back MigrationState.rolled_back = true
same_state _ _ = false

-- `_transition`
unfoldable pub transition :
    MigrationState → MigrationState → TargetMigration → Tried TargetMigration
transition expected to target =
    if same_state target.state expected
    then returned (record target { state = to })
    else raised value_error

unfoldable pub mark_dry_run_passed : TargetMigration → Tried TargetMigration
mark_dry_run_passed target = transition MigrationState.mapped MigrationState.dry_run_passed target

unfoldable pub approve : TargetMigration → Tried TargetMigration
approve target = transition MigrationState.dry_run_passed MigrationState.approved target

unfoldable pub activate : TargetMigration → Tried TargetMigration
activate target = transition MigrationState.approved MigrationState.active target

unfoldable pub pause : TargetMigration → Tried TargetMigration
pause target = transition MigrationState.active MigrationState.paused target

unfoldable pub roll_back : TargetMigration → TargetMigration
roll_back target = record target { state = MigrationState.rolled_back }
