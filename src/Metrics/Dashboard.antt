-- ===== src/Metrics/Dashboard.antt =====
-- src/rider_server/admin/dashboard_service.py: the rows of the targets that the dashboard shows.
use rider_crawl_baemin.Prelude.{
  ℕ, String, Bool, ◌&&◌, Option, none, some, List, map, leb, not, ◌=ₛ◌, if◌then◌else◌,
}
use rider_crawl_baemin.Prelude.Sort.{sort}
use rider_crawl_baemin.Domain.{Time}
use rider_crawl_baemin.Metrics.Severity.{
  FailClosedSignals, SignalFacts, failure_is_stale, classify_freshness, failclosed_signals_from,
  classify_failclosed, overall_severity, severity_rank, coupang_recovery_detail_label,
}

pub record TargetHealthFacts : Type 0 where
  pub target_id : String
  pub tenant_id : String
  pub name : String
  pub center_name : String
  pub platform : String
  pub interval_minutes : ℕ
  pub last_success_at : Option Time
  pub last_delivery_at : Option Time
  pub last_failure_code : Option String
  pub account_auth_state : Option String
  pub lifecycle_state : Option String
  pub customer_name : String
  pub auth_session_pending : Bool
  pub last_failure_at : Option Time
  pub auth_recovery_state : Option String
  pub auth_recovery_reason : Option String
  pub kakao_delivery_enabled : Bool
  pub kakao_runtime_unavailable : Bool

pub record TargetRow : Type 0 where
  pub target_id : String
  pub tenant_id : String
  pub name : String
  pub center_name : String
  pub platform : String
  pub interval_minutes : ℕ
  pub last_success_at : Option Time
  pub last_delivery_at : Option Time
  pub last_failure_code : Option String
  pub severity : String
  pub customer_name : String
  pub auth_session_pending : Bool
  pub auth_recovery_detail : Option String

-- `failure_code` and `failure_at` after the branches of `target_row`
unfoldable pub shown_failure : TargetHealthFacts → Time → Option String × Option Time
shown_failure facts now =
    if facts.kakao_delivery_enabled && facts.kakao_runtime_unavailable
    then (some "KAKAO_FAILURE", some now)
    else if failure_is_stale facts.last_success_at facts.last_failure_at
    then (none, none)
    else (facts.last_failure_code, facts.last_failure_at)

-- The arguments of the call of `failclosed_signals_from`
unfoldable pub signal_facts : TargetHealthFacts → Time → SignalFacts
unfolding shown_failure
signal_facts facts now =
    let failure = shown_failure facts now in
    record {
      account_auth_state = facts.account_auth_state;
      lifecycle_state = facts.lifecycle_state;
      latest_failure_code = failure.0;
      auth_session_pending = facts.auth_session_pending;
      last_success_at = facts.last_success_at;
      latest_failure_at = failure.1;
    }

unfoldable pub signals_of : TargetHealthFacts → Time → FailClosedSignals
unfolding failclosed_signals_from signal_facts
signals_of facts now = failclosed_signals_from (signal_facts facts now)

-- `overall`, as `target_row` computes it
unfoldable pub row_severity : TargetHealthFacts → Time → String
unfolding signals_of overall_severity
row_severity facts now =
    let freshness = classify_freshness facts.last_success_at facts.interval_minutes now in
    let signals = signals_of facts now in
    let overall = overall_severity freshness (classify_failclosed signals) in
    if signals.kakao_misdelivery_risk && not (overall =ₛ "STOPPED") then "CRITICAL" else overall

unfoldable pub target_row : TargetHealthFacts → Time → TargetRow
unfolding row_severity coupang_recovery_detail_label
target_row facts now = record {
  target_id = facts.target_id;
  tenant_id = facts.tenant_id;
  name = facts.name;
  center_name = facts.center_name;
  platform = facts.platform;
  interval_minutes = facts.interval_minutes;
  last_success_at = facts.last_success_at;
  last_delivery_at = facts.last_delivery_at;
  last_failure_code = (shown_failure facts now).0;
  severity = row_severity facts now;
  customer_name = facts.customer_name;
  auth_session_pending = facts.auth_session_pending;
  auth_recovery_detail =
      coupang_recovery_detail_label facts.auth_recovery_state facts.auth_recovery_reason;
}

-- `key=severity_rank(r.severity), reverse=True`, which keeps the order of equal ranks
unfoldable pub is_worse : TargetRow → TargetRow → Bool
is_worse r s = leb (severity_rank s.severity) (severity_rank r.severity)

-- On the facts that the repository's `target_health` gives.
unfoldable pub target_rows : List TargetHealthFacts → Time → List TargetRow
unfolding target_row sort is_worse
target_rows facts now = sort is_worse (map (λ f. target_row f now) facts)
