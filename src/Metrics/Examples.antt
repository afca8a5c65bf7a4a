-- ===== src/Metrics/Examples.antt =====
-- Concrete rows and snapshots.
use rider_crawl_baemin.Prelude.{
  ◌≡◌, refl, String, true, false, ◌||◌, ◌&&◌, none, some, Option, List, [], ◌∷◌, ltb, leb, ◌=ₛ◌,
  any, map, keep, length, All, text_in,
}
use rider_crawl_baemin.Prelude.Dict
use rider_crawl_baemin.Text.{Runtime, upper_ascii, lower_ascii, strip}
use rider_crawl_baemin.Domain.{seconds}
use rider_crawl_baemin.Policy.Schedule.{decide_auth_gate, normalized_auth_state}
use rider_crawl_baemin.Metrics.Severity.{
  classify_freshness, failclosed_signals_from, classify_failclosed, any_signal, overall_severity,
  failure_is_stale, is_agent_online,
}
use rider_crawl_baemin.Metrics.Dashboard.{
  TargetHealthFacts, target_row, row_severity, signals_of, signal_facts, shown_failure, target_rows,
}
use rider_crawl_baemin.Metrics.Snapshot.{
  SnapshotFacts, MetricsRepository, assemble, snapshot, facts_of, count_offline, add_windows,
  rate_of,
}
use rider_crawl_baemin.Metrics.Alerts.{
  evaluate_alerts, api_error_rate_alerting, any_platform_open, crawl_alert_open,
}
use rider_crawl_baemin.Metrics.Order.{target_rows-IsWorstFirst, IsWorstFirst}
use rider_crawl_baemin.Metrics.Logins.{AuthRequiredRow, has_target, collapse_auth_required_rows}
use rider_crawl_baemin.Metrics.Logins.Unique.{
  IsUnique, is_covered, collapse_auth_required_rows-IsUnique,
}
use rider_crawl_baemin.Metrics.Fires.{alerts-assemble, fires, is_offline, breaker_open}

abbrev runtime : Runtime
runtime = record {
  upper = upper_ascii;
  casefold = lower_ascii;
  fromisoformat = λ s. none;
  isoformat = λ t. "";
  sha256_head = λ s. 12345;
}

abbrev target : String → Option String → TargetHealthFacts
target id auth_state = record {
  target_id = id;
  tenant_id = "t1";
  name = "north";
  center_name = "centre";
  platform = "BAEMIN";
  interval_minutes = 10;
  last_success_at = some (seconds 6000);
  last_delivery_at = none;
  last_failure_code = none;
  account_auth_state = auth_state;
  lifecycle_state = some "ACTIVE";
  customer_name = "";
  auth_session_pending = false;
  last_failure_at = none;
  auth_recovery_state = none;
  auth_recovery_reason = none;
  kakao_delivery_enabled = true;
  kakao_runtime_unavailable = true;
}

-- The scheduler refuses an account of unknown state, and the dashboard shows its row as normal.
unknown_test :
    ((decide_auth_gate runtime (some "UNKNOWN") "BAEMIN" false none (seconds 6060)).allow ≡ false)
    × ((target_row
          (record (target "a" (some "UNKNOWN")) { kakao_runtime_unavailable = false })
          (seconds 6060)).severity
        ≡ "NORMAL")
unfolding decide_auth_gate normalized_auth_state strip upper_ascii text_in target_row row_severity
    signals_of signal_facts failclosed_signals_from shown_failure classify_freshness
    overall_severity classify_failclosed any_signal failure_is_stale
unknown_test = (refl, refl)

abbrev failing : TargetHealthFacts
failing = record (target "a" none) {
  last_failure_code = some "TARGET_VALIDATION_FAILURE";
  last_failure_at = some (seconds 6030);
}

abbrev two_targets : List TargetHealthFacts
two_targets = target "a" (some "ACTIVE") ∷ target "b" (some "AUTH_REQUIRED") ∷ []

target_rows-IsWorstFirst_example :
    IsWorstFirst (target_rows two_targets (seconds 6060))
    × (keep (λ r. r.severity =ₛ "STOPPED") (target_rows two_targets (seconds 6060))
        ≡ keep (λ r. r.severity =ₛ "STOPPED") (map (λ f. target_row f (seconds 6060)) two_targets))
target_rows-IsWorstFirst_example = target_rows-IsWorstFirst two_targets (seconds 6060) "STOPPED"

abbrev repository : MetricsRepository
repository = record {
  agent_heartbeats = λ now. some (seconds 6050) ∷ none ∷ [];
  target_freshness = λ now. [];
  crawl_windows = λ since now.
      record { platform = "BAEMIN"; total = 10; failures = 4 }
      ∷ record { platform = "COUPANG"; total = 1; failures = 1 }
      ∷ [];
  kakao_queue_lag_seconds = λ now. 130;
  telegram_error_count = λ since now. 0;
  auth_required_count = 0;
  gmail_reauth_required_count = 0;
}

abbrev facts : SnapshotFacts
facts = facts_of repository (seconds 6060)

alerts-assemble_example :
    fires "api_error_rate" (evaluate_alerts (assemble facts (seconds 6060))) ≡ (
      (any (is_offline (seconds 6060)) facts.heartbeats && ("agent_offline" =ₛ "api_error_rate"))
      || (ltb 120 facts.kakao_queue_lag_seconds && ("queue_lag" =ₛ "api_error_rate"))
      || ((any breaker_open facts.crawl_windows || leb 1 facts.telegram_error_count)
          && ("api_error_rate" =ₛ "api_error_rate"))
      || ((leb 1 facts.auth_required_count || leb 1 facts.gmail_reauth_required_count)
          && ("auth_required" =ₛ "api_error_rate")))
unfolding facts_of
alerts-assemble_example =
    alerts-assemble facts (seconds 6060) "api_error_rate" ((refl, tt), (tt, tt))

alerts_test : length (evaluate_alerts (snapshot repository (seconds 6060))) ≡ 3
unfolding snapshot assemble facts_of count_offline is_agent_online add_windows rate_of
    evaluate_alerts api_error_rate_alerting any_platform_open crawl_alert_open Dict.put Dict.get
alerts_test = refl

abbrev waiting : String → Option String → AuthRequiredRow
waiting reason target_id = record {
  tenant_id = "t1";
  target_id = target_id;
  profile_id = none;
  reason = reason;
  target_name = none;
  platform = none;
  auth_recovery_detail = none;
}

abbrev three_waiting : List AuthRequiredRow
three_waiting =
    waiting "ACCOUNT_AUTH_REQUIRED" (some "a")
    ∷ waiting "AUTH_SESSION_PENDING" none
    ∷ waiting "AUTH_SESSION_PENDING" (some "a")
    ∷ []

collapse_auth_required_rows-IsUnique_example :
    IsUnique (keep has_target (collapse_auth_required_rows three_waiting))
    × All (λ r. is_covered (collapse_auth_required_rows three_waiting) r ≡ true) three_waiting
collapse_auth_required_rows-IsUnique_example = collapse_auth_required_rows-IsUnique three_waiting
