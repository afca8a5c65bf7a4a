-- ===== src/Metrics/Alerts.antt =====
-- src/rider_server/metrics/policy.py: the alerts that a snapshot raises.
use rider_crawl_baemin.Prelude.{
  ℕ, ◌*◌, String, Bool, true, false, ◌||◌, List, [], ◌∷◌, ◌++◌, ltb, leb, ◌==◌, if◌then◌else◌,
  get_or_default,
}
use rider_crawl_baemin.Prelude.Dict
use rider_crawl_baemin.Prelude.Dict.{Dict}
use rider_crawl_baemin.Policy.Schedule.{
  default_breaker_num, default_breaker_den, default_breaker_min_samples,
}
use rider_crawl_baemin.Metrics.Snapshot.{Rate, MetricsSnapshot}

pub record Alert : Type 0 where
  pub code : String
  pub severity : String

-- `error_rate > threshold`, where the threshold is the fraction `num / den`
unfoldable pub crawl_alert_open : Rate → ℕ → ℕ → ℕ → ℕ → Bool
crawl_alert_open error_rate samples num den min_samples =
    if ltb samples min_samples || samples == 0
    then false
    else ltb (num * error_rate.den) (error_rate.num * den)

-- The loop over `crawl_error_rate_by_platform.items()`
unfoldable pub any_platform_open : Dict Rate → Dict ℕ → Bool
unfolding crawl_alert_open
any_platform_open [] samples = false
any_platform_open ((platform, rate) ∷ rates) samples =
    if crawl_alert_open rate (get_or_default (Dict.get platform samples) 0) default_breaker_num
      default_breaker_den default_breaker_min_samples
    then true
    else any_platform_open rates samples

abbrev telegram_error_alert_min : ℕ
telegram_error_alert_min = 1

unfoldable pub api_error_rate_alerting : MetricsSnapshot → Bool
unfolding any_platform_open
api_error_rate_alerting snapshot =
    if any_platform_open snapshot.crawl_error_rate_by_platform snapshot.crawl_samples_by_platform
    then true
    else leb telegram_error_alert_min snapshot.telegram_error_count

abbrev queue_lag_alert_seconds : ℕ
queue_lag_alert_seconds = 120

abbrev auth_required_alert_min : ℕ
auth_required_alert_min = 1

abbrev email_auth_alert_min : ℕ
email_auth_alert_min = 1

-- `alerts.append(Alert(code, severity))` under a condition
abbrev pub append_if : Bool → String → String → List Alert → List Alert
append_if true code severity alerts = alerts ++ record { code = code; severity = severity } ∷ []
append_if false code severity alerts = alerts

unfoldable pub evaluate_alerts : MetricsSnapshot → List Alert
unfolding api_error_rate_alerting
evaluate_alerts snapshot =
    let offline = append_if (leb 1 snapshot.agents_offline) "agent_offline" "CRITICAL" [] in
    let lagging =
      append_if (ltb queue_lag_alert_seconds snapshot.kakao_queue_lag_seconds) "queue_lag" "WARNING"
        offline in
    let failing =
      append_if (api_error_rate_alerting snapshot) "api_error_rate" "CRITICAL" lagging in
    append_if
      (leb auth_required_alert_min snapshot.auth_required_count
        || leb email_auth_alert_min snapshot.gmail_reauth_required_count)
      "auth_required" "WARNING" failing
