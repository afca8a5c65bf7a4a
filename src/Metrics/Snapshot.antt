-- ===== src/Metrics/Snapshot.antt =====
-- src/rider_server/metrics/service.py: the facts, the port to them, and the snapshot made of them, with
-- `MetricsSnapshot` of src/rider_server/metrics/policy.py.
use rider_crawl_baemin.Prelude.{
  ℕ, zero, suc, ◌+◌, ◌-◌, ◌*◌, ◌/◌, String, Option, none, some, List, [], ◌∷◌, ltb, leb, ◌=ₛ◌,
  if◌then◌else◌, length,
}
use rider_crawl_baemin.Prelude.Dict
use rider_crawl_baemin.Prelude.Dict.{Dict}
use rider_crawl_baemin.Domain.{Time, seconds}
use rider_crawl_baemin.Metrics.Severity.{agent_offline_after, is_agent_online, classify_freshness}

-- Python's `int`, over the native numbers
pub data ℤ : Type 0 where
  pos negsuc : ℕ → ℤ

-- A `float` that is the quotient of two counts.
pub record Rate : Type 0 where
  pub num : ℕ
  pub den : ℕ

pub record FreshnessFact : Type 0 where
  pub interval_minutes : ℕ
  pub last_success_at : Option Time

pub record CrawlWindowFact : Type 0 where
  pub platform : String
  pub total : ℕ
  pub failures : ℕ

pub record MetricsSnapshot : Type 0 where
  pub agents_total : ℕ
  pub agents_offline : ℕ
  pub oldest_heartbeat_age_seconds : Option ℤ
  pub targets_total : ℕ
  pub targets_warning : ℕ
  pub targets_critical : ℕ
  pub auth_required_count : ℕ
  pub kakao_queue_lag_seconds : ℕ
  pub crawl_error_rate_by_platform : Dict Rate
  pub crawl_samples_by_platform : Dict ℕ
  pub telegram_error_count : ℕ
  pub gmail_reauth_required_count : ℕ

-- The port, whose facts on heartbeats are the optional times themselves.
pub record MetricsRepository : Type 0 where
  pub agent_heartbeats : Time → List (Option Time)
  pub target_freshness : Time → List FreshnessFact
  pub crawl_windows : Time → Time → List CrawlWindowFact
  pub kakao_queue_lag_seconds : Time → ℕ
  pub telegram_error_count : Time → Time → ℕ
  pub auth_required_count : ℕ
  pub gmail_reauth_required_count : ℕ

unfoldable pub count_offline : List (Option Time) → Time → ℕ
unfolding is_agent_online
count_offline [] now = 0
count_offline (h ∷ heartbeats) now =
    (if is_agent_online h now agent_offline_after then 0 else 1) + count_offline heartbeats now

abbrev negative : ℕ → ℤ
negative zero = pos zero
negative (suc n) = negsuc n

-- `int((now - last_heartbeat_at).total_seconds())`, which drops the fraction towards zero. The double
-- in between is exact enough below 285 years.
heartbeat_age : Time → Time → ℤ
heartbeat_age now last_heartbeat_at =
    if leb last_heartbeat_at now
    then pos ((now - last_heartbeat_at) / 1000000)
    else negative ((last_heartbeat_at - now) / 1000000)

max_int : ℤ → ℤ → ℤ
max_int (pos a) (pos b) = if ltb a b then pos b else pos a
max_int (pos a) (negsuc b) = pos a
max_int (negsuc a) (pos b) = pos b
max_int (negsuc a) (negsuc b) = if ltb b a then negsuc b else negsuc a

-- `max(ages) if ages else None`, where `oldest` is the greatest so far
oldest_age : List (Option Time) → Time → Option ℤ → Option ℤ
unfolding heartbeat_age max_int
oldest_age [] now oldest = oldest
oldest_age (none ∷ heartbeats) now oldest = oldest_age heartbeats now oldest
oldest_age (some h ∷ heartbeats) now none = oldest_age heartbeats now (some (heartbeat_age now h))
oldest_age (some h ∷ heartbeats) now (some oldest) =
    oldest_age heartbeats now (some (max_int oldest (heartbeat_age now h)))

count_severity : String → List FreshnessFact → Time → ℕ
unfolding classify_freshness
count_severity severity [] now = 0
count_severity severity (f ∷ freshness) now =
    (if classify_freshness f.last_success_at f.interval_minutes now =ₛ severity then 1 else 0)
    + count_severity severity freshness now

-- `(w.failures / w.total) if w.total > 0 else 0.0`
unfoldable pub rate_of : CrawlWindowFact → Rate
rate_of w =
    if ltb 0 w.total
    then record { num = w.failures; den = w.total }
    else record { num = 0; den = 1 }

-- The loop over the crawl windows, with its two dictionaries.
unfoldable pub add_windows : List CrawlWindowFact → Dict Rate → Dict ℕ → Dict Rate × Dict ℕ
unfolding rate_of
add_windows [] rates samples = (rates, samples)
add_windows (w ∷ windows) rates samples =
    add_windows windows (Dict.put w.platform (rate_of w) rates)
      (Dict.put w.platform w.total samples)

-- The keyword arguments of `assemble`.
pub record SnapshotFacts : Type 0 where
  pub heartbeats : List (Option Time)
  pub freshness : List FreshnessFact
  pub crawl_windows : List CrawlWindowFact
  pub kakao_queue_lag_seconds : ℕ
  pub telegram_error_count : ℕ
  pub auth_required_count : ℕ
  pub gmail_reauth_required_count : ℕ

unfoldable pub assemble : SnapshotFacts → Time → MetricsSnapshot
unfolding count_offline oldest_age count_severity add_windows
assemble facts now =
    let by_platform = add_windows facts.crawl_windows [] [] in
    record {
      agents_total = length facts.heartbeats;
      agents_offline = count_offline facts.heartbeats now;
      oldest_heartbeat_age_seconds = oldest_age facts.heartbeats now none;
      targets_total = length facts.freshness;
      targets_warning = count_severity "WARNING" facts.freshness now;
      targets_critical = count_severity "CRITICAL" facts.freshness now;
      auth_required_count = facts.auth_required_count;
      kakao_queue_lag_seconds = facts.kakao_queue_lag_seconds;
      crawl_error_rate_by_platform = by_platform.0;
      crawl_samples_by_platform = by_platform.1;
      telegram_error_count = facts.telegram_error_count;
      gmail_reauth_required_count = facts.gmail_reauth_required_count;
    }

abbrev default_breaker_window : ℕ
default_breaker_window = seconds (15 * 60)

abbrev telegram_error_window : ℕ
telegram_error_window = seconds (10 * 60)

unfoldable pub facts_of : MetricsRepository → Time → SnapshotFacts
facts_of repo now = record {
  heartbeats = repo.agent_heartbeats now;
  freshness = repo.target_freshness now;
  crawl_windows = repo.crawl_windows (now - default_breaker_window) now;
  kakao_queue_lag_seconds = repo.kakao_queue_lag_seconds now;
  telegram_error_count = repo.telegram_error_count (now - telegram_error_window) now;
  auth_required_count = repo.auth_required_count;
  gmail_reauth_required_count = repo.gmail_reauth_required_count;
}

unfoldable pub snapshot : MetricsRepository → Time → MetricsSnapshot
unfolding assemble facts_of
snapshot repo now = assemble (facts_of repo now) now
