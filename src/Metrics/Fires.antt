-- ===== src/Metrics/Fires.antt =====
-- Which alerts a snapshot of the facts raises, in terms of the facts and of the scheduler's breaker.
use rider_crawl_baemin.Prelude.{
  ℕ, ◌≡◌, refl, ◌∙◌, String, true, false, Bool, not, ◌&&◌, ◌||◌, Option, none, arith, eq_iff, List,
  [], ◌∷◌, ltb, leb, ◌=ₛ◌, any, All, get_or_default, if◌then◌else◌, Bool-cases, inl, inr,
}
use rider_crawl_baemin.Prelude.Dict
use rider_crawl_baemin.Prelude.Dict.{Dict, get-put, get-put_self}
use rider_crawl_baemin.Domain.{Time}
use rider_crawl_baemin.Policy.Schedule.{
  evaluate_breaker, default_breaker_num, default_breaker_den, default_breaker_min_samples,
}
use rider_crawl_baemin.Metrics.Severity.{is_agent_online, agent_offline_after}
use rider_crawl_baemin.Metrics.Snapshot.{
  Rate, CrawlWindowFact, SnapshotFacts, assemble, add_windows, rate_of, count_offline,
}
use rider_crawl_baemin.Metrics.Alerts.{
  Alert, append_if, crawl_alert_open, any_platform_open, api_error_rate_alerting, evaluate_alerts,
}

-- The scheduler's breaker on a platform's window
abbrev pub breaker_open : CrawlWindowFact → Bool
breaker_open w =
    evaluate_breaker w.total w.failures default_breaker_num default_breaker_den
      default_breaker_min_samples

abbrev is_open : Rate → ℕ → Bool
is_open rate samples =
    crawl_alert_open rate samples default_breaker_num default_breaker_den
      default_breaker_min_samples

rate_of-open : (w : CrawlWindowFact) → is_open (rate_of w) w.total ≡ breaker_open w
unfolding crawl_alert_open rate_of evaluate_breaker
rate_of-open w = ground arith

if_true : (b : Bool) → (if b then true else false) ≡ b
if_true b = ground arith

if_or : (b x y : Bool) → (if b then true else x || y) ≡ ((if b then true else x) || y)
if_or b x y = ground arith

any_platform_open-put :
    (platform : String) (rate : Rate) (total : ℕ) (rates : Dict Rate) (samples : Dict ℕ)
    → Dict.get platform rates ≡ none
    → any_platform_open (Dict.put platform rate rates) (Dict.put platform total samples)
      ≡ (any_platform_open rates samples || is_open rate total)
unfolding any_platform_open Dict.get Dict.put
any_platform_open-put platform rate total [] samples h =
    rw (get-put_self platform total samples) (if_true (is_open rate total))
any_platform_open-put platform rate total ((k, r) ∷ rates) samples h =
    elim (Bool-cases (k =ₛ platform)) [
      | inl e ↦ cc
      | inr e ↦
          let other : (platform =ₛ k) ≡ false =
            ground (arith, eq_iff k platform, eq_iff platform k) in
          rw
            (
              e,
              any_platform_open,
              get-put platform k total samples,
              other,
              any_platform_open-put platform rate total rates samples (rw e at h),
            )
            (if_or (is_open r (get_or_default (Dict.get k samples) 0))
              (any_platform_open rates samples) (is_open rate total))
    ]

-- No platform twice, as in the groups of a query by platform.
abbrev pub IsDistinct : List CrawlWindowFact → Type 0
IsDistinct [] = Unit
IsDistinct (w ∷ windows) =
    All (λ v. (w.platform =ₛ v.platform) ≡ false) windows × IsDistinct windows

absent-put :
    (w : CrawlWindowFact) (rate : Rate) (rates : Dict Rate) (windows : List CrawlWindowFact)
    → All (λ v. (w.platform =ₛ v.platform) ≡ false) windows
    → All (λ v. Dict.get v.platform rates ≡ none) windows
    → All (λ v. Dict.get v.platform (Dict.put w.platform rate rates) ≡ none) windows
absent-put w rate rates [] other h = tt
absent-put w rate rates (v ∷ windows) other h = (
  rw (get-put w.platform v.platform rate rates, other.0) h.0,
  absent-put w rate rates windows other.1 h.1,
)

open-add_windows :
    (windows : List CrawlWindowFact) (rates : Dict Rate) (samples : Dict ℕ)
    → All (λ w. Dict.get w.platform rates ≡ none) windows
    → IsDistinct windows
    → any_platform_open (add_windows windows rates samples).0 (add_windows windows rates samples).1
      ≡ (any_platform_open rates samples || any breaker_open windows)
unfolding add_windows any
open-add_windows [] rates samples h d = ground arith
open-add_windows (w ∷ windows) rates samples h d =
    open-add_windows windows (Dict.put w.platform (rate_of w) rates)
      (Dict.put w.platform w.total samples) (absent-put w (rate_of w) rates windows d.0 h.1) d.1
    ∙ ground (
      arith,
      any_platform_open-put w.platform (rate_of w) w.total rates samples h.0,
      rate_of-open w,
    )

nothing_known :
    (windows : List CrawlWindowFact) → All (λ w. Dict.get {V = Rate} w.platform [] ≡ none) windows
unfolding Dict.get
nothing_known [] = tt
nothing_known (w ∷ windows) = (refl, nothing_known windows)

-- An alert with the code is among them.
abbrev pub fires : String → List Alert → Bool
fires code alerts = any (λ a. a.code =ₛ code) alerts

abbrev pub is_offline : Time → Option Time → Bool
is_offline now heartbeat = not (is_agent_online heartbeat now agent_offline_after)

count_offline-any :
    (heartbeats : List (Option Time)) (now : Time)
    → leb 1 (count_offline heartbeats now) ≡ any (is_offline now) heartbeats
unfolding count_offline any
count_offline-any [] now = refl
count_offline-any (h ∷ heartbeats) now = ground (arith, count_offline-any heartbeats now)

fires-append_if :
    (code other severity : String) (test : Bool) (alerts : List Alert)
    → fires code (append_if test other severity alerts)
      ≡ (fires code alerts || (test && (other =ₛ code)))
unfolding any
fires-append_if code other severity true [] = ground arith
fires-append_if code other severity false [] = refl
fires-append_if code other severity false (a ∷ alerts) = ground arith
fires-append_if code other severity true (a ∷ alerts) =
    ground (arith, fires-append_if code other severity true alerts)

-- The four appends of `evaluate_alerts`, by their conditions
abbrev four : Bool → Bool → Bool → Bool → List Alert
four offline lag failing auth = append_if auth "auth_required" "WARNING" (
    append_if failing "api_error_rate" "CRITICAL"
      (append_if lag "queue_lag" "WARNING" (append_if offline "agent_offline" "CRITICAL" [])))

fires-four :
    (code : String) (a b c d : Bool)
    → fires code (four a b c d) ≡ (
        (a && ("agent_offline" =ₛ code))
        || (b && ("queue_lag" =ₛ code))
        || (c && ("api_error_rate" =ₛ code))
        || (d && ("auth_required" =ₛ code)))
unfolding any
fires-four code a b c d = ground (
  arith,
  fires-append_if code "auth_required" "WARNING" d (
      append_if c "api_error_rate" "CRITICAL"
        (append_if b "queue_lag" "WARNING" (append_if a "agent_offline" "CRITICAL" []))),
  fires-append_if code "api_error_rate" "CRITICAL" c
      (append_if b "queue_lag" "WARNING" (append_if a "agent_offline" "CRITICAL" [])),
  fires-append_if code "queue_lag" "WARNING" b (append_if a "agent_offline" "CRITICAL" []),
  fires-append_if code "agent_offline" "CRITICAL" a [],
)

api_error_rate-assemble :
    (facts : SnapshotFacts) (now : Time)
    → IsDistinct facts.crawl_windows
    → api_error_rate_alerting (assemble facts now)
      ≡ (any breaker_open facts.crawl_windows || leb 1 facts.telegram_error_count)
unfolding api_error_rate_alerting assemble any_platform_open
api_error_rate-assemble facts now d =
    rw (open-add_windows facts.crawl_windows [] [] (nothing_known facts.crawl_windows) d)
      (ground arith)

-- The alerts on a snapshot assembled of facts, where no platform has two windows, are those of four
-- conditions on the facts: that some agent is offline, that the queue of Kakao lags more than 120
-- seconds, that the scheduler's breaker opens on some platform's window or Telegram had an error, and
-- that some account or mailbox needs a login.
pub alerts-assemble :
    (facts : SnapshotFacts) (now : Time) (code : String)
    → IsDistinct facts.crawl_windows
    → fires code (evaluate_alerts (assemble facts now)) ≡ (
        (any (is_offline now) facts.heartbeats && ("agent_offline" =ₛ code))
        || (ltb 120 facts.kakao_queue_lag_seconds && ("queue_lag" =ₛ code))
        || ((any breaker_open facts.crawl_windows || leb 1 facts.telegram_error_count)
            && ("api_error_rate" =ₛ code))
        || ((leb 1 facts.auth_required_count || leb 1 facts.gmail_reauth_required_count)
            && ("auth_required" =ₛ code)))
unfolding evaluate_alerts assemble
alerts-assemble facts now code d =
    fires-four code (leb 1 (assemble facts now).agents_offline)
      (ltb 120 (assemble facts now).kakao_queue_lag_seconds)
      (api_error_rate_alerting (assemble facts now))
      (leb 1 (assemble facts now).auth_required_count
        || leb 1 (assemble facts now).gmail_reauth_required_count)
    ∙ rw (api_error_rate-assemble facts now d, count_offline-any facts.heartbeats now) refl
