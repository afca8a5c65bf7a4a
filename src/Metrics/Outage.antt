-- ===== src/Metrics/Outage.antt =====
-- What an outage of Kakao makes of a target's severity.
use rider_crawl_baemin.Prelude.{is_text, ◌≡◌, List, [], ◌∷◌, String, false, none}
use rider_crawl_baemin.Metrics.Dashboard.{TargetHealthFacts}

-- A failed login or a wrong target
abbrev pub stopping_failures : List String
stopping_failures = "AUTH_REQUIRED" ∷ "TARGET_VALIDATION_FAILURE" ∷ []

-- No signal stops the row but one that its latest failure gives.
pub record IsQuiet (facts : TargetHealthFacts) : Type 0 where
  pub account : facts.account_auth_state ≡ none
  pub lifecycle : is_text facts.lifecycle_state "AUTH_REQUIRED" ≡ false
  pub session : facts.auth_session_pending ≡ false
