-- ===== src/Metrics/Severity.antt =====
-- src/rider_server/admin/severity.py: the severity of a row, its signals that stop it, and the label of
-- an automatic recovery on Coupang. The severities are texts, as in the source.
use rider_crawl_baemin.Prelude.{
  ℕ, zero, suc, ◌+◌, ◌*◌, String, Bool, false, not, ◌&&◌, ◌||◌, ◌≡◌, refl, Option, none, some, List,
  [], ◌∷◌, ltb, leb, if◌then◌else◌, text_in, is_text, get_or_default,
}
use rider_crawl_baemin.Prelude.Dict
use rider_crawl_baemin.Prelude.Dict.{Dict}
use rider_crawl_baemin.Text.{strip}
use rider_crawl_baemin.Domain.{Time, seconds}

abbrev pub healthy_auth_states : List String
healthy_auth_states = "ACTIVE" ∷ "AUTH_VERIFIED" ∷ []

abbrev pub action_required_auth_states : List String
action_required_auth_states = "AUTH_REQUIRED" ∷ "USER_ACTION_PENDING" ∷ "BLOCKED_OR_CAPTCHA" ∷ []

-- `_SEVERITY_RANK`
abbrev severity_ranks : Dict ℕ
severity_ranks =
    ("NORMAL", 0)
    ∷ ("WARNING", 1)
    ∷ ("CRITICAL", 2)
    ∷ ("STOPPED", 3)
    ∷ ("AUTH_REQUIRED", 3)
    ∷ ("TARGET_VALIDATION_FAILURE", 3)
    ∷ ("KAKAO_MISDELIVERY_RISK", 2)
    ∷ ("OPERATOR_STOPPED", 3)
    ∷ ("CRAWL_DATA_MISSING", 1)
    ∷ []

unfoldable pub severity_rank : String → ℕ
unfolding Dict.get
severity_rank severity = get_or_default (Dict.get severity severity_ranks) 0

-- `timedelta(minutes=n)`
abbrev minutes : ℕ → ℕ
minutes n = seconds (n * 60)

-- `interval_minutes <= 0` is `0` here. `now - last_success_at > span` is written as a sum, which also
-- holds where the success lies ahead.
unfoldable pub classify_freshness : Option Time → ℕ → Time → String
classify_freshness none interval_minutes now = "WARNING"
classify_freshness (some last_success_at) zero now = "NORMAL"
classify_freshness (some last_success_at) (suc n) now =
    let interval = minutes (suc n) in
    if ltb (last_success_at + interval * 4) now
    then "CRITICAL"
    else if ltb (last_success_at + interval * 2) now
    then "WARNING"
    else "NORMAL"

pub record FailClosedSignals : Type 0 where
  pub auth_required : Bool
  pub target_validation_failed : Bool
  pub kakao_misdelivery_risk : Bool

unfoldable pub any_signal : FailClosedSignals → Bool
any_signal signals = signals.auth_required || signals.target_validation_failed

-- `x in states`, where `x` may be `None`
abbrev pub in_states : Option String → List String → Bool
in_states none states = false
in_states (some x) states = text_in x states

-- The keyword arguments of `failclosed_signals_from`.
pub record SignalFacts : Type 0 where
  pub account_auth_state : Option String
  pub lifecycle_state : Option String
  pub latest_failure_code : Option String
  pub auth_session_pending : Bool
  pub last_success_at : Option Time
  pub latest_failure_at : Option Time

unfoldable pub failure_is_stale : Option Time → Option Time → Bool
failure_is_stale (some last_success_at) (some latest_failure_at) =
    leb latest_failure_at last_success_at
failure_is_stale _ _ = false

unfoldable pub failclosed_signals_from : SignalFacts → FailClosedSignals
failclosed_signals_from facts =
    let auth_verified = in_states facts.account_auth_state healthy_auth_states in
    let failure_code_active =
      if failure_is_stale facts.last_success_at facts.latest_failure_at
      then none
      else facts.latest_failure_code in
    let account_auth_required =
      not auth_verified
      && (in_states facts.account_auth_state action_required_auth_states
          || is_text failure_code_active "AUTH_REQUIRED") in
    record {
      auth_required =
          account_auth_required
          || is_text facts.lifecycle_state "AUTH_REQUIRED"
          || facts.auth_session_pending;
      target_validation_failed =
          is_text facts.account_auth_state "CENTER_MISMATCH"
          || is_text failure_code_active "TARGET_VALIDATION_FAILURE";
      kakao_misdelivery_risk = is_text failure_code_active "KAKAO_FAILURE";
    }

unfoldable pub classify_failclosed : FailClosedSignals → Option String
unfolding any_signal
classify_failclosed signals = if any_signal signals then some "STOPPED" else none

unfoldable pub overall_severity : String → Option String → String
overall_severity freshness none = freshness
overall_severity freshness (some failclosed) = failclosed

abbrev coupang_recovery_detail_by_state : Dict String
coupang_recovery_detail_by_state =
    ("EMAIL_AUTH_REQUIRED", "메일 인증 필요")
    ∷ ("USER_ACTION_REQUIRED", "캡차/이상 로그인")
    ∷ ("RECOVERY_FAILED", "자동 인증 실패")
    ∷ []

abbrev coupang_recovery_detail_by_reason : Dict String
coupang_recovery_detail_by_reason =
    ("email_auth_required", "메일 인증 필요")
    ∷ ("mail_app_password_invalid", "앱 비밀번호 오류")
    ∷ ("imap_access_disabled", "IMAP 사용 꺼짐")
    ∷ ("unsupported_email_domain", "지원하지 않는 메일 도메인")
    ∷ ("mailbox_auth_blocked", "메일함 인증 차단")
    ∷ ("mailbox_login_failed", "메일함 로그인 실패")
    ∷ ("captcha_or_abnormal_login", "캡차/이상 로그인")
    ∷ ("verification_mail_delayed", "인증 메일 지연")
    ∷ ("repeated_recovery_failure", "자동 인증 실패")
    ∷ ("browser_unavailable", "브라우저 연결 실패")
    ∷ []

unfoldable pub coupang_recovery_detail_label : Option String → Option String → Option String
unfolding Dict.get strip
coupang_recovery_detail_label auth_recovery_state reason =
    elim (Dict.get (strip (get_or_default reason "")) coupang_recovery_detail_by_reason) [
      | some reason_label ↦ some reason_label
      | none ↦
          Dict.get (strip (get_or_default auth_recovery_state "")) coupang_recovery_detail_by_state
    ]

label_test :
    coupang_recovery_detail_label (some "RECOVERY_FAILED") (some " verification_mail_delayed ")
    ≡ some "인증 메일 지연"
unfolding coupang_recovery_detail_label
label_test = refl

abbrev pub agent_offline_after : ℕ
agent_offline_after = minutes 2

-- `(now - last_heartbeat_at) <= offline_after`, also where the heartbeat lies ahead
unfoldable pub is_agent_online : Option Time → Time → ℕ → Bool
is_agent_online none now offline_after = false
is_agent_online (some last_heartbeat_at) now offline_after =
    leb now (last_heartbeat_at + offline_after)
