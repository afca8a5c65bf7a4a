-- ===== src/Queue/States.antt =====
-- src/rider_server/queue/states.py: the job types, the job statuses with their allowed transitions,
-- and the rules by which stale jobs are closed. The plain-string statuses are a data type of the six
-- values of `JOB_STATUSES`; a job type stays a text.
use rider_crawl_baemin.Prelude.{
  String, Bool, true, false, ◌&&◌, ◌||◌, Option, none, some, [], ◌∷◌, leb, ◌=ₛ◌, if◌then◌else◌,
  text_in, get_or_default, is_none, truthy, ℕ,
}
use rider_crawl_baemin.Prelude.Dict
use rider_crawl_baemin.Prelude.Dict.{Dict}
use rider_crawl_baemin.Text.{Runtime, Stamp, naive, aware, strip, zulu_offset}
use rider_crawl_baemin.Domain.{Time}

abbrev pub job_type_crawl_baemin : String
job_type_crawl_baemin = "CRAWL_BAEMIN"

abbrev pub job_type_crawl_coupang : String
job_type_crawl_coupang = "CRAWL_COUPANG"

abbrev pub job_type_open_auth_browser : String
job_type_open_auth_browser = "OPEN_AUTH_BROWSER"

abbrev pub job_type_auth_coupang_2fa : String
job_type_auth_coupang_2fa = "AUTH_COUPANG_2FA"

pub data JobStatus : Type 0 where
  pending claimed running succeeded failed retry : JobStatus

-- A value of a job's JSON: a text, or something else that the queue only stores.
pub data Value : Type 0 where
  str : String → Value
  other : ℕ → Value

abbrev pub Payload : Type 0
Payload = Dict Value

-- `ALLOWED_TRANSITIONS`
unfoldable pub is_allowed_transition : JobStatus → JobStatus → Bool
is_allowed_transition JobStatus.pending JobStatus.claimed = true
is_allowed_transition JobStatus.pending JobStatus.failed = true
is_allowed_transition JobStatus.claimed JobStatus.running = true
is_allowed_transition JobStatus.claimed JobStatus.succeeded = true
is_allowed_transition JobStatus.claimed JobStatus.failed = true
is_allowed_transition JobStatus.claimed JobStatus.retry = true
is_allowed_transition JobStatus.claimed JobStatus.pending = true
is_allowed_transition JobStatus.running JobStatus.succeeded = true
is_allowed_transition JobStatus.running JobStatus.failed = true
is_allowed_transition JobStatus.running JobStatus.retry = true
is_allowed_transition JobStatus.running JobStatus.pending = true
is_allowed_transition JobStatus.retry JobStatus.pending = true
is_allowed_transition JobStatus.failed JobStatus.pending = true
is_allowed_transition _ _ = false

-- A call that may raise `InvalidJobTransition`.
pub data Outcome {ℓ} (A : Type ℓ) : Type ℓ where
  ok : A → Outcome A
  invalid_transition : JobStatus → JobStatus → Outcome A

unfoldable pub assert_transition : JobStatus → JobStatus → Outcome (Unit {0})
unfolding is_allowed_transition
assert_transition current target =
    if is_allowed_transition current target then ok tt else invalid_transition current target

-- `replace(tzinfo=utc)` where the parsed instant has no zone
abbrev in_utc : Stamp → Time
in_utc (naive t) = t
in_utc (aware t) = t

unfoldable pub parsed : Option Stamp → Option Time
parsed none = none
parsed (some stamp) = some (in_utc stamp)

-- `_parse_iso_utc`: `none` on a missing value, on no text, on an empty one and on a `ValueError`.
unfoldable pub parse_iso_utc : Runtime → Option Value → Option Time
unfolding strip zulu_offset parsed
parse_iso_utc rt none = none
parse_iso_utc rt (some (other n)) = none
parse_iso_utc rt (some (str value)) =
    if truthy value then parsed (rt.fromisoformat (zulu_offset (strip value))) else none

-- `expires_at is not None and now >= expires_at`
unfoldable pub is_past : Option Time → Time → Bool
is_past none now = false
is_past (some expires_at) now = leb expires_at now

-- `isinstance(payload_json, dict)`: every payload that is not `None` is one here.
abbrev pub fields_of : Option Payload → Payload
fields_of payload_json = get_or_default payload_json []

unfoldable pub payload_expired : Runtime → Option Payload → Time → Bool
unfolding parse_iso_utc is_past
payload_expired rt payload_json now =
    is_past (parse_iso_utc rt (Dict.get "expires_at" (fields_of payload_json))) now

abbrev pub is_value_text : Option Value → String → Bool
is_value_text (some (str t)) s = t =ₛ s
is_value_text _ s = false

-- `str(job_status or "").strip().upper() in {"CLAIMED", "RUNNING"}`
abbrev pub is_claimed_or_running : Option JobStatus → Bool
is_claimed_or_running (some JobStatus.claimed) = true
is_claimed_or_running (some JobStatus.running) = true
is_claimed_or_running _ = false

unfoldable pub is_scheduled_crawl : String → Option Payload → Bool
is_scheduled_crawl job_type payload_json =
    is_value_text (Dict.get "job_origin" (fields_of payload_json)) "scheduler"
    || text_in job_type (job_type_crawl_baemin ∷ job_type_crawl_coupang ∷ [])

unfoldable pub stale_recovery_reason :
    Runtime → String → Option Payload → Time → Option JobStatus → Option String
stale_recovery_reason rt job_type payload_json now job_status =
    let expired = payload_expired rt payload_json now in
    if job_type =ₛ job_type_open_auth_browser
    then if expired then some "stale_auth_job_expired" else none
    else if job_type =ₛ job_type_auth_coupang_2fa
    then if is_claimed_or_running job_status
      then some "stale_auth_recovery_abandoned"
      else if expired
      then some "stale_auth_job_expired"
      else none
    else if is_scheduled_crawl job_type payload_json && expired
    then some "stale_crawl_skipped"
    else none

unfoldable pub preflight_decision : Runtime → String → Option Payload → Time → Bool × Option String
unfolding stale_recovery_reason
preflight_decision rt job_type payload_json now =
    if is_none (stale_recovery_reason rt job_type payload_json now none)
    then (true, none)
    else (false, some "payload_expired")

-- `none` is `UnknownAgentStatus`.
unfoldable pub map_agent_status : String → Option JobStatus
map_agent_status agent_status =
    if agent_status =ₛ "success"
    then some JobStatus.succeeded
    else if agent_status =ₛ "failed"
    then some JobStatus.failed
    else none
