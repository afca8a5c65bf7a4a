-- ===== src/Scheduler/JobPayload.antt =====
-- src/rider_server/scheduler/service.py: the payloads of the jobs that a tick makes.
use rider_crawl_baemin.Prelude.{
  ℕ, ◌+◌, ◌-◌, ◌*◌, ◌%◌, max, String, Bool, true, false, ◌&&◌, [], ◌∷◌, List, ◌=ₛ◌, if◌then◌else◌,
  truthy,
}
use Prim.Native.String.{◌++◌}
use rider_crawl_baemin.Prelude.Dict
use rider_crawl_baemin.Prelude.Dict.{Dict}
use rider_crawl_baemin.Text.{Runtime, strip, replace_utc_offset}
use rider_crawl_baemin.Domain.{Time, seconds}
use rider_crawl_baemin.Queue.States.{Value, str, other, Payload}
use rider_crawl_baemin.Scheduler.{DueTarget}

abbrev pub coupang_inline_2fa_crawl_timeout_seconds : ℕ
coupang_inline_2fa_crawl_timeout_seconds = 180

abbrev pub scheduled_crawl_min_queue_ttl_seconds : ℕ
scheduled_crawl_min_queue_ttl_seconds = 5 * 60

-- `AUTH_COUPANG_2FA_PAYLOAD_TTL`
abbrev pub auth_coupang_2fa_payload_ttl : ℕ
auth_coupang_2fa_payload_ttl = seconds (5 * 60)

-- `dt.replace(microsecond=0)`
unfoldable pub whole_second : Time → Time
whole_second t = t - t % 1000000

unfoldable pub iso_utc : Runtime → Time → String
unfolding replace_utc_offset whole_second
iso_utc rt t = replace_utc_offset (rt.isoformat (whole_second t))

unfoldable pub coupang_auto_2fa_complete : DueTarget → Bool
coupang_auto_2fa_complete target =
    truthy target.username
    && truthy target.password
    && truthy target.verification_email_address
    && truthy target.verification_email_app_password

-- A JSON boolean
abbrev flag : Bool → Value
flag true = other 1
flag false = other 0

-- `str(target.platform or "").strip().casefold()`
unfoldable pub platform_word : Runtime → DueTarget → String
unfolding strip
platform_word rt target = rt.casefold (strip target.platform)

unfoldable pub crawl_timeout_seconds : Runtime → DueTarget → ℕ
unfolding platform_word coupang_auto_2fa_complete
crawl_timeout_seconds rt target =
    if platform_word rt target =ₛ "coupang" && coupang_auto_2fa_complete target
    then coupang_inline_2fa_crawl_timeout_seconds
    else 90

unfoldable pub expires_in_seconds : Runtime → DueTarget → ℕ → ℕ
unfolding crawl_timeout_seconds
expires_in_seconds rt target interval_seconds =
    max (max interval_seconds (crawl_timeout_seconds rt target))
      scheduled_crawl_min_queue_ttl_seconds

-- `payload.update(fields)`
unfoldable pub update : List (String × Value) → Payload → Payload
update [] payload = payload
update ((k, v) ∷ fields) payload = update fields (Dict.put k v payload)

-- The references to the account's secrets, common to both payloads.
abbrev secret_refs : DueTarget → Payload
secret_refs target =
    ("coupang_login_id_ref", str target.username)
    ∷ ("coupang_login_password_ref", str target.password)
    ∷ ("verification_email_address_ref", str target.verification_email_address)
    ∷ ("verification_email_app_password_ref", str target.verification_email_app_password)
    ∷ ("verification_email_subject_keyword", str target.verification_email_subject_keyword)
    ∷ ("verification_email_sender_keyword", str target.verification_email_sender_keyword)
    ∷ []

-- The fields that every crawl has, in the order of the literal.
unfoldable pub base_payload : Runtime → DueTarget → String → Time → ℕ → Payload
unfolding iso_utc expires_in_seconds platform_word crawl_timeout_seconds
base_payload rt target job_type now interval_seconds =
    let platform = platform_word rt target in
    ("target_id", str target.target_id)
    ∷ ("tenant_id", str target.tenant_id)
    ∷ ("platform", str platform)
    ∷ ("platform_account_id", str target.platform_account_id)
    ∷ ("primary_url", str target.primary_url)
    ∷ ("expected_display_name", str target.expected_display_name)
    ∷ ("browser_profile_ref", str ("profile:" ++ target.target_id))
    ∷ ("timeout_seconds", other (crawl_timeout_seconds rt target))
    ∷ ("parser_version", str (platform ++ "-v1"))
    ∷ ("job_type", str job_type)
    ∷ ("job_origin", str "scheduler")
    ∷ ("scheduled_at", str (iso_utc rt now))
    ∷ (
      "expires_at",
      str (iso_utc rt (now + seconds (expires_in_seconds rt target interval_seconds))),
    )
    ∷ []

-- The external id of a Baemin target, if it has one.
abbrev with_external_id : Runtime → DueTarget → Payload → Payload
with_external_id rt target payload =
    let external_id = strip target.external_id in
    if platform_word rt target =ₛ "baemin" && truthy external_id
    then Dict.put "external_id" (str external_id) payload
    else payload

abbrev with_coupang_fields : Runtime → DueTarget → Payload → Payload
with_coupang_fields rt target payload =
    if platform_word rt target =ₛ "coupang"
    then Dict.put "coupang_auto_email_2fa_enabled" (flag (coupang_auto_2fa_complete target))
        (update (secret_refs target) payload)
    else payload

unfoldable pub crawl_job_payload : Runtime → DueTarget → String → Time → ℕ → Payload
unfolding update base_payload strip platform_word coupang_auto_2fa_complete
crawl_job_payload rt target job_type now interval_seconds =
    with_coupang_fields rt target
      (with_external_id rt target (base_payload rt target job_type now interval_seconds))

unfoldable pub auth_coupang_2fa_payload : Runtime → DueTarget → Time → Payload
unfolding iso_utc update
auth_coupang_2fa_payload rt target now = Dict.put "recovery_mode" (str "coupang_auto_email_2fa") (
    update (secret_refs target) (
      ("target_id", str target.target_id)
      ∷ ("tenant_id", str target.tenant_id)
      ∷ ("platform", str "coupang")
      ∷ ("platform_account_id", str target.platform_account_id)
      ∷ ("primary_url", str target.primary_url)
      ∷ ("expected_display_name", str target.expected_display_name)
      ∷ ("browser_profile_ref", str ("profile:" ++ target.target_id))
      ∷ ("timeout_seconds", other 60)
      ∷ ("parser_version", str "coupang-v1")
      ∷ ("job_type", str "AUTH_COUPANG_2FA")
      ∷ ("job_origin", str "scheduler")
      ∷ ("scheduled_at", str (iso_utc rt now))
      ∷ ("expires_at", str (iso_utc rt (now + auth_coupang_2fa_payload_ttl)))
      ∷ []))
