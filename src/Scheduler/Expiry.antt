-- ===== src/Scheduler/Expiry.antt =====
-- How long the jobs of the scheduler live in the queue.
use rider_crawl_baemin.Prelude.{
  ℕ, ◌+◌, ◌≤◌, String, true, false, ◌≡◌, refl, ap, ◌∙◌, some, arith, ◌=ₛ◌, Bool-cases, inl, inr,
  truthy, leb, max, ◌&&◌,
}
use rider_crawl_baemin.Prelude.Dict
use Prim.Native.String.{◌++◌}
use rider_crawl_baemin.Text.{Runtime, aware, strip, replace_utc_offset}
use rider_crawl_baemin.Text.Offset.{
  is_stamp, replace_utc_offset-stamp, strip-stamp, zulu_offset-stamp, truthy-stamp,
}
use rider_crawl_baemin.Domain.{Time, seconds}
use rider_crawl_baemin.Queue.States.{str, Payload, payload_expired, parse_iso_utc, is_past, parsed}
use rider_crawl_baemin.Scheduler.{DueTarget}
use rider_crawl_baemin.Scheduler.JobPayload.{
  crawl_job_payload, auth_coupang_2fa_payload, iso_utc, whole_second, base_payload,
  expires_in_seconds, crawl_timeout_seconds, auth_coupang_2fa_payload_ttl, update, platform_word,
}

-- What `datetime` promises of an instant: `isoformat` writes it in UTC as a date and a time with the
-- offset `+00:00`, and `fromisoformat` reads that text back.
pub record IsIsoClock (rt : Runtime) (t : Time) : Type 0 where
  pub stamp : String
  pub stamped : is_stamp stamp ≡ true
  pub written : rt.isoformat t ≡ stamp ++ "+00:00"
  pub reads : rt.fromisoformat (stamp ++ "+00:00") ≡ some (aware t)

-- The text that the scheduler writes has `Z` for the offset.
iso_utc-stamp :
    (rt : Runtime) (t : Time) (clock : IsIsoClock rt (whole_second t))
    → iso_utc rt t ≡ clock.stamp ++ "Z"
unfolding iso_utc
iso_utc-stamp rt t clock =
    ap replace_utc_offset clock.written ∙ replace_utc_offset-stamp clock.stamp clock.stamped

-- The queue reads back what the scheduler writes.
read_back :
    (rt : Runtime) (t : Time)
    → IsIsoClock rt (whole_second t)
    → parse_iso_utc rt (some (str (iso_utc rt t))) ≡ some (whole_second t)
unfolding parse_iso_utc parsed
read_back rt t clock =
    rw
      (
        iso_utc-stamp rt t clock,
        truthy-stamp clock.stamp,
        strip-stamp clock.stamp clock.stamped,
        zulu_offset-stamp clock.stamp clock.stamped,
        clock.reads,
      )
      refl

crawl_expires_at :
    (rt : Runtime) (target : DueTarget) (job_type : String) (now : Time) (interval : ℕ)
    → Dict.get "expires_at" (crawl_job_payload rt target job_type now interval)
      ≡ some (str (iso_utc rt (now + seconds (expires_in_seconds rt target interval))))
unfolding crawl_job_payload Dict.get Dict.put base_payload update
crawl_expires_at rt target job_type now interval =
    elim (Bool-cases (platform_word rt target =ₛ "baemin" && truthy (strip target.external_id))) [
      | inl b ↦ rw b (elim (Bool-cases (platform_word rt target =ₛ "coupang")) [
        | inl c ↦ rw c refl
        | inr c ↦ rw c refl
      ])
      | inr b ↦ rw b (elim (Bool-cases (platform_word rt target =ₛ "coupang")) [
        | inl c ↦ rw c refl
        | inr c ↦ rw c refl
      ])
    ]

auth_expires_at :
    (rt : Runtime) (target : DueTarget) (now : Time)
    → Dict.get "expires_at" (auth_coupang_2fa_payload rt target now)
      ≡ some (str (iso_utc rt (now + auth_coupang_2fa_payload_ttl)))
unfolding auth_coupang_2fa_payload Dict.get Dict.put update
auth_expires_at rt target now = refl

expired_iff :
    (rt : Runtime) (payload : Payload) (t later : Time)
    → IsIsoClock rt (whole_second t)
    → Dict.get "expires_at" payload ≡ some (str (iso_utc rt t))
    → payload_expired rt (some payload) later ≡ leb (whole_second t) later
unfolding payload_expired is_past
expired_iff rt payload t later h e = rw (e, read_back rt t h) refl

-- The life of a job: not expired until a second before its end, expired from the end on.
lives :
    (rt : Runtime) (payload : Payload) (t later : Time)
    → IsIsoClock rt (whole_second t)
    → Dict.get "expires_at" payload ≡ some (str (iso_utc rt t))
    → (later + seconds 1 ≤ t → payload_expired rt (some payload) later ≡ false)
      × (t ≤ later → payload_expired rt (some payload) later ≡ true)
unfolding whole_second
lives rt payload t later h e = (
  λ early. expired_iff rt payload t later h e ∙ ground arith,
  λ late. expired_iff rt payload t later h e ∙ ground arith,
)

-- Where `isoformat` writes the whole second of the end in UTC and `fromisoformat` reads it back, the
-- queue takes a scheduled crawl for expired once its
-- interval, its timeout and five minutes have all passed, and not until a second before that.
pub crawl-lives :
    (rt : Runtime) (target : DueTarget) (job_type : String) (now interval later : ℕ)
    → let end = now + seconds (max (max interval (crawl_timeout_seconds rt target)) 300) in
      let payload = crawl_job_payload rt target job_type now interval in
      IsIsoClock rt (whole_second end)
      → (later + seconds 1 ≤ end → payload_expired rt (some payload) later ≡ false)
        × (end ≤ later → payload_expired rt (some payload) later ≡ true)
unfolding expires_in_seconds
crawl-lives rt target job_type now interval later h =
    lives rt (crawl_job_payload rt target job_type now interval) _ later h
      (crawl_expires_at rt target job_type now interval)
