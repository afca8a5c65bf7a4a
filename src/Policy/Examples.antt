-- ===== src/Policy/Examples.antt =====
-- Concrete decisions of the policies.
use rider_crawl_baemin.Prelude.{◌≡◌, refl, true, none, some, [], ◌∷◌, text_in}
use rider_crawl_baemin.Text.{Runtime, upper_ascii, lower_ascii, strip}
use rider_crawl_baemin.Domain.{SubscriptionStatus}
use rider_crawl_baemin.Policy.Gate.{DispatchJobStatus, HeldDisposition, Subscription, suspend}
use rider_crawl_baemin.Policy.Gate.Undelivered.{closed-final, after_events, suspends, disposes}
use rider_crawl_baemin.Policy.Schedule.{
  decide_auth_gate, decide_auth_required, normalized_auth_state, is_coupang_key,
}
use rider_crawl_baemin.Policy.Schedule.Admission.{recovery-safe, IsOver}

abbrev runtime : Runtime
runtime = record {
  upper = upper_ascii;
  casefold = lower_ascii;
  fromisoformat = λ s. none;
  isoformat = λ t. "";
  sha256_head = λ s. 12345;
}

closed-final_example :
    after_events
      (suspends ∷ disposes HeldDisposition.resume ∷ suspends ∷ [])
      DispatchJobStatus.succeeded
    ≡ DispatchJobStatus.succeeded
closed-final_example =
    closed-final (suspends ∷ disposes HeldDisposition.resume ∷ suspends ∷ [])
      DispatchJobStatus.succeeded refl

abbrev subscription : Subscription
subscription = record {
  id = "s1";
  tenant_id = "t1";
  plan = "basic";
  status = SubscriptionStatus.payment_active;
  current_period_end = none;
  quotas = [];
}

abbrev suspended : Subscription
suspended = (suspend subscription "unpaid" 5).0

recovers_test :
    (decide_auth_gate runtime (some " auth_required ") "coupang" true (some 10) 20).recovery ≡ true
unfolding decide_auth_gate decide_auth_required normalized_auth_state is_coupang_key strip
    upper_ascii lower_ascii text_in
recovers_test = refl

recovery-safe_example :
    (normalized_auth_state runtime (some " auth_required ") ≡ "AUTH_REQUIRED")
    × (is_coupang_key runtime "coupang" ≡ true)
    × (true ≡ true)
    × IsOver (some 10) 20
recovery-safe_example =
    recovery-safe runtime (some " auth_required ") "coupang" true (some 10) 20 recovers_test
