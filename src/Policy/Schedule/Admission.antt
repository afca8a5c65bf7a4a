-- ===== src/Policy/Schedule/Admission.antt =====
-- When the scheduler may crawl: the composed gates, the breaker and the reactivation of targets.
use native.Mathlib.Nat.{mul-le-mul_right}
use rider_crawl_baemin.Prelude.{
  ℕ, ◌+◌, ◌*◌, ◌≤◌, ◌≡◌, ◌↔◌, Bool, true, false, Option, none, some, arith, String, eq_iff,
}
use rider_crawl_baemin.Text.{Runtime}
use rider_crawl_baemin.Domain.{Time, seconds, SubscriptionStatus, CustomerLifecycleState}
use rider_crawl_baemin.Policy.Gate.{evaluate_status, gate_decisions}
use rider_crawl_baemin.Policy.Schedule.{
  decide_schedule, decide_lifecycle, is_active_lifecycle, decide_auth_gate, decide_auth_required,
  normalized_auth_state, is_coupang_key, evaluate_breaker, reactivation_next_run_at, is_due,
  next_run_at,
}

-- A paying subscription, in grace or not
abbrev pub is_paying : SubscriptionStatus → Bool
is_paying SubscriptionStatus.payment_active = true
is_paying SubscriptionStatus.payment_failed_grace = true
is_paying _ = false

abbrev pub passes {ℓ} : {A : Type ℓ} → (A → Bool) → Option A → Bool
passes p none = false
passes p (some a) = p a

-- A crawl is scheduled exactly if the customer's subscription is there and paid for, in grace
-- included, and its lifecycle is there and active.
pub decide_schedule_iff :
    (status : Option SubscriptionStatus) (lifecycle : Option CustomerLifecycleState)
    → ((decide_schedule status lifecycle).allow_new_crawl_job ≡ true)
      ↔ ((passes is_paying status ≡ true) × (passes is_active_lifecycle lifecycle ≡ true))
unfolding decide_schedule decide_lifecycle evaluate_status gate_decisions is_active_lifecycle
decide_schedule_iff status lifecycle = (λ h. ground arith, λ h. ground arith)

-- The cooldown is absent or over.
abbrev pub IsOver : Option Time → Time → Type 0
IsOver none now = Unit
IsOver (some until) now = until ≤ now

recovery-IsOver :
    (cooldown : Option Time) (now : Time) (coupang complete : Bool)
    → (decide_auth_required coupang complete cooldown now).recovery ≡ true
    → IsOver cooldown now
unfolding decide_auth_required
recovery-IsOver none now coupang complete h = tt
recovery-IsOver (some until) now coupang complete h = ground arith

-- An automatic two-factor recovery starts only for an account in `AUTH_REQUIRED` on Coupang whose
-- settings for it are complete, and after the cooldown.
pub recovery-safe :
    (rt : Runtime) (auth_state : Option String) (platform : String) (complete : Bool)
    (cooldown : Option Time) (now : Time)
    → (decide_auth_gate rt auth_state platform complete cooldown now).recovery ≡ true
    → (normalized_auth_state rt auth_state ≡ "AUTH_REQUIRED")
      × (is_coupang_key rt platform ≡ true)
      × (complete ≡ true)
      × IsOver cooldown now
unfolding decide_auth_gate decide_auth_required
recovery-safe rt auth_state platform complete cooldown now h = (
  ground (arith, eq_iff (normalized_auth_state rt auth_state) "AUTH_REQUIRED"),
  ground arith,
  ground arith,
  recovery-IsOver cooldown now (is_coupang_key rt platform) complete (ground arith),
)

-- A reactivated target is not due at once: its next run lies at least a minute ahead, and at most its
-- interval and a minute.
reactivation_bounds :
    (rt : Runtime) (target_id : String) (interval now : ℕ)
    → let next = reactivation_next_run_at rt target_id interval now in
      (is_due (some next) now ≡ false)
      × (now + seconds 60 ≤ next)
      × (next ≤ now + seconds (interval * 60 + 60))
unfolding reactivation_next_run_at next_run_at is_due
reactivation_bounds rt target_id interval now = (ground arith, ground arith, ground arith)

-- More failures among as many attempts never close an open breaker.
pub breaker_mono :
    (total failures failures' num den min_samples : ℕ)
    → failures ≤ failures'
    → evaluate_breaker total failures num den min_samples ≡ true
    → evaluate_breaker total failures' num den min_samples ≡ true
unfolding evaluate_breaker
breaker_mono total failures failures' num den min_samples h e =
    ground (arith, mul-le-mul_right den h)
