-- ===== src/Policy/Gate.antt =====
-- src/rider_server/services/subscription_gate.py: what a subscription's state allows, and what
-- becomes of undelivered dispatches when it is suspended and resumed.
pub mod Undelivered
use rider_crawl_baemin.Prelude.{ℕ, String, Bool, true, false, Option, none, some, get_or_default}
use rider_crawl_baemin.Prelude.Dict.{Dict}
use rider_crawl_baemin.Domain.{Time, SubscriptionStatus}

pub record GateDecision : Type 0 where
  pub allow_new_crawl_job : Bool
  pub allow_new_dispatch_job : Bool
  pub warn_admin : Bool
  pub reason : String

pub data DispatchJobStatus : Type 0 where
  pending held succeeded discarded : DispatchJobStatus

pub data HeldDisposition : Type 0 where
  discard resume : HeldDisposition

pub record Subscription : Type 0 where
  pub id : String
  pub tenant_id : String
  pub plan : String
  pub status : SubscriptionStatus
  pub current_period_end : Option Time
  pub quotas : Dict ℕ

pub record SubscriptionStateChange : Type 0 where
  pub subscription_id : String
  pub from_status : SubscriptionStatus
  pub to_status : SubscriptionStatus
  pub reason : String
  pub changed_at : Time

-- `_GATE_DECISIONS.get`
unfoldable pub gate_decisions : SubscriptionStatus → Option GateDecision
gate_decisions SubscriptionStatus.payment_active = some (record {
  allow_new_crawl_job = true;
  allow_new_dispatch_job = true;
  warn_admin = false;
  reason = "PAYMENT_ACTIVE";
})
gate_decisions SubscriptionStatus.payment_failed_grace = some (record {
  allow_new_crawl_job = true;
  allow_new_dispatch_job = true;
  warn_admin = true;
  reason = "PAYMENT_FAILED_GRACE";
})
gate_decisions SubscriptionStatus.suspended = some (record {
  allow_new_crawl_job = false;
  allow_new_dispatch_job = false;
  warn_admin = true;
  reason = "SUSPENDED";
})
gate_decisions SubscriptionStatus.cancelled = some (record {
  allow_new_crawl_job = false;
  allow_new_dispatch_job = false;
  warn_admin = true;
  reason = "CANCELLED";
})

abbrev fail_closed_decision : GateDecision
fail_closed_decision = record {
  allow_new_crawl_job = false;
  allow_new_dispatch_job = false;
  warn_admin = true;
  reason = "UNKNOWN";
}

unfoldable pub evaluate_status : SubscriptionStatus → GateDecision
unfolding gate_decisions
evaluate_status status = get_or_default (gate_decisions status) fail_closed_decision

unfoldable pub evaluate : Subscription → GateDecision
unfolding evaluate_status
evaluate subscription = evaluate_status subscription.status

-- `replace(subscription, status=...)` with the record of the change
unfoldable pub change_status :
    Subscription → String → Time → SubscriptionStatus → Subscription × SubscriptionStateChange
change_status subscription reason at to_status = (
  record subscription { status = to_status },
  record {
    subscription_id = subscription.id;
    from_status = subscription.status;
    to_status = to_status;
    reason = reason;
    changed_at = at;
  },
)

unfoldable pub suspend : Subscription → String → Time → Subscription × SubscriptionStateChange
unfolding change_status
suspend subscription reason at = change_status subscription reason at SubscriptionStatus.suspended

unfoldable pub resume_subscription :
    Subscription → String → Time → SubscriptionStatus → Subscription × SubscriptionStateChange
unfolding change_status
resume_subscription subscription reason at to_status =
    change_status subscription reason at to_status

unfoldable pub hold_undelivered : DispatchJobStatus → DispatchJobStatus
hold_undelivered DispatchJobStatus.pending = DispatchJobStatus.held
hold_undelivered status = status

-- `none` is the `ValueError` on a dispatch that is not held.
unfoldable pub dispose_held : DispatchJobStatus → HeldDisposition → Option DispatchJobStatus
dispose_held DispatchJobStatus.held HeldDisposition.discard = some DispatchJobStatus.discarded
dispose_held DispatchJobStatus.held HeldDisposition.resume = some DispatchJobStatus.pending
dispose_held _ _ = none
