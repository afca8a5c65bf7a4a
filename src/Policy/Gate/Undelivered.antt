-- ===== src/Policy/Gate/Undelivered.antt =====
-- What suspending and resuming a subscription does to its dispatches and its gate.
use rider_crawl_baemin.Prelude.{
  ◌≡◌, refl, ap, ◌∙◌, Bool, true, false, Option, none, some, List, [], ◌∷◌, arith, String,
}
use rider_crawl_baemin.Domain.{Time}
use rider_crawl_baemin.Policy.Gate.{
  DispatchJobStatus, HeldDisposition, hold_undelivered, dispose_held, Subscription, suspend,
  resume_subscription, change_status, evaluate, evaluate_status, gate_decisions,
}

-- What happens to a dispatch in this module: the subscription is suspended, or an operator disposes of
-- a held dispatch.
pub data DispatchEvent : Type 0 where
  suspends : DispatchEvent
  disposes : HeldDisposition → DispatchEvent

or_same : DispatchJobStatus → Option DispatchJobStatus → DispatchJobStatus
or_same s none = s
or_same s (some t) = t

-- A refused disposition raises and leaves the dispatch as it is.
unfoldable pub after_event : DispatchEvent → DispatchJobStatus → DispatchJobStatus
unfolding or_same
after_event suspends s = hold_undelivered s
after_event (disposes d) s = or_same s (dispose_held s d)

unfoldable pub after_events : List DispatchEvent → DispatchJobStatus → DispatchJobStatus
after_events [] s = s
after_events (e ∷ es) s = after_events es (after_event e s)

abbrev pub is_closed : DispatchJobStatus → Bool
is_closed DispatchJobStatus.succeeded = true
is_closed DispatchJobStatus.discarded = true
is_closed _ = false

closed_stays :
    (e : DispatchEvent) (s : DispatchJobStatus) → is_closed s ≡ true → after_event e s ≡ s
unfolding after_event hold_undelivered dispose_held
closed_stays suspends s h = ground arith
closed_stays (disposes HeldDisposition.discard) s h = ground arith
closed_stays (disposes HeldDisposition.resume) s h = ground arith

-- A dispatch that was delivered or discarded stays so, whatever suspensions and dispositions
-- follow: resuming a subscription never sends it again.
pub closed-final :
    (es : List DispatchEvent) (s : DispatchJobStatus) → is_closed s ≡ true → after_events es s ≡ s
unfolding after_events
closed-final [] s h = refl
closed-final (e ∷ es) s h = ap (after_events es) (closed_stays e s h) ∙ closed-final es s h

-- While suspended a subscription allows neither crawls nor dispatches, and resuming it with its old
-- status brings back what its gate allowed, and nothing else of it has changed.
suspend-resume :
    (s : Subscription) (why why' : String) (t t' : Time)
    → let held = (suspend s why t).0 in
      ((evaluate held).allow_new_crawl_job ≡ false)
      × ((evaluate held).allow_new_dispatch_job ≡ false)
      × ((resume_subscription held why' t' s.status).0 ≡ s)
unfolding suspend resume_subscription change_status evaluate evaluate_status gate_decisions
suspend-resume s why why' t t' = (refl, refl, refl)
