-- ===== src/Kakao/Carried.antt =====
-- How a decision on an event is carried out: which keys it leaves known.
use rider_crawl_baemin.Prelude.{
  String, Bool, true, false, not, ◌&&◌, ◌≡◌, refl, ◌∙◌, sym, subst, ap, Option, none, some,
  Bool-cases, inl, inr, false≢true,
}
use rider_crawl_baemin.Text.{Runtime}
use rider_crawl_baemin.Delivery.{Attempted, returned, raised, Attempted-cases}
use rider_crawl_baemin.Completion.{Action, ◌>>=◌, continue, pure}
use rider_crawl_baemin.Kakao.{
  TextLibrary, InboundEventInput, InboundContext, InboundDecision, DecisionAction, enqueue_lookup,
  duplicate, reply, reject, LookupPayload, ChannelView, TargetView, origin_event_key,
  lookup_payload,
}
use rider_crawl_baemin.Kakao.Service.{
  KakaoSeams, rider_lookup, Response, maybe_bind, observed, answer, stamped, carry_lookup, replied,
  make_reply, reply_once, carry_payload, carry_out,
}
use rider_crawl_baemin.Kakao.Memory.{
  is_new, IsMemory, Keeps, IsOld, continue-IsOld, bind-Keeps_both, maybe_bind-Keeps, tell-Keeps,
  told-Keeps, carry_lookup-Keeps, reply_once-Keeps,
}
use rider_crawl_baemin.Kakao.Safe.{Requires, IsAdmitted}

module _ {ℓ κ} {W : Type ℓ} {E : Type κ} (rt : Runtime) (lib : TextLibrary) (seams : KakaoSeams W E)
    (seen : String → W → Bool) (memory : IsMemory rt lib seams seen) where
  -- A new lookup leaves its key known.
  abbrev Marks : String → Action W E Response → Type ℓ
  Marks k m = (w : W) → is_new (m w).0 ≡ true → seen k (m w).1 ≡ true

  continue-Marks :
      {A : Type 0} (k : String) (f : A → Action W E Response)
      → ((a : A) → Marks k (f a))
      → (d : Attempted E A) → Marks k (continue f d)
  continue-Marks k f h (returned a) = h a
  continue-Marks k f h (raised exc) = λ w e. absurd (false≢true e)

  -- What follows an enqueued lookup keeps its key.
  enqueued-Marks :
      (target_id : Option String) (payload : LookupPayload) (f : String → Action W E Response)
      → ((id : String) → Keeps rt lib seams seen memory (f id))
      → Marks payload.origin_event_key (seams.enqueue (rider_lookup target_id payload) >>= f)
  enqueued-Marks target_id payload f keeps w e =
      let job = rider_lookup target_id payload in
      elim (Attempted-cases (seams.enqueue job w).0) [
        | inl (id, r) ↦ rw r (
            keeps id payload.origin_event_key (seams.enqueue job w).1 (
              memory.enqueue_remembers target_id payload w (seams.enqueue job w).1 id
                (ap (λ d. (d, (seams.enqueue job w).1)) r)))
        | inr (exc, r) ↦ absurd (false≢true (rw r at e))
      ]

  carry_lookup-Marks :
      (event : InboundEventInput) (decision : InboundDecision) (payload : LookupPayload)
      (agent_id : Option String)
      → Marks payload.origin_event_key (carry_lookup rt lib seams event decision payload agent_id)
  unfolding carry_lookup stamped
  carry_lookup-Marks event decision payload agent_id w =
      continue-Marks payload.origin_event_key _
        (λ bound. enqueued-Marks decision.target_id (stamped rt lib seams payload) _ (λ id.
          told-Keeps rt lib seams seen memory event decision
            (answer rt lib seams true false (some id) none) agent_id (some id) none))
        (maybe_bind rt lib seams decision w).0 (maybe_bind rt lib seams decision w).1

  told-IsOld :
      (event : InboundEventInput) (decision : InboundDecision) (response : Response)
      (agent_id job_id reply_job_id : Option String)
      → (response.accepted && not response.is_duplicate) ≡ false
      → IsOld rt lib seams seen memory (
          observed rt lib seams event decision response agent_id job_id reply_job_id >>= λ a.
          pure response)
  told-IsOld event decision response agent_id job_id reply_job_id old w =
      continue-IsOld rt lib seams seen memory _ (λ a w'. old)
        (observed rt lib seams event decision response agent_id job_id reply_job_id w).0 _

  reply_once-IsOld :
      (event : InboundEventInput) (decision : InboundDecision) (agent_id : Option String)
      → IsOld rt lib seams seen memory (reply_once rt lib seams event decision agent_id)
  unfolding reply_once make_reply
  reply_once-IsOld event decision agent_id w = elim (Bool-cases (replied rt lib seams decision w)) [
    | inl r ↦ rw r (
        told-IsOld event decision (answer rt lib seams false true none (some decision.reason))
          agent_id none none refl w)
    | inr r ↦ rw r (
        continue-IsOld rt lib seams seen memory _
          (λ id.
            told-IsOld event decision (answer rt lib seams false false none (some decision.reason))
              agent_id none (some id) refl)
          _ _)
  ]

  -- An admitted lookup is carried out under the key of its event.
  admitted-Marks :
      (event : InboundEventInput) (decision : InboundDecision) (channel : ChannelView)
      (target : TargetView) (context : InboundContext)
      → IsAdmitted lib event context decision channel target
      → Marks
          (origin_event_key lib event)
          (carry_payload rt lib seams event decision decision.job_payload none)
  unfolding lookup_payload
  admitted-Marks event decision channel target context admitted =
      subst
        (λ o. Marks (origin_event_key lib event) (carry_payload rt lib seams event decision o none))
        (sym admitted.5)
        (carry_lookup-Marks event decision
          (lookup_payload lib event channel target (origin_event_key lib event)) none)

  -- Only an admitted decision makes a new lookup.
  pub new-IsAdmitted :
      (event : InboundEventInput) (decision : InboundDecision) (context : InboundContext)
      (action : DecisionAction)
      → Requires lib event context decision action
      → (w : W) → is_new (carry_out rt lib seams event decision action none w).0 ≡ true
      → ((channel : ChannelView) × (target : TargetView) × IsAdmitted lib event context decision
            channel target)
        × (seen (origin_event_key lib event) (carry_out rt lib seams event decision action none w).1
            ≡ true)
  new-IsAdmitted event decision context enqueue_lookup admitted w e =
      (admitted, admitted-Marks event decision admitted.0 admitted.1 context admitted.2 w e)
  new-IsAdmitted event decision context duplicate known w e = absurd (
      false≢true (
        sym (
          told-IsOld event decision (answer rt lib seams true true none none) none none none refl w)
        ∙ e))
  new-IsAdmitted event decision context reply known w e = absurd (
      false≢true (
        sym (
          continue-IsOld rt lib seams seen memory _ (λ bound. reply_once-IsOld event decision none)
            (maybe_bind rt lib seams decision w).0 (maybe_bind rt lib seams decision w).1)
        ∙ e))
  new-IsAdmitted event decision context reject known w e = absurd (
      false≢true (
        sym (
          told-IsOld event decision (answer rt lib seams false false none (some decision.reason))
            none none none refl w)
        ∙ e))

  carry_payload-Keeps :
      (event : InboundEventInput) (decision : InboundDecision) (payload : Option LookupPayload)
      → Keeps rt lib seams seen memory (carry_payload rt lib seams event decision payload none)
  carry_payload-Keeps event decision (some payload) =
      carry_lookup-Keeps rt lib seams seen memory event decision payload none
  carry_payload-Keeps event decision none =
      tell-Keeps rt lib seams seen memory event decision
        (answer rt lib seams false false none (some decision.reason)) none

  pub carry_out-Keeps :
      (event : InboundEventInput) (decision : InboundDecision) (action : DecisionAction)
      → Keeps rt lib seams seen memory (carry_out rt lib seams event decision action none)
  carry_out-Keeps event decision enqueue_lookup =
      carry_payload-Keeps event decision decision.job_payload
  carry_out-Keeps event decision duplicate =
      tell-Keeps rt lib seams seen memory event decision (answer rt lib seams true true none none)
        none
  carry_out-Keeps event decision reply =
      bind-Keeps_both rt lib seams seen memory (maybe_bind rt lib seams decision) _
        (maybe_bind-Keeps rt lib seams seen memory decision)
        (λ bound. reply_once-Keeps rt lib seams seen memory event decision none)
  carry_out-Keeps event decision reject =
      tell-Keeps rt lib seams seen memory event decision
        (answer rt lib seams false false none (some decision.reason)) none
