-- ===== src/Kakao/Memory.antt =====
-- What the callbacks promise about the keys of events, and which actions forget none.
use rider_crawl_baemin.Prelude.{
  ℕ, ◌+◌, String, Bool, true, false, not, ◌&&◌, ◌≡◌, refl, Option, none, some, List, [], ◌∷◌, bit,
  ◌=ₛ◌, Bool-cases, inl, inr,
}
use rider_crawl_baemin.Text.{Runtime}
use rider_crawl_baemin.Delivery.{Attempted, returned, raised}
use rider_crawl_baemin.Completion.{Action, ◌>>=◌, continue, pure}
use rider_crawl_baemin.Kakao.{
  TextLibrary, InboundEventInput, InboundDecision, LookupPayload, origin_event_key,
}
use rider_crawl_baemin.Kakao.Service.{
  KakaoSeams, InboundJob, rider_lookup, kakao_send, Response, Observation, bind_for, maybe_bind,
  observe_with, observed, answer, stamped, carry_lookup, replied, make_reply, reply_once, tell,
  handle,
}

-- A lookup was made: accepted, and no duplicate.
abbrev pub is_new {κ} : {E : Type κ} → Attempted E Response → Bool
is_new (returned response) = response.accepted && not response.is_duplicate
is_new (raised exc) = false

module _ {ℓ κ} {W : Type ℓ} {E : Type κ} (rt : Runtime) (lib : TextLibrary)
    (seams : KakaoSeams W E) where
  -- How many lookups a sequence of events makes under a key.
  unfoldable pub lookups_made : String → List InboundEventInput → W → ℕ
  lookups_made k [] w = 0
  lookups_made k (event ∷ events) w =
      let (done, w') = handle rt lib seams event none w in
      bit (is_new done && origin_event_key lib event =ₛ k) + lookups_made k events w'

  -- What the callbacks promise about the keys of lookups: no call forgets one, and a lookup that was
  -- enqueued is remembered under its key.
  pub record IsMemory (seen : String → W → Bool) : Type (ℓ ⊔ κ) where
    pub asks : seams.event_seen ≡ some seen
    pub enqueue_keeps :
        (job : InboundJob) (k : String) (w : W)
        → seen k w ≡ true
        → seen k (seams.enqueue job w).1 ≡ true
    pub bind_keeps :
        (channel_id : Option String) (chat_id k : String) (w : W)
        → seen k w ≡ true
        → seen k (bind_for rt lib seams seams.bind_chat_id channel_id chat_id w).1 ≡ true
    pub observe_keeps :
        (observation : Observation) (k : String) (w : W)
        → seen k w ≡ true
        → seen k (observe_with rt lib seams seams.observe_decision observation w).1 ≡ true
    pub enqueue_remembers :
        (target_id : Option String) (payload : LookupPayload) (w w' : W) (id : String)
        → seams.enqueue (rider_lookup target_id payload) w ≡ (returned id, w')
        → seen payload.origin_event_key w' ≡ true

  module _ (seen : String → W → Bool) (memory : IsMemory seen) where
    -- An action that forgets no key
    abbrev pub Keeps : {A : Type 0} → Action W E A → Type ℓ
    Keeps m = (k : String) (w : W) → seen k w ≡ true → seen k (m w).1 ≡ true

    -- An action that makes no lookup
    abbrev pub IsOld : Action W E Response → Type ℓ
    IsOld m = (w : W) → is_new (m w).0 ≡ false

    continue-Keeps :
        {A B : Type 0} (f : A → Action W E B)
        → ((a : A) → Keeps (f a))
        → (d : Attempted E A) → Keeps (continue f d)
    continue-Keeps f h (returned a) = h a
    continue-Keeps f h (raised exc) = λ k w e. e

    pub bind-Keeps_both :
        {A B : Type 0} (m : Action W E A) (f : A → Action W E B)
        → Keeps m
        → ((a : A) → Keeps (f a))
        → Keeps (m >>= f)
    bind-Keeps_both m f h g = λ k w e. continue-Keeps f g (m w).0 k (m w).1 (h k w e)

    pub continue-IsOld :
        {A : Type 0} (f : A → Action W E Response)
        → ((a : A) → IsOld (f a))
        → (d : Attempted E A) → IsOld (continue f d)
    continue-IsOld f h (returned a) = h a
    continue-IsOld f h (raised exc) = λ w. refl

    observed-Keeps :
        (event : InboundEventInput) (decision : InboundDecision) (response : Response)
        (agent_id job_id reply_job_id : Option String)
        → Keeps (observed rt lib seams event decision response agent_id job_id reply_job_id)
    unfolding observed
    observed-Keeps event decision response agent_id job_id reply_job_id k w e =
        memory.observe_keeps _ k w e

    pub maybe_bind-Keeps : (decision : InboundDecision) → Keeps (maybe_bind rt lib seams decision)
    unfolding maybe_bind
    maybe_bind-Keeps decision k w e =
        memory.bind_keeps decision.channel_id decision.bind_chat_id k w e

    pub tell-Keeps :
        (event : InboundEventInput) (decision : InboundDecision) (response : Response)
        (agent_id : Option String)
        → Keeps (tell rt lib seams event decision response agent_id)
    tell-Keeps event decision response agent_id =
        bind-Keeps_both (observed rt lib seams event decision response agent_id none none) _
          (observed-Keeps event decision response agent_id none none) (λ a k w e. e)

    -- After a job was enqueued
    pub told-Keeps :
        (event : InboundEventInput) (decision : InboundDecision) (response : Response)
        (agent_id job_id reply_job_id : Option String)
        → Keeps (
            observed rt lib seams event decision response agent_id job_id reply_job_id >>= λ a.
            pure response)
    told-Keeps event decision response agent_id job_id reply_job_id =
        bind-Keeps_both (observed rt lib seams event decision response agent_id job_id reply_job_id)
          _ (observed-Keeps event decision response agent_id job_id reply_job_id) (λ a k w e. e)

    pub carry_lookup-Keeps :
        (event : InboundEventInput) (decision : InboundDecision) (payload : LookupPayload)
        (agent_id : Option String)
        → Keeps (carry_lookup rt lib seams event decision payload agent_id)
    unfolding carry_lookup
    carry_lookup-Keeps event decision payload agent_id =
        let job = rider_lookup decision.target_id (stamped rt lib seams payload) in
        bind-Keeps_both (maybe_bind rt lib seams decision) _ (maybe_bind-Keeps decision) (λ bound.
          bind-Keeps_both (seams.enqueue job) _ (λ k w e. memory.enqueue_keeps job k w e)
            (λ id.
              told-Keeps event decision (answer rt lib seams true false (some id) none) agent_id
                (some id) none))

    make_reply-Keeps :
        (event : InboundEventInput) (decision : InboundDecision) (agent_id : Option String)
        → Keeps (make_reply rt lib seams event decision agent_id)
    unfolding make_reply
    make_reply-Keeps event decision agent_id =
        let job =
          kakao_send decision.reply_kakao_room_name decision.reply_text decision.origin_event_key in
        bind-Keeps_both (seams.enqueue job) _ (λ k w e. memory.enqueue_keeps job k w e)
          (λ id.
            told-Keeps event decision (answer rt lib seams false false none (some decision.reason))
              agent_id none (some id))

    pub reply_once-Keeps :
        (event : InboundEventInput) (decision : InboundDecision) (agent_id : Option String)
        → Keeps (reply_once rt lib seams event decision agent_id)
    unfolding reply_once
    reply_once-Keeps event decision agent_id k w e =
        elim (Bool-cases (replied rt lib seams decision w)) [
          | inl r ↦ rw r (
              tell-Keeps event decision (answer rt lib seams false true none (some decision.reason))
                agent_id k w e)
          | inr r ↦ rw r (make_reply-Keeps event decision agent_id k w e)
        ]
