-- ===== src/Kakao/Service.antt =====
-- src/rider_server/services/kakao_inbound_event_service.py: `KakaoInboundEventService`. Its callbacks
-- act on a state of a type `W`: those that load read it, those that change it may raise an `E`.
use rider_crawl_baemin.Prelude.{
  ◌+◌, String, Bool, true, false, not, ◌&&◌, Option, none, some, List, [], ◌∷◌, keep, if◌then◌else◌,
  truthy,
}
use rider_crawl_baemin.Text.{Runtime, strip}
use rider_crawl_baemin.Domain.{Time, seconds}
use rider_crawl_baemin.Scheduler.JobPayload.{iso_utc}
use rider_crawl_baemin.Completion.{Action, ◌>>=◌, pure}
use rider_crawl_baemin.Kakao.{
  TextLibrary, InboundEventInput, InboundContext, InboundDecision, DecisionAction, enqueue_lookup,
  duplicate, reply, reject, LookupPayload, ChannelView, TargetView, origin_event_key,
  command_is_valid, match_channels, is_active_channel, is_active_target, decide_inbound_event,
}

-- A job that the service makes: `RIDER_LOOKUP` with its payload, or `KAKAO_SEND` with room, message
-- and event key.
pub data InboundJob : Type 0 where
  rider_lookup : Option String → LookupPayload → InboundJob
  kakao_send : String → String → String → InboundJob

pub record Response : Type 0 where
  pub accepted : Bool
  pub is_duplicate : Bool
  pub job_id : Option String
  pub reason : Option String

-- What the observer gets: the decision and the answer, with the ids of agent and jobs.
pub record Observation : Type 0 where
  pub decision : InboundDecision
  pub response : Response
  pub event_fingerprint : String
  pub chat_id_present : Bool
  pub agent_id : Option String
  pub job_id : Option String
  pub reply_job_id : Option String

module _ {ℓ κ} (W : Type ℓ) (E : Type κ) where
  -- The callbacks of the service; those that may be missing are options.
  pub record KakaoSeams : Type (ℓ ⊔ κ) where
    pub load_channels : W → List ChannelView
    pub load_targets : String → W → List TargetView
    pub sending_enabled : W → Bool
    pub enqueue : InboundJob → Action W E String
    pub bind_chat_id : Option (String → String → Action W E (Unit {0}))
    pub event_seen : Option (String → W → Bool)
    pub tenant_active : Option (String → W → Bool)
    pub rate_limited : Option (String → W → Bool)
    pub already_replied : Option (String → W → Bool)
    pub observe_decision : Option (Observation → Action W E (Unit {0}))
    pub now : Time

-- The answer of a test that may be missing
abbrev pub asked {ℓ} : {W : Type ℓ} → Option (String → W → Bool) → Bool → String → W → Bool
asked none missing id w = missing
asked (some test) missing id w = test id w

-- A set of one element, or none
abbrev pub only_if : Bool → String → List String
only_if true id = id ∷ []
only_if false id = []

module _ {ℓ κ} {W : Type ℓ} {E : Type κ} (rt : Runtime) (lib : TextLibrary)
    (seams : KakaoSeams W E) where
  -- The context without any load
  abbrev pub bare_context : List ChannelView → W → InboundContext
  bare_context channels w = record {
    channels = channels;
    targets_by_channel = [];
    sending_enabled = seams.sending_enabled w;
    existing_event_keys = [];
    inactive_tenant_ids = [];
    rate_limited_channel_ids = [];
  }

  abbrev pub seen_keys : InboundEventInput → List TargetView → W → List String
  seen_keys event (target ∷ []) w =
      let key = origin_event_key lib event in only_if (asked seams.event_seen false key w) key
  seen_keys event _ w = []

  -- What is loaded for the one active channel of an event
  unfoldable pub channel_context :
      InboundEventInput → List ChannelView → ChannelView → W → InboundContext
  channel_context event channels channel w =
      let targets = seams.load_targets channel.channel_id w in
      record {
        channels = channels;
        targets_by_channel = (channel.channel_id, targets) ∷ [];
        sending_enabled = seams.sending_enabled w;
        existing_event_keys = seen_keys event (keep (is_active_target lib) targets) w;
        inactive_tenant_ids =
            only_if (not (asked seams.tenant_active true channel.tenant_id w)) channel.tenant_id;
        rate_limited_channel_ids =
            only_if (asked seams.rate_limited false channel.channel_id w) channel.channel_id;
      }

  abbrev pub loaded_context :
      InboundEventInput → List ChannelView → List ChannelView → W → InboundContext
  loaded_context event channels (channel ∷ []) w = channel_context event channels channel w
  loaded_context event channels _ w = bare_context channels w

  unfoldable pub build_context : InboundEventInput → W → InboundContext
  build_context event w =
      let channels = seams.load_channels w in
      if command_is_valid lib event.command
      then loaded_context event channels
          (keep (is_active_channel lib) (match_channels lib event channels)) w
      else bare_context [] w

  abbrev pub bind_for :
      Option (String → String → Action W E (Unit {0}))
      → Option String
      → String
      → Action W E (Unit {0})
  bind_for (some bind) (some channel_id) chat_id =
      if truthy chat_id && truthy channel_id then bind channel_id chat_id else pure tt
  bind_for _ _ chat_id = pure tt

  unfoldable pub maybe_bind : InboundDecision → Action W E (Unit {0})
  maybe_bind decision = bind_for seams.bind_chat_id decision.channel_id decision.bind_chat_id

  abbrev pub observe_with :
      Option (Observation → Action W E (Unit {0})) → Observation → Action W E (Unit {0})
  observe_with none observation = pure tt
  observe_with (some observe) observation = observe observation

  -- `_observe`: the fingerprint is the decision's key, or else the event's.
  unfoldable pub observed :
      InboundEventInput
      → InboundDecision
      → Response
      → Option String
      → Option String
      → Option String
      → Action W E (Unit {0})
  observed event decision response agent_id job_id reply_job_id =
      let key = decision.origin_event_key in
      observe_with seams.observe_decision record {
        decision = decision;
        response = response;
        event_fingerprint = if truthy key then key else origin_event_key lib event;
        chat_id_present = truthy (strip event.chat_id);
        agent_id = agent_id;
        job_id = job_id;
        reply_job_id = reply_job_id;
      }

  abbrev pub answer : Bool → Bool → Option String → Option String → Response
  answer accepted is_duplicate job_id reason = record {
    accepted = accepted;
    is_duplicate = is_duplicate;
    job_id = job_id;
    reason = reason;
  }

  -- The payload with the instant after which a worker drops it.
  unfoldable pub stamped : LookupPayload → LookupPayload
  stamped payload = record payload {
    expires_at = some (iso_utc rt (seams.now + seconds (payload.timeout_seconds + 60)));
  }

  unfoldable pub carry_lookup :
      InboundEventInput → InboundDecision → LookupPayload → Option String → Action W E Response
  carry_lookup event decision payload agent_id = do
    bound ← maybe_bind decision
    job_id ← seams.enqueue (rider_lookup decision.target_id (stamped payload))
    seen ←
        observed event decision (answer true false (some job_id) none) agent_id (some job_id) none
    pure (answer true false (some job_id) none)

  -- Whether the reply to an event was already made
  unfoldable pub replied : InboundDecision → W → Bool
  replied decision w =
      truthy decision.origin_event_key
      && asked seams.already_replied false decision.origin_event_key w

  unfoldable pub make_reply :
      InboundEventInput → InboundDecision → Option String → Action W E Response
  make_reply event decision agent_id = do
    job_id ←
        seams.enqueue
          (kakao_send decision.reply_kakao_room_name decision.reply_text decision.origin_event_key)
    seen ←
        observed event decision (answer false false none (some decision.reason)) agent_id none
          (some job_id)
    pure (answer false false none (some decision.reason))

  unfoldable pub reply_once :
      InboundEventInput → InboundDecision → Option String → Action W E Response
  reply_once event decision agent_id w =
      if replied decision w
      then (do
        seen ←
            observed event decision (answer false true none (some decision.reason)) agent_id none
              none
        pure (answer false true none (some decision.reason)))
          w
      else make_reply event decision agent_id w

  abbrev pub tell :
      InboundEventInput → InboundDecision → Response → Option String → Action W E Response
  tell event decision response agent_id = do
    seen ← observed event decision response agent_id none none
    pure response

  -- `decision.job_payload or {}`: a lookup always has its payload.
  abbrev pub carry_payload :
      InboundEventInput
      → InboundDecision
      → Option LookupPayload
      → Option String
      → Action W E Response
  carry_payload event decision (some payload) agent_id =
      carry_lookup event decision payload agent_id
  carry_payload event decision none agent_id =
      tell event decision (answer false false none (some decision.reason)) agent_id

  abbrev pub carry_out :
      InboundEventInput → InboundDecision → DecisionAction → Option String → Action W E Response
  carry_out event decision enqueue_lookup agent_id =
      carry_payload event decision decision.job_payload agent_id
  carry_out event decision duplicate agent_id =
      tell event decision (answer true true none none) agent_id
  carry_out event decision reply agent_id = do
    bound ← maybe_bind decision
    reply_once event decision agent_id
  carry_out event decision reject agent_id =
      tell event decision (answer false false none (some decision.reason)) agent_id

  unfoldable pub handle : InboundEventInput → Option String → Action W E Response
  handle event agent_id w =
      let decision = decide_inbound_event lib event (build_context event w) in
      carry_out event decision decision.action agent_id w
