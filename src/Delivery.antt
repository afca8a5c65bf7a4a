-- ===== src/Delivery.antt =====
-- src/rider_server/services: one message to many channels. The fan-out of
-- dispatch_fanout_service.py, the idempotent delivery of idempotency.py, and the delivery that
-- classifies failures of delivery_failure_policy.py. The callbacks, which callers
-- inject and each of which may raise, act on a state of a type `W` and stand in a record.
mod Calls
pub mod KeyStore
pub mod Once
pub mod Isolation
pub mod Key
mod Examples
use rider_crawl_baemin.Prelude.{
  ℕ, String, Bool, true, false, Option, none, some, List, [], ◌∷◌, if◌then◌else◌, ◌≡◌, refl, ◌⊎◌,
  inl, inr,
}
use rider_crawl_baemin.Prelude.Dict
use rider_crawl_baemin.Prelude.Dict.{Dict}
use Prim.Native.String.{◌++◌}
use rider_crawl_baemin.Domain.{Time, DeliveryStatus, FailureCategory, Messenger, MessengerChannel}
use rider_crawl_baemin.Policy.Failure.{RetryDecision, decide}

pub record DeliveryRule : Type 0 where
  pub id : String
  pub target_id : String
  pub channel_id : String
  pub template_id : String
  pub enabled : Bool
  pub send_only_on_change : Bool

pub record Message : Type 0 where
  pub id : String
  pub snapshot_id : String
  pub template_version : String
  pub text : String
  pub text_hash : String
  pub text_redacted_preview : String

pub record DispatchJob : Type 0 where
  pub id : String
  pub target_id : String
  pub channel_id : String
  pub message_id : String
  pub messenger : Messenger
  pub template_version : String
  pub message_hash : String

pub record FanoutOutcome : Type 0 where
  pub job : DispatchJob
  pub sent : Bool
  pub error_redacted : Option String

pub record DeliveryLog : Type 0 where
  pub id : String
  pub message_id : String
  pub channel_id : String
  pub status : DeliveryStatus
  pub dedup_key : String
  pub error_code : Option FailureCategory
  pub sent_at : Option Time

-- A call that returns, or raises an exception of the type `E`.
pub data Attempted {ℓ κ} (E : Type ℓ) (A : Type κ) : Type (ℓ ⊔ κ) where
  returned : A → Attempted E A
  raised : E → Attempted E A

pub Attempted-cases {ℓ κ} :
    {E : Type ℓ} {A : Type κ} (d : Attempted E A)
    → ((a : A) × (d ≡ returned a)) ⊎ ((exc : E) × (d ≡ raised exc))
Attempted-cases (returned a) = inl (a, refl)
Attempted-cases (raised exc) = inr (exc, refl)

-- A call that acts on the state and may raise.
abbrev pub Action {ℓ κ μ} : Type ℓ → Type κ → Type μ → Type (ℓ ⊔ κ ⊔ μ)
Action W X A = W → Attempted X A × W

-- What follows a call: nothing where it raised.
abbrev pub continue {ℓ κ μ ν} :
    {W : Type ℓ} {X : Type κ} {A : Type μ} {B : Type ν}
    → (A → Action W X B)
    → Attempted X A
    → Action W X B
continue f (returned a) w = f a w
continue f (raised exc) w = (raised exc, w)

infixl 10 ◌>>=◌
abbrev pub ◌>>=◌ {ℓ κ μ ν} :
    {W : Type ℓ} {X : Type κ} {A : Type μ} {B : Type ν}
    → Action W X A
    → (A → Action W X B)
    → Action W X B
m >>= f = λ w. continue f (m w).0 (m w).1

abbrev pub pure {ℓ κ μ} : {W : Type ℓ} {X : Type κ} {A : Type μ} → A → Action W X A
pure a w = (returned a, w)

-- What `plan` gives: the jobs, or `UnknownChannelError` with the missing id.
pub data Planned : Type 0 where
  jobs : List DispatchJob → Planned
  unknown_channel : String → Planned

abbrev pub job_for : Message → DeliveryRule → String → MessengerChannel → DispatchJob
job_for message rule id channel = record {
  id = id;
  target_id = rule.target_id;
  channel_id = rule.channel_id;
  message_id = message.id;
  messenger = channel.messenger;
  template_version = message.template_version;
  message_hash = message.text_hash;
}

abbrev and_then : DispatchJob → Planned → Planned
and_then job (jobs later) = jobs (job ∷ later)
and_then job (unknown_channel id) = unknown_channel id

unfoldable pub plan :
    Message → List DeliveryRule → Dict MessengerChannel → (DeliveryRule → String) → Planned
plan message [] channels job_id_for = jobs []
plan message (rule ∷ rules) channels job_id_for =
    let later = plan message rules channels job_id_for in
    if rule.enabled
    then elim (Dict.get rule.channel_id channels) [
      | none ↦ unknown_channel rule.channel_id
      | some channel ↦ and_then (job_for message rule (job_id_for rule) channel) later
    ]
    else later

-- `describe` is `redact(repr(exc))`, from another package.
module _ {κ} {E : Type κ} (describe : E → String) where
  abbrev outcome_of : DispatchJob → Attempted E (Unit {0}) → FanoutOutcome
  outcome_of job (returned _) = record { job = job; sent = true; error_redacted = none }
  outcome_of job (raised exc) = record {
    job = job;
    sent = false;
    error_redacted = some (describe exc);
  }

  unfoldable pub dispatch_all {ℓ} :
      {W : Type ℓ}
      → (DispatchJob → String → W → Attempted E (Unit {0}) × W)
      → Message
      → List DispatchJob
      → W
      → List FanoutOutcome × W
  dispatch_all send message [] w = ([], w)
  dispatch_all send message (job ∷ later) w =
      let (result, w') = send job message.text w in
      let (outcomes, w'') = dispatch_all send message later w' in
      (outcome_of job result ∷ outcomes, w'')

-- The callbacks that the delivery is given, each of which may raise, and `datetime.isoformat`.
pub record Seams {ℓ κ} (W : Type ℓ) (E : Type κ) : Type (ℓ ⊔ κ) where
  pub isoformat : Time → String
  pub reserve : String → Action W E Bool
  pub send : DispatchJob → Action W E (Unit {0})
  pub release : String → Action W E (Unit {0})
  pub classify : E → Action W E FailureCategory
  pub log_id_for : DispatchJob → Action W E String

-- The other arguments of `attempt_delivery`.
pub record Request : Type 0 where
  pub job : DispatchJob
  pub collected_at : Time
  pub sent_at : Time
  pub attempt : ℕ
  pub max_attempts : ℕ
  pub base_seconds : ℕ
  pub factor : ℕ
  pub cap_seconds : ℕ

pub record DeliveryAttemptResult : Type 0 where
  pub log : DeliveryLog
  pub decision : Option RetryDecision

-- `"|".join(...)`
unfoldable pub build_dedup_key : String → String → String → String → String → String
build_dedup_key target_id channel_id collected_at template_version message_hash =
    target_id ++ "|" ++ channel_id ++ "|" ++ collected_at ++ "|" ++ template_version ++ "|"
    ++ message_hash

module _ {ℓ κ} {W : Type ℓ} {E : Type κ} (s : Seams W E) where
  unfoldable pub key_of : DispatchJob → Time → String
  unfolding build_dedup_key
  key_of job collected_at =
      build_dedup_key job.target_id job.channel_id (s.isoformat collected_at) job.template_version
        job.message_hash

  abbrev pub log_for :
      DispatchJob
      → String
      → DeliveryStatus
      → Option FailureCategory
      → Option Time
      → String
      → DeliveryLog
  log_for job key status error_code sent_at id = record {
    id = id;
    message_id = job.message_id;
    channel_id = job.channel_id;
    status = status;
    dedup_key = key;
    error_code = error_code;
    sent_at = sent_at;
  }

  -- The two ends of `deliver_once`, after what `reserve` answers
  unfoldable pub after_reserve : DispatchJob → String → Time → Bool → Action W E DeliveryLog
  after_reserve job key sent_at false = s.log_id_for job >>= λ id.
      pure (log_for job key DeliveryStatus.duplicate_blocked none none id)
  after_reserve job key sent_at true = s.send job >>= λ done.
      s.log_id_for job >>= λ id. pure (log_for job key DeliveryStatus.sent none (some sent_at) id)

  unfoldable pub deliver_once : DispatchJob → Time → Time → Action W E DeliveryLog
  unfolding key_of after_reserve
  deliver_once job collected_at sent_at =
      let key = key_of job collected_at in s.reserve key >>= after_reserve job key sent_at

  unfoldable pub decision_for : Request → FailureCategory → RetryDecision
  decision_for r category =
      decide category r.attempt r.max_attempts r.base_seconds r.factor r.cap_seconds

  -- `if decision.should_retry: release(key)`
  unfoldable pub release_if : Bool → String → Action W E (Unit {0})
  release_if true key = s.release key
  release_if false key = pure tt

  -- The body of `except Exception as exc`, whose own exceptions leave the method
  unfoldable pub after_failure : Request → E → Action W E DeliveryAttemptResult
  unfolding decision_for release_if
  after_failure r exc = s.classify exc >>= λ category.
      let key = key_of r.job r.collected_at in
      let decision = decision_for r category in
      release_if decision.should_retry key >>= λ done. s.log_id_for r.job >>= λ id. pure (record {
        log = log_for r.job key decision.status (some category) none id;
        decision = some decision;
      })

  -- The handler takes whatever `deliver_once` raises: of `reserve`, `send` and `log_id_for`.
  unfoldable pub after_delivery :
      Request → Attempted E DeliveryLog → Action W E DeliveryAttemptResult
  unfolding after_failure
  after_delivery r (returned log) = pure (record { log = log; decision = none })
  after_delivery r (raised exc) = after_failure r exc

  unfoldable pub attempt_delivery : Request → Action W E DeliveryAttemptResult
  unfolding deliver_once after_delivery
  attempt_delivery r w =
      let went = deliver_once r.job r.collected_at r.sent_at w in after_delivery r went.0 went.1
