-- ===== src/Domain.antt =====
-- src/rider_server/domain: the enumerations of states.py and the dataclasses that the services pass
-- to each other. An instant is a number of microseconds since 0001-01-01T00:00:00Z, the least
-- `datetime`, and a `timedelta` is a number of microseconds.
use rider_crawl_baemin.Prelude.{ℕ, ◌*◌, String, Bool, Option}

abbrev pub Time : Type 0
Time = ℕ

-- `timedelta(seconds=n)`
abbrev pub seconds : ℕ → ℕ
seconds n = n * 1000000

-- `datetime.max.replace(tzinfo=timezone.utc)`: 9999-12-31T23:59:59.999999Z
abbrev pub max_time : Time
max_time = 315537897599999999

pub data CustomerLifecycleState : Type 0 where
  lead signed_up payment_active setup_pending platform_auth_pending : CustomerLifecycleState
  messenger_verify_pending test_running active degraded auth_required : CustomerLifecycleState
  suspended : CustomerLifecycleState

pub data SubscriptionStatus : Type 0 where
  payment_active payment_failed_grace suspended cancelled : SubscriptionStatus

pub data Messenger : Type 0 where
  telegram kakao : Messenger

pub data MessengerChannelState : Type 0 where
  pending verified active inactive : MessengerChannelState

pub data DeliveryStatus : Type 0 where
  sent duplicate_blocked sending failed retrying held : DeliveryStatus

pub data FailureCategory : Type 0 where
  crawl_failure auth_required render_failure telegram_failure kakao_failure : FailureCategory
  duplicate_blocked target_validation_failure : FailureCategory

pub record MessengerChannel : Type 0 where
  pub id : String
  pub tenant_id : String
  pub messenger : Messenger
  pub telegram_chat_id : Option String
  pub thread_id : Option String
  pub kakao_room_name : Option String
  pub state : MessengerChannelState
  pub kakao_chat_id : Option String
  pub command_trigger_enabled : Bool
