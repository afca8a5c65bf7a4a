-- ===== src/Channel/Service.antt =====
-- src/rider_server/services/channel_registration.py: the repository in memory and
-- `ChannelRegistrationService`. Each method runs to its end before another begins.
use rider_crawl_baemin.Prelude.{
  String, Bool, true, false, not, ◌&&◌, Option, none, some, List, [], ◌∷◌, ◌++◌, if◌then◌else◌,
  is_text, same_text, truthy, keep, map, ◌=ₛ◌,
}
use rider_crawl_baemin.Prelude.Dict
use rider_crawl_baemin.Prelude.Dict.{Dict}
use rider_crawl_baemin.Domain.{Messenger, telegram, kakao, MessengerChannel, MessengerChannelState}
use rider_crawl_baemin.Delivery.{Attempted, returned, raised}
use rider_crawl_baemin.Channel.{
  is_allowed_channel_transition, is_active, is_inactive, is_kakao, normalize_thread_id,
  ChannelError, invalid_channel_transition, channel_not_found, empty_telegram_chat_id,
  telegram_topic_collision, kakao_room_collision, test_failed, name_of, find_kakao_room_collisions,
  find_telegram_topic_collisions,
}

-- `InMemoryChannelRepository`
pub record Repository : Type 0 where
  pub by_id : Dict MessengerChannel
  pub code_to_id : Dict String

abbrev remember : Option String → String → Dict String → Dict String
remember none id codes = codes
remember (some code) id codes = Dict.put code id codes

unfoldable pub seed : MessengerChannel → Option String → Repository → Repository
seed channel registration_code repo = record {
  by_id = Dict.put channel.id channel repo.by_id;
  code_to_id = remember registration_code channel.id repo.code_to_id;
}

unfoldable pub get_by_registration_code : String → Repository → Option MessengerChannel
get_by_registration_code code repo = elim (Dict.get code repo.code_to_id) [
  | none ↦ none
  | some channel_id ↦ Dict.get channel_id repo.by_id
]

unfoldable pub save : MessengerChannel → Repository → Repository
save channel repo = record repo { by_id = Dict.put channel.id channel repo.by_id }

unfoldable pub active_channels : Repository → List MessengerChannel
active_channels repo = keep (λ c. is_active c.state) (map (λ e. e.1) repo.by_id)

unfoldable pub active_kakao_command_channels : Repository → List MessengerChannel
active_kakao_command_channels repo =
    keep (λ c. is_kakao c.messenger && is_active c.state && c.command_trigger_enabled)
      (map (λ e. e.1) repo.by_id)

abbrev pub with_state : MessengerChannelState → MessengerChannel → MessengerChannel
with_state state channel = record channel { state = state }

pub record RegisterResult : Type 0 where
  pub channel : Option MessengerChannel
  pub registered : Bool
  pub reason : Option String

unfoldable pub already_routed : String → Option String → MessengerChannel → Bool
unfolding normalize_thread_id
already_routed chat thread channel =
    is_text channel.telegram_chat_id chat
    && same_text (normalize_thread_id channel.thread_id) thread
    && not (is_inactive channel.state)

abbrev pub routed : String → Option String → MessengerChannel → MessengerChannel
routed chat thread channel = record channel {
  telegram_chat_id = some chat;
  thread_id = thread;
  state = MessengerChannelState.pending;
}

unfoldable pub register_channel :
    String → Option String → Repository → MessengerChannel → RegisterResult × Repository
unfolding already_routed save
register_channel chat thread repo channel =
    if not (truthy chat)
    then (
      record { channel = some channel; registered = false; reason = some "missing_chat_id" },
      repo,
    )
    else if already_routed chat thread channel
    then (record { channel = some channel; registered = true; reason = none }, repo)
    else (
      record { channel = some (routed chat thread channel); registered = true; reason = none },
      save (routed chat thread channel) repo,
    )

unfoldable pub register :
    String → Option String → Option String → Repository → RegisterResult × Repository
unfolding register_channel get_by_registration_code name_of normalize_thread_id
register code chat_id thread_id repo = elim (get_by_registration_code code repo) [
  | none ↦ (
    record { channel = none; registered = false; reason = some "unknown_registration_code" },
    repo,
  )
  | some channel ↦ register_channel (name_of chat_id) (normalize_thread_id thread_id) repo channel
]

-- The active channels as they would be after the activation.
unfoldable pub prospective : Repository → MessengerChannel → List MessengerChannel
unfolding active_channels
prospective repo channel =
    keep (λ c. not (c.id =ₛ channel.id)) (active_channels repo)
    ++ with_state MessengerChannelState.active channel ∷ []

module _ {ℓ} {E : Type ℓ} where
  -- The transition that a method makes of a stored channel, after its own check.
  unfoldable pub transition :
      MessengerChannelState
      → (MessengerChannel → Option (ChannelError E))
      → String
      → Repository
      → Attempted (ChannelError E) MessengerChannel × Repository
  unfolding save
  transition target check channel_id repo = elim (Dict.get channel_id repo.by_id) [
    | none ↦ (raised (channel_not_found channel_id), repo)
    | some channel ↦
        if not (is_allowed_channel_transition channel.state target)
        then (raised (invalid_channel_transition channel.state target), repo)
        else elim (check channel) [
          | some error ↦ (raised error, repo)
          | none ↦ (returned (with_state target channel), save (with_state target channel) repo)
        ]
  ]

  abbrev test_error : Attempted E (Unit {0}) → Option (ChannelError E)
  test_error (returned _) = none
  test_error (raised exc) = some (test_failed exc)

  -- `send_test` is the caller's; its answer for a channel is a value here.
  unfoldable pub verify :
      (MessengerChannel → Attempted E (Unit {0}))
      → String
      → Repository
      → Attempted (ChannelError E) MessengerChannel × Repository
  unfolding transition
  verify send_test channel_id repo =
      transition MessengerChannelState.verified (λ channel. test_error (send_test channel))
        channel_id repo

  -- `assert_unique_telegram_topics` and `assert_unique_kakao_rooms`
  unfoldable pub uniqueness_error : List MessengerChannel → Messenger → Option (ChannelError E)
  uniqueness_error channels telegram = elim (find_telegram_topic_collisions channels) [
    | none ↦ some empty_telegram_chat_id
    | some [] ↦ none
    | some (_ ∷ _) ↦ some telegram_topic_collision
  ]
  uniqueness_error channels kakao = elim (find_kakao_room_collisions channels) [
    | [] ↦ none
    | _ ∷ _ ↦ some kakao_room_collision
  ]

  unfoldable pub activate :
      String → Repository → Attempted (ChannelError E) MessengerChannel × Repository
  unfolding transition uniqueness_error prospective
  activate channel_id repo =
      transition MessengerChannelState.active
        (λ channel. uniqueness_error (prospective repo channel) channel.messenger) channel_id repo

  unfoldable pub deactivate :
      String → Repository → Attempted (ChannelError E) MessengerChannel × Repository
  unfolding transition
  deactivate channel_id repo =
      transition MessengerChannelState.inactive (λ channel. none) channel_id repo
