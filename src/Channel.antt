-- ===== src/Channel.antt =====
-- src/rider_server/services/channel_registration.py: the life of a messenger channel, the gate in
-- front of the fan-out, and the uniqueness of rooms and topics; with the topics of
-- telegram_central_dispatch.py. The repository is the in-memory one.
pub mod Groups
pub mod Unique
pub mod Service
pub mod Lifecycle
pub mod Operational
mod Examples
use rider_crawl_baemin.Prelude.{
  ℕ, String, Bool, true, false, not, ◌&&◌, Option, none, some, List, [], ◌∷◌, ◌++◌, if◌then◌else◌,
  is_text, same_text, truthy, keep, length, leb, map, get_or_default, ◌=ₛ◌, is_none,
}
use rider_crawl_baemin.Prelude.Dict
use rider_crawl_baemin.Prelude.Dict.{Dict}
use rider_crawl_baemin.Text.{strip}
use rider_crawl_baemin.Domain.{Messenger, telegram, kakao, MessengerChannel, MessengerChannelState}
use rider_crawl_baemin.Delivery.{DeliveryRule}

-- `ALLOWED_CHANNEL_TRANSITIONS`
unfoldable pub is_allowed_channel_transition : MessengerChannelState → MessengerChannelState → Bool
is_allowed_channel_transition MessengerChannelState.pending MessengerChannelState.verified = true
is_allowed_channel_transition MessengerChannelState.pending MessengerChannelState.inactive = true
is_allowed_channel_transition MessengerChannelState.verified MessengerChannelState.active = true
is_allowed_channel_transition MessengerChannelState.verified MessengerChannelState.inactive = true
is_allowed_channel_transition MessengerChannelState.active MessengerChannelState.inactive = true
is_allowed_channel_transition MessengerChannelState.inactive MessengerChannelState.pending = true
is_allowed_channel_transition _ _ = false

abbrev pub is_active : MessengerChannelState → Bool
is_active MessengerChannelState.active = true
is_active _ = false

abbrev pub is_inactive : MessengerChannelState → Bool
is_inactive MessengerChannelState.inactive = true
is_inactive _ = false

abbrev pub is_kakao : Messenger → Bool
is_kakao kakao = true
is_kakao telegram = false

unfoldable pub is_operational : MessengerChannel → Bool
is_operational channel = is_active channel.state

unfoldable pub operational_channels : List MessengerChannel → List MessengerChannel
unfolding is_operational
operational_channels channels = keep is_operational channels

abbrev row_operational : Option MessengerChannel → Bool
row_operational none = false
row_operational (some channel) = is_operational channel

unfoldable pub operational_delivery_rules :
    List DeliveryRule → Dict MessengerChannel → List DeliveryRule
unfolding is_operational
operational_delivery_rules rules channels =
    keep (λ rule. row_operational (Dict.get rule.channel_id channels)) rules

-- `text or None`
abbrev pub or_none : String → Option String
or_none text = if truthy text then some text else none

unfoldable pub normalize_thread_id : Option String → Option String
unfolding strip
normalize_thread_id none = none
normalize_thread_id (some raw) = or_none (strip raw)

-- What a check or an operation raises. `test_failed` is what `send_test` raised.
pub data ChannelError {ℓ} (E : Type ℓ) : Type ℓ where
  invalid_channel_transition : MessengerChannelState → MessengerChannelState → ChannelError E
  channel_not_found : String → ChannelError E
  empty_telegram_chat_id : ChannelError E
  telegram_topic_collision : ChannelError E
  kakao_room_collision : ChannelError E
  test_failed : E → ChannelError E

-- `None`, a text that is empty or blank: no name
unfoldable pub name_of : Option String → String
unfolding strip
name_of raw = strip (get_or_default raw "")

pub record TelegramRoute : Type 0 where
  pub chat_id : String
  pub thread_id : Option String

-- `TelegramRoute.from_channel` of a Telegram channel; `none` is the `ValueError`.
unfoldable pub from_channel : MessengerChannel → Option TelegramRoute
unfolding name_of normalize_thread_id
from_channel channel =
    let chat_id = name_of channel.telegram_chat_id in
    if truthy chat_id
    then some (record { chat_id = chat_id; thread_id = normalize_thread_id channel.thread_id })
    else none

abbrev pub same_route : TelegramRoute → TelegramRoute → Bool
same_route a b = (a.chat_id =ₛ b.chat_id) && same_text a.thread_id b.thread_id

-- `groups.setdefault(key, []).append(channel)`
unfoldable pub add_to_group {ℓ} :
    {K : Type ℓ}
    → (K → K → Bool)
    → K
    → MessengerChannel
    → List (K × List MessengerChannel)
    → List (K × List MessengerChannel)
add_to_group same key channel [] = (key, channel ∷ []) ∷ []
add_to_group same key channel ((k, members) ∷ groups) =
    if same k key
    then (k, members ++ channel ∷ []) ∷ groups
    else (k, members) ∷ add_to_group same key channel groups

-- `[(key, members) for key, members in groups.items() if len(members) >= 2]`
unfoldable pub collisions_of {ℓ} :
    {K : Type ℓ} → List (K × List MessengerChannel) → List (K × List MessengerChannel)
collisions_of groups = keep (λ g. leb 2 (length g.1)) groups

abbrev is_active_kakao : MessengerChannel → Bool
is_active_kakao channel = is_kakao channel.messenger && is_active channel.state

abbrev is_active_telegram : MessengerChannel → Bool
is_active_telegram channel = not (is_kakao channel.messenger) && is_active channel.state

-- The room by which a channel is grouped, if it is grouped at all.
unfoldable pub kakao_room : MessengerChannel → Option String
unfolding name_of
kakao_room channel =
    if is_active_kakao channel then or_none (name_of channel.kakao_room_name) else none

kakao_groups :
    List MessengerChannel
    → List (String × List MessengerChannel)
    → List (String × List MessengerChannel)
unfolding kakao_room add_to_group
kakao_groups [] groups = groups
kakao_groups (channel ∷ channels) groups = elim (kakao_room channel) [
  | none ↦ kakao_groups channels groups
  | some room ↦ kakao_groups channels (add_to_group (λ a b. a =ₛ b) room channel groups)
]

unfoldable pub find_kakao_room_collisions :
    List MessengerChannel → List (String × List MessengerChannel)
unfolding kakao_groups collisions_of
find_kakao_room_collisions channels = collisions_of (kakao_groups channels [])

-- `none` is the `ValueError` of an active Telegram channel without a chat id.
telegram_groups :
    List MessengerChannel
    → List (TelegramRoute × List MessengerChannel)
    → Option (List (TelegramRoute × List MessengerChannel))
unfolding from_channel add_to_group
telegram_groups [] groups = some groups
telegram_groups (channel ∷ channels) groups =
    if is_active_telegram channel
    then elim (from_channel channel) [
      | none ↦ none
      | some route ↦ telegram_groups channels (add_to_group same_route route channel groups)
    ]
    else telegram_groups channels groups

unfoldable pub find_telegram_topic_collisions :
    List MessengerChannel → Option (List (TelegramRoute × List MessengerChannel))
unfolding telegram_groups collisions_of
find_telegram_topic_collisions channels = elim (telegram_groups channels []) [
  | none ↦ none
  | some groups ↦ some (collisions_of groups)
]
