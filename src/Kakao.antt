-- ===== src/Kakao.antt =====
-- src/rider_server/services/kakao_inbound_event_service.py: commands that riders type in a chat room,
-- the decision on one of them, and the service that carries the decision out.
pub mod Service
pub mod Safe
pub mod Memory
pub mod Carried
pub mod Once
mod Examples
use Prim.Native.Char.{code}
use Prim.Native.String.{◌++◌}
use rider_crawl_baemin.Prelude.{
  ℕ, zero, suc, String, Bool, true, false, not, ◌&&◌, ◌||◌, Option, none, some, List, [], ◌∷◌, keep,
  leb, ◌==◌, ◌=ₛ◌, if◌then◌else◌, text_in, get_or_default, truthy,
}
use rider_crawl_baemin.Prelude.Dict
use rider_crawl_baemin.Prelude.Dict.{Dict}
use rider_crawl_baemin.Text.{strip}

-- The library functions that the decision calls: `unicodedata.normalize("NFC", ...)`, `str.lower` and
-- the hexadecimal SHA-256 digest of a text's UTF-8.
pub record TextLibrary : Type 0 where
  pub normalize_nfc : String → String
  pub lower : String → String
  pub sha256_hex : String → String

pub record InboundCommandInput : Type 0 where
  pub type : String
  pub name : String
  pub phone_last4 : String

pub record InboundEventInput : Type 0 where
  pub source : String
  pub kakao_user_hash_digest : String
  pub chat_id : String
  pub room_name : String
  pub last_log_id : String
  pub command : InboundCommandInput

pub record ChannelView : Type 0 where
  pub channel_id : String
  pub tenant_id : String
  pub messenger : String
  pub kakao_room_name : Option String
  pub kakao_chat_id : Option String
  pub state : String
  pub command_trigger_enabled : Bool

pub record TargetView : Type 0 where
  pub target_id : String
  pub tenant_id : String
  pub platform : String
  pub platform_account_id : String
  pub primary_url : String
  pub expected_display_name : String
  pub status : String
  pub external_id : String

-- The field `in_flight_target_ids` is left out: nothing fills or reads it.
pub record InboundContext : Type 0 where
  pub channels : List ChannelView
  pub targets_by_channel : Dict (List TargetView)
  pub sending_enabled : Bool
  pub existing_event_keys : List String
  pub inactive_tenant_ids : List String
  pub rate_limited_channel_ids : List String

pub data DecisionAction : Type 0 where
  enqueue_lookup duplicate reply reject : DecisionAction

-- The dictionary of a lookup's payload; `expires_at` is set by the service.
pub record LookupPayload : Type 0 where
  pub tenant_id : String
  pub target_id : String
  pub platform : String
  pub platform_account_id : String
  pub primary_url : String
  pub expected_display_name : String
  pub reply_channel_id : String
  pub reply_kakao_room_name : String
  pub origin_event_key : String
  pub command : InboundCommandInput
  pub timeout_seconds : ℕ
  pub external_id : Option String
  pub expires_at : Option String

pub record InboundDecision : Type 0 where
  pub action : DecisionAction
  pub reason : String
  pub channel_id : Option String
  pub tenant_id : Option String
  pub target_id : Option String
  pub origin_event_key : String
  pub job_payload : Option LookupPayload
  pub reply_text : String
  pub reply_kakao_room_name : String
  pub bind_chat_id : String

-- `ACTION_REJECT` with what is known of the channel
abbrev pub rejected : String → Option String → Option String → Option String → InboundDecision
rejected reason channel_id tenant_id target_id = record {
  action = reject;
  reason = reason;
  channel_id = channel_id;
  tenant_id = tenant_id;
  target_id = target_id;
  origin_event_key = "";
  job_payload = none;
  reply_text = "";
  reply_kakao_room_name = "";
  bind_chat_id = "";
}

abbrev pub is_digit : ℕ → Bool
is_digit c = leb b'0' c && leb c b'9'

-- `$` holds at the end of a text and before a last line feed.
abbrev at_end : String → Bool
at_end String.[] = true
at_end (String.◌∷◌ c s) = code c == 10 && not (truthy s)

-- `[0-9]{n}$`
unfoldable pub digits_to_end : ℕ → String → Bool
digits_to_end zero s = at_end s
digits_to_end (suc n) String.[] = false
digits_to_end (suc n) (String.◌∷◌ c s) =
    let rest = digits_to_end n s in if is_digit (code c) then rest else false

-- `UNSUPPORTED_PLATFORM_REPLY` of src/rider_crawl/rider_lookup.py
abbrev pub unsupported_platform_reply : String
unsupported_platform_reply = "라이더 조회 명령은 배민/쿠팡 탭에서만 지원합니다."

module _ (lib : TextLibrary) where
  unfoldable pub normalize_room_name : Option String → String
  normalize_room_name value = strip (lib.normalize_nfc (get_or_default value ""))

  unfoldable pub origin_event_key : InboundEventInput → String
  origin_event_key event =
      let chat_id = strip event.chat_id in
      let scope = if truthy chat_id then chat_id else normalize_room_name (some event.room_name) in
      "sha256:"
      ++ lib.sha256_hex (
          event.source ++ "\n" ++ event.kakao_user_hash_digest ++ "\n" ++ scope ++ "\n"
          ++ event.last_log_id ++ "\n" ++ event.command.type ++ "\n" ++ event.command.name ++ "\n"
          ++ event.command.phone_last4)

  unfoldable pub command_is_valid : InboundCommandInput → Bool
  command_is_valid command =
      command.type =ₛ "RIDER_CANCEL_RATE_LOOKUP"
      && truthy (normalize_room_name (some command.name))
      && digits_to_end 4 command.phone_last4

  -- The test on one channel. A bound channel matches by its chat only.
  unfoldable pub matches : InboundEventInput → ChannelView → Bool
  matches event channel =
      let inbound_chat_id = strip event.chat_id in
      let inbound_room = normalize_room_name (some event.room_name) in
      let stored_chat_id = strip (get_or_default channel.kakao_chat_id "") in
      if not (channel.messenger =ₛ "KAKAO")
      then false
      else if truthy stored_chat_id
      then truthy inbound_chat_id && stored_chat_id =ₛ inbound_chat_id
      else truthy inbound_room && normalize_room_name channel.kakao_room_name =ₛ inbound_room

  unfoldable pub match_channels : InboundEventInput → List ChannelView → List ChannelView
  match_channels event channels = keep (matches event) channels

  abbrev pub is_active_channel : ChannelView → Bool
  is_active_channel channel = channel.state =ₛ "ACTIVE"

  abbrev pub is_active_target : TargetView → Bool
  is_active_target target = target.status =ₛ "ACTIVE"

  -- `target.platform.strip().lower()`
  unfoldable pub platform_of : TargetView → String
  platform_of target = lib.lower (strip target.platform)

  unfoldable pub lookup_payload :
      InboundEventInput → ChannelView → TargetView → String → LookupPayload
  lookup_payload event channel target key = record {
    tenant_id = target.tenant_id;
    target_id = target.target_id;
    platform = platform_of target;
    platform_account_id = target.platform_account_id;
    primary_url = target.primary_url;
    expected_display_name = target.expected_display_name;
    reply_channel_id = channel.channel_id;
    reply_kakao_room_name = get_or_default channel.kakao_room_name "";
    origin_event_key = key;
    command = event.command;
    timeout_seconds = 60;
    external_id = if truthy target.external_id then some target.external_id else none;
    expires_at = none;
  }

  -- The chat to bind an unbound channel to
  unfoldable pub chat_to_bind : InboundEventInput → ChannelView → String
  chat_to_bind event channel =
      if truthy (strip event.chat_id)
      then if truthy (strip (get_or_default channel.kakao_chat_id ""))
        then ""
        else strip event.chat_id
      else ""

  abbrev rejected_at : String → ChannelView → TargetView → InboundDecision
  rejected_at reason channel target =
      rejected reason (some channel.channel_id) (some channel.tenant_id) (some target.target_id)

  unfoldable pub decide_target :
      InboundEventInput → InboundContext → ChannelView → TargetView → InboundDecision
  decide_target event context channel target =
      let key = origin_event_key event in
      if text_in channel.tenant_id context.inactive_tenant_ids
      then rejected_at "tenant_disabled" channel target
      else if not context.sending_enabled
      then rejected_at "sending_disabled" channel target
      else if not (text_in (platform_of target) ("baemin" ∷ "coupang" ∷ []))
      then record {
        action = reply;
        reason = "unsupported_platform";
        channel_id = some channel.channel_id;
        tenant_id = some channel.tenant_id;
        target_id = some target.target_id;
        origin_event_key = key;
        job_payload = none;
        reply_text = unsupported_platform_reply;
        reply_kakao_room_name = get_or_default channel.kakao_room_name "";
        bind_chat_id = chat_to_bind event channel;
      }
      else if text_in channel.channel_id context.rate_limited_channel_ids
      then rejected_at "rate_limited" channel target
      else if text_in key context.existing_event_keys
      then record (rejected_at "" channel target) { action = duplicate; origin_event_key = key }
      else record {
        action = enqueue_lookup;
        reason = "";
        channel_id = some channel.channel_id;
        tenant_id = some channel.tenant_id;
        target_id = some target.target_id;
        origin_event_key = key;
        job_payload = some (lookup_payload event channel target key);
        reply_text = "";
        reply_kakao_room_name = get_or_default channel.kakao_room_name "";
        bind_chat_id = chat_to_bind event channel;
      }

  abbrev pub decide_targets :
      InboundEventInput → InboundContext → ChannelView → List TargetView → InboundDecision
  decide_targets event context channel (target ∷ []) = decide_target event context channel target
  decide_targets event context channel _ =
      rejected "target_unmapped" (some channel.channel_id) (some channel.tenant_id) none

  unfoldable pub decide_channel : InboundEventInput → InboundContext → ChannelView → InboundDecision
  decide_channel event context channel =
      if not channel.command_trigger_enabled
      then rejected "command_disabled" (some channel.channel_id) none none
      else decide_targets event context channel (
          keep is_active_target
            (get_or_default (Dict.get channel.channel_id context.targets_by_channel) []))

  -- No reason to tell apart two active channels: the room counts as unknown.
  abbrev pub decide_channels :
      InboundEventInput → InboundContext → List ChannelView → List ChannelView → InboundDecision
  decide_channels event context [] [] = rejected "unknown_room" none none none
  decide_channels event context (c ∷ cs) [] = rejected "channel_inactive" none none none
  decide_channels event context matched (channel ∷ []) = decide_channel event context channel
  decide_channels event context matched (channel ∷ other ∷ more) =
      rejected "unknown_room" none none none

  unfoldable pub decide_inbound_event : InboundEventInput → InboundContext → InboundDecision
  decide_inbound_event event context =
      let matched = match_channels event context.channels in
      if not (command_is_valid event.command)
      then rejected "invalid_event" none none none
      else decide_channels event context matched (keep is_active_channel matched)
