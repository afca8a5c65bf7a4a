-- ===== src/Channel/Examples.antt =====
-- A repository of channels, and a message planned for them.
use rider_crawl_baemin.Prelude.{
  ◌≡◌, refl, String, true, false, none, some, List, [], ◌∷◌, map, keep, All,
}
use rider_crawl_baemin.Prelude.Dict
use rider_crawl_baemin.Prelude.Dict.{Dict}
use rider_crawl_baemin.Domain.{kakao, MessengerChannel, MessengerChannelState}
use rider_crawl_baemin.Delivery.{DeliveryRule, Message, DispatchJob, plan, jobs, returned}
use rider_crawl_baemin.Channel.{operational_delivery_rules}
use rider_crawl_baemin.Channel.Service.{Repository}
use rider_crawl_baemin.Channel.Unique.{IsSound}
use rider_crawl_baemin.Channel.Lifecycle.{
  ChannelOp, seeds, verifies, activates, run_ops, run_ops-IsSound,
}
use rider_crawl_baemin.Channel.Operational.{plan-operational, HasActive}

abbrev channel_in : String → MessengerChannelState → MessengerChannel
channel_in id state = record {
  id = id;
  tenant_id = "t1";
  messenger = kakao;
  telegram_chat_id = none;
  thread_id = none;
  kakao_room_name = some "room";
  state = state;
  kakao_chat_id = none;
  command_trigger_enabled = false;
}

abbrev empty : Repository
empty = record { by_id = []; code_to_id = [] }

empty-IsSound : IsSound empty
unfolding Dict.get
empty-IsSound = record {
  keyed = λ k c h. cc;
  rooms = λ k k' c c' s h h' e e'. cc;
  topics = λ k k' c c' s h h' e e'. cc;
}

-- The second channel has the first one's room, so its activation is refused.
abbrev some_ops : List (ChannelOp String)
some_ops =
    seeds (channel_in "c1" MessengerChannelState.pending) (some "code-1")
    ∷ seeds (channel_in "c2" MessengerChannelState.verified) none
    ∷ verifies (λ c. returned tt) "c1"
    ∷ activates "c1"
    ∷ activates "c2"
    ∷ []

run_ops-IsSound_example : IsSound (run_ops some_ops empty)
run_ops-IsSound_example =
    run_ops-IsSound some_ops empty (refl, (refl, (tt, (tt, (tt, tt))))) empty-IsSound

abbrev channels : Dict MessengerChannel
channels =
    ("c1", channel_in "c1" MessengerChannelState.active)
    ∷ ("c2", channel_in "c2" MessengerChannelState.inactive)
    ∷ []

abbrev rule_for : String → DeliveryRule
rule_for channel_id = record {
  id = channel_id;
  target_id = "target-1";
  channel_id = channel_id;
  template_id = "";
  enabled = true;
  send_only_on_change = false;
}

abbrev rules : List DeliveryRule
rules = rule_for "c1" ∷ rule_for "c2" ∷ rule_for "c3" ∷ []

abbrev message : Message
message = record {
  id = "m1";
  snapshot_id = "s1";
  template_version = "1";
  text = "text";
  text_hash = "hash";
  text_redacted_preview = "text";
}

abbrev passed : List DeliveryRule
passed = operational_delivery_rules rules channels

plan-operational_example :
    (js : List DispatchJob) × (plan message passed channels (λ r. r.id) ≡ jobs js)
    × (map (λ j. j.channel_id) js ≡ map (λ r. r.channel_id) (keep (λ r. r.enabled) passed))
    × All (λ j. HasActive message channels (λ r. r.id) j.channel_id) js
plan-operational_example = plan-operational message channels (λ r. r.id) rules
