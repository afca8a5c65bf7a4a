-- ===== src/Kakao/Examples.antt =====
-- A room with one channel and one target, and a memory that is the list of the keys.
use rider_crawl_baemin.Prelude.{
  ◌≤◌, ◌≡◌, refl, ap, subst, String, true, none, some, List, [], ◌∷◌, text_in, =ₛ_refl,
  if◌then◌else◌, arith,
}
use rider_crawl_baemin.Text.{Runtime, upper_ascii, lower_ascii}
use rider_crawl_baemin.Delivery.{Attempted, returned}
use rider_crawl_baemin.Kakao.{
  TextLibrary, InboundEventInput, InboundContext, ChannelView, TargetView, decide_inbound_event,
}
use rider_crawl_baemin.Kakao.Service.{KakaoSeams, InboundJob, rider_lookup, kakao_send}
use rider_crawl_baemin.Kakao.Safe.{IsJustified, decide-IsJustified}
use rider_crawl_baemin.Kakao.Memory.{IsMemory, lookups_made}
use rider_crawl_baemin.Kakao.Once.{lookups-once}

abbrev runtime : Runtime
runtime = record {
  upper = upper_ascii;
  casefold = lower_ascii;
  fromisoformat = λ s. none;
  isoformat = λ t. "";
  sha256_head = λ s. 12345;
}

abbrev library : TextLibrary
library = record { normalize_nfc = λ s. s; lower = lower_ascii; sha256_hex = λ s. s }

abbrev event : InboundEventInput
event = record {
  source = "agent";
  kakao_user_hash_digest = "digest";
  chat_id = "chat-1";
  room_name = "Riders";
  last_log_id = "77";
  command = record { type = "RIDER_CANCEL_RATE_LOOKUP"; name = "Kim"; phone_last4 = "1234" };
}

abbrev channel : ChannelView
channel = record {
  channel_id = "c1";
  tenant_id = "t1";
  messenger = "KAKAO";
  kakao_room_name = some "Riders";
  kakao_chat_id = some "chat-1";
  state = "ACTIVE";
  command_trigger_enabled = true;
}

abbrev target : TargetView
target = record {
  target_id = "m1";
  tenant_id = "t1";
  platform = "BAEMIN";
  platform_account_id = "p1";
  primary_url = "https://example.com";
  expected_display_name = "Center";
  status = "ACTIVE";
  external_id = "";
}

abbrev context : InboundContext
context = record {
  channels = channel ∷ [];
  targets_by_channel = ("c1", target ∷ []) ∷ [];
  sending_enabled = true;
  existing_event_keys = [];
  inactive_tenant_ids = [];
  rate_limited_channel_ids = [];
}

decide-IsJustified_example :
    IsJustified library event context (decide_inbound_event library event context)
decide-IsJustified_example = decide-IsJustified library event context

abbrev enqueue : InboundJob → List String → Attempted (Unit {0}) String × List String
enqueue (rider_lookup target_id payload) keys = (returned "job", payload.origin_event_key ∷ keys)
enqueue (kakao_send room message key) keys = (returned "job", keys)

abbrev seams : KakaoSeams (List String) (Unit {0})
seams = record {
  load_channels = λ keys. channel ∷ [];
  load_targets = λ id keys. target ∷ [];
  sending_enabled = λ keys. true;
  enqueue = enqueue;
  bind_chat_id = none;
  event_seen = some text_in;
  tenant_active = none;
  rate_limited = none;
  already_replied = none;
  observe_decision = none;
  now = 1000;
}

text_in-cons : (k x : String) (xs : List String) → text_in k xs ≡ true → text_in k (x ∷ xs) ≡ true
unfolding text_in
text_in-cons k x xs h = ground arith

text_in-head : (k : String) (xs : List String) → text_in k (k ∷ xs) ≡ true
unfolding text_in
text_in-head k xs = rw (=ₛ_refl k) refl

seams-IsMemory : IsMemory runtime library seams text_in
seams-IsMemory = record {
  asks = refl;
  enqueue_keeps = λ job k w h. enqueued job k w h;
  bind_keeps = λ channel_id chat_id k w h. h;
  observe_keeps = λ observation k w h. h;
  enqueue_remembers = λ target_id payload w w' id e.
      subst (λ keys. text_in payload.origin_event_key keys ≡ true) (ap (λ r. r.1) e)
        (text_in-head payload.origin_event_key w);
}
  where
    enqueued :
        (job : InboundJob) (k : String) (w : List String)
        → text_in k w ≡ true
        → text_in k (enqueue job w).1 ≡ true
    enqueued (rider_lookup target_id payload) k w h = text_in-cons k payload.origin_event_key w h
    enqueued (kakao_send room message key) k w h = h

lookups-once_example :
    lookups_made runtime library seams "sha256:x" (event ∷ event ∷ []) []
    ≤ (if text_in "sha256:x" [] then 0 else 1)
lookups-once_example =
    lookups-once runtime library seams text_in seams-IsMemory "sha256:x" (event ∷ event ∷ []) []
