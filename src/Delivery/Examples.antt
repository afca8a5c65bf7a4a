-- ===== src/Delivery/Examples.antt =====
-- A set of keys as the unique constraint, and deliveries under it.
use rider_crawl_baemin.Prelude.{
  ◌+◌, ◌==◌, ℕ, ◌≡◌, ◌≢◌, ◌≤◌, refl, String, Bool, true, false, not, List, [], ◌∷◌, map, keep,
  arith, text_in, ◌=ₛ◌, eq_iff, if◌then◌else◌,
}
use rider_crawl_baemin.Domain.{telegram, FailureCategory}
use rider_crawl_baemin.Delivery.{
  key_of, after_reserve, deliver_once, decision_for, release_if, after_failure, after_delivery,
  attempt_delivery, Seams, Request, DispatchJob, Message, Attempted, returned, raised, dispatch_all,
  build_dedup_key,
}
use rider_crawl_baemin.Delivery.KeyStore.{IsKeyStore}
use rider_crawl_baemin.Delivery.Once.{sent-once, deliver_all, sent_count}
use rider_crawl_baemin.Delivery.Isolation.{
  dispatch_all-tries, recorded, report, arguments, arguments_for,
}
use rider_crawl_baemin.Policy.Failure.{decide}
use rider_crawl_baemin.Delivery.Key.{build_dedup_key-inj, has_separator}

abbrev job_to : String → DispatchJob
job_to channel_id = record {
  id = channel_id;
  target_id = "target-1";
  channel_id = channel_id;
  message_id = "m1";
  messenger = telegram;
  template_version = "1";
  message_hash = "hash";
}

abbrev message : Message
message = record {
  id = "m1";
  snapshot_id = "s1";
  template_version = "1";
  text = "text";
  text_hash = "hash";
  text_redacted_preview = "text";
}

-- The channel `down` fails.
abbrev send_text : DispatchJob → String → ℕ → Attempted String (Unit {0}) × ℕ
send_text job text n = (if job.channel_id =ₛ "down" then raised "timeout" else returned tt, n)

abbrev todo : List DispatchJob
todo = job_to "c1" ∷ job_to "down" ∷ job_to "c2" ∷ []

dispatch_all-tries_example :
    let run = dispatch_all (λ e. e) (recorded send_text) message todo (0, []) in
    (map arguments run.1.1 ≡ map (arguments_for message) todo)
    × (run.0 ≡ map (report (λ e. e)) run.1.1)
    × (run.0 ≡ (dispatch_all (λ e. e) send_text message todo 0).0)
    × (run.1.0 ≡ (dispatch_all (λ e. e) send_text message todo 0).1)
dispatch_all-tries_example = dispatch_all-tries (λ e. e) send_text message todo 0

-- The keys that are reserved.
abbrev Keys : Type 0
Keys = List String

-- The key `broken` is a fault of the store.
abbrev reserve : String → Keys → Attempted String Bool × Keys
reserve k keys =
    if text_in k keys
    then (returned false, keys)
    else if k =ₛ "broken"
    then (raised "store", keys)
    else (returned true, k ∷ keys)

abbrev seams : Seams Keys String
seams = record {
  isoformat = λ t. "2026-07-02T00:00:00+00:00";
  reserve = reserve;
  send = λ job keys. (if job.channel_id =ₛ "down" then raised "timeout" else returned tt, keys);
  release = λ k keys. (returned tt, keep (λ j. not (j =ₛ k)) keys);
  classify = λ e keys. (returned FailureCategory.telegram_failure, keys);
  log_id_for = λ job keys. (returned job.id, keys);
}

reserved_holds :
    (k : String) (keys : Keys)
    → (reserve k keys).0 ≡ returned true
    → text_in k (reserve k keys).1 ≡ true
unfolding text_in
reserved_holds k keys h = ground (arith, eq_iff k k)

other_keeps : (k j : String) (keys : Keys) → j ≢ k → text_in j (reserve k keys).1 ≡ text_in j keys
unfolding text_in
other_keeps k j keys n = ground (arith, eq_iff k j)

release_keeps :
    (k j : String) (keys : Keys)
    → j ≢ k
    → text_in j (keep (λ i. not (i =ₛ k)) keys) ≡ text_in j keys
unfolding text_in keep
release_keeps k j [] n = refl
release_keeps k j (i ∷ keys) n = ground (arith, eq_iff i k, eq_iff i j, release_keeps k j keys n)

keys_IsKeyStore : IsKeyStore seams text_in
keys_IsKeyStore = record {
  reserve_held = λ k keys h. rw h refl;
  reserve_holds = reserved_holds;
  reserve_other = λ k j keys n. other_keeps k j keys n;
  send_keeps = λ k job keys. refl;
  classify_keeps = λ k exc keys. refl;
  log_id_keeps = λ k job keys. refl;
  log_id_returns = λ job keys. (job.id, refl);
  release_other = λ k j keys n. release_keeps k j keys n;
}

abbrev request : String → ℕ → Request
request channel_id attempt = record {
  job = job_to channel_id;
  collected_at = 100;
  sent_at = 200;
  attempt = attempt;
  max_attempts = 3;
  base_seconds = 30;
  factor = 2;
  cap_seconds = 900;
}

abbrev requests : List Request
requests = request "c1" 1 ∷ request "down" 1 ∷ request "c1" 2 ∷ request "down" 2 ∷ []

abbrev c1_key : String
c1_key = "target-1|c1|2026-07-02T00:00:00+00:00|1|hash"

sent-once_example :
    sent_count seams c1_key (deliver_all seams requests []).0 ≤ (if text_in c1_key [] then 0 else 1)
sent-once_example = sent-once seams text_in keys_IsKeyStore c1_key requests []

-- A store whose `reserve` also fails for a held key on the second try: the handler releases the key of
-- the delivery that was sent, and the third is sent again.
abbrev flaky : Seams (ℕ × Keys) String
flaky = record {
  isoformat = λ t. "2026-07-02T00:00:00+00:00";
  reserve = λ k w.
      if w.0 == 1
      then (raised "connection", (w.0 + 1, w.1))
      else ((reserve k w.1).0, (w.0 + 1, (reserve k w.1).1));
  send = λ job w. (returned tt, w);
  release = λ k w. (returned tt, (w.0, keep (λ j. not (j =ₛ k)) w.1));
  classify = λ e w. (returned FailureCategory.telegram_failure, w);
  log_id_for = λ job w. (returned job.id, w);
}

sent_again_test :
    sent_count flaky c1_key
      (deliver_all flaky (request "c1" 1 ∷ request "c1" 1 ∷ request "c1" 2 ∷ []) (0, [])).0
    ≡ 2
unfolding sent_count deliver_all attempt_delivery deliver_once key_of after_reserve after_delivery
    after_failure decision_for release_if build_dedup_key decide keep text_in
sent_again_test = refl

c1_built : build_dedup_key "target-1" "c1" "2026-07-02T00:00:00+00:00" "1" "hash" ≡ c1_key
unfolding build_dedup_key
c1_built = refl

abbrev target : String
target = "target-1"

abbrev channel : String
channel = "c1"

abbrev instant : String
instant = "2026-07-02T00:00:00+00:00"

abbrev version : String
version = "1"

abbrev hash : String
hash = "hash"

build_dedup_key-inj_example :
    (target ≡ target)
    × (channel ≡ channel)
    × (instant ≡ instant)
    × (version ≡ version)
    × (hash ≡ hash)
unfolding has_separator
build_dedup_key-inj_example =
    build_dedup_key-inj target target channel channel instant instant version version hash hash refl
      refl refl refl refl refl refl refl refl
