-- ===== src/Kakao/Once.antt =====
-- One lookup for one event: what the memory of event keys gives to the sequence of all events.
use rider_crawl_baemin.Prelude.{
  ℕ, ◌+◌, ◌≤◌, String, Bool, true, false, ◌&&◌, ◌≡◌, refl, ◌∙◌, sym, subst, ap, none, List, [], ◌∷◌,
  keep, bit, ◌=ₛ◌, =ₛ_refl, eq_iff, text_in, arith, false≢true, if◌then◌else◌,
}
use rider_crawl_baemin.Prelude.Dict
use rider_crawl_baemin.Text.{Runtime}
use rider_crawl_baemin.Kakao.{
  TextLibrary, InboundEventInput, ChannelView, TargetView, origin_event_key, command_is_valid,
  match_channels, is_active_channel, is_active_target, decide_inbound_event,
}
use rider_crawl_baemin.Kakao.Safe.{IsOpen, decide-IsJustified}
use rider_crawl_baemin.Kakao.Service.{
  KakaoSeams, only_if, channel_context, loaded_context, build_context, carry_out, handle,
}
use rider_crawl_baemin.Kakao.Memory.{is_new, lookups_made, IsMemory}
use rider_crawl_baemin.Kakao.Safe.{active_targets}
use rider_crawl_baemin.Kakao.Carried.{new-IsAdmitted, carry_out-Keeps}

and_left : (a b : Bool) → (a && b) ≡ true → a ≡ true
and_left a b e = ground arith

and_right : (a b : Bool) → (a && b) ≡ true → b ≡ true
and_right a b e = ground arith

module _ {ℓ κ} {W : Type ℓ} {E : Type κ} (rt : Runtime) (lib : TextLibrary) (seams : KakaoSeams W E)
    (seen : String → W → Bool) (memory : IsMemory rt lib seams seen) where
  loaded_channels :
      (event : InboundEventInput) (channels active : List ChannelView) (w : W)
      → (loaded_context rt lib seams event channels active w).channels ≡ channels
  unfolding channel_context
  loaded_channels event channels [] w = refl
  loaded_channels event channels (c ∷ []) w = refl
  loaded_channels event channels (c ∷ d ∷ cs) w = refl

  text_in-only_if : (b : Bool) (k : String) → text_in k (only_if b k) ≡ b
  unfolding text_in
  text_in-only_if true k = rw (=ₛ_refl k) refl
  text_in-only_if false k = refl

  channel_fresh :
      (event : InboundEventInput) (channels : List ChannelView) (channel : ChannelView)
      (target : TargetView) (w : W)
      → active_targets lib event (channel_context rt lib seams event channels channel w) channel
        ≡ target ∷ []
      → text_in
          (origin_event_key lib event)
          (channel_context rt lib seams event channels channel w).existing_event_keys
        ≡ false
      → seen (origin_event_key lib event) w ≡ false
  unfolding channel_context Dict.get
  channel_fresh event channels channel target w only fresh =
      let key = origin_event_key lib event in
      let loaded : keep (is_active_target lib) (seams.load_targets channel.channel_id w)
          ≡ target ∷ [] =
        rw (=ₛ_refl channel.channel_id) at only in
      let known = rw memory.asks at (rw loaded at fresh) in
      sym (text_in-only_if (seen key w) key) ∙ known

  build_valid :
      (event : InboundEventInput) (w : W)
      → command_is_valid lib event.command ≡ true
      → let channels = seams.load_channels w in
        build_context rt lib seams event w
        ≡ loaded_context rt lib seams event channels
            (keep (is_active_channel lib) (match_channels lib event channels))
            w
  unfolding build_context
  build_valid event w valid = rw valid refl

  -- A key that the context of an open command lacks is not known.
  context_fresh :
      (event : InboundEventInput) (w : W) (channel : ChannelView) (target : TargetView)
      → IsOpen lib event (build_context rt lib seams event w) channel target
      → text_in
          (origin_event_key lib event)
          (build_context rt lib seams event w).existing_event_keys
        ≡ false
      → seen (origin_event_key lib event) w ≡ false
  context_fresh event w channel target gates fresh =
      let channels = seams.load_channels w in
      let built = build_valid event w gates.0 in
      let same = ap (λ c. c.channels) built ∙ loaded_channels event channels _ w in
      let one =
        ap (λ cs. keep (is_active_channel lib) (match_channels lib event cs)) (sym same)
        ∙ gates.1 in
      let at_channel = built ∙ ap (λ cs. loaded_context rt lib seams event channels cs w) one in
      channel_fresh event channels channel target w
        (subst (λ c. active_targets lib event c channel ≡ target ∷ []) at_channel gates.3)
        (subst (λ c. text_in (origin_event_key lib event) c.existing_event_keys ≡ false) at_channel
          fresh)

  -- What is left of the one lookup under a key
  abbrev left : Bool → ℕ
  left known = if known then 0 else 1

  spends :
      (new before after : Bool)
      → (before ≡ true → after ≡ true)
      → (new ≡ true → (before ≡ false) × (after ≡ true))
      → bit new + left after ≤ left before
  spends true true after keeps marks = absurd (false≢true (sym (marks refl).0))
  spends true false true keeps marks = omega arith
  spends true false false keeps marks = absurd (false≢true (marks refl).1)
  spends false true true keeps marks = omega arith
  spends false true false keeps marks = absurd (false≢true (keeps refl))
  spends false false true keeps marks = omega arith
  spends false false false keeps marks = omega arith

  handle_spends :
      (k : String) (event : InboundEventInput) (w : W)
      → let (done, w') = handle rt lib seams event none w in
        bit (is_new done && origin_event_key lib event =ₛ k) + left (seen k w') ≤ left (seen k w)
  unfolding handle
  handle_spends k event w =
      let context = build_context rt lib seams event w in
      let decision = decide_inbound_event lib event context in
      let key = origin_event_key lib event in
      spends _ (seen k w) _
        (λ e. carry_out-Keeps rt lib seams seen memory event decision decision.action k w e)
        (λ e.
          let same = (eq_iff key k).0 (and_right _ _ e) in
          let made =
            new-IsAdmitted rt lib seams seen memory event decision context decision.action
              (decide-IsJustified lib event context) w (and_left _ _ e) in
          let (channel, target, admitted) = made.0 in
          (
            subst (λ j. seen j w ≡ false) same
                (context_fresh event w channel target admitted.0 admitted.3),
            subst
                (λ j.
                  seen j (carry_out rt lib seams event decision decision.action none w).1 ≡ true)
                same made.1,
          ))

  -- Under such a memory, any sequence of events makes at most one lookup under a key, and none if the
  -- key was known before.
  pub lookups-once :
      (k : String) (events : List InboundEventInput) (w : W)
      → lookups_made rt lib seams k events w ≤ (if seen k w then 0 else 1)
  unfolding lookups_made
  lookups-once k [] w = ground arith
  lookups-once k (event ∷ events) w =
      omega
        (arith, handle_spends k event w, lookups-once k events (handle rt lib seams event none w).1)
