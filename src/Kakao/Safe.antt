-- ===== src/Kakao/Safe.antt =====
-- When an inbound command becomes a lookup.
use rider_crawl_baemin.Prelude.{
  Bool, true, false, ◌≡◌, refl, some, List, [], ◌∷◌, keep, Bool-cases, inl, inr, text_in,
  get_or_default,
}
use rider_crawl_baemin.Prelude.Dict
use rider_crawl_baemin.Kakao.{
  TextLibrary, InboundEventInput, InboundContext, InboundDecision, DecisionAction, enqueue_lookup,
  duplicate, reply, reject, ChannelView, TargetView, origin_event_key, command_is_valid,
  match_channels, is_active_channel, is_active_target, decide_inbound_event, decide_channels,
  decide_channel, decide_targets, decide_target, platform_of, lookup_payload,
}

module _ (lib : TextLibrary) (event : InboundEventInput) (context : InboundContext) where
  -- The targets of a channel that are active
  abbrev pub active_targets : ChannelView → List TargetView
  active_targets channel =
      keep (is_active_target lib)
        (get_or_default (Dict.get channel.channel_id context.targets_by_channel) [])

  -- The gates that stand before the test on the platform
  abbrev pub IsOpen : ChannelView → TargetView → Type 0
  IsOpen channel target =
      (command_is_valid lib event.command ≡ true)
      × (keep (is_active_channel lib) (match_channels lib event context.channels) ≡ channel ∷ [])
      × (channel.command_trigger_enabled ≡ true)
      × (active_targets channel ≡ target ∷ [])
      × (text_in channel.tenant_id context.inactive_tenant_ids ≡ false)
      × (context.sending_enabled ≡ true)

  abbrev pub is_supported : TargetView → Bool
  is_supported target = text_in (platform_of lib target) ("baemin" ∷ "coupang" ∷ [])

  -- The one active channel of the room takes commands, its one active target is on a platform that is
  -- supported, no gate is shut, and the event is new.
  abbrev pub IsAdmitted : InboundDecision → ChannelView → TargetView → Type 0
  IsAdmitted decision channel target =
      IsOpen channel target
      × (is_supported target ≡ true)
      × (text_in channel.channel_id context.rate_limited_channel_ids ≡ false)
      × (text_in (origin_event_key lib event) context.existing_event_keys ≡ false)
      × (decision.origin_event_key ≡ origin_event_key lib event)
      × (decision.job_payload
          ≡ some (lookup_payload lib event channel target (origin_event_key lib event)))

  -- What each action of a decision requires
  abbrev pub Requires : InboundDecision → DecisionAction → Type 0
  Requires decision enqueue_lookup =
      (channel : ChannelView) × (target : TargetView) × IsAdmitted decision channel target
  Requires decision duplicate =
      (channel : ChannelView) × (target : TargetView) × IsOpen channel target
      × (is_supported target ≡ true)
      × (text_in channel.channel_id context.rate_limited_channel_ids ≡ false)
      × (text_in (origin_event_key lib event) context.existing_event_keys ≡ true)
  Requires decision reply =
      (channel : ChannelView) × (target : TargetView) × IsOpen channel target
      × (is_supported target ≡ false)
  Requires decision reject = Unit

  abbrev pub IsJustified : InboundDecision → Type 0
  IsJustified decision = Requires decision decision.action

  decide_target-IsJustified :
      (channel : ChannelView) (target : TargetView)
      → command_is_valid lib event.command ≡ true
      → keep (is_active_channel lib) (match_channels lib event context.channels) ≡ channel ∷ []
      → channel.command_trigger_enabled ≡ true
      → active_targets channel ≡ target ∷ []
      → IsJustified (decide_target lib event context channel target)
  unfolding decide_target
  decide_target-IsJustified channel target valid one trigger only =
      elim (Bool-cases (text_in channel.tenant_id context.inactive_tenant_ids)) [
        | inl e ↦ rw e tt
        | inr e ↦ rw e (elim (Bool-cases context.sending_enabled) [
          | inr s ↦ simp s tt
          | inl s ↦
              simp s
                (elim (Bool-cases (text_in (platform_of lib target) ("baemin" ∷ "coupang" ∷ []))) [
                  | inr p ↦ rw p (channel, target, (valid, one, trigger, only, e, s), p)
                  | inl p ↦
                      rw p
                        (elim (Bool-cases
                          (text_in channel.channel_id context.rate_limited_channel_ids)) [
                            | inl r ↦ rw r tt
                            | inr r ↦
                                rw r
                                  (elim (Bool-cases (
                                    text_in (origin_event_key lib event)
                                      context.existing_event_keys)) [
                                        | inl k ↦ rw k (
                                          channel,
                                          target,
                                          (valid, one, trigger, only, e, s),
                                          p,
                                          r,
                                          k,
                                        )
                                        | inr k ↦ rw k (
                                          channel,
                                          target,
                                          ((valid, one, trigger, only, e, s), p, r, k, refl, refl),
                                        )
                                      ])
                          ])
                ])
        ])
      ]

  decide_targets-IsJustified :
      (channel : ChannelView) (targets : List TargetView)
      → command_is_valid lib event.command ≡ true
      → keep (is_active_channel lib) (match_channels lib event context.channels) ≡ channel ∷ []
      → channel.command_trigger_enabled ≡ true
      → active_targets channel ≡ targets
      → IsJustified (decide_targets lib event context channel targets)
  decide_targets-IsJustified channel [] valid one trigger only = tt
  decide_targets-IsJustified channel (target ∷ []) valid one trigger only =
      decide_target-IsJustified channel target valid one trigger only
  decide_targets-IsJustified channel (target ∷ other ∷ more) valid one trigger only = tt

  decide_channel-IsJustified :
      (channel : ChannelView)
      → command_is_valid lib event.command ≡ true
      → keep (is_active_channel lib) (match_channels lib event context.channels) ≡ channel ∷ []
      → IsJustified (decide_channel lib event context channel)
  unfolding decide_channel
  decide_channel-IsJustified channel valid one = elim (Bool-cases channel.command_trigger_enabled) [
    | inr e ↦ simp e tt
    | inl e ↦ simp e (decide_targets-IsJustified channel _ valid one e refl)
  ]

  decide_channels-IsJustified :
      (matched active : List ChannelView)
      → command_is_valid lib event.command ≡ true
      → keep (is_active_channel lib) (match_channels lib event context.channels) ≡ active
      → IsJustified (decide_channels lib event context matched active)
  decide_channels-IsJustified [] [] valid one = tt
  decide_channels-IsJustified (c ∷ cs) [] valid one = tt
  decide_channels-IsJustified [] (channel ∷ []) valid one =
      decide_channel-IsJustified channel valid one
  decide_channels-IsJustified (c ∷ cs) (channel ∷ []) valid one =
      decide_channel-IsJustified channel valid one
  decide_channels-IsJustified [] (channel ∷ other ∷ more) valid one = tt
  decide_channels-IsJustified (c ∷ cs) (channel ∷ other ∷ more) valid one = tt

  -- Every decision on an inbound command is justified. A lookup, a duplicate and a reply each need a
  -- valid command, exactly one active channel of the room that takes commands, exactly one active
  -- target, an active tenant and sending switched on. A reply then needs a platform that is not
  -- supported; a lookup and a duplicate need a supported one and no rate limit, a lookup a new event
  -- key and a duplicate a known one.
  pub decide-IsJustified : IsJustified (decide_inbound_event lib event context)
  unfolding decide_inbound_event
  decide-IsJustified = elim (Bool-cases (command_is_valid lib event.command)) [
    | inr e ↦ simp e tt
    | inl e ↦ rw e (decide_channels-IsJustified _ _ e refl)
  ]
