-- ===== src/Channel/Operational.antt =====
-- The gate in front of the fan-out: jobs go to active channels only.
use rider_crawl_baemin.Prelude.{
  ◌≡◌, refl, ap, inl, inr, true, none, some, List, [], ◌∷◌, map, keep, String, arith, Bool-cases,
  Option-cases, All, keep-All,
}
use rider_crawl_baemin.Prelude.Dict
use rider_crawl_baemin.Prelude.Dict.{Dict}
use rider_crawl_baemin.Domain.{MessengerChannel}
use rider_crawl_baemin.Delivery.{Message, DeliveryRule, DispatchJob, plan, jobs, job_for}
use rider_crawl_baemin.Channel.{
  is_active, operational_delivery_rules, row_operational, is_operational,
}

module _ (message : Message) (channels : Dict MessengerChannel)
    (job_id_for : DeliveryRule → String) where
  -- The rule's channel is there and active.
  pub record HasActive (channel_id : String) : Type 0 where
    pub channel : MessengerChannel
    pub stored : Dict.get channel_id channels ≡ some channel
    pub active : is_active channel.state ≡ true

  has_active : (id : String) → row_operational (Dict.get id channels) ≡ true → HasActive id
  unfolding is_operational
  has_active id h = elim (Option-cases (Dict.get id channels)) [
    | inl e ↦ absurd (no_row e h)
    | inr (c, e) ↦ record { channel = c; stored = e; active = rw e at h }
  ]
    where
      no_row : Dict.get id channels ≡ none → row_operational (Dict.get id channels) ≡ true → ⊥
      no_row e h = ground arith

  plan_more :
      (rule : DeliveryRule) (rules : List DeliveryRule) (c : MessengerChannel)
      (js : List DispatchJob)
      → rule.enabled ≡ true
      → Dict.get rule.channel_id channels ≡ some c
      → plan message rules channels job_id_for ≡ jobs js
      → plan message (rule ∷ rules) channels job_id_for
        ≡ jobs (job_for message rule (job_id_for rule) c ∷ js)
  unfolding plan
  plan_more rule rules c js e found planned = ground arith

  plan_active :
      (rules : List DeliveryRule)
      → All (λ r. row_operational (Dict.get r.channel_id channels) ≡ true) rules
      → (js : List DispatchJob) × (plan message rules channels job_id_for ≡ jobs js)
        × (map (λ j. j.channel_id) js ≡ map (λ r. r.channel_id) (keep (λ r. r.enabled) rules))
        × All (λ j. HasActive j.channel_id) js
  unfolding plan keep
  plan_active [] h = ([], refl, refl, tt)
  plan_active (rule ∷ rules) h =
      let (js, planned, same, act) = plan_active rules h.1 in
      elim (Bool-cases rule.enabled) [
        | inr e ↦ (js, rw (e, plan) planned, rw (e, keep) same, act)
        | inl e ↦
            let there_is = has_active rule.channel_id h.0 in
            (
              job_for message rule (job_id_for rule) there_is.channel ∷ js,
              plan_more rule rules there_is.channel js e there_is.stored planned,
              rw (e, keep) (ap (λ xs. rule.channel_id ∷ xs) same),
              (there_is, act),
            )
      ]

  -- Planned behind the gate, a fan-out never raises `UnknownChannelError`: a rule for a channel that is
  -- not there has no job, as one for an inactive channel. It has one job for each enabled rule that the
  -- gate passes, in their order, and each job's channel is active.
  pub plan-operational :
      (rules : List DeliveryRule)
      → let passed = operational_delivery_rules rules channels in
        (js : List DispatchJob) × (plan message passed channels job_id_for ≡ jobs js)
        × (map (λ j. j.channel_id) js ≡ map (λ r. r.channel_id) (keep (λ r. r.enabled) passed))
        × All (λ j. HasActive j.channel_id) js
  unfolding operational_delivery_rules
  plan-operational rules = plan_active _ (keep-All _ rules)
