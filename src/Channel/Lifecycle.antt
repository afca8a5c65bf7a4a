-- ===== src/Channel/Lifecycle.antt =====
-- Sequences of registrations, verifications, activations and deactivations of channels.
use rider_crawl_baemin.Prelude.{
  ◌≡◌, refl, sym, ◌⊎◌, inl, inr, false, Option, none, List, [], ◌∷◌, Bool-cases, String,
  Option-cases, truthy,
}
use mathlib.Core.Path.{subst}
use rider_crawl_baemin.Prelude.Dict
use rider_crawl_baemin.Domain.{MessengerChannel, MessengerChannelState}
use rider_crawl_baemin.Delivery.{Attempted}
use rider_crawl_baemin.Channel.{is_active, ChannelError, is_allowed_channel_transition}
use rider_crawl_baemin.Channel.Service.{
  Repository, seed, register, register_channel, verify, activate, deactivate, transition,
  with_state, save, routed, get_by_registration_code, already_routed,
}
use rider_crawl_baemin.Channel.Unique.{IsSound, save-IsSound, activated-IsSound}

-- The operations on the repository, where tests raise values of a type `E`.
pub data ChannelOp {ℓ} (E : Type ℓ) : Type ℓ where
  seeds : MessengerChannel → Option String → ChannelOp E
  registers : String → Option String → Option String → ChannelOp E
  verifies : (MessengerChannel → Attempted E (Unit {0})) → String → ChannelOp E
  activates : String → ChannelOp E
  deactivates : String → ChannelOp E

module _ {ℓ} {E : Type ℓ} where
  unfoldable pub after_op : ChannelOp E → Repository → Repository
  after_op (seeds channel code) repo = seed channel code repo
  after_op (registers code chat thread) repo = (register code chat thread repo).1
  after_op (verifies send_test id) repo = (verify send_test id repo).1
  after_op (activates id) repo = (activate {E = E} id repo).1
  after_op (deactivates id) repo = (deactivate {E = E} id repo).1

  unfoldable pub run_ops : List (ChannelOp E) → Repository → Repository
  run_ops [] repo = repo
  run_ops (op ∷ ops) repo = run_ops ops (after_op op repo)

  -- A channel is provisioned in a state in which nothing is sent to it.
  abbrev pub SeedsIdle : ChannelOp E → Type 0
  SeedsIdle (seeds channel code) = is_active channel.state ≡ false
  SeedsIdle _ = Unit

  abbrev pub AllSeedsIdle : List (ChannelOp E) → Type 0
  AllSeedsIdle [] = Unit
  AllSeedsIdle (op ∷ ops) = SeedsIdle op × AllSeedsIdle ops

  -- What a transition does to the repository: nothing, or it stores the checked channel.
  transition-cases :
      (target : MessengerChannelState) (check : MessengerChannel → Option (ChannelError E))
      (id : String) (repo : Repository)
      → ((transition target check id repo).1 ≡ repo)
        ⊎ ((c : MessengerChannel) × (check c ≡ none)
            × ((transition target check id repo).1 ≡ save (with_state target c) repo))
  unfolding transition
  transition-cases target check id repo = elim (Option-cases (Dict.get id repo.by_id)) [
    | inl e ↦ inl (rw (e, transition) refl)
    | inr (c, e) ↦ elim (Bool-cases (is_allowed_channel_transition c.state target)) [
      | inr f ↦ inl (rw (e, transition) (rw f refl))
      | inl f ↦ elim (Option-cases (check c)) [
        | inl g ↦ inr (c, g, rw (e, transition) (rw f (rw g refl)))
        | inr (error, g) ↦ inl (rw (e, transition) (rw f (rw g refl)))
      ]
    ]
  ]

  transition-IsSound :
      (target : MessengerChannelState) (check : MessengerChannel → Option (ChannelError E))
      (id : String) (repo : Repository)
      → ((c : MessengerChannel) → check c ≡ none → IsSound (save (with_state target c) repo))
      → IsSound repo
      → IsSound (transition target check id repo).1
  transition-IsSound target check id repo kept sound =
      elim (transition-cases target check id repo) [
        | inl e ↦ subst IsSound (sym e) sound
        | inr (c, passed, e) ↦ subst IsSound (sym e) (kept c passed)
      ]

register_channel-IsSound :
    (chat : String) (thread : Option String) (repo : Repository) (c : MessengerChannel)
    → IsSound repo
    → IsSound (register_channel chat thread repo c).1
unfolding register_channel
register_channel-IsSound chat thread repo c sound = elim (Bool-cases (truthy chat)) [
  | inr e ↦ rw e sound
  | inl e ↦ rw e (elim (Bool-cases (already_routed chat thread c)) [
    | inl f ↦ rw f sound
    | inr f ↦ rw f (save-IsSound (routed chat thread c) repo refl sound)
  ])
]

register-IsSound :
    (code : String) (chat thread : Option String) (repo : Repository)
    → IsSound repo
    → IsSound (register code chat thread repo).1
unfolding register
register-IsSound code chat thread repo sound =
    elim (Option-cases (get_by_registration_code code repo)) [
      | inl e ↦ rw (e, register) sound
      | inr (c, e) ↦ rw (e, register) (register_channel-IsSound _ _ repo c sound)
    ]

seed-IsSound :
    (c : MessengerChannel) (code : Option String) (repo : Repository)
    → is_active c.state ≡ false
    → IsSound repo
    → IsSound (seed c code repo)
unfolding seed save
seed-IsSound c code repo idle sound =
    let kept = save-IsSound c repo idle sound in
    record { keyed = kept.keyed; rooms = kept.rooms; topics = kept.topics }

module _ {ℓ} {E : Type ℓ} where
  after_op-IsSound :
      (op : ChannelOp E) (repo : Repository)
      → SeedsIdle op
      → IsSound repo
      → IsSound (after_op op repo)
  unfolding after_op verify activate deactivate
  after_op-IsSound (seeds channel code) repo idle sound = seed-IsSound channel code repo idle sound
  after_op-IsSound (registers code chat thread) repo idle sound =
      register-IsSound code chat thread repo sound
  after_op-IsSound (verifies send_test id) repo idle sound =
      transition-IsSound _ _ id repo (λ c passed. save-IsSound _ repo refl sound) sound
  after_op-IsSound (activates id) repo idle sound =
      transition-IsSound _ _ id repo (λ c passed. activated-IsSound E repo c sound passed) sound
  after_op-IsSound (deactivates id) repo idle sound =
      transition-IsSound _ (λ channel. none) id repo (λ c passed. save-IsSound _ repo refl sound)
        sound

  -- Any sequence of registrations, verifications, activations and deactivations, and of seeds of
  -- channels that are not active, keeps a sound repository sound: no room is shared by two active
  -- Kakao channels and no chat with its thread by two active Telegram channels.
  pub run_ops-IsSound :
      (ops : List (ChannelOp E)) (repo : Repository)
      → AllSeedsIdle ops
      → IsSound repo
      → IsSound (run_ops ops repo)
  unfolding run_ops
  run_ops-IsSound [] repo idle sound = sound
  run_ops-IsSound (op ∷ ops) repo idle sound =
      run_ops-IsSound ops (after_op op repo) idle.1 (after_op-IsSound op repo idle.0 sound)
