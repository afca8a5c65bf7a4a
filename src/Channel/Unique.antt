-- ===== src/Channel/Unique.antt =====
-- No room and no topic is ever shared by two active channels of the repository.
use rider_crawl_baemin.Prelude.{
  ◌≡◌, ◌≢◌, sym, ap, ◌∙◌, ◌⊎◌, inl, inr, Bool, true, false, not, Option, none, some, List, [], ◌∷◌,
  ◌++◌, arith, keep, map, Any, here, there, Bool-cases, String, ◌=ₛ◌, eq_iff,
}
use mathlib.Core.Option.{some-injective}
use rider_crawl_baemin.Prelude.Dict
use rider_crawl_baemin.Prelude.Dict.{Dict, get-put}
use rider_crawl_baemin.Domain.{MessengerChannel, MessengerChannelState}
use rider_crawl_baemin.Channel.{
  is_active, is_kakao, kakao_room, same_route, find_kakao_room_collisions,
  find_telegram_topic_collisions, TelegramRoute,
}
use rider_crawl_baemin.Channel.Groups.{
  telegram_topic, alone, rooms_few, topics_few, texts, text_iff, route_iff,
}
use rider_crawl_baemin.Channel.Service.{
  Repository, prospective, uniqueness_error, with_state, save, active_channels,
}

-- No two channels have the same key.
abbrev pub UniqueBy {ℓ} :
    {K : Type ℓ} → (MessengerChannel → Option K) → Dict MessengerChannel → Type ℓ
UniqueBy {K = K} key d =
    (k k' : String) (c c' : MessengerChannel) (s : K)
    → Dict.get k d ≡ some c
    → Dict.get k' d ≡ some c'
    → key c ≡ some s
    → key c' ≡ some s
    → k ≡ k'

-- Every channel stands under its own id, no room is two active Kakao channels', and no chat with
-- its thread is two active Telegram channels'.
pub record IsSound (repo : Repository) : Type 0 where
  pub keyed : (k : String) (c : MessengerChannel) → Dict.get k repo.by_id ≡ some c → c.id ≡ k
  pub rooms : UniqueBy kakao_room repo.by_id
  pub topics : UniqueBy telegram_topic repo.by_id

module _ {ℓ} {K : Type ℓ} (key : MessengerChannel → Option K) (c : MessengerChannel)
    (d : Dict MessengerChannel) where
  -- What a look-up shows after `put`: the new channel, or an old one under another id.
  shown :
      (id k : String) (x : MessengerChannel)
      → Dict.get k (Dict.put id c d) ≡ some x
      → ((k ≡ id) × (x ≡ c)) ⊎ ((k ≢ id) × (Dict.get k d ≡ some x))
  shown id k x h = elim (Bool-cases (id =ₛ k)) [
    | inl e ↦
        inl
          (sym ((eq_iff id k).0 e), sym (some-injective _ _ (rw e at (sym (get-put id k c d) ∙ h))))
    | inr e ↦ inr (other e, rw e at (sym (get-put id k c d) ∙ h))
  ]
    where
      other : (id =ₛ k) ≡ false → k ≢ id
      other e same = ground (arith, eq_iff id k)

  -- Storing a channel keeps the keys apart, if no other channel has its key.
  put-UniqueBy :
      (id : String)
      → UniqueBy key d
      → ((k : String) (x : MessengerChannel) (s : K)
          → k ≢ id
          → Dict.get k d ≡ some x
          → key x ≡ some s
          → key c ≡ some s
          → ⊥)
      → UniqueBy key (Dict.put id c d)
  put-UniqueBy id u fresh k k' x x' s h h' e e' = elim (shown id k x h) [
    | inl (p, q) ↦ elim (shown id k' x' h') [
      | inl (p', q') ↦ p ∙ sym p'
      | inr (n, f) ↦ absurd (fresh k' x' s n f e' (ap key (sym q) ∙ e))
    ]
    | inr (n, f) ↦ elim (shown id k' x' h') [
      | inl (p', q') ↦ absurd (fresh k x s n f e (ap key (sym q') ∙ e'))
      | inr (n', f') ↦ u k k' x x' s f f' e e'
    ]
  ]

inactive-no_room : (c : MessengerChannel) → is_active c.state ≡ false → kakao_room c ≡ none
unfolding kakao_room
inactive-no_room c h = ground arith

inactive-no_topic : (c : MessengerChannel) → is_active c.state ≡ false → telegram_topic c ≡ none
unfolding telegram_topic
inactive-no_topic c h = ground arith

save-keyed :
    (c : MessengerChannel) (repo : Repository)
    → IsSound repo
    → (k : String) (x : MessengerChannel) → Dict.get k (save c repo).by_id ≡ some x
    → x.id ≡ k
unfolding save
save-keyed c repo sound k x h = elim (shown kakao_room c repo.by_id c.id k x h) [
  | inl (p, q) ↦ ap (λ y. y.id) q ∙ sym p
  | inr (n, f) ↦ sound.keyed k x f
]

-- Storing a channel that is not active keeps the repository sound.
pub save-IsSound :
    (c : MessengerChannel) (repo : Repository)
    → is_active c.state ≡ false
    → IsSound repo
    → IsSound (save c repo)
unfolding save
save-IsSound c repo idle sound = record {
  keyed = save-keyed c repo sound;
  rooms =
      put-UniqueBy kakao_room c repo.by_id c.id sound.rooms
        (λ k x s n f e e'. no_key _ s (sym (inactive-no_room c idle) ∙ e'));
  topics =
      put-UniqueBy telegram_topic c repo.by_id c.id sound.topics
        (λ k x s n f e e'. no_key _ s (sym (inactive-no_topic c idle) ∙ e'));
}
  where
    no_key : (K : Type 0) → (s : K) → none ≡ some s → ⊥
    no_key K s h = cc

there_in_map :
    (k : String) (x : MessengerChannel) (d : Dict MessengerChannel)
    → Dict.get k d ≡ some x
    → Any (λ y. y ≡ x) (map (λ e. e.1) d)
unfolding Dict.get
there_in_map k x [] h = cc
there_in_map k x ((j, y) ∷ d) h = elim (Bool-cases (j =ₛ k)) [
  | inl e ↦ here (some-injective _ _ (rw e at h))
  | inr e ↦ there (there_in_map k x d (rw e at h))
]

there_in_keep :
    (p : MessengerChannel → Bool) (x : MessengerChannel) (xs : List MessengerChannel)
    → p x ≡ true
    → Any (λ y. y ≡ x) xs
    → Any (λ y. y ≡ x) (keep p xs)
unfolding keep
there_in_keep p x [] t h = elim h [ ]
there_in_keep p x (y ∷ ys) t (here h) = rw (ap p h ∙ t) (here h)
there_in_keep p x (y ∷ ys) t (there h) = elim (Bool-cases (p y)) [
  | inl e ↦ rw e (there (there_in_keep p x ys t h))
  | inr e ↦ rw e (there_in_keep p x ys t h)
]

-- The channels that an activation is checked against.
others_of : Repository → MessengerChannel → List MessengerChannel
others_of repo channel = keep (λ c. not (c.id =ₛ channel.id)) (active_channels repo)

is_another :
    (repo : Repository) (c x : MessengerChannel) (k : String)
    → IsSound repo
    → Dict.get k repo.by_id ≡ some x
    → k ≢ c.id
    → is_active x.state ≡ true
    → Any (λ y. y ≡ x) (others_of repo c)
unfolding others_of active_channels
is_another repo c x k sound found n act =
    there_in_keep (λ y. not (y.id =ₛ c.id)) x _ (other (sound.keyed k x found))
      (there_in_keep (λ y. is_active y.state) x _ act (there_in_map k x repo.by_id found))
  where
    other : x.id ≡ k → not (x.id =ₛ c.id) ≡ true
    other e = ground (arith, eq_iff x.id c.id)

room_active :
    (c : MessengerChannel) (s : String)
    → kakao_room c ≡ some s
    → (is_active c.state ≡ true) × (is_kakao c.messenger ≡ true)
unfolding kakao_room
room_active c s h = (ground arith, ground arith)

topic_active :
    (c : MessengerChannel) (s : TelegramRoute)
    → telegram_topic c ≡ some s
    → (is_active c.state ≡ true) × (is_kakao c.messenger ≡ false)
unfolding telegram_topic
topic_active c s h = (ground arith, ground arith)

module _ {ℓ} (E : Type ℓ) (repo : Repository) (c : MessengerChannel) (sound : IsSound repo) where
  abbrev candidate : MessengerChannel
  candidate = with_state MessengerChannelState.active c

  abbrev NoError : Type ℓ
  NoError = uniqueness_error {E = E} (prospective repo c) c.messenger ≡ none

  rooms_checked :
      NoError
      → is_kakao c.messenger ≡ true
      → find_kakao_room_collisions (others_of repo c ++ candidate ∷ []) ≡ []
  unfolding uniqueness_error prospective others_of
  rooms_checked h k = ground arith

  topics_checked :
      NoError
      → is_kakao c.messenger ≡ false
      → find_telegram_topic_collisions (others_of repo c ++ candidate ∷ []) ≡ some []
  unfolding uniqueness_error prospective others_of
  topics_checked h k = ground arith

  -- A channel that passes the check can be stored as active.
  pub activated-IsSound : NoError → IsSound (save candidate repo)
  unfolding save
  activated-IsSound h = record {
    keyed = save-keyed candidate repo sound;
    rooms = put-UniqueBy kakao_room candidate repo.by_id c.id sound.rooms (λ k x s n f e e'.
        alone texts text_iff kakao_room s (others_of repo c) candidate x
          (rooms_few _ (rooms_checked h (room_active candidate s e').1) s) e'
          (is_another repo c x k sound f n (room_active x s e).0) e);
    topics = put-UniqueBy telegram_topic candidate repo.by_id c.id sound.topics (λ k x s n f e e'.
        alone same_route route_iff telegram_topic s (others_of repo c) candidate x
          (topics_few _ (topics_checked h (topic_active candidate s e').1) s) e'
          (is_another repo c x k sound f n (topic_active x s e).0) e);
  }
