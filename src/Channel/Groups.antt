-- ===== src/Channel/Groups.antt =====
-- Grouping finds every channel that shares a key: the size of a key's group is the number of the
-- channels with that key.
use rider_crawl_baemin.Prelude.{
  ℕ, suc, ◌+◌, ◌<◌, ◌≡◌, refl, sym, ap, ◌∙◌, ◌↔◌, inl, inr, Bool, true, false, Option, none, some,
  List, [], ◌∷◌, ◌++◌, arith, length, keep, if◌then◌else◌, Any, here, there, Bool-cases, String,
  Option-cases, ◌=ₛ◌, eq_iff, same_text,
}
use rider_crawl_baemin.Domain.{MessengerChannel}
use rider_crawl_baemin.Channel.{
  add_to_group, collisions_of, kakao_room, kakao_groups, find_kakao_room_collisions,
  telegram_groups, find_telegram_topic_collisions, from_channel, TelegramRoute, same_route,
  is_active_telegram,
}

module _ {ℓ} {K : Type ℓ} (same : K → K → Bool) where
  -- The number of members of a key's group.
  pub size : K → List (K × List MessengerChannel) → ℕ
  size k [] = 0
  size k ((j, members) ∷ groups) = if same j k then length members else size k groups

  -- The number of channels with a key.
  unfoldable pub count : (MessengerChannel → Option K) → K → List MessengerChannel → ℕ
  count key k [] = 0
  count key k (c ∷ cs) = elim (key c) [
    | none ↦ count key k cs
    | some j ↦ if same j k then suc (count key k cs) else count key k cs
  ]

module _ {ℓ} {K : Type ℓ} (same : K → K → Bool)
    (same_iff : (a c : K) → (same a c ≡ true) ↔ (a ≡ c)) where
  length_snoc :
      (cs : List MessengerChannel) (c : MessengerChannel) → length (cs ++ c ∷ []) ≡ suc (length cs)
  length_snoc [] c = refl
  length_snoc (d ∷ cs) c = ap suc (length_snoc cs c)

  size-add_to_group :
      (k j : K) (c : MessengerChannel) (gs : List (K × List MessengerChannel))
      → size same k (add_to_group same j c gs)
        ≡ (if same j k then suc (size same k gs) else size same k gs)
  unfolding size add_to_group
  size-add_to_group k j c [] = ground arith
  size-add_to_group k j c ((i, members) ∷ gs) = ground (
    arith,
    same_iff i j,
    same_iff i k,
    same_iff j k,
    length_snoc members c,
    size-add_to_group k j c gs,
  )

  collisions_split :
      (j : K) (members : List MessengerChannel) (gs : List (K × List MessengerChannel))
      → collisions_of ((j, members) ∷ gs) ≡ []
      → (length members < 2) × (collisions_of gs ≡ [])
  unfolding collisions_of keep
  collisions_split j members gs h = (ground arith, ground arith)

  size_small :
      (k : K) (gs : List (K × List MessengerChannel)) → collisions_of gs ≡ [] → size same k gs < 2
  unfolding size collisions_of keep
  size_small k [] h = omega arith
  size_small k ((j, members) ∷ gs) h =
      let (few, rest) = collisions_split j members gs h in ground (arith, size_small k gs rest)

  count-append :
      (key : MessengerChannel → Option K) (k : K) (xs ys : List MessengerChannel)
      → count same key k (xs ++ ys) ≡ count same key k xs + count same key k ys
  unfolding count
  count-append key k [] ys = omega arith
  count-append key k (x ∷ xs) ys = ground (arith, count-append key k xs ys)

  pub count_pos :
      (key : MessengerChannel → Option K) (k : K) (xs : List MessengerChannel)
      (c : MessengerChannel)
      → Any (λ x. x ≡ c) xs
      → key c ≡ some k
      → 0 < count same key k xs
  unfolding count
  count_pos key k [] c h e = elim h [ ]
  count_pos key k (x ∷ xs) c (here h) e =
      rw (ap key h ∙ e, count) (rw ((same_iff k k).1 refl) (omega arith))
  count_pos key k (x ∷ xs) c (there h) e = ground (arith, count_pos key k xs c h e)

  -- Where no group is a collision, a key of the last channel is no other channel's.
  pub alone :
      (key : MessengerChannel → Option K) (k : K) (others : List MessengerChannel)
      (last c : MessengerChannel)
      → count same key k (others ++ last ∷ []) < 2
      → key last ≡ some k
      → Any (λ x. x ≡ c) others
      → key c ≡ some k
      → ⊥
  alone key k others last c few e there_is e' =
      let one = count_pos key k (last ∷ []) last (here refl) e in
      let another = count_pos key k others c there_is e' in
      omega (arith, count-append key k others (last ∷ []), one, another, few)

pub text_iff : (a c : String) → ((a =ₛ c) ≡ true) ↔ (a ≡ c)
text_iff a c = eq_iff a c

same_text_iff : (a c : Option String) → (same_text a c ≡ true) ↔ (a ≡ c)
same_text_iff none none = (λ h. refl, λ h. refl)
same_text_iff none (some t) = (λ h. cc, λ h. cc)
same_text_iff (some s) none = (λ h. cc, λ h. cc)
same_text_iff (some s) (some t) = (λ h. ground (arith, eq_iff t s), λ h. ground (arith, eq_iff t s))

pub route_iff : (a c : TelegramRoute) → (same_route a c ≡ true) ↔ (a ≡ c)
route_iff a c = (
  λ h. ground (arith, eq_iff a.chat_id c.chat_id, same_text_iff a.thread_id c.thread_id),
  λ h. ground (arith, eq_iff a.chat_id c.chat_id, same_text_iff a.thread_id c.thread_id),
)

abbrev pub texts : String → String → Bool
texts a c = a =ₛ c

size-kakao_groups :
    (r : String) (cs : List MessengerChannel) (gs : List (String × List MessengerChannel))
    → size texts r (kakao_groups cs gs) ≡ size texts r gs + count texts kakao_room r cs
unfolding kakao_groups count
size-kakao_groups r [] gs = omega arith
size-kakao_groups r (c ∷ cs) gs = elim (Option-cases (kakao_room c)) [
  | inl e ↦ rw (e, kakao_groups, count) (size-kakao_groups r cs gs)
  | inr (room, e) ↦
      rw (e, kakao_groups, count)
        (ground (
          arith,
          size-add_to_group texts text_iff r room c gs,
          size-kakao_groups r cs (add_to_group texts room c gs),
        ))
]

-- The topic of an active Telegram channel.
unfoldable pub telegram_topic : MessengerChannel → Option TelegramRoute
telegram_topic channel = if is_active_telegram channel then from_channel channel else none

-- The loop leaves a channel out, adds it, or raises, as its topic says.
module _ (c : MessengerChannel) (cs : List MessengerChannel)
    (gs : List (TelegramRoute × List MessengerChannel)) where
  groups_skip : is_active_telegram c ≡ false → telegram_groups (c ∷ cs) gs ≡ telegram_groups cs gs
  unfolding telegram_groups
  groups_skip e = ground arith

  groups_raise :
      is_active_telegram c ≡ true → from_channel c ≡ none → telegram_groups (c ∷ cs) gs ≡ none
  unfolding telegram_groups
  groups_raise e f = ground arith

  groups_add :
      (route : TelegramRoute)
      → is_active_telegram c ≡ true
      → from_channel c ≡ some route
      → telegram_groups (c ∷ cs) gs ≡ telegram_groups cs (add_to_group same_route route c gs)
  unfolding telegram_groups
  groups_add route e f = ground arith

  topic_skip : is_active_telegram c ≡ false → telegram_topic c ≡ none
  unfolding telegram_topic
  topic_skip e = rw e refl

  topic_add : is_active_telegram c ≡ true → telegram_topic c ≡ from_channel c
  unfolding telegram_topic
  topic_add e = rw e refl

size-telegram_groups :
    (r : TelegramRoute) (cs : List MessengerChannel)
    (gs gs' : List (TelegramRoute × List MessengerChannel))
    → telegram_groups cs gs ≡ some gs'
    → size same_route r gs' ≡ size same_route r gs + count same_route telegram_topic r cs
unfolding telegram_groups count
size-telegram_groups r [] gs gs' h = ground arith
size-telegram_groups r (c ∷ cs) gs gs' h = elim (Bool-cases (is_active_telegram c)) [
  | inr e ↦
      rw (topic_skip c cs gs e, count)
        (size-telegram_groups r cs gs gs' (sym (groups_skip c cs gs e) ∙ h))
  | inl e ↦ elim (Option-cases (from_channel c)) [
    | inl f ↦ absurd (none≢some _ (sym (groups_raise c cs gs e f) ∙ h))
    | inr (route, f) ↦
        rw (topic_add c cs gs e ∙ f, count)
          (ground (
            arith,
            size-add_to_group same_route route_iff r route c gs,
            size-telegram_groups r cs (add_to_group same_route route c gs) gs'
                (sym (groups_add c cs gs route e f) ∙ h),
          ))
  ]
]
  where
    none≢some : (x : List (TelegramRoute × List MessengerChannel)) → none ≡ some x → ⊥
    none≢some x h = cc

-- Without a collision, a room is at most one active Kakao channel's.
pub rooms_few :
    (cs : List MessengerChannel)
    → find_kakao_room_collisions cs ≡ []
    → (r : String) → count texts kakao_room r cs < 2
unfolding find_kakao_room_collisions size
rooms_few cs h r =
    omega (arith, size-kakao_groups r cs [], size_small texts text_iff r (kakao_groups cs []) h)

-- Without a collision or an empty chat id, a topic is at most one active Telegram channel's.
pub topics_few :
    (cs : List MessengerChannel)
    → find_telegram_topic_collisions cs ≡ some []
    → (r : TelegramRoute) → count same_route telegram_topic r cs < 2
unfolding find_telegram_topic_collisions size
topics_few cs h r = elim (Option-cases (telegram_groups cs [])) [
  | inl e ↦ absurd (ended e h)
  | inr (gs, e) ↦ omega (
    arith,
    size-telegram_groups r cs [] gs e,
    none_yet,
    size_small same_route route_iff r gs (ending gs e),
  )
]
  where
    none_yet : size same_route r [] ≡ 0
    none_yet = refl

    ended : telegram_groups cs [] ≡ none → find_telegram_topic_collisions cs ≡ some [] → ⊥
    ended e h' = ground arith

    ending :
        (gs : List (TelegramRoute × List MessengerChannel))
        → telegram_groups cs [] ≡ some gs
        → collisions_of gs ≡ []
    ending gs e = ground arith
