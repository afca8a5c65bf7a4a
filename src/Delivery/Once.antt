-- ===== src/Delivery/Once.antt =====
-- The sequence of all deliveries, over callbacks that keep a unique constraint on dedup keys.
use rider_crawl_baemin.Prelude.{
  ℕ, ◌+◌, ◌≤◌, ◌≡◌, ◌≢◌, refl, ◌∙◌, inl, inr, Bool, true, false, List, [], ◌∷◌, arith, Bool-cases,
  String, if◌then◌else◌, ◌=ₛ◌, eq_iff,
}
use rider_crawl_baemin.Delivery.{
  Seams, Request, DeliveryLog, DeliveryAttemptResult, Attempted, returned, raised, key_of,
  after_reserve, deliver_once, after_failure, after_delivery, attempt_delivery,
}
use rider_crawl_baemin.Delivery.KeyStore.{
  IsKeyStore, sent_under, sent_of, IsUnsent, look, HasKey, HoldsIfSent, failure-unsent,
  failure-Keeps, once-Keeps, once-HasKey, once-HoldsIfSent,
}

module _ {ℓ κ} {W : Type ℓ} {E : Type κ} (s : Seams W E) where
  -- The log of a delivery that returned
  abbrev with_log : Attempted E DeliveryAttemptResult → List DeliveryLog → List DeliveryLog
  with_log (returned result) logs = result.log ∷ logs
  with_log (raised exc) logs = logs

  -- A sequence of deliveries, with the logs of those that return.
  unfoldable pub deliver_all : List Request → W → List DeliveryLog × W
  unfolding attempt_delivery
  deliver_all [] w = ([], w)
  deliver_all (r ∷ rs) w =
      let (result, w') = attempt_delivery s r w in
      let (logs, w'') = deliver_all rs w' in (with_log result logs, w'')

  unfoldable pub sent_count : String → List DeliveryLog → ℕ
  sent_count k [] = 0
  sent_count k (log ∷ logs) = sent_under k log + sent_count k logs

  module _ (held : String → W → Bool) (store : IsKeyStore s held) (k : String) where
    abbrev room : W → ℕ
    room w = if held k w then 0 else 1

    -- What one attempt makes of the room for a delivery under the key.
    Spends : W → Attempted E DeliveryAttemptResult → W → Type 0
    Spends w m w' = sent_of s k m + room w' ≤ room w

    room_if : (b : Bool) → (if b then 0 else 1) ≤ 1
    room_if true = omega arith
    room_if false = omega arith

    -- An attempt under another key
    other-Spends :
        (r : Request) (w : W) (m : Attempted E DeliveryLog) (w1 : W)
        → k ≢ key_of s r.job r.collected_at
        → HasKey s held store k (key_of s r.job r.collected_at) m
        → held k w1 ≡ held k w
        → let went = after_delivery s r m w1 in Spends w went.0 went.1
    unfolding after_delivery Spends HasKey look IsUnsent
    other-Spends r w (returned log) w1 n key same = rw same (ground (arith, eq_iff log.dedup_key k))
    other-Spends r w (raised exc) w1 n key same =
        let kept : held k (after_failure s r exc w1).1 ≡ held k w =
          failure-Keeps s held store k r exc n w1 ∙ same in
        rw (failure-unsent s held store k r exc w1, kept) (omega arith)

    -- An attempt under the key while it is free
    free-Spends :
        (r : Request) (w : W) (m : Attempted E DeliveryLog) (w1 : W)
        → held k w ≡ false
        → HoldsIfSent s held store k m w1
        → let went = after_delivery s r m w1 in Spends w went.0 went.1
    unfolding after_delivery Spends HoldsIfSent IsUnsent
    free-Spends r w (returned log) w1 free (inl e) =
        rw (free, e) (omega (arith, room_if (held k w1)))
    free-Spends r w (returned log) w1 free (inr e) = rw (free, e) (ground arith)
    free-Spends r w (raised exc) w1 free h =
        rw (free, failure-unsent s held store k r exc w1)
          (omega (arith, room_if (held k (after_failure s r exc w1).1)))

    -- An attempt under the key while it is held
    held-Spends :
        (r : Request) (w : W)
        → key_of s r.job r.collected_at ≡ k
        → held k w ≡ true
        → let went = attempt_delivery s r w in Spends w went.0 went.1
    unfolding attempt_delivery deliver_once after_reserve after_delivery Spends
    held-Spends r w same h =
        let (id, e) = store.log_id_returns r.job w in
        rw (same, store.reserve_held k w h, e, store.log_id_keeps k r.job w, h) (omega arith)

    each-Spends :
        (r : Request) (w : W) → let went = attempt_delivery s r w in Spends w went.0 went.1
    unfolding attempt_delivery look
    each-Spends r w =
        let key = key_of s r.job r.collected_at in
        let went = deliver_once s r.job r.collected_at r.sent_at w in
        elim (Bool-cases (key =ₛ k)) [
          | inl e ↦
              let same = (eq_iff key k).0 e in
              elim (Bool-cases (held k w)) [
                | inl h ↦ held-Spends r w same h
                | inr h ↦ free-Spends r w went.0 went.1 h (once-HoldsIfSent s held store k r w same)
              ]
          | inr e ↦
              let other : k ≢ key = λ q. ground (arith, eq_iff key k) in
              other-Spends r w went.0 went.1 other (once-HasKey s held store k r w)
                (once-Keeps s held store k r other w)
        ]

    counted :
        (m : Attempted E DeliveryAttemptResult) (logs : List DeliveryLog)
        → sent_count k (with_log m logs) ≡ sent_of s k m + sent_count k logs
    unfolding sent_count
    counted (returned result) logs = refl
    counted (raised exc) logs = omega arith

    sent_le_room : (rs : List Request) (w : W) → sent_count k (deliver_all rs w).0 ≤ room w
    unfolding deliver_all sent_count Spends
    sent_le_room [] w = room_least (held k w)
      where
        room_least : (b : Bool) → 0 ≤ (if b then 0 else 1)
        room_least b = omega arith
    sent_le_room (r ∷ rs) w =
        let went = attempt_delivery s r w in
        omega
          (arith, counted went.0 (deliver_all rs went.1).0, each-Spends r w, sent_le_room rs went.1)

    -- Where the callbacks keep a unique constraint on keys, `reserve` answers for a held key without
    -- raising and the factory of log ids does not raise: in any sequence of deliveries, with any jobs,
    -- failures and retries, and whatever else the callbacks raise, at most one is logged as sent under
    -- a key, and none if the key is held before.
    pub sent-once :
        (rs : List Request) (w : W)
        → sent_count k (deliver_all rs w).0 ≤ (if held k w then 0 else 1)
    sent-once rs w = sent_le_room rs w
