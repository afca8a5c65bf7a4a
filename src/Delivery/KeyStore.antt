-- ===== src/Delivery/KeyStore.antt =====
-- A unique constraint on dedup keys, and what one delivery over it does to a key.
use rider_crawl_baemin.Prelude.{
  ℕ, ◌≡◌, ◌≢◌, ◌⊎◌, refl, ◌∙◌, inl, inr, Bool, true, false, ◌&&◌, arith, String, if◌then◌else◌,
  ◌=ₛ◌,
}
use rider_crawl_baemin.Domain.{DeliveryStatus, FailureCategory}
use rider_crawl_baemin.Policy.Failure.{decide}
use rider_crawl_baemin.Delivery.{
  Seams, Request, DispatchJob, DeliveryLog, DeliveryAttemptResult, Attempted, returned, raised,
  ◌>>=◌, pure, key_of, after_reserve, deliver_once, decision_for, release_if, after_failure,
}
use rider_crawl_baemin.Delivery.Calls.{Yields, Keeps, bind-Yields, bind-Keeps, bind-Ends}

-- What the callbacks promise: a unique constraint on keys. A held key is not reserved again, and
-- `reserve` says so by `False`. A key that it reserves is held from then on; it may also raise. The
-- other callbacks change no key but a release its own, and the factory of log ids does not raise.
pub record IsKeyStore {ℓ κ} {W : Type ℓ} {E : Type κ} (s : Seams W E) (held : String → W → Bool)
    : Type (ℓ ⊔ κ) where
  pub reserve_held : (k : String) (w : W) → held k w ≡ true → s.reserve k w ≡ (returned false, w)
  pub reserve_holds :
      (k : String) (w : W) → (s.reserve k w).0 ≡ returned true → held k (s.reserve k w).1 ≡ true
  pub reserve_other : (k j : String) (w : W) → j ≢ k → held j (s.reserve k w).1 ≡ held j w
  pub send_keeps : (k : String) (job : DispatchJob) (w : W) → held k (s.send job w).1 ≡ held k w
  pub classify_keeps : (k : String) (exc : E) (w : W) → held k (s.classify exc w).1 ≡ held k w
  pub log_id_keeps :
      (k : String) (job : DispatchJob) (w : W) → held k (s.log_id_for job w).1 ≡ held k w
  pub log_id_returns :
      (job : DispatchJob) (w : W) → (id : String) × ((s.log_id_for job w).0 ≡ returned id)
  pub release_other : (k j : String) (w : W) → j ≢ k → held j (s.release k w).1 ≡ held j w

abbrev pub is_sent : DeliveryStatus → Bool
is_sent DeliveryStatus.sent = true
is_sent _ = false

-- A delivery that `attempt_delivery` logs as sent under a key.
abbrev pub sent_under : String → DeliveryLog → ℕ
sent_under k log = if is_sent log.status && log.dedup_key =ₛ k then 1 else 0

decide-not_sent :
    (category : FailureCategory) (attempt max_attempts base factor cap : ℕ)
    → is_sent (decide category attempt max_attempts base factor cap).status ≡ false
unfolding decide
decide-not_sent category attempt max_attempts base factor cap = ground arith

module _ {ℓ κ} {W : Type ℓ} {E : Type κ} (s : Seams W E) where
  abbrev pub sent_of : String → Attempted E DeliveryAttemptResult → ℕ
  sent_of k (returned result) = sent_under k result.log
  sent_of k (raised exc) = 0

  module _ (held : String → W → Bool) (store : IsKeyStore s held) (k : String) where
    unfoldable pub IsUnsent : Attempted E DeliveryAttemptResult → Type 0
    IsUnsent m = sent_of k m ≡ 0

    -- A handled failure logs nothing as sent.
    pub failure-unsent : (r : Request) (exc : E) (w : W) → sent_of k (after_failure s r exc w).0 ≡ 0
    unfolding after_failure decision_for IsUnsent
    failure-unsent r exc =
        bind-Yields IsUnsent (s.classify exc) _ (λ later. refl)
          (λ category.
            bind-Yields IsUnsent
              (release_if s (decision_for s r category).should_retry
                (key_of s r.job r.collected_at))
              _ (λ later. refl)
              (λ done.
                bind-Yields IsUnsent (s.log_id_for r.job) _ (λ later. refl)
                  (λ id w.
                    rw
                      (decide-not_sent category r.attempt r.max_attempts r.base_seconds r.factor
                        r.cap_seconds)
                      refl)))

    unfoldable pub look : W → Bool
    look w = held k w

    release_if-Keeps : (retry : Bool) (key : String) → k ≢ key → Keeps look (release_if s retry key)
    unfolding release_if look
    release_if-Keeps true key n w = store.release_other key k w n
    release_if-Keeps false key n w = refl

    pure-Keeps : {A : Type 0} (a : A) → Keeps look (pure {X = E} a)
    pure-Keeps a w = refl

    log-Keeps :
        {A : Type 0} (job : DispatchJob) (f : String → A)
        → Keeps look (s.log_id_for job >>= λ id. pure (f id))
    unfolding look
    log-Keeps job f =
        bind-Keeps look (s.log_id_for job) (λ id. pure (f id)) (λ w. store.log_id_keeps k job w)
          (λ id. pure-Keeps (f id))

    pub failure-Keeps :
        (r : Request) (exc : E)
        → k ≢ key_of s r.job r.collected_at
        → Keeps look (after_failure s r exc)
    unfolding after_failure look
    failure-Keeps r exc n =
        bind-Keeps look (s.classify exc) _ (λ w. store.classify_keeps k exc w)
          (λ category.
            bind-Keeps look
              (release_if s (decision_for s r category).should_retry
                (key_of s r.job r.collected_at))
              _
              (release_if-Keeps (decision_for s r category).should_retry
                (key_of s r.job r.collected_at) n)
              (λ done. log-Keeps r.job _))

    after_reserve-Keeps :
        (job : DispatchJob) (key : String) (sent_at : ℕ) (fresh : Bool)
        → Keeps look (after_reserve s job key sent_at fresh)
    unfolding after_reserve look
    after_reserve-Keeps job key sent_at false = log-Keeps job _
    after_reserve-Keeps job key sent_at true =
        bind-Keeps look (s.send job) _ (λ w. store.send_keeps k job w) (λ done. log-Keeps job _)

    pub once-Keeps :
        (r : Request)
        → k ≢ key_of s r.job r.collected_at
        → Keeps look (deliver_once s r.job r.collected_at r.sent_at)
    unfolding deliver_once look
    once-Keeps r n =
        let key = key_of s r.job r.collected_at in
        bind-Keeps look (s.reserve key) _ (λ w. store.reserve_other key k w n)
          (after_reserve-Keeps r.job key r.sent_at)

    -- The log is of this key.
    unfoldable pub HasKey : String → Attempted E DeliveryLog → Type 0
    HasKey key (returned log) = log.dedup_key ≡ key
    HasKey key (raised exc) = Unit

    log-HasKey :
        (job : DispatchJob) (key : String) (f : String → DeliveryLog)
        → ((id : String) → (f id).dedup_key ≡ key)
        → Yields (HasKey key) (s.log_id_for job >>= λ id. pure (f id))
    unfolding HasKey
    log-HasKey job key f h =
        bind-Yields (HasKey key) (s.log_id_for job) (λ id. pure (f id)) (λ exc. tt) (λ id w. h id)

    after_reserve-HasKey :
        (job : DispatchJob) (key : String) (sent_at : ℕ) (fresh : Bool)
        → Yields (HasKey key) (after_reserve s job key sent_at fresh)
    unfolding after_reserve HasKey
    after_reserve-HasKey job key sent_at false = log-HasKey job key _ (λ id. refl)
    after_reserve-HasKey job key sent_at true =
        bind-Yields (HasKey key) (s.send job) _ (λ exc. tt)
          (λ done. log-HasKey job key _ (λ id. refl))

    pub once-HasKey :
        (r : Request)
        → Yields
            (HasKey (key_of s r.job r.collected_at))
            (deliver_once s r.job r.collected_at r.sent_at)
    unfolding deliver_once HasKey
    once-HasKey r =
        let key = key_of s r.job r.collected_at in
        bind-Yields (HasKey key) (s.reserve key) _ (λ exc. tt)
          (after_reserve-HasKey r.job key r.sent_at)

    -- A delivery that is logged as sent leaves the key held.
    unfoldable pub HoldsIfSent : Attempted E DeliveryLog → W → Type 0
    HoldsIfSent (returned log) w = (is_sent log.status ≡ false) ⊎ (held k w ≡ true)
    HoldsIfSent (raised exc) w = Unit

    log-HoldsIfSent :
        (job : DispatchJob) (f : String → DeliveryLog) (w : W)
        → ((id : String) → (is_sent (f id).status ≡ false) ⊎ (held k w ≡ true))
        → let m = s.log_id_for job >>= λ id. pure (f id) in HoldsIfSent (m w).0 (m w).1
    unfolding HoldsIfSent
    log-HoldsIfSent job f w h =
        bind-Ends HoldsIfSent (s.log_id_for job) (λ id. pure (f id)) w (λ id _. kept (h id))
          (λ exc. tt)
      where
        kept :
            {x : Bool}
            → (x ≡ false) ⊎ (held k w ≡ true)
            → (x ≡ false) ⊎ (held k (s.log_id_for job w).1 ≡ true)
        kept (inl e) = inl e
        kept (inr e) = inr (store.log_id_keeps k job w ∙ e)

    sent-HoldsIfSent :
        (job : DispatchJob) (sent_at : ℕ) (w : W)
        → held k w ≡ true
        → let m = after_reserve s job k sent_at true in HoldsIfSent (m w).0 (m w).1
    unfolding after_reserve HoldsIfSent
    sent-HoldsIfSent job sent_at w h =
        bind-Ends HoldsIfSent (s.send job) _ w
          (λ done _.
            log-HoldsIfSent job _ (s.send job w).1 (λ id. inr (store.send_keeps k job w ∙ h)))
          (λ exc. tt)

    reserved-HoldsIfSent :
        (job : DispatchJob) (sent_at : ℕ) (w : W) (fresh : Bool)
        → (s.reserve k w).0 ≡ returned fresh
        → let m = after_reserve s job k sent_at fresh in
          HoldsIfSent (m (s.reserve k w).1).0 (m (s.reserve k w).1).1
    unfolding after_reserve
    reserved-HoldsIfSent job sent_at w true e =
        sent-HoldsIfSent job sent_at (s.reserve k w).1 (store.reserve_holds k w e)
    reserved-HoldsIfSent job sent_at w false e =
        log-HoldsIfSent job _ (s.reserve k w).1 (λ id. inl refl)

    pub once-HoldsIfSent :
        (r : Request) (w : W)
        → key_of s r.job r.collected_at ≡ k
        → let m = deliver_once s r.job r.collected_at r.sent_at in HoldsIfSent (m w).0 (m w).1
    unfolding deliver_once HoldsIfSent
    once-HoldsIfSent r w same = rw same (
        bind-Ends HoldsIfSent (s.reserve k) (after_reserve s r.job k r.sent_at) w
          (reserved-HoldsIfSent r.job r.sent_at w) (λ exc. tt))
