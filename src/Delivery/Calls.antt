-- ===== src/Delivery/Calls.antt =====
-- Calls of callbacks in a row: what they keep of the state, and what they end in.
use rider_crawl_baemin.Prelude.{◌≡◌, ◌∙◌, inl, inr, Bool}
use rider_crawl_baemin.Delivery.{Attempted, Attempted-cases, returned, raised, Action, ◌>>=◌}

module _ {ℓ κ} {W : Type ℓ} {X : Type κ} where
  -- What each outcome of a call satisfies, whatever the state
  abbrev pub Yields : {A : Type 0} → (Attempted X A → Type 0) → Action W X A → Type ℓ
  Yields Q m = (w : W) → Q (m w).0

  -- A call that keeps an observation of the state
  abbrev pub Keeps : {A : Type 0} → (W → Bool) → Action W X A → Type ℓ
  Keeps look m = (w : W) → look (m w).1 ≡ look w

  pub bind-Yields :
      {A B : Type 0} (Q : Attempted X B → Type 0) (m : Action W X A) (f : A → Action W X B)
      → ((exc : X) → Q (raised exc))
      → ((a : A) → Yields Q (f a))
      → Yields Q (m >>= f)
  bind-Yields Q m f k h w = elim (Attempted-cases (m w).0) [
    | inl (a, e) ↦ rw e (h a (m w).1)
    | inr (exc, e) ↦ rw e (k exc)
  ]

  pub bind-Keeps :
      {A B : Type 0} (look : W → Bool) (m : Action W X A) (f : A → Action W X B)
      → Keeps look m
      → ((a : A) → Keeps look (f a))
      → Keeps look (m >>= f)
  bind-Keeps look m f h k w = elim (Attempted-cases (m w).0) [
    | inl (a, e) ↦ rw e (k a (m w).1 ∙ h w)
    | inr (exc, e) ↦ rw e (h w)
  ]

  pub bind-Ends :
      {A B : Type 0} (Q : Attempted X B → W → Type 0) (m : Action W X A) (f : A → Action W X B)
      (w : W)
      → ((a : A) → (m w).0 ≡ returned a → Q (f a (m w).1).0 (f a (m w).1).1)
      → ((exc : X) → Q (raised exc) (m w).1)
      → Q ((m >>= f) w).0 ((m >>= f) w).1
  bind-Ends Q m f w h k = elim (Attempted-cases (m w).0) [
    | inl (a, e) ↦ rw e (h a e)
    | inr (exc, e) ↦ rw e (k exc)
  ]
