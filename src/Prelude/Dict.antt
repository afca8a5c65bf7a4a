-- ===== src/Prelude/Dict.antt =====
-- Python's `dict` with text keys: an association list in insertion order.
use mathlib.Core.Path.{◌≡◌, refl, sym, ◌∙◌, subst}
use mathlib.Core.Logic.{inl, inr, ◌⊎◌}
use mathlib.Core.Bool.{true, false}
use mathlib.Core.Option.{Option, none, some, some-injective}
use mathlib.Core.List.{List, [], ◌∷◌}
use Prim.Native.String.{String}
use native.Mathlib.Omega.{arith}
use text.Mathlib.TextEquality.{eq_iff}
use rider_crawl_baemin.Prelude.Tests.{◌=ₛ◌, if◌then◌else◌, Bool-cases}
use rider_crawl_baemin.Prelude.Lists.{All, All-map}

abbrev pub Dict {ℓ} : Type ℓ → Type ℓ
Dict V = List (String × V)

module _ {ℓ} {V : Type ℓ} where
  unfoldable pub get : String → Dict V → Option V
  get k [] = none
  get k ((j, v) ∷ d) = if j =ₛ k then some v else get k d

  -- `d[k] = v`: an old key keeps its place, a new one goes to the end.
  unfoldable pub put : String → V → Dict V → Dict V
  put k v [] = (k, v) ∷ []
  put k v ((j, w) ∷ d) = if j =ₛ k then (j, v) ∷ d else (j, w) ∷ put k v d

  pub get-put :
      (k j : String) (v : V) (d : Dict V) → get j (put k v d) ≡ (if k =ₛ j then some v else get j d)
  unfolding get put
  get-put k j v [] = refl
  get-put k j v ((i, w) ∷ d) = ground (arith, eq_iff k j, eq_iff i k, eq_iff i j, get-put k j v d)

  pub get-put_self : (k : String) (v : V) (d : Dict V) → get k (put k v d) ≡ some v
  get-put_self k v d = get-put k k v d ∙ (rw ((eq_iff k k).1 refl))

  pub All-put {κ} :
      (P : String × V → Type κ) (k : String) (v : V) (d : Dict V)
      → ((j : String) → (j ≡ k) → P (j, v))
      → All P d
      → All P (put k v d)
  unfolding put
  All-put P k v [] h a = (h k refl, tt)
  All-put P k v ((j, w) ∷ d) h a = elim (Bool-cases (j =ₛ k)) [
    | inl e ↦ rw e (h j ((eq_iff j k).0 e), a.1)
    | inr e ↦ rw e (a.0, All-put P k v d h a.1)
  ]

  pub All-get {κ} :
      (P : String × V → Type κ) (k : String) (d : Dict V) (v : V)
      → All P d
      → get k d ≡ some v
      → (j : String) × (j ≡ k) × P (j, v)
  unfolding get
  All-get P k [] v a h = cc
  All-get P k ((j, w) ∷ d) v a h = elim (Bool-cases (j =ₛ k)) [
    | inl e ↦ (j, (eq_iff j k).0 e, subst (λ x. P (j, x)) (some-injective _ _ (rw e at h)) a.0)
    | inr e ↦ All-get P k d v a.1 (rw e at h)
  ]

  -- No key twice.
  abbrev pub Distinct : Dict V → Type ℓ
  Distinct [] = Unit
  Distinct ((k, v) ∷ d) = (get k d ≡ none) × Distinct d

  get-put_absent :
      (k j : String) (v : V) (d : Dict V)
      → get j d ≡ none
      → (j =ₛ k) ≡ false
      → get j (put k v d) ≡ none
  get-put_absent k j v d h n = rw get-put (ground (arith, eq_iff j k, eq_iff k j))

  pub Distinct-put : (k : String) (v : V) (d : Dict V) → Distinct d → Distinct (put k v d)
  unfolding put get
  Distinct-put k v [] h = (refl, tt)
  Distinct-put k v ((j, w) ∷ d) h = elim (Bool-cases (j =ₛ k)) [
    | inl e ↦ rw e h
    | inr e ↦ rw e (get-put_absent k j v d h.0 e, Distinct-put k v d h.1)
  ]

  get-cons_old :
      (k : String) (v : V) (d : Dict V)
      → get k d ≡ none
      → (e : String × V) → get e.0 d ≡ some e.1
      → get e.0 ((k, v) ∷ d) ≡ some e.1
  unfolding get
  get-cons_old k v d absent e found = ground (arith, eq_iff k e.0)

  -- Without a doubled key, each entry is what its key looks up.
  pub Distinct-get : (d : Dict V) → Distinct d → All (λ e. get e.0 d ≡ some e.1) d
  unfolding get
  Distinct-get [] h = tt
  Distinct-get ((k, v) ∷ d) h =
      (rw ((eq_iff k k).1 refl), All-map _ _ (get-cons_old k v d h.0) d (Distinct-get d h.1))

-- `for job in jobs: <change job>` where the jobs are values of the dictionary: each entry of the
-- list is written back, changed.
module _ {ℓ} {V : Type ℓ} (f : V → V) where
  unfoldable pub put_all : List (String × V) → Dict V → Dict V
  put_all [] d = d
  put_all ((k, v) ∷ es) d = put_all es (put k (f v) d)

  pub Distinct-put_all :
      (es : List (String × V)) (d : Dict V) → Distinct d → Distinct (put_all es d)
  unfolding put_all
  Distinct-put_all [] d h = h
  Distinct-put_all ((k, v) ∷ es) d h =
      Distinct-put_all es (put k (f v) d) (Distinct-put k (f v) d h)

  pub All-put_all {κ} :
      (P : String × V → Type κ) (es : List (String × V)) (d : Dict V)
      → All (λ e. P (e.0, f e.1)) es
      → All P d
      → All P (put_all es d)
  unfolding put_all
  All-put_all P [] d h a = a
  All-put_all P ((k, v) ∷ es) d h a =
      All-put_all P es (put k (f v) d) h.1
        (All-put P k (f v) d (λ j e. subst (λ i. P (i, f v)) (sym e) h.0) a)

  -- What a key shows after the loop is what it showed before, or a changed entry.
  pub get-put_all {κ} :
      (P : Option V → Type κ) (k : String) (es : List (String × V)) (d : Dict V)
      → P (get k d)
      → All (λ e. (e.0 ≡ k) → P (some (f e.1))) es
      → P (get k (put_all es d))
  unfolding put_all
  get-put_all P k [] d h a = h
  get-put_all P k ((j, v) ∷ es) d h a =
      get-put_all P k es (put j (f v) d) (step (Bool-cases (j =ₛ k))) a.1
    where
      step : ((j =ₛ k) ≡ true) ⊎ ((j =ₛ k) ≡ false) → P (get k (put j (f v) d))
      step (inl e) = rw (get-put, e) (a.0 ((eq_iff j k).0 e))
      step (inr e) = rw (get-put, e) h
