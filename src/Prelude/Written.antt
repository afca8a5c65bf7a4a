-- ===== src/Prelude/Written.antt =====
-- What a dictionary shows under the keys that a loop has written.
use mathlib.Core.Path.{◌≡◌, subst, sym, ap, ◌∙◌}
use mathlib.Core.Logic.{inl, inr, ◌⊎◌}
use mathlib.Core.Bool.{Bool, true}
use mathlib.Core.Option.{Option, some, some-injective}
use mathlib.Core.List.{List, [], ◌∷◌}
use Prim.Native.String.{String}
use text.Mathlib.TextEquality.{eq_iff}
use rider_crawl_baemin.Prelude.Tests.{◌=ₛ◌, Bool-cases}
use rider_crawl_baemin.Prelude.Lists.{All, All-map, Any, here, there, keep}
use rider_crawl_baemin.Prelude.Dict.{Dict, get, put, put_all, get-put_self, get-put_all}
use rider_crawl_baemin.Prelude.Sort.{insert_sorted, sort}

module _ {ℓ} {V : Type ℓ} (f : V → V) where
  same_change :
      (d : Dict V) (k : String) (v : V)
      → get k d ≡ some v
      → (e : String × V) → get e.0 d ≡ some e.1
      → e.0 ≡ k
      → some (f e.1) ≡ some (f v)
  same_change d k v h e h' same = cc

  -- Each entry of the list, where the list has entries of one dictionary, is written as changed.
  pub put_all_shows :
      (d : Dict V) (es : List (String × V)) (base : Dict V)
      → All (λ e. get e.0 d ≡ some e.1) es
      → All (λ e. get e.0 (put_all f es base) ≡ some (f e.1)) es
  unfolding put_all
  put_all_shows d [] base h = tt
  put_all_shows d ((k, v) ∷ es) base h = (
    get-put_all f (λ o. o ≡ some (f v)) k es (put k (f v) base) (get-put_self k (f v) base)
        (All-map _ _ (same_change d k v h.0) es h.1),
    put_all_shows d es (put k (f v) base) h.1,
  )

  pub get-put_all_hit {κ} :
      (P : Option V → Type κ) (k : String) (es : List (String × V)) (d : Dict V)
      → Any (λ e. e.0 ≡ k) es
      → All (λ e. (e.0 ≡ k) → P (some (f e.1))) es
      → P (get k (put_all f es d))
  unfolding put_all
  get-put_all_hit P k [] d h a = elim h [ ]
  get-put_all_hit P k ((j, v) ∷ es) d (here h) a =
      get-put_all f P k es (put j (f v) d)
        (subst P (sym (subst (λ i. get i (put j (f v) d) ≡ some (f v)) h (get-put_self j (f v) d)))
          (a.0 h))
        a.1
  get-put_all_hit P k ((j, v) ∷ es) d (there h) a = get-put_all_hit P k es (put j (f v) d) h a.1

module _ {ℓ κ} {A : Type ℓ} (P : A → Type κ) (le : A → A → Bool) where
  Any-insert_sorted : (x : A) (xs : List A) → (P x) ⊎ (Any P xs) → Any P (insert_sorted le x xs)
  unfolding insert_sorted
  Any-insert_sorted x [] (inl h) = here h
  Any-insert_sorted x [] (inr h) = elim h [ ]
  Any-insert_sorted x (y ∷ ys) (inl h) = elim (Bool-cases (le x y)) [
    | inl e ↦ rw e (here h)
    | inr e ↦ rw e (there (Any-insert_sorted x ys (inl h)))
  ]
  Any-insert_sorted x (y ∷ ys) (inr (here h)) = elim (Bool-cases (le x y)) [
    | inl e ↦ rw e (there (here h))
    | inr e ↦ rw e (here h)
  ]
  Any-insert_sorted x (y ∷ ys) (inr (there h)) = elim (Bool-cases (le x y)) [
    | inl e ↦ rw e (there (there h))
    | inr e ↦ rw e (there (Any-insert_sorted x ys (inr h)))
  ]

  pub Any-sort : (xs : List A) → Any P xs → Any P (sort le xs)
  unfolding sort
  Any-sort [] h = elim h [ ]
  Any-sort (x ∷ xs) (here h) = Any-insert_sorted x (sort le xs) (inl h)
  Any-sort (x ∷ xs) (there h) = Any-insert_sorted x (sort le xs) (inr (Any-sort xs h))

-- The entry that a key looks up is kept if it passes the test.
pub Any-keep {ℓ} :
    {V : Type ℓ} (p : V → Bool) (k : String) (d : Dict V) (v : V)
    → get k d ≡ some v
    → p v ≡ true
    → Any (λ e. e.0 ≡ k) (keep (λ e. p e.1) d)
unfolding get keep
Any-keep p k [] v h t = cc
Any-keep p k ((j, w) ∷ d) v h t = elim (Bool-cases (j =ₛ k)) [
  | inl e ↦ rw (ap p (some-injective _ _ (rw e at h)) ∙ t) (here ((eq_iff j k).0 e))
  | inr e ↦ elim (Bool-cases (p w)) [
    | inl q ↦ rw q (there (Any-keep p k d v (rw e at h) t))
    | inr q ↦ rw q (Any-keep p k d v (rw e at h) t)
  ]
]
