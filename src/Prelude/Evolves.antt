-- ===== src/Prelude/Evolves.antt =====
-- How a dictionary changes when its values change by steps of a relation: no key comes or goes, and
-- each value makes one step. The loops that write entries back are instances.
use mathlib.Core.Path.{◌≡◌, refl, subst}
use mathlib.Core.Option.{Option, none, some}
use mathlib.Core.List.{List, [], ◌∷◌}
use Prim.Native.String.{String}
use rider_crawl_baemin.Prelude.Lists.{All, All-map}
use rider_crawl_baemin.Prelude.Dict.{
  Dict, get, put, put_all, Distinct, Distinct-put_all, get-put_all,
}

module _ {ℓ κ} {V : Type ℓ} (R : V → V → Type κ) where
  pub record Evolves (d d' : Dict V) : Type (ℓ ⊔ κ) where
    pub moves : (k : String) (v : V) → get k d ≡ some v → (w : V) × (get k d' ≡ some w) × R v w
    pub keeps_none : (k : String) → get k d ≡ none → get k d' ≡ none
    pub keeps_distinct : Distinct d → Distinct d'

  pub Evolves-refl : ((v : V) → R v v) → (d : Dict V) → Evolves d d
  Evolves-refl r d = record {
    moves = λ k v h. (v, h, r v);
    keeps_none = λ k h. h;
    keeps_distinct = λ h. h;
  }

  pub Evolves-trans :
      ((u v w : V) → R u v → R v w → R u w)
      → (a b c : Dict V) → Evolves a b
      → Evolves b c
      → Evolves a c
  Evolves-trans t a b c p q = record {
    moves = λ k u h.
        let (v, found, r) = p.moves k u h in
        let (w, found', r') = q.moves k v found in (w, found', t u v w r r');
    keeps_none = λ k h. q.keeps_none k (p.keeps_none k h);
    keeps_distinct = λ h. q.keeps_distinct (p.keeps_distinct h);
  }

  -- The entry that a key shows, or will show once `v` is written, is a step from `u`.
  Shows : V → Option V → Type (ℓ ⊔ κ)
  Shows u o = (w : V) × (o ≡ some w) × R u w

  -- Writing back changed entries of the dictionary itself.
  pub Evolves-put_all :
      ((v : V) → R v v)
      → (f : V → V) (es : List (String × V)) (d : Dict V)
      → All (λ e. (get e.0 d ≡ some e.1) × R e.1 (f e.1)) es
      → Evolves d (put_all f es d)
  unfolding Shows
  Evolves-put_all r f es d a = record {
    moves = λ k u h.
        get-put_all f (Shows u) k es d (u, h, r u)
          (All-map _ _
            (λ e p same. (f e.1, refl, subst (λ x. R x (f e.1)) (value_of k u h e p.0 same) p.1)) es
            a);
    keeps_none = λ k h.
        get-put_all f (λ o. o ≡ none) k es d h
          (All-map _ _ (λ e p same. absurd (not_there k h e p.0 same)) es a);
    keeps_distinct = λ h. Distinct-put_all f es d h;
  }
    where
      value_of :
          (k : String) (u : V)
          → get k d ≡ some u
          → (e : String × V) → get e.0 d ≡ some e.1
          → e.0 ≡ k
          → e.1 ≡ u
      value_of k u h e p same = cc

      not_there :
          (k : String) → get k d ≡ none → (e : String × V) → get e.0 d ≡ some e.1 → e.0 ≡ k → ⊥
      not_there k h e p same = cc

  -- Writing back one entry.
  pub Evolves-put :
      ((v : V) → R v v)
      → (k : String) (v w : V) (d : Dict V) → get k d ≡ some v
      → R v w
      → Evolves d (put k w d)
  unfolding put_all
  Evolves-put r k v w d h s = Evolves-put_all r (λ _. w) ((k, v) ∷ []) d ((h, s), tt)

module _ {ℓ κ μ} {V : Type ℓ} (R : V → V → Type κ) (S : V → V → Type μ) where
  pub Evolves-mono : ((v w : V) → R v w → S v w) → (d d' : Dict V) → Evolves R d d' → Evolves S d d'
  Evolves-mono f d d' p = record {
    moves = λ k v h. let (w, found, r) = p.moves k v h in (w, found, f v w r);
    keeps_none = p.keeps_none;
    keeps_distinct = p.keeps_distinct;
  }
