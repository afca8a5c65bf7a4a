-- ===== src/Metrics/Logins/Keys.antt =====
-- Rows of one key: what it is for two rows to have one, and the row that they combine to.
use rider_crawl_baemin.Prelude.{
  sym, ap, ◌≤◌, String, true, ◌≡◌, refl, ◌∙◌, Option, none, some, ltb, same_text, eq_iff, arith,
  Bool-cases, inl, inr,
}
use rider_crawl_baemin.Metrics.Logins.{AuthRequiredRow, priority, merged, combine_rows, same_key}

same_text-eq : (a b : Option String) → same_text a b ≡ true → a ≡ b
same_text-eq none none h = refl
same_text-eq none (some b) h = cc
same_text-eq (some a) none h = cc
same_text-eq (some a) (some b) h = ap some (sym ((eq_iff b a).0 h))

same_key-eq :
    (r s : AuthRequiredRow)
    → same_key r s ≡ true
    → (r.tenant_id ≡ s.tenant_id) × (r.target_id ≡ s.target_id)
unfolding same_key
same_key-eq r s h = (
  (eq_iff r.tenant_id s.tenant_id).0 (ground arith),
  same_text-eq r.target_id s.target_id (ground arith),
)

merged-key :
    (winner fallback : AuthRequiredRow)
    → ((merged winner fallback).tenant_id ≡ winner.tenant_id)
      × ((merged winner fallback).target_id ≡ winner.target_id)
      × (priority (merged winner fallback) ≡ priority winner)
unfolding merged priority
merged-key winner fallback = (refl, refl, refl)

-- Combined rows of one key have that key, and the less of their priorities.
pub combine_rows-key :
    (r s : AuthRequiredRow)
    → same_key r s ≡ true
    → ((combine_rows r s).tenant_id ≡ r.tenant_id)
      × ((combine_rows r s).target_id ≡ r.target_id)
      × (priority (combine_rows r s) ≤ priority r)
      × (priority (combine_rows r s) ≤ priority s)
unfolding combine_rows
combine_rows-key r s h = elim (Bool-cases (ltb (priority s) (priority r))) [
  | inl e ↦
      let key = merged-key s r in
      let same = same_key-eq r s h in
      let least : priority (merged s r) ≤ priority r = ground (arith, key.2) in
      let own : priority (merged s r) ≤ priority s = ground (arith, key.2) in
      rw e (key.0 ∙ sym same.0, key.1 ∙ sym same.1, least, own)
  | inr e ↦
      let key = merged-key r s in
      let own : priority (merged r s) ≤ priority r = ground (arith, key.2) in
      let least : priority (merged r s) ≤ priority s = ground (arith, key.2) in
      rw e (key.0, key.1, own, least)
]

same_key-cong :
    (r r' s s' : AuthRequiredRow)
    → r.tenant_id ≡ r'.tenant_id
    → r.target_id ≡ r'.target_id
    → s.tenant_id ≡ s'.tenant_id
    → s.target_id ≡ s'.target_id
    → same_key r s ≡ same_key r' s'
unfolding same_key
same_key-cong r r' s s' a b c d = simp (a, b, c, d)

pub combined-left :
    (r s t : AuthRequiredRow) → same_key r s ≡ true → same_key (combine_rows r s) t ≡ same_key r t
combined-left r s t h =
    let key = combine_rows-key r s h in same_key-cong (combine_rows r s) r t t key.0 key.1 refl refl

pub combined-right :
    (r s t : AuthRequiredRow) → same_key r s ≡ true → same_key t (combine_rows r s) ≡ same_key t r
combined-right r s t h =
    let key = combine_rows-key r s h in same_key-cong t t (combine_rows r s) r refl refl key.0 key.1

same_text_refl : (a : Option String) → same_text a a ≡ true
same_text_refl none = refl
same_text_refl (some s) = (eq_iff s s).1 refl

pub same_key_refl : (r : AuthRequiredRow) → same_key r r ≡ true
unfolding same_key
same_key_refl r = rw ((eq_iff r.tenant_id r.tenant_id).1 refl, same_text_refl r.target_id) refl

pub same_key_sym : (r s : AuthRequiredRow) → same_key r s ≡ true → same_key s r ≡ true
same_key_sym r s h =
    let key = same_key-eq r s h in
    same_key-cong s r r r (sym key.0) (sym key.1) refl refl ∙ same_key_refl r
