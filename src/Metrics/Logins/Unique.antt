-- ===== src/Metrics/Logins/Unique.antt =====
-- The rows of waiting logins are unique by target, and none is lost.
use rider_crawl_baemin.Prelude.{
  Bool, true, false, ◌&&◌, ◌≡◌, refl, ◌∙◌, List, [], ◌∷◌, ◌++◌, leb, not, if◌then◌else◌, keep, any,
  All, All-keep, All-map, All-pair, ◌||◌, arith, Bool-cases, inl, inr,
}
use rider_crawl_baemin.Metrics.Logins.{
  AuthRequiredRow, priority, same_key, collapse_row, collapse_rows, has_target,
  collapse_auth_required_rows,
}
use rider_crawl_baemin.Metrics.Logins.Keys.{
  combine_rows-key, combined-left, combined-right, same_key_refl, same_key_sym,
}

-- No two rows of one key
abbrev pub IsUnique : List AuthRequiredRow → Type 0
IsUnique [] = Unit
IsUnique (r ∷ rows) = All (λ s. same_key r s ≡ false) rows × IsUnique rows

other-collapse_row :
    (x row : AuthRequiredRow) (rows : List AuthRequiredRow)
    → same_key x row ≡ false
    → All (λ s. same_key x s ≡ false) rows
    → All (λ s. same_key x s ≡ false) (collapse_row row rows)
unfolding collapse_row
other-collapse_row x row [] n h = (n, tt)
other-collapse_row x row (r ∷ rows) n h = elim (Bool-cases (same_key r row)) [
  | inl e ↦ rw e (combined-right r row x e ∙ h.0, h.1)
  | inr e ↦ rw e (h.0, other-collapse_row x row rows n h.1)
]

collapse_row-IsUnique :
    (row : AuthRequiredRow) (rows : List AuthRequiredRow)
    → IsUnique rows
    → IsUnique (collapse_row row rows)
unfolding collapse_row
collapse_row-IsUnique row [] h = (tt, tt)
collapse_row-IsUnique row (r ∷ rows) h = elim (Bool-cases (same_key r row)) [
  | inl e ↦ rw e (All-map _ _ (λ s n. combined-left r row s e ∙ n) rows h.0, h.1)
  | inr e ↦ rw e (other-collapse_row r row rows e h.0, collapse_row-IsUnique row rows h.1)
]

-- The row has a shown row of its key, which is as urgent.
abbrev pub is_covered : List AuthRequiredRow → AuthRequiredRow → Bool
is_covered shown r = any (λ s. same_key r s && leb (priority s) (priority r)) shown

covered-collapse_row :
    (r row : AuthRequiredRow) (rows : List AuthRequiredRow)
    → is_covered rows r ≡ true
    → is_covered (collapse_row row rows) r ≡ true
unfolding collapse_row any
covered-collapse_row r row [] h = cc
covered-collapse_row r row (x ∷ rows) h = elim (Bool-cases (same_key x row)) [
  | inl e ↦
      let least = combine_rows-key x row e in
      rw e (ground (arith, least.2, combined-right x row r e))
  | inr e ↦ rw e (ground (arith, covered-collapse_row r row rows))
]

self-collapse_row :
    (row : AuthRequiredRow) (rows : List AuthRequiredRow)
    → is_covered (collapse_row row rows) row ≡ true
unfolding collapse_row any
self-collapse_row row [] = ground (arith, same_key_refl row)
self-collapse_row row (x ∷ rows) = elim (Bool-cases (same_key x row)) [
  | inl e ↦
      let least = combine_rows-key x row e in
      rw e (ground (arith, least.3, combined-right x row row e, same_key_sym x row e))
  | inr e ↦ rw e (ground (arith, self-collapse_row row rows))
]

collapse_rows-IsUnique :
    (rows collapsed : List AuthRequiredRow)
    → IsUnique collapsed
    → IsUnique (collapse_rows rows collapsed)
unfolding collapse_rows
collapse_rows-IsUnique [] collapsed h = h
collapse_rows-IsUnique (row ∷ rows) collapsed h = elim (Bool-cases (has_target row)) [
  | inl e ↦
      rw (e, collapse_rows)
        (collapse_rows-IsUnique rows (collapse_row row collapsed)
          (collapse_row-IsUnique row collapsed h))
  | inr e ↦ rw (e, collapse_rows) (collapse_rows-IsUnique rows collapsed h)
]

covered-collapse_rows :
    (r : AuthRequiredRow) (rows collapsed : List AuthRequiredRow)
    → is_covered collapsed r ≡ true
    → is_covered (collapse_rows rows collapsed) r ≡ true
unfolding collapse_rows
covered-collapse_rows r [] collapsed h = h
covered-collapse_rows r (row ∷ rows) collapsed h = elim (Bool-cases (has_target row)) [
  | inl e ↦
      rw (e, collapse_rows)
        (covered-collapse_rows r rows (collapse_row row collapsed)
          (covered-collapse_row r row collapsed h))
  | inr e ↦ rw (e, collapse_rows) (covered-collapse_rows r rows collapsed h)
]

IsUnique-keep :
    (p : AuthRequiredRow → Bool) (rows : List AuthRequiredRow)
    → IsUnique rows
    → IsUnique (keep p rows)
unfolding keep
IsUnique-keep p [] h = tt
IsUnique-keep p (r ∷ rows) h = elim (Bool-cases (p r)) [
  | inl e ↦ rw e (All-keep _ p rows h.0, IsUnique-keep p rows h.1)
  | inr e ↦ rw e (IsUnique-keep p rows h.1)
]

-- Of the two lists that are joined, a test keeps what it keeps of the first, if the second fails it.
keep-joined :
    (p : AuthRequiredRow → Bool) (xs rows : List AuthRequiredRow)
    → keep p (xs ++ keep (λ r. not (p r)) rows) ≡ keep p xs
unfolding keep
keep-joined p [] [] = refl
keep-joined p [] (r ∷ rows) = ground (arith, keep-joined p [] rows)
keep-joined p (x ∷ xs) rows = ground (arith, keep-joined p xs rows)

any-append :
    (p : AuthRequiredRow → Bool) (xs ys : List AuthRequiredRow)
    → any p (xs ++ ys) ≡ (any p xs || any p ys)
unfolding any
any-append p [] ys = refl
any-append p (x ∷ xs) ys = ground (arith, any-append p xs ys)

row-covered :
    (row : AuthRequiredRow) (rows collapsed : List AuthRequiredRow)
    → (not (has_target row) || is_covered (collapse_rows (row ∷ rows) collapsed) row) ≡ true
unfolding collapse_rows
row-covered row rows collapsed = elim (Bool-cases (has_target row)) [
  | inl e ↦
      rw (e, collapse_rows)
        (covered-collapse_rows row rows (collapse_row row collapsed)
          (self-collapse_row row collapsed))
  | inr e ↦ rw e refl
]

targeted-covered :
    (rows collapsed : List AuthRequiredRow)
    → All (λ r. (not (has_target r) || is_covered (collapse_rows rows collapsed) r) ≡ true) rows
unfolding collapse_rows
targeted-covered [] collapsed = tt
targeted-covered (row ∷ rows) collapsed = (
  row-covered row rows collapsed,
  targeted-covered rows (if has_target row then collapse_row row collapsed else collapsed),
)

self-covered : (r : AuthRequiredRow) (rows : List AuthRequiredRow) → is_covered (r ∷ rows) r ≡ true
unfolding any
self-covered r rows = ground (arith, same_key_refl r)

-- The rows without a target
abbrev without_target : List AuthRequiredRow → List AuthRequiredRow
without_target rows = keep (λ r. not (has_target r)) rows

covered-without_target :
    (r row : AuthRequiredRow) (rows : List AuthRequiredRow)
    → is_covered (without_target rows) r ≡ true
    → is_covered (without_target (row ∷ rows)) r ≡ true
unfolding keep any
covered-without_target r row rows h = ground arith

own-without_target :
    (row : AuthRequiredRow) (rows : List AuthRequiredRow)
    → (has_target row || is_covered (without_target (row ∷ rows)) row) ≡ true
unfolding keep
own-without_target row rows = elim (Bool-cases (has_target row)) [
  | inl e ↦ rw e refl
  | inr e ↦ rw e (self-covered row (without_target rows))
]

targetless-covered :
    (rows : List AuthRequiredRow)
    → All (λ r. (has_target r || is_covered (without_target rows) r) ≡ true) rows
targetless-covered [] = tt
targetless-covered (row ∷ rows) = (
  own-without_target row rows,
  All-map _ _ (λ r h. ground (arith, covered-without_target r row rows)) rows
      (targetless-covered rows),
)

-- The dashboard shows at most one row with a target for each tenant and target, and for every row
-- that the repository gave it shows one of the same tenant and target that is at least as urgent.
pub collapse_auth_required_rows-IsUnique :
    (rows : List AuthRequiredRow)
    → IsUnique (keep has_target (collapse_auth_required_rows rows))
      × All (λ r. is_covered (collapse_auth_required_rows rows) r ≡ true) rows
unfolding collapse_auth_required_rows
collapse_auth_required_rows-IsUnique rows = (
  rw (keep-joined has_target (collapse_rows rows []) rows)
      (IsUnique-keep has_target (collapse_rows rows []) (collapse_rows-IsUnique rows [] tt)),
  All-map _ _
      (λ r h. ground (
        arith,
        h.0,
        h.1,
        any-append (λ s. same_key r s && leb (priority s) (priority r)) (collapse_rows rows [])
            (keep (λ s. not (has_target s)) rows),
      ))
      rows (All-pair _ _ rows (targeted-covered rows []) (targetless-covered rows)),
)
