-- ===== src/Metrics/Order.antt =====
-- The order of the targets on the dashboard.
use rider_crawl_baemin.Prelude.{
  All-map, All-pair, leb→le, le→leb, ◌+◌, ◌≡◌, refl, List, [], ◌∷◌, map, keep, if◌then◌else◌, All,
  Bool-cases, inl, inr, ◌=ₛ◌, String, true, false, Option, none, some, arith, eq_iff, ℕ, ◌≤◌, zero,
  suc,
}
use rider_crawl_baemin.Prelude.Dict
use rider_crawl_baemin.Domain.{Time}
use rider_crawl_baemin.Metrics.Dashboard.{
  TargetHealthFacts, TargetRow, signals_of, row_severity, target_row, is_worse, target_rows,
}
use rider_crawl_baemin.Prelude.Sort.{sort, IsSorted, sort-IsSorted, keep-sort, All-sort}
use rider_crawl_baemin.Metrics.Severity.{
  any_signal, classify_failclosed, overall_severity, classify_freshness, severity_rank,
}
use rider_crawl_baemin.Metrics.Shown.{if_either}

is_worse_total : (x y : TargetRow) → is_worse x y ≡ false → is_worse y x ≡ true
unfolding is_worse
is_worse_total x y h = ground arith

is_worse_trans :
    (x y z : TargetRow) → is_worse x y ≡ true → is_worse y z ≡ true → is_worse x z ≡ true
unfolding is_worse
is_worse_trans x y z h k = ground arith

-- The place of a severity from the worst to the best
abbrev pub place : String → ℕ
place severity =
    if severity =ₛ "STOPPED"
    then 0
    else if severity =ₛ "CRITICAL"
    then 1
    else if severity =ₛ "WARNING"
    then 2
    else if severity =ₛ "NORMAL"
    then 3
    else 4

-- Each row's severity is not better than those after it.
abbrev pub IsWorstFirst : List TargetRow → Type 0
IsWorstFirst [] = Unit
IsWorstFirst (r ∷ rows) = All (λ s. place r.severity ≤ place s.severity) rows × IsWorstFirst rows

-- The rank of a severity is its place from the other end.
abbrev IsRanked : String → Type 0
IsRanked severity = severity_rank severity + place severity ≡ 3

stopped-IsRanked : IsRanked "STOPPED"
unfolding severity_rank Dict.get
stopped-IsRanked = refl

critical-IsRanked : IsRanked "CRITICAL"
unfolding severity_rank Dict.get
critical-IsRanked = refl

warning-IsRanked : IsRanked "WARNING"
unfolding severity_rank Dict.get
warning-IsRanked = refl

normal-IsRanked : IsRanked "NORMAL"
unfolding severity_rank Dict.get
normal-IsRanked = refl

freshness-IsRanked :
    (last_success_at : Option Time) (interval : ℕ) (now : Time)
    → IsRanked (classify_freshness last_success_at interval now)
unfolding classify_freshness
freshness-IsRanked none interval now = warning-IsRanked
freshness-IsRanked (some t) zero now = normal-IsRanked
freshness-IsRanked (some t) (suc n) now =
    if_either IsRanked _ _ _ critical-IsRanked
      (if_either IsRanked _ _ _ warning-IsRanked normal-IsRanked)

overall-IsRanked :
    (facts : TargetHealthFacts) (now : Time) (freshness : String)
    → IsRanked freshness
    → IsRanked (overall_severity freshness (classify_failclosed (signals_of facts now)))
unfolding overall_severity classify_failclosed
overall-IsRanked facts now freshness h = elim (Bool-cases (any_signal (signals_of facts now))) [
  | inl e ↦ rw e stopped-IsRanked
  | inr e ↦ rw e h
]

row-IsRanked : (facts : TargetHealthFacts) (now : Time) → IsRanked (target_row facts now).severity
unfolding target_row row_severity
row-IsRanked facts now = if_either IsRanked _ _ _ critical-IsRanked (
    overall-IsRanked facts now _
      (freshness-IsRanked facts.last_success_at facts.interval_minutes now))

rows-IsRanked :
    (facts : List TargetHealthFacts) (now : Time)
    → All (λ r. IsRanked r.severity) (map (λ f. target_row f now) facts)
rows-IsRanked [] now = tt
rows-IsRanked (f ∷ facts) now = (row-IsRanked f now, rows-IsRanked facts now)

worse-place :
    (r s : TargetRow)
    → IsRanked r.severity
    → IsRanked s.severity
    → is_worse r s ≡ true
    → place r.severity ≤ place s.severity
unfolding is_worse
worse-place r s h k w = omega (arith, leb→le _ _ w)

sorted-IsWorstFirst :
    (rows : List TargetRow)
    → All (λ r. IsRanked r.severity) rows
    → IsSorted is_worse rows
    → IsWorstFirst rows
sorted-IsWorstFirst [] h k = tt
sorted-IsWorstFirst (r ∷ rows) h k = (
  All-map _ _ (λ s both. worse-place r s h.0 both.0 both.1) rows (All-pair _ _ rows h.1 k.0),
  sorted-IsWorstFirst rows h.1 k.1,
)

same_severity :
    (severity : String) (x y : TargetRow)
    → (x.severity =ₛ severity) ≡ true
    → (y.severity =ₛ severity) ≡ true
    → is_worse x y ≡ true
unfolding is_worse
same_severity severity x y h k =
    rw ((eq_iff x.severity severity).0 h, (eq_iff y.severity severity).0 k)
      (le→leb (severity_rank severity) (severity_rank severity) (omega arith))

-- The dashboard shows the targets from the worst to the best, stopped before critical before warning
-- before normal; the rows of any one severity are those of the facts, in their order.
pub target_rows-IsWorstFirst :
    (facts : List TargetHealthFacts) (now : Time) (severity : String)
    → IsWorstFirst (target_rows facts now)
      × (keep (λ r. r.severity =ₛ severity) (target_rows facts now)
          ≡ keep (λ r. r.severity =ₛ severity) (map (λ f. target_row f now) facts))
unfolding target_rows
target_rows-IsWorstFirst facts now severity =
    let rows = map (λ f. target_row f now) facts in
    (
      sorted-IsWorstFirst (sort is_worse rows) (All-sort _ is_worse rows (rows-IsRanked facts now))
          (sort-IsSorted is_worse is_worse_total is_worse_trans rows),
      keep-sort is_worse (λ r. r.severity =ₛ severity) (same_severity severity) rows,
    )
