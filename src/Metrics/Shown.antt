-- ===== src/Metrics/Shown.antt =====
-- What is shown of a target that the scheduler refuses, and how a severity ages.
use rider_crawl_baemin.Prelude.{
  ◌≡◌, refl, List, [], ◌∷◌, ◌&&◌, if◌then◌else◌, All, Bool-cases, inl, inr, false≢true, ◌=ₛ◌,
  String, true, false, Bool, Option, none, some, arith, eq_iff, ℕ, ◌≤◌, text_in, subst, zero, suc,
}
use rider_crawl_baemin.Prelude.Dict
use rider_crawl_baemin.Domain.{Time}
use rider_crawl_baemin.Metrics.Dashboard.{TargetHealthFacts, signals_of, row_severity, target_row}
use rider_crawl_baemin.Metrics.Severity.{
  any_signal, classify_failclosed, overall_severity, classify_freshness, severity_rank,
}

-- What holds of both branches of a test holds of the test.
pub if_either : (P : String → Type 0) (b : Bool) (s t : String) → P s → P t → P (if b then s else t)
if_either P true s t h k = h
if_either P false s t h k = k

-- What holds of each text of a list holds of any text in it.
pub All-text_in :
    (P : String → Type 0) (xs : List String) (s : String) → All P xs → text_in s xs ≡ true → P s
unfolding text_in
All-text_in P (x ∷ xs) s h e = elim (Bool-cases (x =ₛ s)) [
  | inl same ↦ subst P ((eq_iff x s).0 same) h.0
  | inr other ↦ All-text_in P xs s h.1 (rw other at e)
]
All-text_in P [] s h e = absurd (false≢true e)

pub signal-IsStopped :
    (facts : TargetHealthFacts) (now : Time)
    → any_signal (signals_of facts now) ≡ true
    → (target_row facts now).severity ≡ "STOPPED"
unfolding target_row row_severity overall_severity classify_failclosed
signal-IsStopped facts now h =
    rw h (if_same "CRITICAL" "STOPPED" (signals_of facts now).kakao_misdelivery_risk)
  where
    if_same : {A : Type 0} (x y : A) (b : Bool) → (if b && false then x else y) ≡ y
    if_same x y true = refl
    if_same x y false = refl

ranks :
    (severity_rank "NORMAL" ≡ 0) × (severity_rank "WARNING" ≡ 1) × (severity_rank "CRITICAL" ≡ 2)
unfolding severity_rank Dict.get
ranks = (refl, refl, refl)

-- Time alone never makes a row better.
freshness-worsens :
    (last_success_at : Option Time) (interval : ℕ) (now now' : ℕ)
    → now ≤ now'
    → severity_rank (classify_freshness last_success_at interval now)
      ≤ severity_rank (classify_freshness last_success_at interval now')
unfolding classify_freshness
freshness-worsens none interval now now' h = ground arith
freshness-worsens (some t) zero now now' h = ground arith
freshness-worsens (some t) (suc n) now now' h = ground (arith, ranks)
