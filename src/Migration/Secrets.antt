-- ===== src/Migration/Secrets.antt =====
-- A mapped account holds references to secrets only.
use rider_crawl_baemin.Prelude.{
  String, false, arith, not, ◌&&◌, ◌≡◌, refl, sym, subst, Bool-cases, inl, inr, truthy, false≢true,
}
use rider_crawl_baemin.Text.{Runtime, strip}
use rider_crawl_baemin.Domain.{Time}
use rider_crawl_baemin.Delivery.{returned, raised}
use rider_crawl_baemin.Migration.{
  UiSettings, TargetMapping, PlatformAccount, Tried, ◌>>=◌, secret_ref_only, platform_from_name,
  map_active_tab,
}

abbrev IfReturned : {A : Type 0} → (A → Type 0) → Tried A → Type 0
IfReturned P (returned a) = P a
IfReturned P (raised exc) = Unit

untruthy : (s : String) → truthy s ≡ false → "" ≡ s
untruthy String.[] h = refl
untruthy (String.◌∷◌ c s) h = absurd (false≢true (sym h))

after_any :
    {A B : Type 0} (Q : B → Type 0) (m : Tried A) (f : A → Tried B)
    → ((a : A) → IfReturned Q (f a))
    → IfReturned Q (m >>= f)
after_any Q (returned a) f g = g a
after_any Q (raised exc) f g = tt

-- A secret in plain text has a reference.
abbrev pub IsReferenced : String → String → Type 0
IsReferenced plaintext ref = (truthy (strip plaintext) && not (truthy (strip ref))) ≡ false

secret_reference :
    (plaintext ref : String)
    → IfReturned (λ s. (s ≡ strip ref) × IsReferenced plaintext ref) (secret_ref_only plaintext ref)
unfolding secret_ref_only
secret_reference plaintext ref = elim (Bool-cases (truthy (strip ref))) [
  | inl e ↦ rw e (refl, ground arith)
  | inr e ↦ rw e (elim (Bool-cases (truthy (strip plaintext))) [
    | inl p ↦ rw p tt
    | inr p ↦ rw p (untruthy (strip ref) e, refl)
  ])
]

after_secret :
    {B : Type 0} (Q : B → Type 0) (plaintext ref : String) (f : String → Tried B)
    → ((s : String) → s ≡ strip ref → IsReferenced plaintext ref → IfReturned Q (f s))
    → IfReturned Q (secret_ref_only plaintext ref >>= f)
after_secret Q plaintext ref f g =
    run (secret_ref_only plaintext ref) (secret_reference plaintext ref)
  where
    run :
        (m : Tried String)
        → IfReturned (λ s. (s ≡ strip ref) × IsReferenced plaintext ref) m
        → IfReturned Q (m >>= f)
    run (returned s) h = g s h.0 h.1
    run (raised exc) h = tt

-- No secret of the settings stands in plain text only.
abbrev pub AreReferenced : UiSettings → Type 0
AreReferenced settings =
    IsReferenced settings.coupang_login_id settings.coupang_login_id_ref
    × IsReferenced settings.coupang_login_password settings.coupang_login_password_ref
    × IsReferenced settings.verification_email_address settings.verification_email_address_ref
    × IsReferenced settings.verification_email_app_password
        settings.verification_email_app_password_ref

-- The four secrets of an account are the references of the settings.
abbrev pub HasReferences : UiSettings → PlatformAccount → Type 0
HasReferences settings account =
    (account.username ≡ strip settings.coupang_login_id_ref)
    × (account.password ≡ strip settings.coupang_login_password_ref)
    × (account.verification_email_address ≡ strip settings.verification_email_address_ref)
    × (account.verification_email_app_password ≡ strip settings.verification_email_app_password_ref)

abbrev IsMapped : UiSettings → TargetMapping → Type 0
IsMapped settings mapping = HasReferences settings mapping.platform_account × AreReferenced settings

IsMapped-references :
    (rt : Runtime) (settings : UiSettings) (created_at : Time)
    → IfReturned (IsMapped settings) (map_active_tab rt settings created_at)
unfolding map_active_tab
IsMapped-references rt settings created_at =
    let Q = IsMapped settings in
    after_any Q (platform_from_name rt settings.platform_name) _ (λ p.
      after_secret Q settings.coupang_login_id settings.coupang_login_id_ref _ (λ a ha ka.
        after_secret Q settings.coupang_login_password settings.coupang_login_password_ref _
          (λ b hb kb.
            after_secret Q settings.verification_email_address
              settings.verification_email_address_ref _
              (λ c hc kc.
                after_secret Q settings.verification_email_app_password
                  settings.verification_email_app_password_ref _
                  (λ d hd kd. ((ha, hb, hc, hd), (ka, kb, kc, kd)))))))

-- A tab that is mapped has no secret in plain text without a reference, and its account's login,
-- password and mail secrets are the references of the settings without the white space at their ends:
-- the empty text where neither is set.
pub map_active_tab-references :
    (rt : Runtime) (settings : UiSettings) (created_at : Time) (mapping : TargetMapping)
    → map_active_tab rt settings created_at ≡ returned mapping
    → HasReferences settings mapping.platform_account × AreReferenced settings
map_active_tab-references rt settings created_at mapping e =
    subst (IfReturned (IsMapped settings)) e (IsMapped-references rt settings created_at)
