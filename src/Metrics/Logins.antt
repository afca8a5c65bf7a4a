-- ===== src/Metrics/Logins.antt =====
-- src/rider_server/admin/dashboard_service.py: the rows of the logins that wait for someone, one for
-- each target.
mod Keys
pub mod Unique
use rider_crawl_baemin.Prelude.{
  sym, ap, ◌≤◌, ℕ, String, Bool, true, false, ◌&&◌, ◌≡◌, refl, ◌∙◌, Option, none, some, List, [],
  ◌∷◌, ◌++◌, ltb, leb, ◌=ₛ◌, not, if◌then◌else◌, truthy, same_text, keep, any, All, All-keep,
  All-map, All-pair, ◌||◌, eq_iff, arith, Bool-cases, inl, inr,
}

pub record AuthRequiredRow : Type 0 where
  pub tenant_id : String
  pub target_id : Option String
  pub profile_id : Option String
  pub reason : String
  pub target_name : Option String
  pub platform : Option String
  pub auth_recovery_detail : Option String

-- Python truth of an optional text, and `a or b`
abbrev has_text : Option String → Bool
has_text none = false
has_text (some s) = truthy s

abbrev or_else : Option String → Option String → Option String
or_else a b = if has_text a then a else b

unfoldable pub priority : AuthRequiredRow → ℕ
priority row =
    if row.reason =ₛ "AUTH_SESSION_PENDING"
    then 0
    else if row.reason =ₛ "ACCOUNT_AUTH_REQUIRED"
    then 1
    else 2

-- The row that `combine_rows` makes of the winner and the fallback
pub merged : AuthRequiredRow → AuthRequiredRow → AuthRequiredRow
merged winner fallback = record {
  tenant_id = winner.tenant_id;
  target_id = winner.target_id;
  profile_id = or_else winner.profile_id fallback.profile_id;
  reason = winner.reason;
  target_name = or_else winner.target_name fallback.target_name;
  platform = or_else winner.platform fallback.platform;
  auth_recovery_detail = or_else winner.auth_recovery_detail fallback.auth_recovery_detail;
}

pub combine_rows : AuthRequiredRow → AuthRequiredRow → AuthRequiredRow
unfolding merged
combine_rows existing candidate =
    if ltb (priority candidate) (priority existing)
    then merged candidate existing
    else merged existing candidate

-- The same key `(tenant_id, target_id)`
unfoldable pub same_key : AuthRequiredRow → AuthRequiredRow → Bool
same_key r s = (r.tenant_id =ₛ s.tenant_id) && same_text r.target_id s.target_id

-- The loop's step on `collapsed`: the rows of the dictionary in the order of its keys, which `order`
-- repeats. A row's key stays readable in it, since `combine_rows` only combines rows of one key.
pub collapse_row : AuthRequiredRow → List AuthRequiredRow → List AuthRequiredRow
unfolding combine_rows same_key
collapse_row row [] = row ∷ []
collapse_row row (r ∷ rows) =
    if same_key r row then combine_rows r row ∷ rows else r ∷ collapse_row row rows

unfoldable pub has_target : AuthRequiredRow → Bool
has_target row = has_text row.target_id

-- The loop on the rows with a target
pub collapse_rows : List AuthRequiredRow → List AuthRequiredRow → List AuthRequiredRow
unfolding collapse_row has_target
collapse_rows [] collapsed = collapsed
collapse_rows (row ∷ rows) collapsed =
    collapse_rows rows (if has_target row then collapse_row row collapsed else collapsed)

unfoldable pub collapse_auth_required_rows : List AuthRequiredRow → List AuthRequiredRow
unfolding collapse_rows keep
collapse_auth_required_rows rows = collapse_rows rows [] ++ keep (λ r. not (has_target r)) rows
