-- ===== src/Retention/Hold.antt =====
-- What the retention purges never delete: rows under a legal hold, the protected audit trail.
use saa_sweave.Prelude.{
  ℕ, ◌-◌, ◌*◌, ◌≤◌, String, ◌≡◌, sym, subst, Bool, true, false, ◌||◌, Option, none, some, List, [],
  ◌∷◌, arith, leb, keep, eq_iff,
}
use text.Mathlib.Text.{◌==◌ as str_eq}
use saa_sweave.Prelude.Text.{starts_with-like_prefix}
use saa_sweave.Retention.{
  Options, Store, AuditLogRow, audit_log, legal_hold, is_in, is_free,
  is_retention_protected_audit_action, resolve_days, is_unprotected, cutoff_for, audit_qualifies,
  chunk_of, is_dry, HasUniqueIds, purge_rows_keeps, purge_audit_logs, AgedRow, purge_aged,
  aged_and_free,
}

abbrev pub is_held_by : List String → Option String → Bool
is_held_by orgs none = false
is_held_by orgs (some org) = is_in orgs org

-- A row of the audit log that no purge may delete: an action under a protected prefix, an age below
-- two years whatever the overrides, or an organization under a legal hold.
abbrev pub is_kept_audit : ℕ → Options → AuditLogRow → Bool
is_kept_audit now o r =
    is_retention_protected_audit_action r.action
    || leb (now - 730 * 86_400_000) r.created_at
    || is_held_by (legal_hold o) r.organization_id

protected_not_unprotected :
    (action : String)
    → is_retention_protected_audit_action action ≡ true
    → is_unprotected action ≡ false
unfolding is_retention_protected_audit_action
protected_not_unprotected action h = ground (
  arith,
  starts_with-like_prefix "auth." action,
  starts_with-like_prefix "security." action,
  starts_with-like_prefix "api_key." action,
  starts_with-like_prefix "sso." action,
  starts_with-like_prefix "billing." action,
)

audit_cutoff : (now : ℕ) (o : Options) → cutoff_for audit_log o now ≤ now - 730 * 86_400_000
unfolding resolve_days
audit_cutoff now o = omega arith

pub held_not_free :
    (orgs : List String) (org : Option String)
    → is_held_by orgs org ≡ true
    → is_free orgs org ≡ false
held_not_free orgs none h = ground arith
held_not_free [] (some org) h = ground arith
held_not_free (o ∷ orgs) (some org) h = ground arith

kept_not_qualified :
    (now : ℕ) (o : Options) (r : AuditLogRow)
    → is_kept_audit now o r ≡ true
    → audit_qualifies (cutoff_for audit_log o now) (legal_hold o) r ≡ false
kept_not_qualified now o r h = ground (
  arith,
  protected_not_unprotected r.action,
  audit_cutoff now o,
  held_not_free (legal_hold o) r.organization_id,
)

pub purge_audit_logs_kept :
    (now : ℕ) (o : Options) (s : Store)
    → HasUniqueIds (λ k. k.id) s.audit_logs
    → keep (is_kept_audit now o) (purge_audit_logs now o s).1.audit_logs
      ≡ keep (is_kept_audit now o) s.audit_logs
unfolding purge_audit_logs
purge_audit_logs_kept now o s u =
    purge_rows_keeps (λ k. k.id) (is_kept_audit now o)
      (audit_qualifies (cutoff_for audit_log o now) (legal_hold o)) (λ k. k.created_at) (chunk_of o)
      (is_dry o) s.audit_logs u (kept_not_qualified now o)

-- The rows of an organization that is under a legal hold, in a table of aged rows.
abbrev pub is_org : String → Option String → Bool
is_org org none = false
is_org org (some o) = str_eq o org

abbrev pub is_of : String → AgedRow → Bool
is_of org r = is_org org r.organization_id

pub org_not_free :
    (orgs : List String) (org : String) (column : Option String)
    → is_in orgs org ≡ true
    → is_org org column ≡ true
    → is_free orgs column ≡ false
org_not_free orgs org none held e = ground arith
org_not_free orgs org (some o) held e =
    held_not_free orgs (some o) (subst (λ x. is_in orgs x ≡ true) (sym ((eq_iff o org).0 e)) held)

pub purge_aged_held :
    (cutoff : ℕ) (o : Options) (org : String) (rows : List AgedRow)
    → is_in (legal_hold o) org ≡ true
    → HasUniqueIds (λ k. k.id) rows
    → keep (is_of org) (purge_aged (aged_and_free cutoff (legal_hold o)) o rows).1
      ≡ keep (is_of org) rows
purge_aged_held cutoff o org rows held u =
    purge_rows_keeps (λ k. k.id) (is_of org) (aged_and_free cutoff (legal_hold o))
      (λ k. k.created_at) (chunk_of o) (is_dry o) rows u
      (λ r e. ground (arith, org_not_free (legal_hold o) org r.organization_id held))
