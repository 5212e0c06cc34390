-- ===== src/Replies/Rules.antt =====
-- internal/cloudevents/reply/handlers: what a reply may leave behind, and a rule for each part of a handler.
use yip_yap_foss.Prelude.{
  Bool, true, false, not, ◌≡◌, refl, arith, inl, inr, ◌⊎◌, String, str_eq, is_blank, Option, none,
  some, List, [], ◌∷◌, keep, All, Bool-cases, Option-cases, str_eq_refl, any, ap, ◌∙◌, ◌&&◌,
  if_rule,
}
use yip_yap_foss.Domain.Alert.{Alert}
use yip_yap_foss.Store.Alerts.{has_id, get_by_id}
use yip_yap_foss.Reply.Dispatcher.{Handled}
use yip_yap_foss.Replies.Model.{
  AuditOutcome, accepted, rejected, handler_error, AuditEntry, Db, Env, Fault, rejection,
  alert_not_found, store_error, Mark, AlertSuppression, AlertRemediation, AlertRoutingRule,
  AlertStatusPageRef, TimelineEvent,
}
use yip_yap_foss.Domain.Monitor.{Monitor}
use yip_yap_foss.Replies.Common.{
  Result, same_audit, add_audit, audit_row, write_audit, warn_and_reject, fail_write, accept,
  first_failure, guarded, decoded, foreign, read_alert, load_and_verify, effective_alert_id,
}

-- The outcome that the audit has for what `Handle` returns.
abbrev pub outcome_of : Option Fault → AuditOutcome
outcome_of none = accepted
outcome_of (some (rejection reason)) = rejected reason
outcome_of (some alert_not_found) = rejected "alert_not_found"
outcome_of (some (store_error step)) = handler_error step

-- The tables without the rows of the alert `i` and without the monitors, rules and audit rows of the org.
abbrev pub outside : String → String → Db → Db
outside i org db = record {
  alerts = keep (λ (a : Alert). not (has_id i a)) db.alerts;
  marks = keep (λ (m : String × Mark). not (str_eq m.0 i)) db.marks;
  monitors = keep (λ (m : Monitor). not (str_eq m.org_id org)) db.monitors;
  suppressions = keep (λ (s : AlertSuppression). not (str_eq s.alert_id i)) db.suppressions;
  remediations = keep (λ (r : AlertRemediation). not (str_eq r.alert_id i)) db.remediations;
  routing_rules = keep (λ (r : AlertRoutingRule). not (str_eq r.org_id org)) db.routing_rules;
  status_page_refs =
      keep (λ (r : AlertStatusPageRef). not (str_eq r.alert_id i)) db.status_page_refs;
  events = keep (λ (e : TimelineEvent). not (str_eq e.alert_id i)) db.events;
  audits = keep (λ (a : AuditEntry). not (str_eq a.org_id org)) db.audits;
}

-- An audit of the outcome that is returned; nothing outside; and nothing but that audit unless `T`.
pub record Proper (ok : Bool) (T : Type 0) (call : Handled) (db : Db) (r : Result) : Type 0 where
  pub audited : r.1.audits ≡ add_audit ok (audit_row call (outcome_of r.0)) db.audits
  pub confined :
      outside call.entry.alert_id call.entry.org_id r.1
      ≡ outside call.entry.alert_id call.entry.org_id db
  pub touched : (r.1 ≡ record db { audits = r.1.audits }) ⊎ T

-- The alert that the entry names is there, and of the entry's org if it has one.
abbrev pub OwnAlert : Handled → Db → Type 0
OwnAlert call db =
    (a : Alert) × (get_by_id call.entry.alert_id db.alerts ≡ some a)
    × (foreign call a.org_id ≡ false)

abbrev pub Passed : Bool × String → Type 0
Passed check = check.0 ≡ false

pub first_failure-Passed : (cs : List (Bool × String)) → first_failure cs ≡ none → All Passed cs
unfolding first_failure
first_failure-Passed [] e = tt
first_failure-Passed ((fails, reason) ∷ cs) e = elim (Bool-cases fails) [
  | inl bad ↦ absurd (impossible bad)
  | inr ok ↦ (ok, first_failure-Passed cs (ground arith))
]
  where
    impossible : fails ≡ true → ⊥
    impossible bad = ground arith

pub effective_alert_id-scoped : (i j : String) → is_blank i ≡ false → effective_alert_id i j ≡ i
unfolding effective_alert_id
effective_alert_id-scoped i j e = rw e refl

module _ (env : Env) (call : Handled) where
  -- An audit row of the org is not outside.
  write_audit-outside :
      (i : String) (o : AuditOutcome) (db : Db)
      → outside i call.entry.org_id (write_audit env call o db) ≡ outside i call.entry.org_id db
  unfolding write_audit
  write_audit-outside i o db =
      if_rule
        (λ (rows : List AuditEntry).
          outside i call.entry.org_id (record db { audits = rows })
          ≡ outside i call.entry.org_id db)
        (env.audit_ok && not (any (same_audit (audit_row call o)) db.audits))
        (rw (str_eq_refl call.entry.org_id) refl) refl

  module _ (T : Type 0) (db : Db) where
    -- An audit row of the org alone.
    audit-Proper :
        (f : Option Fault) (o : AuditOutcome)
        → outcome_of f ≡ o
        → Proper env.audit_ok T call db (f, write_audit env call o db)
    unfolding write_audit
    audit-Proper f o e = record {
      audited = rw e refl;
      confined = write_audit-outside call.entry.alert_id o db;
      touched = inl refl;
    }

    pub warn_and_reject-Proper :
        (reason : String) → Proper env.audit_ok T call db (warn_and_reject env call reason db)
    unfolding warn_and_reject
    warn_and_reject-Proper reason = audit-Proper (some (rejection reason)) (rejected reason) refl

    pub fail_write-Proper :
        (step : String) → Proper env.audit_ok T call db (fail_write env call step db)
    unfolding fail_write
    fail_write-Proper step = audit-Proper (some (store_error step)) (handler_error step) refl

    pub guarded-Proper :
        (cs : List (Bool × String)) (rest : Db → Result)
        → (All Passed cs → Proper env.audit_ok T call db (rest db))
        → Proper env.audit_ok T call db (guarded env call cs rest db)
    unfolding guarded
    guarded-Proper cs rest h = elim (Option-cases (first_failure cs)) [
      | inl ok ↦ rw (ok, guarded) (h (first_failure-Passed cs ok))
      | inr (reason, bad) ↦ rw (bad, guarded) (warn_and_reject-Proper reason)
    ]

    pub decoded-Proper {ℓ} :
        {A : Type ℓ} (payload : Option A) (rest : A → Db → Result)
        → ((a : A) → Proper env.audit_ok T call db (rest a db))
        → Proper env.audit_ok T call db (decoded env call payload rest db)
    unfolding decoded
    decoded-Proper none rest h = warn_and_reject-Proper "malformed_data"
    decoded-Proper (some a) rest h = h a

    pub load_and_verify-Proper :
        (i : String) (rest : Alert → Db → Result)
        → ((a : Alert)
            → get_by_id i db.alerts ≡ some a
            → foreign call a.org_id ≡ false
            → Proper env.audit_ok T call db (rest a db))
        → Proper env.audit_ok T call db (load_and_verify env call i rest db)
    unfolding load_and_verify
    load_and_verify-Proper i rest h = elim (Option-cases (read_alert env i db)) [
      | inl missing ↦
          rw (missing, load_and_verify)
            (audit-Proper (some alert_not_found) (rejected "alert_not_found") refl)
      | inr (a, found) ↦ elim (Bool-cases (foreign call a.org_id)) [
        | inl alien ↦ rw (found, load_and_verify, alien) (warn_and_reject-Proper "cross_org_alert")
        | inr own ↦ rw (found, load_and_verify, own) (h a (ground arith) own)
      ]
    ]

    -- A run of writes that leave the audit and the outside alone, and then the audit of the outcome.
    pub written-Proper :
        (f : Option Fault) (db' : Db) (t : T)
        → db'.audits ≡ db.audits
        → outside call.entry.alert_id call.entry.org_id db'
          ≡ outside call.entry.alert_id call.entry.org_id db
        → Proper env.audit_ok T call db (f, write_audit env call (outcome_of f) db')
    unfolding write_audit
    written-Proper f db' t same apart = record {
      audited = ap (add_audit env.audit_ok (audit_row call (outcome_of f))) same;
      confined = write_audit-outside call.entry.alert_id (outcome_of f) db' ∙ apart;
      touched = inr t;
    }

    pub accept-Proper :
        (db' : Db) (t : T)
        → db'.audits ≡ db.audits
        → outside call.entry.alert_id call.entry.org_id db'
          ≡ outside call.entry.alert_id call.entry.org_id db
        → Proper env.audit_ok T call db (accept env call db')
    unfolding accept
    accept-Proper db' t same apart = written-Proper none db' t same apart

    -- A write that failed after another had succeeded.
    pub fail_write-Proper_after :
        (step : String) (db' : Db) (t : T)
        → db'.audits ≡ db.audits
        → outside call.entry.alert_id call.entry.org_id db'
          ≡ outside call.entry.alert_id call.entry.org_id db
        → Proper env.audit_ok T call db (fail_write env call step db')
    unfolding fail_write
    fail_write-Proper_after step db' t same apart =
        written-Proper (some (store_error step)) db' t same apart
