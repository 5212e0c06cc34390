-- ===== src/Replies/Escalations.antt =====
-- internal/cloudevents/reply/handlers: the handlers that want the trust of the channel, against the rules for their parts.
use yip_yap_foss.Prelude.{
  false, not, ◌≡◌, refl, ◌∙◌, arith, inl, inr, String, is_blank, Option, none, some, List, [], ◌∷◌,
  keep, Option-cases, str_eq_refl, if◌then◌else◌, if_rule, subst,
}
use yip_yap_foss.Domain.Alert.{Alert}
use yip_yap_foss.Domain.Monitor.{Monitor}
use yip_yap_foss.Store.Alerts.{has_id, get_by_id, replace_row, update}
use yip_yap_foss.Escalation.Created.{get_by_id-key}
use yip_yap_foss.Reply.Dispatcher.{Handled}
use yip_yap_foss.Replies.Model.{Db, Env}
use yip_yap_foss.Replies.Common.{Result, foreign}
use yip_yap_foss.Replies.Elevated.{
  needs_trust, EscalatedData, escalated_checks, lookup_step, escalated_alert, escalate,
  handle_escalated, RouteData, route_checks, target_failure, routing_rule, add_rule, verify_target,
  handle_route,
}
use yip_yap_foss.Replies.Rules.{
  outside, Proper, OwnAlert, effective_alert_id-scoped, warn_and_reject-Proper, fail_write-Proper,
  guarded-Proper, decoded-Proper, load_and_verify-Proper, accept-Proper,
}
use yip_yap_foss.Replies.Annotated.{annotate-audits, annotate-outside}
use yip_yap_foss.Replies.Writes.{Still}

pub others-replace_row :
    (a : Alert) (rows : List Alert)
    → keep (λ (b : Alert). not (has_id a.id b)) (replace_row a rows)
      ≡ keep (λ (b : Alert). not (has_id a.id b)) rows
unfolding replace_row
others-replace_row a [] = refl
others-replace_row a (b ∷ rows) = ground (arith, others-replace_row a rows)

-- An update of the alert, as the other alerts see it.
pub update-Still :
    (i org : String) (a : Alert) (db : Db) (rows : List Alert)
    → a.id ≡ i
    → update a db.alerts ≡ some rows
    → Still i org db (record db { alerts = rows })
unfolding update
update-Still i org a db rows key e =
    let same : rows ≡ replace_row a db.alerts =
      ground (arith, Option-cases (get_by_id a.id db.alerts)) in
    rw same (
      refl,
      rw
          (subst
            (λ j.
              keep (λ (b : Alert). not (has_id j b)) (replace_row a db.alerts)
              ≡ keep (λ (b : Alert). not (has_id j b)) db.alerts)
            key (others-replace_row a db.alerts))
          refl,
    )

escalated_alert-key :
    (env : Env) (fields : EscalatedData) (before : Alert) (monitors : List Monitor) (a : Alert)
    → escalated_alert env fields before monitors ≡ some a
    → a.id ≡ before.id
unfolding escalated_alert
escalated_alert-key env fields before monitors a e =
    ground (arith, Option-cases (lookup_step env before.monitor_id fields.step_index monitors))

module _ (env : Env) (call : Handled) (db : Db) where
  abbrev IsProper : Result → Type 0
  IsProper r = Proper env.audit_ok (OwnAlert call db) call db r

  escalate-Proper :
      (fields : EscalatedData) (before : Alert)
      → get_by_id call.entry.alert_id db.alerts ≡ some before
      → foreign call before.org_id ≡ false
      → IsProper (escalate env call call.entry.alert_id fields before db)
  unfolding escalate
  escalate-Proper fields before there own =
      elim (Option-cases (escalated_alert env fields before db.monitors)) [
        | inl bad ↦ rw (bad, escalate) (warn_and_reject-Proper env call _ db "invalid_step_index")
        | inr (a, good) ↦ elim (Option-cases (if env.update_ok then update a db.alerts else none)) [
          | inl fails ↦ rw (good, escalate, fails) (fail_write-Proper env call _ db "update_alert")
          | inr (rows, wrote) ↦
              let key : a.id ≡ call.entry.alert_id =
                escalated_alert-key env fields before db.monitors a good
                ∙ get_by_id-key call.entry.alert_id db.alerts before there in
              let still =
                update-Still call.entry.alert_id call.entry.org_id a db rows key (ground arith) in
              rw (good, escalate, wrote)
                (accept-Proper env call _ db _ (before, there, own)
                  (annotate-audits env _ _ _ _ _ ∙ still.0)
                  (annotate-outside env call.entry.alert_id call.entry.org_id _ _ _ _ ∙ still.1))
        ]
      ]

  pub handle_escalated-Proper :
      (payload : Option EscalatedData) → IsProper (handle_escalated env call payload db)
  unfolding handle_escalated
  handle_escalated-Proper payload = guarded-Proper env call _ db (needs_trust env ∷ []) _ (λ _.
      decoded-Proper env call _ db payload _ (λ fields.
        guarded-Proper env call _ db (escalated_checks call fields) _ (λ passed.
          rw (effective_alert_id-scoped call.entry.alert_id fields.alert_id passed.1.1.0)
            (load_and_verify-Proper env call _ db call.entry.alert_id _ (escalate-Proper fields)))))

  add_rule-Proper :
      (fields : RouteData)
      → OwnAlert call db
      → IsProper (add_rule env call call.entry.alert_id fields db)
  unfolding add_rule routing_rule
  add_rule-Proper fields own =
      let added : Db = record db {
        routing_rules = routing_rule env call fields ∷ db.routing_rules;
      } in
      let apart : outside call.entry.alert_id call.entry.org_id added
          ≡ outside call.entry.alert_id call.entry.org_id db =
        rw (str_eq_refl call.entry.org_id) refl in
      if_rule IsProper env.insert_ok
        (accept-Proper env call _ db _ own
          (if_rule (λ (d : Db). d.audits ≡ db.audits) (is_blank call.entry.alert_id) refl
            (annotate-audits env _ _ _ _ _))
          (if_rule
            (λ (d : Db).
              outside call.entry.alert_id call.entry.org_id d
              ≡ outside call.entry.alert_id call.entry.org_id db)
            (is_blank call.entry.alert_id) apart
            (annotate-outside env call.entry.alert_id call.entry.org_id _ _ _ _ ∙ apart)))
        (fail_write-Proper env call _ db "create_routing_rule")

  verify_target-Proper :
      (fields : RouteData) → IsProper (verify_target env call call.entry.alert_id fields db)
  unfolding verify_target
  verify_target-Proper fields =
      elim (Option-cases (target_failure call (env.get_channel fields.target_channel_id))) [
        | inl ok ↦
            rw (ok, verify_target)
              (guarded-Proper env call _ db _ _ (λ _.
                load_and_verify-Proper env call _ db call.entry.alert_id _
                  (λ a there own. add_rule-Proper fields (a, there, own))))
        | inr (reason, bad) ↦ rw (bad, verify_target) (warn_and_reject-Proper env call _ db reason)
      ]

  pub handle_route-Proper :
      (payload : Option RouteData) → IsProper (handle_route env call payload db)
  unfolding handle_route
  handle_route-Proper payload = guarded-Proper env call _ db (needs_trust env ∷ []) _ (λ _.
      decoded-Proper env call _ db payload _ (λ fields.
        guarded-Proper env call _ db (route_checks call fields) _ (λ passed.
          rw (effective_alert_id-scoped call.entry.alert_id fields.alert_id passed.1.0)
            (verify_target-Proper fields))))
