-- ===== src/Replies/Mutated.antt =====
-- internal/cloudevents/reply/handlers: the handlers that mark, own, acknowledge and suppress an alert, against the rules
-- for their parts.
use yip_yap_foss.Prelude.{
  Bool, true, false, ◌≡◌, refl, ◌∙◌, inl, inr, String, is_blank, Option, Option-cases, str_eq_refl,
  if_rule, ◌∷◌,
}
use yip_yap_foss.Reply.Dispatcher.{Handled}
use yip_yap_foss.Replies.Model.{Db, Env}
use yip_yap_foss.Replies.Common.{Result, foreign, read_alert, effective_actor}
use yip_yap_foss.Replies.Mutations.{
  settle, DeduplicatedData, deduplicated_checks, verify_primary, handle_deduplicated, OwnershipData,
  ownership_checks, check_owner, verify_owner, handle_ownership, AckData, ack_with_context_checks,
  handle_ack_with_context, SuppressedData, suppressed_checks, suppression, add_suppression,
  handle_suppressed,
}
use yip_yap_foss.Replies.Rules.{
  outside, Proper, OwnAlert, effective_alert_id-scoped, warn_and_reject-Proper, fail_write-Proper,
  guarded-Proper, decoded-Proper, load_and_verify-Proper, accept-Proper, fail_write-Proper_after,
}
use yip_yap_foss.Replies.Annotated.{annotate-audits, annotate-outside}
use yip_yap_foss.Replies.Writes.{Still, mark_duplicate-Still, set_owner-Still, store_ack-Still}

module _ (env : Env) (call : Handled) (db : Db) where
  abbrev IsProper : Result → Type 0
  IsProper r = Proper env.audit_ok (OwnAlert call db) call db r

  pub settle-Proper :
      (step : String) (o : Bool × Db)
      → OwnAlert call db
      → Still call.entry.alert_id call.entry.org_id db o.1
      → IsProper (settle env call step o)
  unfolding settle
  settle-Proper step (true, db') own still = accept-Proper env call _ db db' own still.0 still.1
  settle-Proper step (false, db') own still =
      fail_write-Proper_after env call _ db step db' own still.0 still.1

  verify_primary-Proper :
      (primary : String) → IsProper (verify_primary env call call.entry.alert_id primary db)
  unfolding verify_primary
  verify_primary-Proper primary = elim (Option-cases (read_alert env primary db)) [
    | inl missing ↦
        rw (missing, verify_primary) (warn_and_reject-Proper env call _ db "unknown_duplicate_of")
    | inr (p, found) ↦
        rw (found, verify_primary)
          (if_rule IsProper (foreign call p.org_id)
            (warn_and_reject-Proper env call _ db "cross_org_duplicate")
            (load_and_verify-Proper env call _ db call.entry.alert_id _ (λ a there own.
              settle-Proper "mark_duplicate" _ (a, there, own)
                (mark_duplicate-Still env call.entry.alert_id call.entry.org_id db primary))))
  ]

  pub handle_deduplicated-Proper :
      (payload : Option DeduplicatedData) → IsProper (handle_deduplicated env call payload db)
  unfolding handle_deduplicated
  handle_deduplicated-Proper payload = decoded-Proper env call _ db payload _ (λ fields.
      guarded-Proper env call _ db (deduplicated_checks call fields) _ (λ passed.
        rw (effective_alert_id-scoped call.entry.alert_id fields.alert_id passed.1.1.0)
          (verify_primary-Proper fields.duplicate_of)))

  verify_owner-Proper :
      (fields : OwnershipData) → IsProper (verify_owner env call call.entry.alert_id fields db)
  unfolding verify_owner
  verify_owner-Proper fields = elim (Option-cases (check_owner env call fields)) [
    | inl ok ↦
        rw (ok, verify_owner)
          (load_and_verify-Proper env call _ db call.entry.alert_id _ (λ a there own.
            settle-Proper "set_owner" _ (a, there, own)
              (set_owner-Still env call.entry.alert_id call.entry.org_id db fields.owner_kind
                fields.owner_id)))
    | inr (reason, bad) ↦ rw (bad, verify_owner) (warn_and_reject-Proper env call _ db reason)
  ]

  pub handle_ownership-Proper :
      (payload : Option OwnershipData) → IsProper (handle_ownership env call payload db)
  unfolding handle_ownership
  handle_ownership-Proper payload = decoded-Proper env call _ db payload _ (λ fields.
      guarded-Proper env call _ db (ownership_checks call fields) _ (λ passed.
        rw (effective_alert_id-scoped call.entry.alert_id fields.alert_id passed.1.0)
          (verify_owner-Proper fields)))

  pub handle_ack_with_context-Proper :
      (payload : Option AckData) → IsProper (handle_ack_with_context env call payload db)
  unfolding handle_ack_with_context
  handle_ack_with_context-Proper payload = decoded-Proper env call _ db payload _ (λ fields.
      guarded-Proper env call _ db (ack_with_context_checks call fields) _ (λ passed.
        rw (effective_alert_id-scoped call.entry.alert_id fields.alert_id passed.1.0) (
          load_and_verify-Proper env call _ db call.entry.alert_id _ (λ a there own.
            settle-Proper "ack" _ (a, there, own)
              (store_ack-Still env call.entry.alert_id call.entry.org_id db fields.reason_code
                fields.reference_id (effective_actor call))))))

  add_suppression-Proper :
      (fields : SuppressedData)
      → OwnAlert call db
      → IsProper (add_suppression env call call.entry.alert_id fields db)
  unfolding add_suppression suppression
  add_suppression-Proper fields own =
      let added : Db = record db {
        suppressions = suppression env call call.entry.alert_id fields ∷ db.suppressions;
      } in
      let apart : outside call.entry.alert_id call.entry.org_id added
          ≡ outside call.entry.alert_id call.entry.org_id db =
        rw (str_eq_refl call.entry.alert_id) refl in
      if_rule IsProper env.insert_ok
        (accept-Proper env call _ db _ own
          (if_rule (λ (d : Db). d.audits ≡ db.audits) (is_blank call.entry.alert_id) refl
            (annotate-audits env _ _ _ _ _))
          (if_rule
            (λ (d : Db).
              outside call.entry.alert_id call.entry.org_id d
              ≡ outside call.entry.alert_id call.entry.org_id db)
            (is_blank call.entry.alert_id) apart
            (annotate-outside env call.entry.alert_id call.entry.org_id _ _ _ _ ∙ apart)))
        (fail_write-Proper env call _ db "create_suppression")

  pub handle_suppressed-Proper :
      (payload : Option SuppressedData) → IsProper (handle_suppressed env call payload db)
  unfolding handle_suppressed
  handle_suppressed-Proper payload = decoded-Proper env call _ db payload _ (λ fields.
      guarded-Proper env call _ db (suppressed_checks call fields) _ (λ passed.
        rw (effective_alert_id-scoped call.entry.alert_id fields.alert_id passed.1.0) (
          load_and_verify-Proper env call _ db call.entry.alert_id _
            (λ a there own. add_suppression-Proper fields (a, there, own)))))
