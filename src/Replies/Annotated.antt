-- ===== src/Replies/Annotated.antt =====
-- internal/cloudevents/reply/handlers: the handlers that annotate an alert, against the rules for their parts.
use yip_yap_foss.Prelude.{
  false, ◌≡◌, refl, ◌∙◌, arith, inl, inr, String, is_blank, Option, Bool-cases, str_eq_refl,
  if_rule,
}
use yip_yap_foss.Reply.Dispatcher.{Handled}
use yip_yap_foss.Replies.Model.{ReplyEventType, Db, Env}
use yip_yap_foss.Replies.Common.{
  effective_alert_id, annotate, write_timeline_event, load_and_verify,
}
use yip_yap_foss.Replies.Annotations.{
  ClaimedData, claimed_checks, enriched_checks, linked_checks, status_page_checks, handle_claimed,
  EnrichedData, handle_enriched, LinkedData, handle_linked, StatusPageData, add_status_page,
  status_page_ref, handle_status_page,
}
use yip_yap_foss.Replies.Rules.{
  outside, Proper, OwnAlert, effective_alert_id-scoped, fail_write-Proper, guarded-Proper,
  decoded-Proper, load_and_verify-Proper, accept-Proper,
}

pub annotate-audits :
    (env : Env) (i : String) (kind : ReplyEventType) (actor sub : Option String) (db : Db)
    → (annotate env i kind actor sub db).audits ≡ db.audits
unfolding annotate
annotate-audits env i kind actor sub db = ground arith

pub annotate-outside :
    (env : Env) (i org : String) (kind : ReplyEventType) (actor sub : Option String) (db : Db)
    → outside i org (annotate env i kind actor sub db) ≡ outside i org db
unfolding annotate
annotate-outside env i org kind actor sub db = elim (Bool-cases env.event_ok) [
  | inl ok ↦ rw (ok, str_eq_refl i) refl
  | inr fails ↦ rw fails refl
]

module _ (env : Env) (call : Handled) (db : Db) where
  write_timeline_event-Proper :
      (kind : ReplyEventType)
      → is_blank call.entry.alert_id ≡ false
      → OwnAlert call db
      → Proper env.audit_ok
          (OwnAlert call db)
          call
          db
          (write_timeline_event env call call.entry.alert_id kind db)
  unfolding write_timeline_event
  write_timeline_event-Proper kind named own = elim (Bool-cases env.event_ok) [
    | inl ok ↦
        rw (named, write_timeline_event, ok)
          (accept-Proper env call (OwnAlert call db) db _ own refl
            (rw (str_eq_refl call.entry.alert_id) refl))
    | inr fails ↦
        rw (named, write_timeline_event, fails)
          (fail_write-Proper env call (OwnAlert call db) db "write_timeline")
  ]

  -- The end of the three handlers that only write an event.
  annotated-Proper :
      (kind : ReplyEventType) (j : String)
      → is_blank call.entry.alert_id ≡ false
      → Proper env.audit_ok (OwnAlert call db) call db (
          load_and_verify env call
            (effective_alert_id call.entry.alert_id j)
            (λ _. write_timeline_event env call (effective_alert_id call.entry.alert_id j) kind)
            db)
  annotated-Proper kind j scope = rw (effective_alert_id-scoped call.entry.alert_id j scope) (
      load_and_verify-Proper env call (OwnAlert call db) db call.entry.alert_id _
        (λ a found own. write_timeline_event-Proper kind scope (a, found, own)))

  pub handle_claimed-Proper :
      (payload : Option ClaimedData)
      → Proper env.audit_ok (OwnAlert call db) call db (handle_claimed env call payload db)
  unfolding handle_claimed
  handle_claimed-Proper payload = decoded-Proper env call _ db payload _ (λ fields.
      guarded-Proper env call _ db (claimed_checks call fields) _
        (λ passed. annotated-Proper _ fields.alert_id passed.1.1.1.1.0))

  pub handle_enriched-Proper :
      (payload : Option EnrichedData)
      → Proper env.audit_ok (OwnAlert call db) call db (handle_enriched env call payload db)
  unfolding handle_enriched
  handle_enriched-Proper payload = decoded-Proper env call _ db payload _ (λ fields.
      guarded-Proper env call _ db (enriched_checks env call fields) _
        (λ passed. annotated-Proper _ fields.alert_id passed.1.0))

  pub handle_linked-Proper :
      (payload : Option LinkedData)
      → Proper env.audit_ok (OwnAlert call db) call db (handle_linked env call payload db)
  unfolding handle_linked
  handle_linked-Proper payload = decoded-Proper env call _ db payload _ (λ fields.
      guarded-Proper env call _ db (linked_checks env call fields) _
        (λ passed. annotated-Proper _ fields.alert_id passed.1.0))

  add_status_page-Proper :
      (fields : StatusPageData)
      → OwnAlert call db
      → Proper env.audit_ok
          (OwnAlert call db)
          call
          db
          (add_status_page env call call.entry.alert_id fields db)
  unfolding add_status_page status_page_ref
  add_status_page-Proper fields own =
      if_rule (Proper env.audit_ok (OwnAlert call db) call db) env.insert_ok
        (accept-Proper env call (OwnAlert call db) db _ own (annotate-audits env _ _ _ _ _) (
          annotate-outside env call.entry.alert_id call.entry.org_id _ _ _ _
          ∙ rw (str_eq_refl call.entry.alert_id) refl))
        (fail_write-Proper env call (OwnAlert call db) db "create_status_page_ref")

  pub handle_status_page-Proper :
      (payload : Option StatusPageData)
      → Proper env.audit_ok (OwnAlert call db) call db (handle_status_page env call payload db)
  unfolding handle_status_page
  handle_status_page-Proper payload = decoded-Proper env call _ db payload _ (λ fields.
      guarded-Proper env call _ db (status_page_checks env call fields) _ (λ passed.
        rw (effective_alert_id-scoped call.entry.alert_id fields.alert_id passed.1.0) (
          load_and_verify-Proper env call (OwnAlert call db) db call.entry.alert_id _
            (λ a found own. add_status_page-Proper fields (a, found, own)))))
