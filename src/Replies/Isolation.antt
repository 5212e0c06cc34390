-- ===== src/Replies/Isolation.antt =====
-- internal/cloudevents/reply/handlers: the thirteen handlers together, and the alerts of other orgs.
use yip_yap_foss.Prelude.{
  true, false, not, ◌≡◌, ◌≢◌, refl, sym, ◌∙◌, ap, arith, inl, inr, String, str_eq, is_blank, some,
  List, [], ◌∷◌, any, keep, Bool-cases, Option-cases, str_eq_refl, eq_of_str_eq,
}
use text.Mathlib.TextEquality.{eq_iff}
use yip_yap_foss.Domain.Alert.{Alert}
use yip_yap_foss.Store.Alerts.{has_id, get_by_id}
use yip_yap_foss.Reply.Dispatcher.{Handled}
use yip_yap_foss.Replies.Model.{Db, Env, AuditEntry, accepted}
use yip_yap_foss.Replies.Common.{Result, foreign, audit_row, same_audit, add_audit}
use yip_yap_foss.Replies.Handling.{
  Decoders, ReplyKind, claimed, enriched, linked, suppressed, deduplicated, escalated,
  remediation_started, remediation_result, ownership, ack_with_context, route, status_page,
  monitor_deregister, handle_kind, find_kind, registered, handle_reply,
}
use yip_yap_foss.Replies.Rules.{Proper, OwnAlert, outcome_of}
use yip_yap_foss.Replies.Annotated.{
  handle_claimed-Proper, handle_enriched-Proper, handle_linked-Proper, handle_status_page-Proper,
}
use yip_yap_foss.Replies.Mutated.{
  handle_deduplicated-Proper, handle_ownership-Proper, handle_ack_with_context-Proper,
  handle_suppressed-Proper,
}
use yip_yap_foss.Replies.Escalations.{handle_escalated-Proper, handle_route-Proper}
use yip_yap_foss.Replies.Deregistrations.{
  OwnMonitor, handle_monitor_deregister-Proper, handle_monitor_deregister-alerts,
}
use yip_yap_foss.Replies.Repairs.{
  HasKeys, handle_remediation_started-Proper, handle_remediation_result-Proper,
}

-- What a reply of a kind may act on: the alert of its entry, or for a deregistration a monitor.
abbrev pub Scope : Env → Handled → Db → ReplyKind → Type 0
Scope env call db monitor_deregister = OwnMonitor env call db
Scope env call db _ = OwnAlert call db

kind-Proper :
    (env : Env) (d : Decoders) (call : Handled) (kind : ReplyKind) (db : Db)
    → is_blank call.entry.org_id ≡ false
    → HasKeys db.remediations
    → Proper env.audit_ok (Scope env call db kind) call db (handle_kind env d call kind db)
unfolding handle_kind
kind-Proper env d call claimed db named keys = handle_claimed-Proper env call db _
kind-Proper env d call enriched db named keys = handle_enriched-Proper env call db _
kind-Proper env d call linked db named keys = handle_linked-Proper env call db _
kind-Proper env d call suppressed db named keys = handle_suppressed-Proper env call db _
kind-Proper env d call deduplicated db named keys = handle_deduplicated-Proper env call db _
kind-Proper env d call escalated db named keys = handle_escalated-Proper env call db _
kind-Proper env d call remediation_started db named keys =
    handle_remediation_started-Proper env call db _
kind-Proper env d call remediation_result db named keys =
    handle_remediation_result-Proper env call db keys _
kind-Proper env d call ownership db named keys = handle_ownership-Proper env call db _
kind-Proper env d call ack_with_context db named keys = handle_ack_with_context-Proper env call db _
kind-Proper env d call route db named keys = handle_route-Proper env call db _
kind-Proper env d call status_page db named keys = handle_status_page-Proper env call db _
kind-Proper env d call monitor_deregister db named keys =
    handle_monitor_deregister-Proper env call named db _

-- A reply of any kind whose entry has an org, with an audit that can be written (the write succeeds, and no row has the
-- reply's org, alert and identifier), over remediations with distinct keys, leaves exactly one audit row,
-- whose outcome is the one that the handler returns: accepted, rejected for the reason, or the store's error. It
-- changes no row of another alert and no monitor, rule or audit row of another org; and nothing but that audit row,
-- unless the alert of its entry is of the entry's org, or, for a deregistration, the monitor is and the channel has both
-- flags.
pub handle_kind-Proper :
    (env : Env) (d : Decoders) (call : Handled) (kind : ReplyKind) (db : Db)
    → env.audit_ok ≡ true
    → any (same_audit (audit_row call accepted)) db.audits ≡ false
    → is_blank call.entry.org_id ≡ false
    → HasKeys db.remediations
    → let r = handle_kind env d call kind db in
      (r.1.audits ≡ audit_row call (outcome_of r.0) ∷ db.audits)
      × Proper env.audit_ok (Scope env call db kind) call db r
handle_kind-Proper env d call kind db on new named keys =
    let proper = kind-Proper env d call kind db named keys in
    (
      proper.audited ∙ added (audit_row call (outcome_of (handle_kind env d call kind db).0)) new,
      proper,
    )
  where
    added :
        (row : AuditEntry)
        → any (same_audit row) db.audits ≡ false
        → add_audit env.audit_ok row db.audits ≡ row ∷ db.audits
    added row fresh = ground (arith, on, fresh)

get_by_id-others :
    (i j : String) (rows : List Alert)
    → i ≢ j
    → get_by_id j (keep (λ (a : Alert). not (has_id i a)) rows) ≡ get_by_id j rows
unfolding get_by_id
get_by_id-others i j [] ne = refl
get_by_id-others i j (a ∷ rows) ne =
    ground (arith, get_by_id-others i j rows ne, eq_iff a.id i, eq_iff a.id j)

foreign_org :
    (call : Handled) (org : String)
    → is_blank call.entry.org_id ≡ false
    → org ≢ call.entry.org_id
    → foreign call org ≡ true
foreign_org call org named ne = ground (arith, eq_iff org call.entry.org_id)

-- The two cases of `touched`, for a row of another org.
OwnAlert-absurd :
    (call : Handled) (db : Db) (a : Alert)
    → get_by_id call.entry.alert_id db.alerts ≡ some a
    → foreign call a.org_id ≡ true
    → ¬ OwnAlert call db
OwnAlert-absurd call db a found alien (b, there, own) = ground arith

untouched-alerts :
    (env : Env) (call : Handled) (db : Db) (r : Result) (a : Alert)
    → get_by_id call.entry.alert_id db.alerts ≡ some a
    → foreign call a.org_id ≡ true
    → Proper env.audit_ok (OwnAlert call db) call db r
    → r.1.alerts ≡ db.alerts
untouched-alerts env call db r a found alien proper = elim proper.touched [
  | inl same ↦ ap (λ (t : Db). t.alerts) same
  | inr own ↦ absurd (OwnAlert-absurd call db a found alien own)
]

module _ (env : Env) (d : Decoders) (call : Handled) (db : Db)
    (named : is_blank call.entry.org_id ≡ false) (keys : HasKeys db.remediations) where
  foreign_alert-alerts :
      (kind : ReplyKind) (a : Alert)
      → get_by_id call.entry.alert_id db.alerts ≡ some a
      → foreign call a.org_id ≡ true
      → (handle_kind env d call kind db).1.alerts ≡ db.alerts
  unfolding handle_kind
  foreign_alert-alerts monitor_deregister a found alien =
      handle_monitor_deregister-alerts env call db (d.monitor_deregister call.event)
  foreign_alert-alerts claimed a found alien =
      untouched-alerts env call db _ a found alien (handle_claimed-Proper env call db _)
  foreign_alert-alerts enriched a found alien =
      untouched-alerts env call db _ a found alien (handle_enriched-Proper env call db _)
  foreign_alert-alerts linked a found alien =
      untouched-alerts env call db _ a found alien (handle_linked-Proper env call db _)
  foreign_alert-alerts suppressed a found alien =
      untouched-alerts env call db _ a found alien (handle_suppressed-Proper env call db _)
  foreign_alert-alerts deduplicated a found alien =
      untouched-alerts env call db _ a found alien (handle_deduplicated-Proper env call db _)
  foreign_alert-alerts escalated a found alien =
      untouched-alerts env call db _ a found alien (handle_escalated-Proper env call db _)
  foreign_alert-alerts remediation_started a found alien =
      untouched-alerts env call db _ a found alien (handle_remediation_started-Proper env call db _)
  foreign_alert-alerts remediation_result a found alien =
      untouched-alerts env call db _ a found alien
        (handle_remediation_result-Proper env call db keys _)
  foreign_alert-alerts ownership a found alien =
      untouched-alerts env call db _ a found alien (handle_ownership-Proper env call db _)
  foreign_alert-alerts ack_with_context a found alien =
      untouched-alerts env call db _ a found alien (handle_ack_with_context-Proper env call db _)
  foreign_alert-alerts route a found alien =
      untouched-alerts env call db _ a found alien (handle_route-Proper env call db _)
  foreign_alert-alerts status_page a found alien =
      untouched-alerts env call db _ a found alien (handle_status_page-Proper env call db _)

  handle_kind-keeps :
      (kind : ReplyKind) (j : String) (a : Alert)
      → get_by_id j db.alerts ≡ some a
      → a.org_id ≢ call.entry.org_id
      → get_by_id j (handle_kind env d call kind db).1.alerts ≡ some a
  handle_kind-keeps kind j a found alien = elim (Bool-cases (str_eq call.entry.alert_id j)) [
    | inl same ↦
        let here : call.entry.alert_id ≡ j = eq_of_str_eq call.entry.alert_id j same in
        let rows =
          foreign_alert-alerts kind a (rw here found) (foreign_org call a.org_id named alien) in
        ap (get_by_id j) rows ∙ found
    | inr other ↦
        let apart : call.entry.alert_id ≢ j = λ e. cc (e, str_eq_refl j, other) in
        let rest = ap (λ (t : Db). t.alerts) (kind-Proper env d call kind db named keys).confined in
        sym (get_by_id-others call.entry.alert_id j _ apart)
        ∙ ap (get_by_id j) rest
        ∙ get_by_id-others call.entry.alert_id j db.alerts apart
        ∙ found
  ]

  pub handle_reply-keeps :
      (j : String) (a : Alert)
      → get_by_id j db.alerts ≡ some a
      → a.org_id ≢ call.entry.org_id
      → get_by_id j (handle_reply env d call db).1.alerts ≡ some a
  unfolding handle_reply
  handle_reply-keeps j a found alien = elim (Option-cases (find_kind call.event.type registered)) [
    | inl missing ↦ rw (missing, handle_reply) found
    | inr (kind, is) ↦ rw (is, handle_reply) (handle_kind-keeps kind j a found alien)
  ]
