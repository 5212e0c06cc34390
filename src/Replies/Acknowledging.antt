-- ===== src/Replies/Acknowledging.antt =====
-- internal/cloudevents/reply/handlers/ack_with_context.go, with `AckWithContext` of the store, against the row of the alert.
use yip_yap_foss.Prelude.{
  ℕ, Bool, true, false, ◌≡◌, refl, sym, ◌∙◌, ap, arith, String, none, some, List, [], ◌∷◌, is_blank,
  str_append,
}
use yip_yap_foss.Domain.Alert.{Alert, acknowledged}
use yip_yap_foss.Store.Time.{stored_time}
use yip_yap_foss.Store.Alerts.{get_by_id}
use yip_yap_foss.Reply.Dispatcher.{Handled}
use yip_yap_foss.Replies.Model.{Db, Env}
use yip_yap_foss.Replies.Common.{accept, fail_write, write_audit, effective_actor, decoded}
use yip_yap_foss.Replies.Mutations.{
  acknowledged_row, acknowledge_rows, acknowledge, store_ack, settle, AckData,
  ack_with_context_checks, handle_ack_with_context,
}
use yip_yap_foss.Replies.Rules.{effective_alert_id-scoped}
use yip_yap_foss.Replies.Accepted.{guarded-Accepts, load_and_verify-Accepts}

get_by_id-acknowledge_rows :
    (now : ℕ) (by i : String) (rows : List Alert) (a : Alert)
    → get_by_id i rows ≡ some a
    → get_by_id i (acknowledge_rows now by i rows) ≡ some (acknowledged_row now by a)
unfolding get_by_id acknowledge_rows
get_by_id-acknowledge_rows now by i [] a e = ground (arith, e)
get_by_id-acknowledge_rows now by i (row ∷ rows) a e =
    ground (arith, get_by_id-acknowledge_rows now by i rows a)

settle-alerts :
    (env : Env) (call : Handled) (step : String) (o : Bool × Db) (db' : Db)
    → settle env call step o ≡ (none, db')
    → (o.0 ≡ true) × (db'.alerts ≡ o.1.alerts)
unfolding settle accept fail_write write_audit
settle-alerts env call step (true, db) db' e = (refl, ground (arith, e))
settle-alerts env call step (false, db) db' e = ground (arith, e)

store_ack-alerts :
    (env : Env) (i code reference by : String) (db : Db)
    → (store_ack env i code reference by db).0 ≡ true
    → (store_ack env i code reference by db).1.alerts ≡ acknowledge_rows env.now by i db.alerts
unfolding store_ack acknowledge
store_ack-alerts env i code reference by db e = ground (arith, e)

-- The alert with the status, time and user of an acknowledgement; the subject is the user, or else the reply.
abbrev pub IsAcknowledged : Env → Handled → Alert → Alert → Type 0
IsAcknowledged env call before after =
    (after.status ≡ acknowledged)
    × (after.acknowledged_at ≡ some (stored_time env.now))
    × (is_blank call.sub ≡ false → after.acknowledged_by ≡ call.sub)
    × (is_blank call.sub ≡ true
        → after.acknowledged_by ≡ str_append "cloudevent:reply:" call.event.id)
    × (record after {
      status = before.status;
      acknowledged_at = before.acknowledged_at;
      acknowledged_by = before.acknowledged_by;
    }
        ≡ before)

acknowledged_row-IsAcknowledged :
    (env : Env) (call : Handled) (a : Alert)
    → IsAcknowledged env call a (acknowledged_row env.now (effective_actor call) a)
unfolding effective_actor
acknowledged_row-IsAcknowledged env call a =
    (refl, refl, λ named. ground (arith, named), λ unnamed. ground (arith, unnamed), refl)

-- An acknowledgement that is accepted leaves the alert of its entry acknowledged, now and by the verified subject or, if
-- that is empty, by the reply, whatever its status was: an alert that was resolved is active again. Its other columns
-- are kept.
pub ack_with_context_reopens :
    (env : Env) (call : Handled) (fields : AckData) (db db' : Db)
    → handle_ack_with_context env call (some fields) db ≡ (none, db')
    → (a : Alert) × (get_by_id call.entry.alert_id db.alerts ≡ some a)
      × (after : Alert) × (get_by_id call.entry.alert_id db'.alerts ≡ some after)
      × IsAcknowledged env call a after
unfolding handle_ack_with_context decoded
ack_with_context_reopens env call fields db db' e =
    let (passed, verified) =
      guarded-Accepts env call db db' (ack_with_context_checks call fields) _ e in
    let (a, found, stored) = load_and_verify-Accepts env call db db' _ _ verified in
    let here = effective_alert_id-scoped call.entry.alert_id fields.alert_id passed.1.0 in
    let (wrote, rows) = settle-alerts env call "ack" _ db' stored in
    let after =
      rows
      ∙ store_ack-alerts env _ fields.reason_code fields.reference_id (effective_actor call) db
          wrote in
    let found_here : get_by_id call.entry.alert_id db.alerts ≡ some a = rw (sym here) found in
    (
      a,
      found_here,
      acknowledged_row env.now (effective_actor call) a,
      ap (get_by_id call.entry.alert_id) after
          ∙ ap
              (λ i.
                get_by_id call.entry.alert_id
                  (acknowledge_rows env.now (effective_actor call) i db.alerts))
              here
          ∙ get_by_id-acknowledge_rows env.now (effective_actor call) call.entry.alert_id db.alerts
              a found_here,
      acknowledged_row-IsAcknowledged env call a,
    )
