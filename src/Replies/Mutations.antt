-- ===== src/Replies/Mutations.antt =====
-- internal/cloudevents/reply/handlers: deduplicated.go, ownership.go, ack_with_context.go and suppressed.go, with their
-- writes in internal/store/sqlite/alerts_phase5.go.
use yip_yap_foss.Prelude.{
  ℕ, ℤ, pos, ◌+ℤ◌, seconds, Bool, true, false, not, ◌&&◌, ◌||◌, String, str_eq, is_blank, Option,
  none, some, List, [], ◌∷◌, any, if◌then◌else◌,
}
use yip_yap_foss.Domain.Alert.{Alert, acknowledged}
use yip_yap_foss.Store.Time.{stored_time}
use yip_yap_foss.Store.Alerts.{has_id, get_by_id, rival}
use yip_yap_foss.Reply.Dispatcher.{Handled, clamp_suppress_seconds}
use yip_yap_foss.Replies.Model.{
  ReplyEventType, duplicated, ownership_transferred, ack_with_context, suppressed, Mark,
  duplicate_of, owned_by, ack_reason, FilterValue, AlertSuppression, Owner, Db, Env,
}
use yip_yap_foss.Replies.Common.{
  Result, warn_and_reject, accept, fail_write, guarded, decoded, cross_alert, alert_scope,
  effective_alert_id, missing_alert, too_long, foreign, read_alert, load_and_verify,
  effective_actor, timeline, annotate, bad_filter, set_mark,
}

-- The event after a write that succeeded; no transaction joins the two.
abbrev pub with_event : Env → String → ReplyEventType → Option String → Option Db → Db → Bool × Db
with_event env i kind actor none db = (false, db)
with_event env i kind actor (some db') db = elim (timeline env i kind actor none db') [
  | none ↦ (false, db')
  | some db'' ↦ (true, db'')
]

abbrev pub when : Bool → Option Db → Option Db
when b o = if b then o else none

-- `MarkDuplicate`.
unfoldable pub mark_duplicate : Env → String → String → Db → Bool × Db
unfolding set_mark
mark_duplicate env i primary db =
    if is_blank i || is_blank primary
    then (false, db)
    else with_event env i duplicated none
        (when env.update_ok (set_mark i (duplicate_of primary) db)) db

-- `SetOwner`.
unfoldable pub set_owner : Env → String → String → String → Db → Bool × Db
unfolding set_mark
set_owner env i kind owner db =
    if is_blank i
    then (false, db)
    else with_event env i ownership_transferred none
        (when env.update_ok (set_mark i (owned_by kind owner) db)) db

abbrev pub acknowledged_row : ℕ → String → Alert → Alert
acknowledged_row now by row = record row {
  status = acknowledged;
  acknowledged_at = some (stored_time now);
  acknowledged_by = by;
}

unfoldable pub acknowledge_rows : ℕ → String → String → List Alert → List Alert
acknowledge_rows now by i [] = []
acknowledge_rows now by i (row ∷ rows) =
    if has_id i row
    then acknowledged_row now by row ∷ rows
    else row ∷ acknowledge_rows now by i rows

-- The `UPDATE` of `AckWithContext`: the index on active alerts may refuse it, and no test of the status does.
unfoldable pub acknowledge : Env → String → Mark → String → Db → Option Db
unfolding acknowledge_rows get_by_id
acknowledge env i mark by db = elim (get_by_id i db.alerts) [
  | none ↦ none
  | some row ↦
      if any (rival row) db.alerts
      then none
      else some (record db {
        alerts = acknowledge_rows env.now by i db.alerts;
        marks = (i, mark) ∷ db.marks;
      })
]

-- `AckWithContext`.
unfoldable pub store_ack : Env → String → String → String → String → Db → Bool × Db
unfolding acknowledge
store_ack env i code reference by db =
    if is_blank i
    then (false, db)
    else with_event env i ack_with_context (some by)
        (when env.update_ok (acknowledge env i (ack_reason code reference) by db)) db

-- The end of a handler whose write gave this.
unfoldable pub settle : Env → Handled → String → Bool × Db → Result
settle env call step (true, db) = accept env call db
settle env call step (false, db) = fail_write env call step db

pub record DeduplicatedData : Type 0 where
  pub alert_id : String
  pub duplicate_of : String
  pub reason : String

-- `DeduplicatedHandler.Handle`, from the primary's lookup on.
unfoldable pub verify_primary : Env → Handled → String → String → Db → Result
verify_primary env call i primary db = elim (read_alert env primary db) [
  | none ↦ warn_and_reject env call "unknown_duplicate_of" db
  | some p ↦
      if foreign call p.org_id
      then warn_and_reject env call "cross_org_duplicate" db
      else load_and_verify env call i
          (λ _ d. settle env call "mark_duplicate" (mark_duplicate env i primary d)) db
]

-- The checks of `Handle`, in order.
abbrev pub deduplicated_checks : Handled → DeduplicatedData → List (Bool × String)
deduplicated_checks call fields =
    too_long 512 fields.reason
    ∷ cross_alert call fields.alert_id
    ∷ alert_scope call
    ∷ (is_blank fields.duplicate_of, "missing_duplicate_of")
    ∷ missing_alert call fields.alert_id
    ∷ (
      str_eq (effective_alert_id call.entry.alert_id fields.alert_id) fields.duplicate_of,
      "self_duplicate",
    )
    ∷ []

-- `DeduplicatedHandler.Handle`.
unfoldable pub handle_deduplicated : Env → Handled → Option DeduplicatedData → Db → Result
handle_deduplicated env call payload = decoded env call payload λ fields.
    let i = effective_alert_id call.entry.alert_id fields.alert_id in
    guarded env call (deduplicated_checks call fields)
      (verify_primary env call i fields.duplicate_of)

pub record OwnershipData : Type 0 where
  pub alert_id : String
  pub owner_kind : String
  pub owner_id : String
  pub reason : String

-- The checks of an owner; only users can be disabled.
unfoldable pub owner_failure : Handled → Bool → Option Owner → Option String
owner_failure call is_user none = some "unknown_owner"
owner_failure call is_user (some owner) =
    if foreign call owner.org_id
    then some "cross_org_owner"
    else if is_user && owner.disabled
    then some "owner_disabled"
    else none

unfoldable pub check_owner : Env → Handled → OwnershipData → Option String
unfolding owner_failure
check_owner env call fields =
    if str_eq fields.owner_kind "user"
    then owner_failure call true (env.get_user fields.owner_id)
    else if str_eq fields.owner_kind "team"
    then owner_failure call false (env.get_team fields.owner_id)
    else none

-- `OwnershipHandler.Handle`, from the owner's lookup on.
unfoldable pub verify_owner : Env → Handled → String → OwnershipData → Db → Result
unfolding check_owner
verify_owner env call i fields db = elim (check_owner env call fields) [
  | some reason ↦ warn_and_reject env call reason db
  | none ↦
      load_and_verify env call i
        (λ _ d. settle env call "set_owner" (set_owner env i fields.owner_kind fields.owner_id d))
        db
]

-- The checks of `Handle`, in order.
abbrev pub ownership_checks : Handled → OwnershipData → List (Bool × String)
ownership_checks call fields =
    cross_alert call fields.alert_id
    ∷ alert_scope call
    ∷ (
      not (str_eq fields.owner_kind "user" || str_eq fields.owner_kind "team"),
      "invalid_owner_kind",
    )
    ∷ (is_blank fields.owner_id, "missing_owner_id")
    ∷ too_long 512 fields.reason
    ∷ missing_alert call fields.alert_id
    ∷ []

-- `OwnershipHandler.Handle`.
unfoldable pub handle_ownership : Env → Handled → Option OwnershipData → Db → Result
handle_ownership env call payload = decoded env call payload λ fields.
    guarded env call (ownership_checks call fields)
      (verify_owner env call (effective_alert_id call.entry.alert_id fields.alert_id) fields)

pub record AckData : Type 0 where
  pub alert_id : String
  pub reason_code : String
  pub note : String
  pub reference_id : String

-- `allowedAckReasonCodes`.
unfoldable pub allowed_reason_code : String → Bool
allowed_reason_code code = any (str_eq code) (
    "investigating" ∷ "known_issue" ∷ "false_positive" ∷ "duplicate" ∷ "remediated" ∷ "deferred"
    ∷ "waiting_on_vendor" ∷ "in_maintenance" ∷ "other" ∷ [])

-- The checks of `Handle`, in order.
abbrev pub ack_with_context_checks : Handled → AckData → List (Bool × String)
ack_with_context_checks call fields =
    cross_alert call fields.alert_id
    ∷ alert_scope call
    ∷ (not (allowed_reason_code fields.reason_code), "invalid_reason_code")
    ∷ too_long 2048 fields.note
    ∷ too_long 256 fields.reference_id
    ∷ missing_alert call fields.alert_id
    ∷ []

-- `AckWithContextHandler.Handle`.
unfoldable pub handle_ack_with_context : Env → Handled → Option AckData → Db → Result
unfolding allowed_reason_code effective_actor
handle_ack_with_context env call payload = decoded env call payload λ fields.
    let i = effective_alert_id call.entry.alert_id fields.alert_id in
    guarded env call (ack_with_context_checks call fields) (
      load_and_verify env call i (λ _ d.
        settle env call "ack"
          (store_ack env i fields.reason_code fields.reference_id (effective_actor call) d)))

pub record SuppressedData : Type 0 where
  pub alert_id : String
  pub duration_seconds : ℤ
  pub reason : String
  pub match_filter : List (String × FilterValue)

-- The row of a suppression.
unfoldable pub suppression : Env → Handled → String → SuppressedData → AlertSuppression
unfolding clamp_suppress_seconds seconds ◌+ℤ◌
suppression env call i fields = record {
  org_id = call.entry.org_id;
  alert_id = i;
  monitor_id = call.entry.monitor_id;
  match_filter = fields.match_filter;
  expires_at = pos env.now +ℤ seconds (clamp_suppress_seconds env.config fields.duration_seconds);
  reason = fields.reason;
  source_reply_id = call.event.id;
  created_at = env.now;
}

-- What `SuppressedHandler.Handle` does once the alert is verified.
unfoldable pub add_suppression : Env → Handled → String → SuppressedData → Db → Result
unfolding suppression
add_suppression env call i fields db =
    let db' : Db = record db { suppressions = suppression env call i fields ∷ db.suppressions } in
    if env.insert_ok
    then accept env call
        (if is_blank i then db' else annotate env i suppressed none (some call.sub) db')
    else fail_write env call "create_suppression" db

-- The checks of `Handle`, in order.
abbrev pub suppressed_checks : Handled → SuppressedData → List (Bool × String)
suppressed_checks call fields =
    cross_alert call fields.alert_id
    ∷ alert_scope call
    ∷ too_long 512 fields.reason
    ∷ (bad_filter fields.match_filter, "filter_invalid")
    ∷ []

-- `SuppressedHandler.Handle`.
unfoldable pub handle_suppressed : Env → Handled → Option SuppressedData → Db → Result
unfolding bad_filter
handle_suppressed env call payload = decoded env call payload λ fields.
    let i = effective_alert_id call.entry.alert_id fields.alert_id in
    guarded env call (suppressed_checks call fields)
      (load_and_verify env call i (λ _. add_suppression env call i fields))
