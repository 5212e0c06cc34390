-- ===== src/Replies/Remediations.antt =====
-- internal/cloudevents/reply/handlers: remediation_started.go and remediation_result.go, with the table of
-- remediations in internal/store/sqlite/phase5_reply.go.
use yip_yap_foss.Prelude.{
  ℕ, ℤ, pos, ◌+ℤ◌, leb_ℤ, since, seconds, Bool, true, false, not, ◌&&◌, String, str_eq, is_blank,
  Option, none, some, List, [], ◌∷◌, any, first, if◌then◌else◌,
}
use yip_yap_foss.Domain.Alert.{Alert, resolved, is_active}
use yip_yap_foss.Domain.Monitor.{up}
use yip_yap_foss.Store.Alerts.{get_by_id, update}
use yip_yap_foss.Reply.Dispatcher.{Handled, clamp_remediation_seconds}
use yip_yap_foss.Replies.Model.{
  remediation_started, remediation_result, RemediationStatus, in_progress, success, failure,
  partial, AlertRemediation, Db, Env,
}
use yip_yap_foss.Replies.Common.{
  Result, warn_and_reject, accept, fail_write, guarded, decoded, cross_alert, alert_scope,
  effective_alert_id, missing_alert, too_long, load_and_verify, annotate, bad_url,
}

abbrev pub is_remediation : String → AlertRemediation → Bool
is_remediation i r = str_eq r.remediation_id i

abbrev pub is_in_progress : RemediationStatus → Bool
is_in_progress in_progress = true
is_in_progress _ = false

-- `GetByID`.
unfoldable pub get_remediation : String → List AlertRemediation → Option AlertRemediation
get_remediation i rs = first (is_remediation i) rs

-- `Create`: the org is that of the alert, and the primary key refuses a second row.
unfoldable pub create_remediation : AlertRemediation → Db → Option Db
create_remediation r db = elim (get_by_id r.alert_id db.alerts) [
  | none ↦ none
  | some a ↦
      if any (is_remediation r.remediation_id) db.remediations
      then none
      else some (record db { remediations = record r { org_id = a.org_id } ∷ db.remediations })
]

pub record RemediationStartedData : Type 0 where
  pub alert_id : String
  pub remediation_id : String
  pub description : String
  pub expected_duration_seconds : ℤ

unfoldable pub started_row : Env → Handled → String → RemediationStartedData → AlertRemediation
unfolding clamp_remediation_seconds seconds ◌+ℤ◌
started_row env call i fields = record {
  remediation_id = fields.remediation_id;
  alert_id = i;
  org_id = "";
  status = in_progress;
  started_at = env.now;
  completed_at = none;
  expires_at =
      pos env.now
      +ℤ seconds (clamp_remediation_seconds env.config fields.expected_duration_seconds);
  description = fields.description;
  message = "";
  artifact_url = "";
  source_reply_id = call.event.id;
}

-- `RemediationStartedHandler.Handle`, once the alert is verified.
unfoldable pub start_remediation : Env → Handled → String → RemediationStartedData → Db → Result
unfolding create_remediation started_row
start_remediation env call i fields db =
    elim (if env.insert_ok then create_remediation (started_row env call i fields) db else none) [
      | none ↦ fail_write env call "create_remediation" db
      | some db' ↦ accept env call (annotate env i remediation_started none (some call.sub) db')
    ]

-- The checks of `Handle`, in order.
abbrev pub remediation_started_checks : Handled → RemediationStartedData → List (Bool × String)
remediation_started_checks call fields =
    too_long 2048 fields.description
    ∷ cross_alert call fields.alert_id
    ∷ alert_scope call
    ∷ (is_blank fields.remediation_id, "missing_remediation_id")
    ∷ missing_alert call fields.alert_id
    ∷ []

-- `RemediationStartedHandler.Handle`.
unfoldable pub handle_remediation_started :
    Env → Handled → Option RemediationStartedData → Db → Result
handle_remediation_started env call payload = decoded env call payload λ fields.
    let i = effective_alert_id call.entry.alert_id fields.alert_id in
    guarded env call (remediation_started_checks call fields)
      (load_and_verify env call i (λ _. start_remediation env call i fields))

pub record RemediationResultData : Type 0 where
  pub alert_id : String
  pub remediation_id : String
  pub outcome : String
  pub message : String
  pub artifact_url : String

-- `allowedRemediationOutcomes`.
unfoldable pub remediation_outcome : String → Option RemediationStatus
remediation_outcome s =
    if str_eq s "success"
    then some success
    else if str_eq s "failure"
    then some failure
    else if str_eq s "partial"
    then some partial
    else none

-- The `UPDATE` of `Complete`, for the row of the key that is in progress.
unfoldable pub complete_rows :
    ℕ → String → RemediationStatus → String → String → List AlertRemediation → List AlertRemediation
complete_rows now i status message url [] = []
complete_rows now i status message url (r ∷ rs) =
    let rest = complete_rows now i status message url rs in
    if is_remediation i r && is_in_progress r.status
    then record r {
      status = status;
      message = message;
      artifact_url = url;
      completed_at = some now;
    }
      ∷ rest
    else r ∷ rest

abbrev pub in_progress_for : String → AlertRemediation → Bool
in_progress_for i r = is_remediation i r && is_in_progress r.status

-- `Complete`: the tables, or whether the row is there but is complete already, if that can be read.
unfoldable pub complete : Env → RemediationStatus → RemediationResultData → Db → Option Db × Bool
unfolding complete_rows get_remediation
complete env status fields db =
    if not env.update_ok
    then (none, false)
    else if any (in_progress_for fields.remediation_id) db.remediations
    then (
      some (record db {
        remediations =
            complete_rows env.now fields.remediation_id status fields.message fields.artifact_url
              db.remediations;
      }),
      false,
    )
    else elim (if env.recheck_ok
        then get_remediation fields.remediation_id db.remediations
        else none) [ none ↦ (none, false) | some _ ↦ (none, true) ]

-- The latest check is up, and no more than a minute old.
unfoldable pub is_fresh_up : Env → String → Bool
is_fresh_up env monitor_id = elim (env.get_latest_check monitor_id) [
  | none ↦ false
  | some c ↦ elim c.status [ up ↦ leb_ℤ (since env.now c.checked_at) (pos 60000000000) | _ ↦ false ]
]

abbrev is_success : RemediationStatus → Bool
is_success success = true
is_success _ = false

-- An update whose error is ignored.
abbrev pub best_effort : Option (List Alert) → Db → Db
best_effort none db = db
best_effort (some rows) db = record db { alerts = rows }

-- The automatic resolution; its write is best effort.
unfoldable pub resolve_if_up : Env → String → RemediationStatus → Db → Db
unfolding is_fresh_up update get_by_id
resolve_if_up env i status db = elim (if env.reread_ok then get_by_id i db.alerts else none) [
  | none ↦ db
  | some a ↦
      if is_success status && is_active a.status && is_fresh_up env a.monitor_id && env.resolve_ok
      then best_effort
          (update (record a { status = resolved; resolved_at = some env.now }) db.alerts) db
      else db
]

-- `RemediationResultHandler.Handle`, once the alert is verified.
unfoldable pub finish_remediation :
    Env → Handled → String → RemediationStatus → RemediationResultData → Db → Result
finish_remediation env call i status fields db =
    let (completed, already) = complete env status fields db in
    elim completed [
      | some db' ↦
          accept env call (
            annotate env i remediation_result none (some call.sub) (resolve_if_up env i status db'))
      | none ↦
          if already
          then warn_and_reject env call "remediation_already_completed" db
          else fail_write env call "complete_remediation" db
    ]

-- The lookup of the remediation and the checks of its row.
unfoldable pub verify_remediation :
    Env → Handled → RemediationStatus → RemediationResultData → Db → Result
unfolding get_remediation
verify_remediation env call status fields db =
    elim (if env.read_ok then get_remediation fields.remediation_id db.remediations else none) [
      | none ↦ warn_and_reject env call "unknown_remediation" db
      | some r ↦
          guarded env call
            ((not (is_in_progress r.status), "remediation_already_completed")
              ∷ (not (str_eq r.alert_id call.entry.alert_id), "remediation_alert_mismatch")
              ∷ [])
            (load_and_verify env call r.alert_id
              (λ _. finish_remediation env call r.alert_id status fields))
            db
    ]

-- `RemediationResultHandler.Handle`, from the outcome on.
unfoldable pub check_outcome : Env → Handled → RemediationResultData → Db → Result
unfolding remediation_outcome
check_outcome env call fields db = elim (remediation_outcome fields.outcome) [
  | none ↦ warn_and_reject env call "invalid_outcome" db
  | some status ↦
      guarded env call
        (too_long 2048 fields.message ∷ (bad_url env fields.artifact_url, "url_scheme") ∷ [])
        (verify_remediation env call status fields) db
]

-- The checks of `Handle`, in order.
abbrev pub remediation_result_checks : Handled → RemediationResultData → List (Bool × String)
remediation_result_checks call fields =
    cross_alert call fields.alert_id
    ∷ alert_scope call
    ∷ (is_blank fields.remediation_id, "missing_remediation_id")
    ∷ []

-- `RemediationResultHandler.Handle`.
unfoldable pub handle_remediation_result :
    Env → Handled → Option RemediationResultData → Db → Result
handle_remediation_result env call payload = decoded env call payload λ fields.
    guarded env call (remediation_result_checks call fields) (check_outcome env call fields)
