-- ===== src/Replies/Common.antt =====
-- internal/cloudevents/reply/handlers/common_phase5.go and common.go: what the handlers share. An early return on a
-- bad field is an entry of a list of checks, in the order of the code. `Handle` is never called with a nil entry.
use yip_yap_foss.Prelude.{
  ℕ, ltb, Bool, true, false, not, ◌&&◌, ◌||◌, String, str_eq, str_append, is_blank, Option, none,
  some, List, [], ◌∷◌, any, first, length, if◌then◌else◌,
}
use yip_yap_foss.Domain.Alert.{Alert}
use yip_yap_foss.Domain.Monitor.{Monitor}
use yip_yap_foss.Store.Alerts.{get_by_id}
use yip_yap_foss.Reply.Dispatcher.{Handled}
use yip_yap_foss.Replies.Text.{rune_count, is_white}
use yip_yap_foss.Replies.Model.{
  ReplyEventType, FilterValue, text, texts, items, other, AuditOutcome, accepted, rejected,
  handler_error, AuditEntry, Db, Env, Fault, rejection, alert_not_found, store_error, Mark,
}

-- The error that `Handle` returns, and the tables after it.
abbrev pub Result : Type 0
Result = Option Fault × Db

abbrev pub audit_row : Handled → AuditOutcome → AuditEntry
audit_row call outcome = record {
  reply_id = call.event.id;
  reply_type = call.event.type;
  reply_source = call.event.source;
  reply_sub = call.sub;
  org_id = call.entry.org_id;
  alert_id = call.entry.alert_id;
  monitor_id = call.entry.monitor_id;
  channel_id = call.entry.channel_id;
  outcome = outcome;
}

-- The key of the unique index of migration 033.
abbrev pub same_audit : AuditEntry → AuditEntry → Bool
same_audit a b =
    str_eq a.org_id b.org_id && str_eq a.alert_id b.alert_id && str_eq a.reply_id b.reply_id

-- The insert, if it can succeed; it fails on a row with the key.
abbrev pub add_audit : Bool → AuditEntry → List AuditEntry → List AuditEntry
add_audit ok row rows = if ok && not (any (same_audit row) rows) then row ∷ rows else rows

-- `writeAudit`: an error of the write is swallowed.
unfoldable pub write_audit : Env → Handled → AuditOutcome → Db → Db
write_audit env call outcome db = record db {
  audits = add_audit env.audit_ok (audit_row call outcome) db.audits;
}

-- `warnAndReject`.
unfoldable pub warn_and_reject : Env → Handled → String → Db → Result
unfolding write_audit
warn_and_reject env call reason db =
    (some (rejection reason), write_audit env call (rejected reason) db)

-- The error after a write that failed.
unfoldable pub fail_write : Env → Handled → String → Db → Result
unfolding write_audit
fail_write env call step db =
    (some (store_error step), write_audit env call (handler_error step) db)

unfoldable pub accept : Env → Handled → Db → Result
unfolding write_audit
accept env call db = (none, write_audit env call accepted db)

-- The reason of the first check that fails.
unfoldable pub first_failure : List (Bool × String) → Option String
first_failure [] = none
first_failure ((fails, reason) ∷ rest) = if fails then some reason else first_failure rest

-- A run of checks with early returns, and what comes after it.
unfoldable pub guarded : Env → Handled → List (Bool × String) → (Db → Result) → Db → Result
unfolding first_failure
guarded env call checks rest db = elim (first_failure checks) [
  | some reason ↦ warn_and_reject env call reason db
  | none ↦ rest db
]

-- `json.Unmarshal` of the payload, which is `none` if it fails.
unfoldable pub decoded {ℓ} :
    {A : Type ℓ} → Env → Handled → Option A → (A → Db → Result) → Db → Result
decoded env call none rest db = warn_and_reject env call "malformed_data" db
decoded env call (some payload) rest db = rest payload db

-- The reply names another alert than the entry.
abbrev pub cross_alert : Handled → String → Bool × String
cross_alert call alert_id = (
  not (is_blank call.entry.alert_id)
      && not (is_blank alert_id)
      && not (str_eq alert_id call.entry.alert_id),
  "cross_alert",
)

-- `requireAlertScopedEntry`.
abbrev pub alert_scope : Handled → Bool × String
alert_scope call = (is_blank call.entry.alert_id, "alert_scope_required")

-- `effectiveAlertID`.
unfoldable pub effective_alert_id : String → String → String
effective_alert_id entry_alert data_alert = if is_blank entry_alert then data_alert else entry_alert

abbrev pub missing_alert : Handled → String → Bool × String
missing_alert call alert_id =
    (is_blank (effective_alert_id call.entry.alert_id alert_id), "missing_alert_id")

-- `enforceMaxRunes`.
abbrev pub too_long : ℕ → String → Bool × String
too_long max s = (ltb max (rune_count s), "field_too_long")

-- Another org than the entry's, where the entry has one.
abbrev pub foreign : Handled → String → Bool
foreign call org = not (is_blank call.entry.org_id) && not (str_eq org call.entry.org_id)

abbrev pub read_alert : Env → String → Db → Option Alert
read_alert env i db = if env.read_ok then get_by_id i db.alerts else none

-- `loadAndVerifyAlert`.
unfoldable pub load_and_verify : Env → Handled → String → (Alert → Db → Result) → Db → Result
load_and_verify env call i rest db = elim (read_alert env i db) [
  | none ↦ (some alert_not_found, write_audit env call (rejected "alert_not_found") db)
  | some a ↦
      if foreign call a.org_id then warn_and_reject env call "cross_org_alert" db else rest a db
]

-- `effectiveActor`.
unfoldable pub effective_actor : Handled → String
effective_actor call =
    if is_blank call.sub then str_append "cloudevent:reply:" call.event.id else call.sub

abbrev pub timeline : Env → String → ReplyEventType → Option String → Option String → Db → Option Db
timeline env i kind actor sub db =
    if env.event_ok
    then some (record db {
      events = record { alert_id = i; event_type = kind; actor = actor; sub = sub } ∷ db.events;
    })
    else none

-- A timeline event whose failure is ignored.
unfoldable pub annotate : Env → String → ReplyEventType → Option String → Option String → Db → Db
annotate env i kind actor sub db = elim (timeline env i kind actor sub db) [
  | none ↦ db
  | some db' ↦ db'
]

-- `writeTimelineEvent`.
unfoldable pub write_timeline_event : Env → Handled → String → ReplyEventType → Db → Result
write_timeline_event env call i kind db =
    elim (if is_blank i
      then none
      else timeline env i kind (some (effective_actor call)) (some call.sub) db) [
        | none ↦ fail_write env call "write_timeline" db
        | some db' ↦ accept env call db'
      ]

-- One text of a match filter.
unfoldable pub bad_text : String → Bool
bad_text s = is_white s || ltb 256 (rune_count s)

bad_item : Option String → Bool
unfolding bad_text
bad_item none = true
bad_item (some s) = bad_text s

is_empty {ℓ} : {A : Type ℓ} → List A → Bool
is_empty [] = true
is_empty (_ ∷ _) = false

unfoldable pub bad_value : FilterValue → Bool
unfolding bad_item is_empty
bad_value (text s) = bad_text s
bad_value (texts ss) = is_empty ss || any bad_text ss
bad_value (items os) = is_empty os || any bad_item os
bad_value other = true

-- `validateMatchFilterValues`; a failure is `true`.
unfoldable pub bad_filter : List (String × FilterValue) → Bool
unfolding bad_value
bad_filter mf =
    ltb 16 (length mf) || any (λ (kv : String × FilterValue). bad_text kv.0 || bad_value kv.1) mf

-- `validateReplyURL`; a failure is `true`.
unfoldable pub bad_url : Env → String → Bool
bad_url env raw =
    not (is_blank raw)
    && (ltb 2048 (rune_count raw) || elim (env.parse_url raw) [
      | none ↦ true
      | some u ↦
          not (str_eq (env.to_lower u.scheme) "http" || str_eq (env.to_lower u.scheme) "https")
          || is_blank u.host
    ])

-- `GetByID` of the monitors.
abbrev pub is_monitor : String → Monitor → Bool
is_monitor i m = str_eq m.id i

unfoldable pub get_monitor : String → List Monitor → Option Monitor
get_monitor i ms = first (is_monitor i) ms

-- `UPDATE alerts SET ... WHERE id = ?` of the columns that only replies write.
unfoldable pub set_mark : String → Mark → Db → Option Db
set_mark i mark db = elim (get_by_id i db.alerts) [
  | none ↦ none
  | some _ ↦ some (record db { marks = (i, mark) ∷ db.marks })
]
