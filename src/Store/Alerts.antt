-- ===== src/Store/Alerts.antt =====
-- internal/store/sqlite/alerts.go, over the tables `alerts` and `alert_escalation_state`.
-- `alerts.id` and `alert_escalation_state.alert_id` are primary keys; the index of migration 005
-- allows one active alert to a monitor. An error of a write is `none`, and the table is unchanged.
use yip_yap_foss.Prelude.{
  String, Bool, ◌&&◌, ◌||◌, not, Option, none, some, List, [], ◌∷◌, any, keep, first, leb, str_eq,
  if◌then◌else◌,
}
use yip_yap_foss.Domain.Alert.{
  Alert, is_active, is_firing, AlertEscalationState, NotificationsSent, blank, loop_meta,
  undecodable,
}
use yip_yap_foss.Store.Time.{stored_time, stored_optional}

abbrev pub has_id : String → Alert → Bool
has_id i a = str_eq a.id i

-- `monitor_id = ? AND status != 'resolved'`.
abbrev pub active_for : String → Alert → Bool
active_for m a = str_eq a.monitor_id m && is_active a.status

abbrev stored_alert : Alert → Alert
stored_alert a = record a {
  started_at = stored_time a.started_at;
  acknowledged_at = stored_optional a.acknowledged_at;
  resolved_at = stored_optional a.resolved_at;
}

-- `Create`: the primary key and the index on active alerts refuse a second row.
unfoldable pub create : Alert → List Alert → Option (List Alert)
create a rows =
    if any (has_id a.id) rows || (is_active a.status && any (active_for a.monitor_id) rows)
    then none
    else some (stored_alert a ∷ rows)

-- `GetByID`.
unfoldable pub get_by_id : String → List Alert → Option Alert
get_by_id i rows = first (has_id i) rows

abbrev latest : Alert → Option Alert → Option Alert
latest a none = some a
latest a (some b) = if leb b.started_at a.started_at then some a else some b

-- `GetActiveByMonitor`: `ORDER BY started_at DESC LIMIT 1`.
unfoldable pub get_active_by_monitor : String → List Alert → Option Alert
get_active_by_monitor m [] = none
get_active_by_monitor m (a ∷ rows) =
    let rest = get_active_by_monitor m rows in if active_for m a then latest a rest else rest

-- The columns that `Update` sets.
abbrev pub updated_row : Alert → Alert → Alert
updated_row a row = record row {
  status = a.status;
  severity = a.severity;
  acknowledged_at = stored_optional a.acknowledged_at;
  acknowledged_by = a.acknowledged_by;
  resolved_at = stored_optional a.resolved_at;
  current_escalation_step = a.current_escalation_step;
  incident_id = a.incident_id;
}

-- The row whose key is `a.id`, rewritten.
unfoldable pub replace_row : Alert → List Alert → List Alert
replace_row a [] = []
replace_row a (row ∷ rows) =
    if has_id a.id row then updated_row a row ∷ rows else row ∷ replace_row a rows

-- Another active alert of the row's monitor, which the index holds against an active update.
abbrev pub rival : Alert → Alert → Bool
rival row b = active_for row.monitor_id b && not (has_id row.id b)

-- `Update`: an error when no row has the key (`expectOneRow`) or when the index forbids it.
unfoldable pub update : Alert → List Alert → Option (List Alert)
unfolding get_by_id
update a rows = elim (get_by_id a.id rows) [
  | none ↦ none
  | some row ↦
      if is_active a.status && any (rival row) rows then none else some (replace_row a rows)
]

unfoldable pub insert_by_start : Alert → List Alert → List Alert
insert_by_start a [] = a ∷ []
insert_by_start a (b ∷ bs) =
    let rest = insert_by_start a bs in
    if leb a.started_at b.started_at then a ∷ b ∷ bs else b ∷ rest

abbrev firing_row : Alert → Bool
firing_row a = is_firing a.status

-- `ListFiring`: `WHERE status = 'firing' ORDER BY started_at`.
unfoldable pub list_firing : List Alert → List Alert
unfolding insert_by_start
list_firing [] = []
list_firing (a ∷ rows) =
    let rest = list_firing rows in if firing_row a then insert_by_start a rest else rest

abbrev pub state_of : String → AlertEscalationState → Bool
state_of i s = str_eq s.alert_id i

-- `GetEscalationState`.
unfoldable pub get_escalation_state :
    String → List AlertEscalationState → Option AlertEscalationState
get_escalation_state i ss = first (state_of i) ss

-- An empty `notifications_sent` is written rows `[]`.
abbrev pub stored_sent : NotificationsSent → NotificationsSent
stored_sent blank = undecodable
stored_sent (loop_meta n) = loop_meta n
stored_sent undecodable = undecodable

abbrev pub stored_state : AlertEscalationState → AlertEscalationState
stored_state s = record s {
  step_entered_at = stored_time s.step_entered_at;
  last_notified_at = stored_optional s.last_notified_at;
  notifications_sent = stored_sent s.notifications_sent;
}

-- `UpsertEscalationState`: `ON CONFLICT(alert_id) DO UPDATE`.
unfoldable pub upsert_state :
    AlertEscalationState → List AlertEscalationState → List AlertEscalationState
upsert_state s [] = stored_state s ∷ []
upsert_state s (t ∷ ts) =
    if state_of s.alert_id t then stored_state s ∷ ts else t ∷ upsert_state s ts

-- `DeleteEscalationState`.
unfoldable pub delete_state : String → List AlertEscalationState → List AlertEscalationState
delete_state i ss = keep (λ s. not (state_of i s)) ss
