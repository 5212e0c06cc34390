-- ===== src/Escalation/Tests.antt =====
-- internal/escalation/engine.go on a small installation: one monitor, a policy of two steps that
-- loops once, one channel, and every write succeeding.
use yip_yap_foss.Prelude.{
  ℕ, ◌*◌, ◌-ℤ◌, All, ◌⊎◌, arith, pos, true, false, ◌≡◌, refl, none, some, List, [], ◌∷◌,
}
use yip_yap_foss.Domain.Alert.{Alert, firing, acknowledged, AlertEscalationState, loop_meta}
use yip_yap_foss.Domain.Monitor.{Monitor, http, down}
use yip_yap_foss.Domain.Escalation.{EscalationStep, StepTarget, user}
use yip_yap_foss.Domain.Notification.{NotificationChannel, AckEvent}
use yip_yap_foss.Store.Alerts.{
  update, replace_row, get_by_id, get_active_by_monitor, get_escalation_state,
}
use yip_yap_foss.Store.AlertLaws.{IsValid, active_count}
use yip_yap_foss.Escalation.World.{Env, World, emit, create_event}
use yip_yap_foss.Escalation.Handlers.{
  AlertTriggerEvent, update_failed, auto_resolve, handle_trigger, handle_recover, handle_ack,
  ack_unless_resolved, read_alert, ack_alert, acked, update_alert,
}
use yip_yap_foss.Escalation.Run.{
  trigger_message, recover_message, ack_message, tick_message, Message, IsMetered, run, run-Inv,
}
use yip_yap_foss.Escalation.Recovery.{handle_recover_clears}
use yip_yap_foss.Escalation.Alerting.{IsRaised, handle_trigger_fires}
use yip_yap_foss.Escalation.Acknowledged.{AckEffect, handle_ack_silences}
use yip_yap_foss.Escalation.Tick.{enter_step}
use yip_yap_foss.Escalation.Races.{ack_overwritten}
use yip_yap_foss.Escalation.Pace.{Turn, process_alert-Turn}

abbrev minute : ℕ
minute = 60000000000

abbrev monitor : Monitor
monitor = record {
  id = "m";
  org_id = "o";
  name = "site";
  type = http;
  config = "";
  interval_seconds = pos 60;
  timeout_seconds = pos 10;
  latency_warning_ms = pos 0;
  latency_critical_ms = pos 0;
  down_severity = "";
  degraded_severity = "info";
  escalation_policy_id = "p";
  auto_resolve = true;
  muted = false;
  enabled = true;
}

abbrev first_step : EscalationStep
first_step = record {
  id = "s0";
  policy_id = "p";
  position = pos 0;
  wait_seconds = pos 60;
  repeat_count = pos 1;
  repeat_interval_seconds = pos 60;
  is_terminal = false;
}

abbrev second_step : EscalationStep
second_step = record first_step { id = "s1"; position = pos 1 }

abbrev target : StepTarget
target = record {
  id = "t";
  step_id = "s0";
  target_type = user;
  target_id = "u";
  channel_id = "c";
  simultaneous = false;
}

abbrev slack : NotificationChannel
slack = record {
  id = "c";
  org_id = "o";
  type = "slack";
  name = "ops";
  config = "{}";
  enabled = true;
}

abbrev site_env : ℕ → Env
site_env t = record {
  now = t;
  get_monitor = λ _. some monitor;
  get_policy = λ _.
      some
        (record { id = "p"; org_id = "o"; name = "policy"; loop = true; max_loops = some (pos 1) });
  steps = second_step ∷ first_step ∷ [];
  steps_ok = true;
  next_step_ok = true;
  get_targets = λ _. some (target ∷ []);
  active_windows = λ _ _. some (true ∷ []);
  get_channel = λ _. some slack;
  list_members = λ _. none;
  read_active_ok = true;
  get_alert_ok = true;
  get_state_ok = λ _. true;
  list_firing_ok = true;
  create_ok = λ _. true;
  update_ok = λ _. true;
  upsert_ok = λ _. true;
  delete_ok = λ _. true;
  event_ok = λ _. true;
  enqueue_ok = λ _. true;
  publish_ok = λ _. true;
  marshal_ok = λ _. true;
  has_metrics = true;
  has_emitter = true;
  emit_ok = λ _. true;
  envelope = none;
  base64 = λ _ s. s;
  uuid = λ _. "new";
  format_message = λ a _. a;
  format_dedupe_key = λ a _ _. a;
}

-- Without maintenance.
abbrev open_env : ℕ → Env
open_env t = record (site_env t) { active_windows = λ _ _. some [] }

abbrev alert : Alert
alert = record {
  id = "a";
  monitor_id = "m";
  org_id = "o";
  status = firing;
  severity = "info";
  error = "timeout";
  started_at = 0;
  acknowledged_at = none;
  acknowledged_by = "";
  resolved_at = none;
  current_escalation_step = "s0";
  incident_id = "";
}

abbrev state : AlertEscalationState
state = record {
  alert_id = "a";
  current_step_id = "s0";
  step_entered_at = 0;
  retry_count = 0;
  last_notified_at = none;
  notifications_sent = loop_meta 0;
}

abbrev idle : World
idle = record {
  alerts = [];
  states = [];
  events = [];
  sent = [];
  emitted = [];
  active_gauge = pos 0;
  gauge_calls = [];
  step_records = [];
  next_uuid = 0;
}

abbrev burning : World
burning = record idle { alerts = alert ∷ []; states = state ∷ []; active_gauge = pos 1 }

abbrev outage : AlertTriggerEvent
outage = record { monitor_id = "m"; status = down; error = "refused" }

abbrev ack_by_u : AckEvent
ack_by_u = record { alert_id = "a"; user_id = "u"; channel = "slack" }

burning-IsValid : IsValid burning.alerts
burning-IsValid = (refl, λ _. refl, tt)

-- An outage with a tick, an acknowledgement and a recovery, over an installation where an alert is active and the
-- gauge shows none.
abbrev day : List (Env × Message)
day =
    (open_env minute, trigger_message (some outage))
    ∷ (open_env (2 * minute), tick_message)
    ∷ (open_env (3 * minute), ack_message (some ack_by_u))
    ∷ (open_env (4 * minute), recover_message (some outage))
    ∷ []

abbrev restarted : World
restarted = record burning { active_gauge = pos 0 }

run-Inv_example :
    IsValid (run day restarted).alerts
    × (All IsMetered day
        → (run day restarted).active_gauge -ℤ pos 0
          ≡ pos (active_count (run day restarted).alerts) -ℤ pos (active_count restarted.alerts))
run-Inv_example = run-Inv day restarted burning-IsValid

handle_recover_clears_example :
    (let (r, w') = handle_recover (open_env minute) (some outage) burning in
      (true ≡ false → (r ≡ none) × (w' ≡ burning))
      × (true ≡ true
          → ((r ≡ some update_failed) × (w' ≡ burning))
            ⊎ ((r ≡ none)
                × (get_active_by_monitor "m" w'.alerts ≡ none)
                × (true ≡ true → get_escalation_state "a" w'.states ≡ none))))
handle_recover_clears_example =
    handle_recover_clears (open_env minute) outage burning alert burning-IsValid
      (λ m e. ground arith) (unfold get_active_by_monitor in refl)

handle_trigger_fires_example :
    IsRaised "new" outage monitor (handle_trigger (open_env minute) (some outage) idle).1
handle_trigger_fires_example =
    handle_trigger_fires (open_env minute) outage monitor idle refl
      (unfold get_active_by_monitor in refl) (unfold get_by_id in refl) refl

handle_ack_silences_example :
    AckEffect
      (open_env minute)
      "a"
      "u"
      burning
      (handle_ack (open_env minute) (some ack_by_u) burning)
handle_ack_silences_example =
    handle_ack_silences (open_env minute) ack_by_u burning alert burning-IsValid
      (unfold get_by_id in refl) (λ e. ground arith)

-- After the acknowledgement.
abbrev quiet_alert : Alert
quiet_alert = record alert { status = acknowledged }

process_alert-Turn_example : Turn (open_env (2 * minute)) alert monitor state burning
process_alert-Turn_example =
    process_alert-Turn (open_env (2 * minute)) alert monitor state burning refl
      (unfold get_escalation_state in refl) refl

-- The row as the turn writes it back.
abbrev stale_row : Alert
stale_row = record alert { current_escalation_step = "s1" }

ack_overwritten_example :
    let between = (handle_ack (open_env minute) (some ack_by_u) burning).1 in
    ((row : Alert) × (get_by_id "a" between.alerts ≡ some row)
      × (row.status ≡ acknowledged)
      × (row.acknowledged_by ≡ "u"))
    × ((row : Alert) × (get_by_id "a"
            (enter_step (open_env minute) alert monitor second_step state between).alerts
          ≡ some row)
        × (row.status ≡ firing)
        × (row.acknowledged_by ≡ ""))
unfolding handle_ack ack_unless_resolved read_alert ack_alert acked update_alert update get_by_id
    emit create_event replace_row
ack_overwritten_example =
    ack_overwritten (open_env minute) (open_env minute) ack_by_u burning alert monitor second_step
      state (stale_row ∷ []) burning-IsValid refl refl refl refl refl
