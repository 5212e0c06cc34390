-- ===== src/Delivery/Tests.antt =====
-- internal/notify on a pool for Slack and a few jobs.
use yip_yap_foss.Prelude.{
  some, ℕ, ◌+◌, arith, pos, true, false, String, ◌≡◌, ◌≤◌, ltb, refl, none, List, [], ◌∷◌, length,
  map,
}
use yip_yap_foss.Domain.Alert.{Alert, firing}
use yip_yap_foss.Domain.Monitor.{Monitor, http}
use yip_yap_foss.Domain.Escalation.{EscalationStep}
use yip_yap_foss.Domain.Notification.{NotificationChannel, NotificationJob}
use yip_yap_foss.Escalation.World.{Env as EngineEnv}
use yip_yap_foss.Escalation.Notify.{make_job}
use yip_yap_foss.Delivery.Dispatch.{
  World, Env, dedupe_ttl, clean_up, register, dispatch, mark_seen, mark_in_memory, route, expiry_of,
}
use yip_yap_foss.Delivery.Worker.{Attempts, Stats, send_with_retry, work}
use yip_yap_foss.Delivery.Duplicates.{dispatches, dispatches_once}
use yip_yap_foss.Delivery.Outbox.{acked, failed, completed, receive, process_one, process_outbox}
use yip_yap_foss.Delivery.Redelivery.{redelivery_lost}
use yip_yap_foss.Delivery.Retries.{Ends, send_with_retry-Ends}

abbrev monitor : Monitor
monitor = record {
  id = "m";
  org_id = "o";
  name = "site";
  type = http;
  config = "";
  interval_seconds = pos 60;
  timeout_seconds = pos 10;
  latency_warning_ms = pos 0;
  latency_critical_ms = pos 0;
  down_severity = "";
  degraded_severity = "info";
  escalation_policy_id = "p";
  auto_resolve = true;
  muted = false;
  enabled = true;
}

abbrev first_step : EscalationStep
first_step = record {
  id = "s0";
  policy_id = "p";
  position = pos 0;
  wait_seconds = pos 60;
  repeat_count = pos 1;
  repeat_interval_seconds = pos 60;
  is_terminal = false;
}

abbrev slack : NotificationChannel
slack = record {
  id = "c";
  org_id = "o";
  type = "slack";
  name = "ops";
  config = "{}";
  enabled = true;
}

abbrev alert : Alert
alert = record {
  id = "a";
  monitor_id = "m";
  org_id = "o";
  status = firing;
  severity = "info";
  error = "timeout";
  started_at = 0;
  acknowledged_at = none;
  acknowledged_by = "";
  resolved_at = none;
  current_escalation_step = "s0";
  incident_id = "";
}

abbrev engine : EngineEnv
engine = record {
  now = 0;
  get_monitor = λ _. none;
  get_policy = λ _. none;
  steps = [];
  steps_ok = true;
  next_step_ok = true;
  get_targets = λ _. none;
  active_windows = λ _ _. none;
  get_channel = λ _. none;
  list_members = λ _. none;
  read_active_ok = true;
  get_alert_ok = true;
  get_state_ok = λ _. true;
  list_firing_ok = true;
  create_ok = λ _. true;
  update_ok = λ _. true;
  upsert_ok = λ _. true;
  delete_ok = λ _. true;
  event_ok = λ _. true;
  enqueue_ok = λ _. true;
  publish_ok = λ _. true;
  marshal_ok = λ _. true;
  has_metrics = true;
  has_emitter = true;
  emit_ok = λ _. true;
  envelope = none;
  base64 = λ _ s. s;
  uuid = λ _. "new";
  format_message = λ a _. a;
  format_dedupe_key = λ a _ _. a;
}

abbrev pools : World
pools = register "slack" (record { seen = []; pools = []; submitted = [] })

-- No store of claims.
abbrev at : ℕ → Env
at t = record { now = t; dedup = none }

abbrev job : String → NotificationJob
job i = make_job engine alert monitor first_step slack "{}" "u" i

-- A job and a repeat a minute later.
abbrev rounds : List (Env × String)
rounds = (at 0, "j0") ∷ (at 60000000000, "j1") ∷ []

repeat_dropped :
    length (dispatches (map (λ (r : Env × String). (r.0, job r.1)) rounds) pools).submitted ≡ 1
unfolding dispatches make_job register
repeat_dropped = refl

later_repeat_sent :
    length (dispatches ((at 0, job "j0") ∷ (at dedupe_ttl, job "j1") ∷ []) pools).submitted ≡ 2
unfolding dispatches make_job register
later_repeat_sent = refl

forgotten : (clean_up 301000000000 (dispatches ((at 0, job "j0") ∷ []) pools)).seen ≡ []
unfolding dispatches make_job register clean_up
forgotten = refl

dispatches_once_example :
    length (dispatches ((at 0, job "j0") ∷ (at 60000000000, job "j1") ∷ []) pools).submitted
    ≤ length pools.submitted + 1
unfolding make_job
dispatches_once_example =
    dispatches_once "a" 0 ((at 0, job "j0") ∷ (at 60000000000, job "j1") ∷ []) pools refl
      ((refl, refl, omega arith, omega arith), ((refl, refl, omega arith, omega arith), tt))

abbrev no_pools : World
no_pools = record { seen = []; pools = []; submitted = [] }

-- The key of the job is marked and the provider is there by now.
abbrev provided : World
provided = register "slack" (receive (at 0) false (some (job "j0")) no_pools).2

redelivery_lost_example :
    ((receive (at 60000000000) false (some (job "j0")) provided).0 ≡ acked)
    × ((receive (at 60000000000) false (some (job "j0")) provided).2 ≡ provided)
unfolding make_job register receive dispatch mark_seen mark_in_memory route expiry_of
redelivery_lost_example =
    redelivery_lost (at 0) (at 60000000000) false (job "j0") no_pools provided refl refl refl refl
      refl (omega arith)

-- Of three claimed jobs the one without a payload fails, and the repeat counts as done.
polled :
    (process_outbox
      (at 0)
      (record { id = "1"; payload = some (job "j0") }
        ∷ record { id = "2"; payload = none }
        ∷ record { id = "3"; payload = some (job "j1") }
        ∷ [])
      pools).0
    ≡ completed "1" ∷ failed "2" ∷ completed "3" ∷ []
unfolding make_job register process_outbox process_one dispatch mark_seen mark_in_memory route
    expiry_of
polled = refl

-- Two failures, then a success.
abbrev flaky : Attempts
flaky = record { succeeds = λ n. ltb 1 n; ends = λ _. false }

flaky_waits : (send_with_retry flaky).waits ≡ 1000000000 ∷ 2000000000 ∷ []
unfolding send_with_retry
flaky_waits = refl

abbrev fresh_stats : Stats
fresh_stats = record { sent = 0; failures = 0; dead_letters = 0 }

flaky_counts : work flaky fresh_stats ≡ record fresh_stats { sent = 1 }
unfolding work
flaky_counts = refl

lost_counts :
    work (record { succeeds = λ _. false; ends = λ _. false }) fresh_stats
    ≡ record { sent = 0; failures = 1; dead_letters = 1 }
unfolding work
lost_counts = refl

send_with_retry-Ends_example : Ends flaky 5 0 (send_with_retry flaky)
send_with_retry-Ends_example = send_with_retry-Ends flaky (λ _. refl)
