-- ===== src/Checker/Tests.antt =====
-- internal/checker on concrete monitors.
use yip_yap_foss.Prelude.{
  All, ◌+◌, ◌≤◌, pos, true, false, ◌≡◌, refl, arith, none, some, [], ◌∷◌, length,
}
use yip_yap_foss.Domain.Monitor.{Monitor, http, heartbeat, CheckStatus, up, down}
use yip_yap_foss.Checker.Rules.{
  MonitorMatchRule, Texts, Response, matches_rule, evaluate_match_rules, status_matches,
}
use yip_yap_foss.Checker.Model.{Result, check_failed, checked, CheckOutcome, World, Env}
use yip_yap_foss.Checker.Judge.{judge, result_of, apply_rules, apply_thresholds, apply_dns}
use yip_yap_foss.Checker.Verdict.{rank, judge-Worse}
use yip_yap_foss.Checker.Scheduler.{known_status}
use yip_yap_foss.Checker.Outages.{Trace, quiet, is_bad, subjects, checks, checks-Trace}
use yip_yap_foss.Checker.Heartbeat.{heartbeat_result}
use yip_yap_foss.Checker.Misses.{IsMissing, heartbeats, heartbeats_once}
use yip_yap_foss.Checker.Runners.{find_runner, resync_from_db}
use yip_yap_foss.Checker.Resync.{Follows, IsPaced, resync_from_db-Follows}

abbrev site : Monitor
site = record {
  id = "m";
  org_id = "o";
  name = "site";
  type = http;
  config = "";
  interval_seconds = pos 60;
  timeout_seconds = pos 10;
  latency_warning_ms = pos 100;
  latency_critical_ms = pos 0;
  down_severity = "";
  degraded_severity = "";
  escalation_policy_id = "";
  auto_resolve = true;
  muted = false;
  enabled = true;
}

abbrev cron : Monitor
cron = record site { type = heartbeat }

abbrev slow : Result
slow = record {
  status = up;
  latency_ms = pos 250;
  status_code = pos 200;
  error = "";
  metadata = "";
  tls_expiry = none;
  body = "ok";
  header = λ _. "";
}

abbrev any_503 : MonitorMatchRule
any_503 = record {
  status_code = some (pos 503);
  status_code_min = none;
  status_code_max = none;
  body_match = "";
  body_match_mode = "";
  header_match = "";
  header_value = "";
  header_match_mode = "";
  state_id = "overload";
  health_class = "degraded";
}

abbrev texts : Texts
texts = record { contains = λ _ _. false; regex_match = λ _ _. none }

abbrev check_env : CheckOutcome → Env
check_env o = record {
  now = 1000000000000;
  check = λ _ _. o;
  rules = λ _. some (any_503 ∷ []);
  texts = texts;
  get_latest = λ _. none;
  seed_latest = λ _. none;
  get_latest_heartbeat_ping = λ _. some none;
  dns_expected = λ _. none;
  grace_period_seconds = λ _. some (pos 60);
  dns_metadata_decodes = λ _. true;
  has_emitter = true;
  emit_ok = λ _. true;
  publish_ok = λ _. true;
  uuid = λ _. "new";
  critical_latency = λ _ _. "slow";
  warning_latency = λ _ _. "slow";
  records_changed = λ _ _. "changed";
  no_heartbeat_in = λ _ _. "late";
}

abbrev healthy : World
healthy = record {
  last_status = ("m", up) ∷ [];
  enqueued = [];
  published = [];
  emitted = [];
  next_uuid = 0;
}

abbrev overloaded : Response
overloaded = record { status_code = pos 503; body = ""; header = λ _. "" }

judge-Worse_example :
    rank (result_of (checked slow)).status ≤ rank (judge (check_env (checked slow)) site).0.status
unfolding judge apply_rules apply_thresholds apply_dns result_of evaluate_match_rules matches_rule
    status_matches
judge-Worse_example = judge-Worse (check_env (checked slow)) site refl

checks-Trace_example :
    (s : CheckStatus) × (known_status "m"
        (checks site
          (check_env (checked slow) ∷ check_env (check_failed "refused") ∷ [])
          healthy).last_status
      ≡ some s)
    × Trace (is_bad s) (
        subjects
          (checks site
            (check_env (checked slow) ∷ check_env (check_failed "refused") ∷ [])
            healthy).published)
unfolding known_status
checks-Trace_example =
    checks-Trace site (check_env (checked slow) ∷ check_env (check_failed "refused") ∷ []) up
      healthy refl quiet

heartbeats_once_example :
    (length
        (heartbeats cron
          (check_env (checked slow) ∷ check_env (checked slow) ∷ [])
          healthy).enqueued
      ≤ 0 + 1)
    × (length
          (heartbeats cron
            (check_env (checked slow) ∷ check_env (checked slow) ∷ [])
            healthy).published
        ≤ 0 + 1)
    × (up ≡ down
        → (length
              (heartbeats cron
                (check_env (checked slow) ∷ check_env (checked slow) ∷ [])
                healthy).enqueued
            ≤ 0)
          × (length
                (heartbeats cron
                  (check_env (checked slow) ∷ check_env (checked slow) ∷ [])
                  healthy).published
              ≤ 0))
unfolding known_status heartbeat_result
heartbeats_once_example =
    heartbeats_once cron (check_env (checked slow) ∷ check_env (checked slow) ∷ []) up healthy refl
      (no_ping, (no_ping, tt))
  where
    no_ping : IsMissing cron (check_env (checked slow))
    no_ping s none e f = unfold heartbeat_result in refl
    no_ping s (some p) e f = ground arith

resync_from_db-Follows_example :
    ((m : Monitor) → some site ≡ some m → Follows m (resync_from_db (some (site ∷ [])) []))
    × (some site ≡ none → find_runner "m" (resync_from_db (some (site ∷ [])) []) ≡ none)
    × All IsPaced (resync_from_db (some (site ∷ [])) [])
resync_from_db-Follows_example = resync_from_db-Follows "m" (site ∷ []) [] tt (refl, tt) (refl, tt)
