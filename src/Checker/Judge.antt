-- ===== src/Checker/Judge.antt =====
-- internal/checker/scheduler.go, the first half of `executeCheck`: from what a checker found to the
-- status that is recorded.
use yip_yap_foss.Prelude.{
  pos, ltb_ℤ, leb_ℤ, String, Bool, true, false, not, ◌&&◌, ◌||◌, none, some, str_eq, is_blank,
  if◌then◌else◌,
}
use yip_yap_foss.Domain.Monitor.{Monitor, MonitorType, dns, CheckStatus, up, down, degraded}
use yip_yap_foss.Checker.Rules.{evaluate_match_rules, health_class_to_status}
use yip_yap_foss.Checker.Model.{Result, CheckOutcome, checked, check_failed, Env}

-- The latency thresholds, on a check that is up.
unfoldable pub apply_thresholds : Env → Monitor → Result → Result
apply_thresholds env m r = elim r.status [
  | up ↦
      if ltb_ℤ (pos 0) m.latency_critical_ms && leb_ℤ m.latency_critical_ms r.latency_ms
      then record r {
        status = degraded;
        error = env.critical_latency r.latency_ms m.latency_critical_ms;
      }
      else if ltb_ℤ (pos 0) m.latency_warning_ms && leb_ℤ m.latency_warning_ms r.latency_ms
      then record r {
        status = degraded;
        error = env.warning_latency r.latency_ms m.latency_warning_ms;
      }
      else r
  | down ↦ r
  | degraded ↦ r
]

-- The match rules, on a response with a status code; with the state of the rule that matched.
unfoldable pub apply_rules : Env → Monitor → Result → Result × String
unfolding evaluate_match_rules health_class_to_status
apply_rules env m r = if leb_ℤ r.status_code (pos 0) then (r, "") else elim (env.rules m.id) [
  | none ↦ (r, "")
  | some rules ↦
      let (state_id, health_class) =
        evaluate_match_rules env.texts rules
          (record { status_code = r.status_code; body = r.body; header = r.header }) in
      if is_blank state_id
      then (r, "")
      else (record r { status = health_class_to_status health_class }, state_id)
]

-- `detectDNSChange`.
unfoldable pub detect_dns_change : Env → Monitor → Result → Result
detect_dns_change env m r = elim (env.dns_expected m.config) [
  | none ↦ r
  | some expected ↦ if not (is_blank expected) then r else elim (env.get_latest m.id) [
    | none ↦ r
    | some latest ↦
        if is_blank latest.metadata || str_eq r.metadata latest.metadata
        then r
        else if env.dns_metadata_decodes latest.metadata && env.dns_metadata_decodes r.metadata
        then record r { status = down; error = env.records_changed latest.metadata r.metadata }
        else r
  ]
]

abbrev pub is_up : CheckStatus → Bool
is_up up = true
is_up _ = false

abbrev pub is_dns : MonitorType → Bool
is_dns dns = true
is_dns _ = false

-- The call of the DNS detection and its guard.
unfoldable pub apply_dns : Env → Monitor → Result → Result
unfolding detect_dns_change
apply_dns env m r =
    if is_dns m.type && is_up r.status && not (is_blank r.metadata)
    then detect_dns_change env m r
    else r

-- A check that returned an error is down.
unfoldable pub result_of : CheckOutcome → Result
result_of (checked r) = r
result_of (check_failed e) = record {
  status = down;
  latency_ms = pos 0;
  status_code = pos 0;
  error = e;
  metadata = "";
  tls_expiry = none;
  body = "";
  header = λ _. "";
}

-- The first half of `executeCheck`: the result, and the state that a rule matched.
unfoldable pub judge : Env → Monitor → Result × String
unfolding result_of apply_thresholds apply_rules apply_dns
judge env m =
    let (r, state_id) =
      apply_rules env m (apply_thresholds env m (result_of (env.check m.type m.config))) in
    (apply_dns env m r, state_id)
