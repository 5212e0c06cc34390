-- ===== src/Checker/Verdict.antt =====
-- internal/checker/scheduler.go, the first half of `executeCheck`: the order of the statuses, and the steps against it.
use yip_yap_foss.Prelude.{
  ℕ, ◌≤◌, pos, leb_ℤ, ltb_ℤ, String, true, not, ◌&&◌, ◌≡◌, refl, ap, arith, Option, none, some,
  List, is_blank, if◌then◌else◌, if_rule, if_known,
}
use yip_yap_foss.Domain.Monitor.{Monitor, CheckStatus, up, down, degraded}
use yip_yap_foss.Checker.Rules.{MonitorMatchRule, evaluate_match_rules, health_class_to_status}
use yip_yap_foss.Checker.Model.{Result, Env}
use yip_yap_foss.Checker.Judge.{
  apply_thresholds, apply_rules, detect_dns_change, apply_dns, is_up, is_dns, result_of, judge,
}

-- How bad a status is.
abbrev pub rank : CheckStatus → ℕ
rank up = 0
rank degraded = 1
rank down = 2

abbrev Worse : Result → Result → Type 0
Worse r s = rank r.status ≤ rank s.status

degraded_worse : (s : CheckStatus) → s ≡ up → rank s ≤ 1
degraded_worse up h = omega arith
degraded_worse degraded h = omega arith
degraded_worse down h = ground arith

down_worst : (s : CheckStatus) → rank s ≤ 2
down_worst up = omega arith
down_worst degraded = omega arith
down_worst down = omega arith

le_refl : (n : ℕ) → n ≤ n
le_refl n = omega arith

apply_thresholds-Worse : (env : Env) (m : Monitor) (r : Result) → Worse r (apply_thresholds env m r)
unfolding apply_thresholds
apply_thresholds-Worse env m r = by_status r.status refl
  where
    by_status :
        (s : CheckStatus)
        → r.status ≡ s
        → Worse r (
            let o : Result = elim s [
              | up ↦
                  if ltb_ℤ (pos 0) m.latency_critical_ms && leb_ℤ m.latency_critical_ms r.latency_ms
                  then record r {
                    status = degraded;
                    error = env.critical_latency r.latency_ms m.latency_critical_ms;
                  }
                  else if ltb_ℤ (pos 0) m.latency_warning_ms
                      && leb_ℤ m.latency_warning_ms r.latency_ms
                  then record r {
                    status = degraded;
                    error = env.warning_latency r.latency_ms m.latency_warning_ms;
                  }
                  else r
              | down ↦ r
              | degraded ↦ r
            ] in
            o)
    by_status up h =
        if_rule (Worse r)
          (ltb_ℤ (pos 0) m.latency_critical_ms && leb_ℤ m.latency_critical_ms r.latency_ms)
          (degraded_worse r.status h)
          (if_rule (Worse r)
            (ltb_ℤ (pos 0) m.latency_warning_ms && leb_ℤ m.latency_warning_ms r.latency_ms)
            (degraded_worse r.status h) (le_refl (rank r.status)))
    by_status down h = le_refl (rank r.status)
    by_status degraded h = le_refl (rank r.status)

detect_dns_change-Worse :
    (env : Env) (m : Monitor) (r : Result) → Worse r (detect_dns_change env m r)
unfolding detect_dns_change
detect_dns_change-Worse env m r = ground (arith, down_worst r.status)

apply_dns-Worse : (env : Env) (m : Monitor) (r : Result) → Worse r (apply_dns env m r)
unfolding apply_dns
apply_dns-Worse env m r =
    if_rule (Worse r) (is_dns m.type && is_up r.status && not (is_blank r.metadata))
      (detect_dns_change-Worse env m r) (le_refl (rank r.status))

-- With no rule's state, the rules leave the status.
abbrev IsKept : Result → Result × String → Type 0
IsKept r (s, state_id) = is_blank state_id ≡ true → s.status ≡ r.status

apply_rules-IsKept : (env : Env) (m : Monitor) (r : Result) → IsKept r (apply_rules env m r)
unfolding apply_rules
apply_rules-IsKept env m r =
    if_rule (IsKept r) (leb_ℤ r.status_code (pos 0)) (λ _. refl) (by_rules (env.rules m.id))
  where
    by_rules :
        (o : Option (List MonitorMatchRule))
        → IsKept r (
            let out : Result × String = elim o [
              | none ↦ (r, "")
              | some rules ↦
                  let (state_id, health_class) =
                    evaluate_match_rules env.texts rules
                      (record { status_code = r.status_code; body = r.body; header = r.header }) in
                  if is_blank state_id
                  then (r, "")
                  else (record r { status = health_class_to_status health_class }, state_id)
            ] in
            out)
    by_rules none = λ _. refl
    by_rules (some rules) =
        let (state_id, health_class) =
          evaluate_match_rules env.texts rules
            (record { status_code = r.status_code; body = r.body; header = r.header }) in
        if_known (IsKept r) (is_blank state_id) (λ _ _. refl) (λ named blank. ground arith)

-- If no match rule gives the check a state, the recorded status is no better than what the checker found (`up`
-- before `degraded` before `down`): the latency thresholds and the DNS comparison can only worsen it.
pub judge-Worse :
    (env : Env) (m : Monitor)
    → is_blank (judge env m).1 ≡ true
    → rank (result_of (env.check m.type m.config)).status ≤ rank (judge env m).0.status
unfolding judge
judge-Worse env m blank =
    let found = result_of (env.check m.type m.config) in
    let slow = apply_thresholds env m found in
    let ruled = apply_rules env m slow in
    let kept : ruled.0.status ≡ slow.status = apply_rules-IsKept env m slow blank in
    let first = apply_thresholds-Worse env m found in
    let last = apply_dns-Worse env m ruled.0 in
    let same : rank ruled.0.status ≡ rank slow.status = ap rank kept in
    omega (arith, first, last, same)
