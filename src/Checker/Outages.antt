-- ===== src/Checker/Outages.antt =====
-- internal/checker/scheduler.go: the reports of a run of `executeCheck`, as a trace.
use yip_yap_foss.Prelude.{
  String, Bool, true, false, ◌≡◌, refl, sym, ◌∙◌, ap, arith, subst, Option, none, some, List, [],
  ◌∷◌, map, str_eq_refl,
}
use yip_yap_foss.Domain.Monitor.{Monitor, CheckStatus, up, down, degraded}
use yip_yap_foss.Checker.Model.{
  Result, Subject, alert_trigger, alert_recover, Published, MonitorEvent, World, Env,
}
use yip_yap_foss.Checker.Judge.{judge}
use yip_yap_foss.Checker.Scheduler.{
  known_status, previous_status, remember, publish_alert_event, transition, transition_event, emit,
  emit_if, publish_if, enqueue, execute_active_check,
}

-- What the scheduler is to report of a monitor: an outage opens, may get worse while it is open, and closes.
-- Newest report first; the index says whether an outage is open.
pub data Trace : Bool → List Subject → Type 0 where
  quiet : Trace false []
  opens : {o : Bool} {ss : List Subject} → Trace o ss → Trace true (alert_trigger ∷ ss)
  closes : {ss : List Subject} → Trace true ss → Trace false (alert_recover ∷ ss)

abbrev pub is_bad : CheckStatus → Bool
is_bad up = false
is_bad down = true
is_bad degraded = true

abbrev pub subjects : List Published → List Subject
subjects ps = map (λ p. p.subject) ps

-- Active checks of one monitor, one after another, each in an environment of its own.
unfoldable pub checks : Monitor → List Env → World → World
unfolding execute_active_check
checks m [] w = w
checks m (env ∷ rest) w = checks m rest (execute_active_check env m w)

abbrev report_if : Option Subject → List Subject → List Subject
report_if none ss = ss
report_if (some s) ss = s ∷ ss

transition-Trace :
    (p s : CheckStatus) (ss : List Subject)
    → Trace (is_bad p) ss
    → Trace (is_bad s) (report_if (transition (some p) s) ss)
unfolding transition
transition-Trace up up ss t = t
transition-Trace up down ss t = opens t
transition-Trace up degraded ss t = opens t
transition-Trace down up ss t = closes t
transition-Trace down down ss t = t
transition-Trace down degraded ss t = t
transition-Trace degraded up ss t = closes t
transition-Trace degraded down ss t = opens t
transition-Trace degraded degraded ss t = t

publish_if-subjects :
    (env : Env) (o : Option Subject) (m : Monitor) (r : Result) (w : World)
    → subjects (publish_if env o m r w).published ≡ report_if o (subjects w.published)
unfolding publish_alert_event
publish_if-subjects env none m r w = refl
publish_if-subjects env (some s) m r w = refl

publish_if-known :
    (env : Env) (o : Option Subject) (m : Monitor) (r : Result) (w : World)
    → (publish_if env o m r w).last_status ≡ w.last_status
unfolding publish_alert_event
publish_if-known env none m r w = refl
publish_if-known env (some s) m r w = refl

emit_if-published :
    (env : Env) (o : Option MonitorEvent) (w : World)
    → ((emit_if env o w).published ≡ w.published) × ((emit_if env o w).last_status ≡ w.last_status)
unfolding emit
emit_if-published env none w = (refl, refl)
emit_if-published env (some e) w = ground arith

pub previous_known :
    (env : Env) (m : Monitor) (p : CheckStatus) (w : World)
    → known_status m.id w.last_status ≡ some p
    → previous_status env m w ≡ some p
unfolding previous_status
previous_known env m p w known = rw (known, previous_status) refl

pub remembered :
    (m : Monitor) (s : CheckStatus) (w : World)
    → known_status m.id (remember m s w).last_status ≡ some s
unfolding remember known_status
remembered m s w = rw (str_eq_refl m.id) refl

untouched :
    (m : Monitor) (s : CheckStatus) (r : Result) (state_id : String) (env : Env) (w : World)
    → subjects (remember m s (enqueue env m r state_id w)).published ≡ subjects w.published
unfolding remember enqueue
untouched m s r state_id env w = refl

-- One check, from a status that is known.
pub execute_active_check-step :
    (env : Env) (m : Monitor) (p : CheckStatus) (w : World)
    → known_status m.id w.last_status ≡ some p
    → let s = (judge env m).0.status in
      let w' = execute_active_check env m w in
      (known_status m.id w'.last_status ≡ some s)
      × (subjects w'.published ≡ report_if (transition (some p) s) (subjects w.published))
unfolding execute_active_check
execute_active_check-step env m p w known =
    let (r, state_id) = judge env m in
    let prev = previous_status env m w in
    let was : prev ≡ some p = previous_known env m p w known in
    let w₁ = remember m r.status (enqueue env m r state_id w) in
    let w₂ = publish_if env (transition prev r.status) m r w₁ in
    let (published, kept) =
      emit_if-published env (transition_event env m r prev (env.uuid w.next_uuid)) w₂ in
    (
      ap (known_status m.id) (kept ∙ publish_if-known env (transition prev r.status) m r w₁)
          ∙ remembered m r.status (enqueue env m r state_id w),
      ap subjects published
          ∙ publish_if-subjects env (transition prev r.status) m r w₁
          ∙ ap (λ o. report_if (transition o r.status) (subjects w₁.published)) was
          ∙ ap (report_if (transition (some p) r.status)) (untouched m r.status r state_id env w),
    )

-- Any number of active checks of a monitor, whatever they find, from a known status and a history in which
-- an outage is open exactly if that status is not `up`: recoveries are reported only while an outage is open, and
-- at the end an outage is open exactly if the last status is not `up`.
pub checks-Trace :
    (m : Monitor) (envs : List Env) (p : CheckStatus) (w : World)
    → known_status m.id w.last_status ≡ some p
    → Trace (is_bad p) (subjects w.published)
    → (s : CheckStatus) × (known_status m.id (checks m envs w).last_status ≡ some s)
      × Trace (is_bad s) (subjects (checks m envs w).published)
unfolding checks
checks-Trace m [] p w known t = (p, known, t)
checks-Trace m (env ∷ rest) p w known t =
    let s = (judge env m).0.status in
    let (known', reported) = execute_active_check-step env m p w known in
    checks-Trace m rest s (execute_active_check env m w) known'
      (subst (Trace (is_bad s)) (sym reported) (transition-Trace p s (subjects w.published) t))
