-- ===== src/Checker/Misses.antt =====
-- internal/checker/scheduler.go: runs of `executeHeartbeatCheck` while no ping comes.
use yip_yap_foss.Prelude.{
  ℕ, suc, ◌≤◌, ◌+◌, ℤ, false, ◌≡◌, refl, sym, ◌∙◌, ap, arith, inl, inr, Option, none, some, List,
  [], ◌∷◌, length, Option-cases, if_known, All,
}
use yip_yap_foss.Domain.Monitor.{Monitor, CheckStatus, up, down, degraded, MonitorCheck}
use yip_yap_foss.Checker.Model.{Result, Subject, MonitorEvent, World, Env}
use yip_yap_foss.Checker.Scheduler.{
  known_status, remember, publish_alert_event, emit, emit_if, publish_if, enqueue,
}
use yip_yap_foss.Checker.Outages.{previous_known, remembered}
use yip_yap_foss.Checker.Heartbeat.{
  grace_period, heartbeat_result, same_status, heartbeat_transition, heartbeat_event,
  previous_heartbeat, settle_heartbeat, execute_heartbeat_check,
}

-- What the log of checks and of reports may still grow by in this outage.
abbrev room : CheckStatus → ℕ
room down = 0
room up = 1
room degraded = 1

-- If the configuration decodes and the last ping can be read, it is too old or there is none.
abbrev pub IsMissing : Monitor → Env → Type 0
IsMissing m env =
    (s : ℤ) (last : Option MonitorCheck)
    → env.grace_period_seconds m.config ≡ some s
    → env.get_latest_heartbeat_ping m.id ≡ some last
    → (heartbeat_result env (grace_period s) last).status ≡ down

-- From the status `p`, a stretch that ends in `w'`.
record Grows (m : Monitor) (p : CheckStatus) (w w' : World) : Type 0 where
  after : CheckStatus
  known : known_status m.id w'.last_status ≡ some after
  checks : length w'.enqueued + room after ≤ length w.enqueued + room p
  reports : length w'.published + room after ≤ length w.published + room p

room_le : (p : CheckStatus) → room p ≤ 1
room_le up = omega arith
room_le down = omega arith
room_le degraded = omega arith

Grows-none :
    (m : Monitor) (p : CheckStatus) (w : World)
    → known_status m.id w.last_status ≡ some p
    → Grows m p w w
Grows-none m p w known = record {
  after = p;
  known = known;
  checks = omega arith;
  reports = omega arith;
}

publish_if-length :
    (env : Env) (o : Option Subject) (m : Monitor) (r : Result) (w : World)
    → (length (publish_if env o m r w).published ≤ length w.published + 1)
      × ((publish_if env o m r w).enqueued ≡ w.enqueued)
      × ((publish_if env o m r w).last_status ≡ w.last_status)
unfolding publish_alert_event
publish_if-length env none m r w = (omega arith, refl, refl)
publish_if-length env (some s) m r w = (omega arith, refl, refl)

emit_if-kept :
    (env : Env) (o : Option MonitorEvent) (w : World)
    → ((emit_if env o w).published ≡ w.published)
      × ((emit_if env o w).enqueued ≡ w.enqueued)
      × ((emit_if env o w).last_status ≡ w.last_status)
unfolding emit
emit_if-kept env none w = (refl, refl, refl)
emit_if-kept env (some e) w = (ground arith, ground arith, ground arith)

previous_heartbeat_known :
    (env : Env) (m : Monitor) (s p : CheckStatus) (w : World)
    → known_status m.id w.last_status ≡ some p
    → previous_heartbeat env m s w ≡ p
unfolding previous_heartbeat
previous_heartbeat_known env m s p w known =
    rw (previous_known env m p w known, previous_heartbeat) refl

-- Only a change to `down` uses the room.
room-changed : (p s : CheckStatus) → same_status p s ≡ false → s ≡ down → room p ≡ 1
room-changed up s h is = refl
room-changed degraded s h is = refl
room-changed down up h is = ground arith
room-changed down down h is = ground arith
room-changed down degraded h is = ground arith

settle_heartbeat-Grows :
    (env : Env) (m : Monitor) (g : ℤ) (last : Option MonitorCheck) (p : CheckStatus) (w : World)
    → known_status m.id w.last_status ≡ some p
    → (heartbeat_result env g last).status ≡ down
    → Grows m p w (settle_heartbeat env m g last w)
unfolding settle_heartbeat enqueue
settle_heartbeat-Grows env m g last p w known missed =
    let r = heartbeat_result env g last in
    let prev = previous_heartbeat env m r.status w in
    let was : prev ≡ p = previous_heartbeat_known env m r.status p w known in
    let w₁ = remember m r.status w in
    let w₂ = enqueue env m r "" w₁ in
    let w₃ = publish_if env (heartbeat_transition prev r.status) m r w₂ in
    let ce = heartbeat_event env m g last prev r.status (env.uuid w.next_uuid) in
    let (sent, queued, remembers) =
      publish_if-length env (heartbeat_transition prev r.status) m r w₂ in
    let (published, enqueued, kept) = emit_if-kept env ce w₃ in
    let full : room r.status ≡ 0 = ap room missed in
    let more : length (emit_if env ce w₃).enqueued ≡ suc (length w.enqueued) =
      ap length (enqueued ∙ queued) in
    let same_log : length (emit_if env ce w₃).published ≡ length w₃.published =
      ap length published in
    let sent' : length w₃.published ≤ length w.published + 1 = sent in
    if_known (Grows m p w) (same_status prev r.status)
      (λ same. record {
        after = r.status;
        known = remembered m r.status w;
        checks = omega (arith, full);
        reports = omega (arith, full);
      })
      (λ changed.
        let one : room p ≡ 1 = ap room (sym was) ∙ room-changed prev r.status changed missed in
        record {
          after = r.status;
          known = ap (known_status m.id) (kept ∙ remembers) ∙ remembered m r.status w;
          checks = omega (arith, full, one, more);
          reports = omega (arith, full, one, same_log, sent');
        })

execute_heartbeat_check-Grows :
    (env : Env) (m : Monitor) (p : CheckStatus) (w : World)
    → known_status m.id w.last_status ≡ some p
    → IsMissing m env
    → Grows m p w (execute_heartbeat_check env m w)
unfolding execute_heartbeat_check
execute_heartbeat_check-Grows env m p w known missing =
    elim (Option-cases (env.grace_period_seconds m.config)) [
      | inl e ↦ rw (e, execute_heartbeat_check) (Grows-none m p w known)
      | inr (s, e) ↦ elim (Option-cases (env.get_latest_heartbeat_ping m.id)) [
        | inl f ↦ rw (e, f, execute_heartbeat_check) (Grows-none m p w known)
        | inr (last, f) ↦
            rw (e, f, execute_heartbeat_check)
              (settle_heartbeat-Grows env m (grace_period s) last p w known (missing s last e f))
      ]
    ]

-- Rounds of the heartbeat's check, one after another.
unfoldable pub heartbeats : Monitor → List Env → World → World
unfolding execute_heartbeat_check
heartbeats m [] w = w
heartbeats m (env ∷ rest) w = heartbeats m rest (execute_heartbeat_check env m w)

heartbeats-Grows :
    (m : Monitor) (envs : List Env) (p : CheckStatus) (w : World)
    → known_status m.id w.last_status ≡ some p
    → All (IsMissing m) envs
    → Grows m p w (heartbeats m envs w)
unfolding heartbeats
heartbeats-Grows m [] p w known missing = Grows-none m p w known
heartbeats-Grows m (env ∷ rest) p w known missing =
    let one = execute_heartbeat_check-Grows env m p w known missing.0 in
    let more =
      heartbeats-Grows m rest one.after (execute_heartbeat_check env m w) one.known missing.1 in
    record {
      after = more.after;
      known = more.known;
      checks = omega (arith, one.checks, more.checks);
      reports = omega (arith, one.reports, more.reports);
    }

-- While the pings stay away, however often the heartbeat is checked and whichever reads fail: a monitor whose status
-- is known gets at most one check row and at most one report to the bus, and none at all if it
-- was already down.
pub heartbeats_once :
    (m : Monitor) (envs : List Env) (p : CheckStatus) (w : World)
    → known_status m.id w.last_status ≡ some p
    → All (IsMissing m) envs
    → let w' = heartbeats m envs w in
      (length w'.enqueued ≤ length w.enqueued + 1)
      × (length w'.published ≤ length w.published + 1)
      × (p ≡ down
          → (length w'.enqueued ≤ length w.enqueued) × (length w'.published ≤ length w.published))
heartbeats_once m envs p w known missing =
    let g = heartbeats-Grows m envs p w known missing in
    let small = room_le p in
    (
      omega (arith, g.checks, small),
      omega (arith, g.reports, small),
      λ is.
          let none_left : room p ≡ 0 = ap room is in
          (omega (arith, g.checks, none_left), omega (arith, g.reports, none_left)),
    )
