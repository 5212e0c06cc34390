-- ===== src/Escalation/Run.antt =====
-- The engine as a whole: messages and ticks, one after another, each in an environment of its own.
use yip_yap_foss.Prelude.{
  ℕ, ◌+◌, ℤ, pos, pos_part, neg_part, ◌-ℤ◌, -ℤ_parts, eq_of_parts, Bool, true, false, ◌≡◌, refl,
  arith, List, [], ◌∷◌, Option, All,
}
use yip_yap_foss.Domain.Notification.{AckEvent}
use yip_yap_foss.Store.AlertLaws.{IsValid, active_count}
use yip_yap_foss.Escalation.World.{Env, World}
use yip_yap_foss.Escalation.Handlers.{AlertTriggerEvent, handle_trigger, handle_recover, handle_ack}
use yip_yap_foss.Escalation.Tick.{process_firing_alerts}
use yip_yap_foss.Escalation.Gauge.{Base, Inv}
use yip_yap_foss.Escalation.Messages.{handle_trigger-Inv, handle_recover-Inv, handle_ack-Inv}
use yip_yap_foss.Escalation.Ticks.{process_firing_alerts-Inv}

-- The subjects `alert.trigger`, `alert.recover` and `alert.ack` of `Start`, and the ticker.
pub data Message : Type 0 where
  trigger_message recover_message : Option AlertTriggerEvent → Message
  ack_message : Option AckEvent → Message
  tick_message : Message

-- The subscriptions of `Start`, and `tickLoop`.
unfoldable pub step : Env → Message → World → World
step env (trigger_message evt) w = (handle_trigger env evt w).1
step env (recover_message evt) w = (handle_recover env evt w).1
step env (ack_message evt) w = (handle_ack env evt w).1
step env tick_message w = process_firing_alerts env w

unfoldable pub run : List (Env × Message) → World → World
unfolding step
run [] w = w
run ((env, m) ∷ rest) w = run rest (step env m w)

step-Inv :
    (b : Base) (env : Env) (m : Message) (w : World)
    → (b.metered ≡ true → env.has_metrics ≡ true)
    → Inv b w
    → Inv b (step env m w)
unfolding step
step-Inv b env (trigger_message evt) w on v = handle_trigger-Inv b env on evt w v
step-Inv b env (recover_message evt) w on v = handle_recover-Inv b env on evt w v
step-Inv b env (ack_message evt) w on v = handle_ack-Inv b env on evt w v
step-Inv b env tick_message w on v = process_firing_alerts-Inv b env w v

abbrev pub IsMetered : Env × Message → Type 0
IsMetered (env, m) = env.has_metrics ≡ true

steps-Inv :
    (b : Base) (ms : List (Env × Message)) (w : World)
    → (b.metered ≡ true → All IsMetered ms)
    → Inv b w
    → Inv b (run ms w)
unfolding run
steps-Inv b [] w on v = v
steps-Inv b ((env, m) ∷ rest) w on v =
    steps-Inv b rest (step env m w) (λ yes_on. (on yes_on).1)
      (step-Inv b env m w (λ yes_on. (on yes_on).0) v)

-- From a table of alerts in which the schema's constraints hold, whatever messages and ticks arrive and whatever of the
-- environment's reads and writes fail, the constraints hold. If there are metrics in every step, the gauge of active
-- alerts, summed over the orgs, has then moved by just as much as their number has: what the gauge shows is right if it
-- was right at the start, which it is not in an engine that starts over alerts that are active already.
pub run-Inv :
    (ms : List (Env × Message)) (w : World)
    → IsValid w.alerts
    → IsValid (run ms w).alerts
      × (All IsMetered ms
          → (run ms w).active_gauge -ℤ w.active_gauge
            ≡ pos (active_count (run ms w).alerts) -ℤ pos (active_count w.alerts))
run-Inv ms w v = (
  (steps-Inv (base false) ms w (λ off. ground (arith, off))
      (record { valid = v; gauge = λ off. ground (arith, off) })).valid,
  λ on.
      let moved =
        (steps-Inv (base true) ms w (λ _. on)
            (record { valid = v; gauge = λ _. omega arith })).gauge
          refl in
      moves w.active_gauge (run ms w).active_gauge _ _ moved,
)
  where
    base : Bool → Base
    base b = record { metered = b; gauge = w.active_gauge; count = active_count w.alerts }

    moves :
        (g g' : ℤ) (n n' : ℕ)
        → pos_part g' + neg_part g + n ≡ pos_part g + neg_part g' + n'
        → g' -ℤ g ≡ pos n' -ℤ pos n
    moves g g' n n' h =
        eq_of_parts (g' -ℤ g) (pos n' -ℤ pos n)
          (omega (arith, h, -ℤ_parts g' g, -ℤ_parts (pos n') (pos n)))
