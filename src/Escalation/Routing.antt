-- ===== src/Escalation/Routing.antt =====
-- internal/escalation/engine.go: the jobs of `notifyStep` and their channels.
use yip_yap_foss.Prelude.{String, true, ◌≡◌, Option, none, some, List, ◌∷◌, ◌++◌, All, ◌⊎◌}
use yip_yap_foss.Domain.Alert.{Alert}
use yip_yap_foss.Domain.Monitor.{Monitor}
use yip_yap_foss.Domain.Escalation.{EscalationStep, StepTarget}
use yip_yap_foss.Domain.Notification.{NotificationChannel}
use yip_yap_foss.Escalation.World.{Env, World, Sent}

module _ (env : Env) (a : Alert) (m : Monitor) (s : EscalationStep) where
  -- The target is one of the step's.
  abbrev pub IsTarget : StepTarget → Type 0
  IsTarget t =
      (front : List StepTarget) × (back : List StepTarget) × (env.get_targets s.id
        ≡ some (front ++ (t ∷ back)))

  -- The channel is that of a target of the step, is the monitor's org's and is enabled.
  abbrev pub IsAllowed : NotificationChannel → Type 0
  IsAllowed ch =
      (t : StepTarget) × IsTarget t
      × (env.get_channel t.channel_id ≡ some ch)
      × (ch.org_id ≡ m.org_id)
      × (ch.enabled ≡ true)

  -- The channel's own configuration in base64: as it is after the byte 0, or encrypted after the byte 1.
  abbrev pub IsPacked : NotificationChannel → String → Type 0
  IsPacked ch config =
      ((env.envelope ≡ none) × (config ≡ env.base64 0 ch.config))
      ⊎ ((encrypt : String → Option String) × (enc : String) × (env.envelope ≡ some encrypt)
          × (encrypt ch.config ≡ some enc)
          × (config ≡ env.base64 1 enc))

  -- A notification of this alert, for its org, with its severity and the monitor's name, over an allowed
  -- channel and with that channel's configuration, deduplicated by alert, step and user.
  abbrev pub IsProper : Sent → Type 0
  IsProper n =
      (n.job.alert_id ≡ a.id)
      × (n.job.org_id ≡ a.org_id)
      × (n.job.severity ≡ a.severity)
      × (n.job.monitor_name ≡ m.name)
      × ((ch : NotificationChannel) × IsAllowed ch
          × (n.job.channel ≡ ch.type)
          × IsPacked ch n.job.target_config)
      × ((user : String) × (n.job.dedupe_key ≡ env.format_dedupe_key a.id s.id user))

  -- The log of notifications grew by proper ones.
  abbrev pub Adds : World → World → Type 0
  Adds w w' = (new : List Sent) × (w'.sent ≡ new ++ w.sent) × All IsProper new
