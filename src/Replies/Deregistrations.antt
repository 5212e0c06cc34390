-- ===== src/Replies/Deregistrations.antt =====
-- internal/cloudevents/reply/handlers/monitor_deregister.go against the rules for its parts.
use yip_yap_foss.Prelude.{
  Bool, true, false, not, ◌||◌, ◌≡◌, refl, ap, arith, inl, inr, String, str_eq, is_blank, Option,
  none, some, List, [], ◌∷◌, keep, Bool-cases, Option-cases, if_rule, if◌then◌else◌,
}
use text.Mathlib.TextEquality.{eq_iff}
use yip_yap_foss.Domain.Monitor.{Monitor}
use yip_yap_foss.Reply.Dispatcher.{Handled}
use yip_yap_foss.Replies.Model.{Db, Env}
use yip_yap_foss.Replies.Common.{
  Result, foreign, get_monitor, write_audit, guarded, decoded, first_failure, warn_and_reject,
  accept, fail_write,
}
use yip_yap_foss.Replies.Elevated.{
  DeregisterData, monitor_deregister_checks, disable_rows, deregister, handle_monitor_deregister,
}
use yip_yap_foss.Replies.Rules.{
  outside, Proper, warn_and_reject-Proper, fail_write-Proper, guarded-Proper, decoded-Proper,
  accept-Proper,
}

others-disable_rows :
    (i org : String) (ms : List Monitor) (m : Monitor)
    → get_monitor i ms ≡ some m
    → m.org_id ≡ org
    → keep (λ (n : Monitor). not (str_eq n.org_id org)) (disable_rows i ms)
      ≡ keep (λ (n : Monitor). not (str_eq n.org_id org)) ms
unfolding get_monitor disable_rows
others-disable_rows i org [] m e same = cc
others-disable_rows i org (n ∷ ms) m e same = ground (
  arith,
  eq_iff n.org_id org,
  λ (h : get_monitor i ms ≡ some m). others-disable_rows i org ms m h same,
)

-- A monitor of the entry's org, and both flags of the channel.
abbrev pub OwnMonitor : Env → Handled → Db → Type 0
OwnMonitor env call db =
    (i : String) × (m : Monitor) × (get_monitor i db.monitors ≡ some m)
    × (m.org_id ≡ call.entry.org_id)
    × (env.config.trust_elevated ≡ true)
    × (env.config.allow_deregister ≡ true)

module _ (env : Env) (call : Handled) (named : is_blank call.entry.org_id ≡ false) (db : Db) where
  abbrev IsProper : Result → Type 0
  IsProper r = Proper env.audit_ok (OwnMonitor env call db) call db r

  own_org : (org : String) → foreign call org ≡ false → org ≡ call.entry.org_id
  own_org org own = ground (arith, eq_iff org call.entry.org_id)

  disabled-Proper :
      (i : String) (m : Monitor)
      → get_monitor i db.monitors ≡ some m
      → foreign call m.org_id ≡ false
      → (env.config.trust_elevated ≡ true) × (env.config.allow_deregister ≡ true)
      → Proper env.audit_ok (OwnMonitor env call db) call db (deregister env call i db)
  unfolding deregister
  disabled-Proper i m found own flags =
      let same = own_org m.org_id own in
      elim (Bool-cases env.read_ok) [
        | inl reads ↦
            rw (reads, deregister, found, own)
              (if_rule IsProper env.update_ok
                (accept-Proper env call _ db _ (i, m, found, same, flags.0, flags.1) refl
                  (ap
                    (λ ms. record (outside call.entry.alert_id call.entry.org_id db) {
                      monitors = ms;
                    })
                    (others-disable_rows i call.entry.org_id db.monitors m found same)))
                (fail_write-Proper env call _ db "disable"))
        | inr fails ↦
            rw (fails, deregister) (warn_and_reject-Proper env call _ db "unknown_monitor")
      ]

  deregister-Proper :
      (i : String)
      → (env.config.trust_elevated ≡ true) × (env.config.allow_deregister ≡ true)
      → IsProper (deregister env call i db)
  unfolding deregister
  deregister-Proper i flags = elim (Option-cases (get_monitor i db.monitors)) [
    | inl missing ↦ elim (Bool-cases env.read_ok) [
      | inl reads ↦
          rw (reads, deregister, missing) (warn_and_reject-Proper env call _ db "unknown_monitor")
      | inr fails ↦ rw (fails, deregister) (warn_and_reject-Proper env call _ db "unknown_monitor")
    ]
    | inr (m, found) ↦ elim (Bool-cases (foreign call m.org_id)) [
      | inl alien ↦ elim (Bool-cases env.read_ok) [
        | inl reads ↦
            rw (reads, deregister, found, alien)
              (warn_and_reject-Proper env call _ db "cross_org_monitor")
        | inr fails ↦
            rw (fails, deregister) (warn_and_reject-Proper env call _ db "unknown_monitor")
      ]
      | inr own ↦ disabled-Proper i m found own flags
    ]
  ]

  pub handle_monitor_deregister-Proper :
      (payload : Option DeregisterData) → IsProper (handle_monitor_deregister env call payload db)
  unfolding handle_monitor_deregister
  handle_monitor_deregister-Proper payload =
      guarded-Proper env call _ db
        ((not env.config.trust_elevated || not env.config.allow_deregister, "trust_flag_required")
          ∷ [])
        _
        (λ trusted. decoded-Proper env call _ db payload _ (λ fields.
          guarded-Proper env call _ db (monitor_deregister_checks call fields) _ (λ _.
            deregister-Proper fields.monitor_id
              (both env.config.trust_elevated env.config.allow_deregister trusted.0))))
    where
      both : (a b : Bool) → (not a || not b) ≡ false → (a ≡ true) × (b ≡ true)
      both a b h = ground arith

-- A deregistration leaves the alerts alone.
module _ (env : Env) (call : Handled) (db : Db) where
  guarded-alerts :
      (cs : List (Bool × String)) (rest : Db → Result)
      → (rest db).1.alerts ≡ db.alerts
      → (guarded env call cs rest db).1.alerts ≡ db.alerts
  unfolding guarded warn_and_reject write_audit
  guarded-alerts cs rest h = elim (Option-cases (first_failure cs)) [
    | inl ok ↦ rw (ok, guarded) h
    | inr (reason, bad) ↦ rw (bad, guarded) refl
  ]

  deregister-alerts : (i : String) → (deregister env call i db).1.alerts ≡ db.alerts
  unfolding deregister warn_and_reject accept fail_write write_audit
  deregister-alerts i =
      elim (Option-cases (if env.read_ok then get_monitor i db.monitors else none)) [
        | inl missing ↦ rw (missing, deregister) refl
        | inr (m, found) ↦
            rw (found, deregister)
              (if_rule (λ (r : Result). r.1.alerts ≡ db.alerts) (foreign call m.org_id) refl
                (if_rule (λ (r : Result). r.1.alerts ≡ db.alerts) env.update_ok refl refl))
      ]

  pub handle_monitor_deregister-alerts :
      (payload : Option DeregisterData)
      → (handle_monitor_deregister env call payload db).1.alerts ≡ db.alerts
  unfolding handle_monitor_deregister decoded warn_and_reject write_audit
  handle_monitor_deregister-alerts none = guarded-alerts _ _ refl
  handle_monitor_deregister-alerts (some fields) =
      guarded-alerts _ _ (guarded-alerts _ _ (deregister-alerts fields.monitor_id))
