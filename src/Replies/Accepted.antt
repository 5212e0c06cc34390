-- ===== src/Replies/Accepted.antt =====
-- internal/cloudevents/reply/handlers: what a handler that returns no error has passed.
use yip_yap_foss.Prelude.{
  Bool, ◌≡◌, arith, inl, inr, String, none, some, List, Option-cases, Bool-cases, All,
}
use yip_yap_foss.Domain.Alert.{Alert}
use yip_yap_foss.Store.Alerts.{get_by_id}
use yip_yap_foss.Reply.Dispatcher.{Handled}
use yip_yap_foss.Replies.Model.{Db, Env}
use yip_yap_foss.Replies.Common.{
  Result, warn_and_reject, first_failure, guarded, foreign, read_alert, load_and_verify,
}
use yip_yap_foss.Replies.Rules.{Passed, first_failure-Passed}

module _ (env : Env) (call : Handled) (db db' : Db) where
  abbrev Accepts : Result → Type 0
  Accepts r = r ≡ (none, db')

  refused-Accepts : (reason : String) → Accepts (warn_and_reject env call reason db) → ⊥
  unfolding warn_and_reject
  refused-Accepts reason e = ground (arith, e)

  pub guarded-Accepts :
      (cs : List (Bool × String)) (rest : Db → Result)
      → Accepts (guarded env call cs rest db)
      → All Passed cs × Accepts (rest db)
  unfolding guarded
  guarded-Accepts cs rest e = elim (Option-cases (first_failure cs)) [
    | inl ok ↦ (first_failure-Passed cs ok, ground (arith, ok, e))
    | inr (reason, bad) ↦ absurd (refused-Accepts reason (ground (arith, bad, e)))
  ]

  pub load_and_verify-Accepts :
      (i : String) (rest : Alert → Db → Result)
      → Accepts (load_and_verify env call i rest db)
      → (a : Alert) × (get_by_id i db.alerts ≡ some a) × Accepts (rest a db)
  unfolding load_and_verify
  load_and_verify-Accepts i rest e = elim (Option-cases (read_alert env i db)) [
    | inl missing ↦ absurd (impossible missing)
    | inr (a, found) ↦ elim (Bool-cases (foreign call a.org_id)) [
      | inl alien ↦ absurd (refused-Accepts "cross_org_alert" (ground (arith, found, alien, e)))
      | inr own ↦ (a, ground (arith, found), ground (arith, found, own, e))
    ]
  ]
    where
      impossible : read_alert env i db ≡ none → ⊥
      impossible missing = ground (arith, missing, e)
