-- ===== src/Replies/Repairs.antt =====
-- internal/cloudevents/reply/handlers: the handlers of remediations, against the rules for their parts.
use yip_yap_foss.Prelude.{
  ℕ, true, false, not, ◌≡◌, refl, sym, ◌∙◌, ap, arith, inl, inr, String, str_eq, Option, none, some,
  List, [], ◌∷◌, keep, any, Bool-cases, Option-cases, str_eq_refl, eq_of_str_eq, if◌then◌else◌,
  if_rule, All, subst,
}
use text.Mathlib.TextEquality.{eq_iff}
use yip_yap_foss.Domain.Alert.{Alert, resolved}
use yip_yap_foss.Store.Alerts.{get_by_id, update}
use yip_yap_foss.Escalation.Created.{get_by_id-key}
use yip_yap_foss.Reply.Dispatcher.{Handled}
use yip_yap_foss.Replies.Model.{Db, Env, AlertRemediation, RemediationStatus}
use yip_yap_foss.Replies.Common.{Result, load_and_verify}
use yip_yap_foss.Replies.Remediations.{
  is_remediation, is_in_progress, get_remediation, create_remediation, RemediationStartedData,
  remediation_started_checks, started_row, start_remediation, handle_remediation_started,
  RemediationResultData, remediation_result_checks, remediation_outcome, complete_rows, complete,
  best_effort, resolve_if_up, finish_remediation, verify_remediation, check_outcome,
  handle_remediation_result,
}
use yip_yap_foss.Replies.Rules.{
  outside, Proper, OwnAlert, effective_alert_id-scoped, warn_and_reject-Proper, fail_write-Proper,
  guarded-Proper, decoded-Proper, load_and_verify-Proper, accept-Proper,
}
use yip_yap_foss.Replies.Annotated.{annotate-audits, annotate-outside}
use yip_yap_foss.Replies.Writes.{Still}
use yip_yap_foss.Replies.Escalations.{update-Still}

create_remediation-Still :
    (org : String) (r : AlertRemediation) (db db' : Db)
    → create_remediation r db ≡ some db'
    → Still r.alert_id org db db'
unfolding create_remediation
create_remediation-Still org r db db' e = elim (Option-cases (get_by_id r.alert_id db.alerts)) [
  | inl missing ↦ absurd (gone missing)
  | inr (a, found) ↦
      let same : db'
          ≡ record db { remediations = record r { org_id = a.org_id } ∷ db.remediations } =
        ground arith in
      rw same (refl, rw (str_eq_refl r.alert_id) refl)
]
  where
    gone : get_by_id r.alert_id db.alerts ≡ none → ⊥
    gone missing = ground arith

-- The rows that carry the key are the alert's.
abbrev IsOf : String → String → AlertRemediation → Type 0
IsOf key i r = is_remediation key r ≡ true → r.alert_id ≡ i

others-complete_rows :
    (now : ℕ) (key i : String) (status : RemediationStatus) (message url : String)
    (rs : List AlertRemediation)
    → All (IsOf key i) rs
    → keep
        (λ (r : AlertRemediation). not (str_eq r.alert_id i))
        (complete_rows now key status message url rs)
      ≡ keep (λ (r : AlertRemediation). not (str_eq r.alert_id i)) rs
unfolding complete_rows
others-complete_rows now key i status message url [] h = refl
others-complete_rows now key i status message url (r ∷ rs) h =
    ground
      (arith, others-complete_rows now key i status message url rs h.1, h.0, eq_iff r.alert_id i)

-- The primary key of the table of remediations.
abbrev pub HasKeys : List AlertRemediation → Type 0
HasKeys [] = Unit
HasKeys (r ∷ rs) = (any (is_remediation r.remediation_id) rs ≡ false) × HasKeys rs

no_row :
    (key i : String) (rs : List AlertRemediation)
    → any (is_remediation key) rs ≡ false
    → All (IsOf key i) rs
no_row key i [] h = tt
no_row key i (r ∷ rs) h = (λ is. absurd (clash is), no_row key i rs (ground arith))
  where
    clash : is_remediation key r ≡ true → ⊥
    clash is = ground arith

get_remediation-IsOf :
    (key : String) (rs : List AlertRemediation) (r : AlertRemediation)
    → HasKeys rs
    → get_remediation key rs ≡ some r
    → All (IsOf key r.alert_id) rs
unfolding get_remediation
get_remediation-IsOf key [] r k e = tt
get_remediation-IsOf key (s ∷ rs) r k e = elim (Bool-cases (is_remediation key s)) [
  | inl hit ↦
      let same : s ≡ r = ground arith in
      let is : s.remediation_id ≡ key = eq_of_str_eq s.remediation_id key hit in
      (
        λ _. ap (λ (t : AlertRemediation). t.alert_id) same,
        no_row key r.alert_id rs (rw (sym is) k.0),
      )
  | inr miss ↦ (λ hit. absurd (clash hit miss), get_remediation-IsOf key rs r k.1 (ground arith))
]
  where
    clash : is_remediation key s ≡ true → is_remediation key s ≡ false → ⊥
    clash hit miss = ground arith

best_effort-Still :
    (i org : String) (a : Alert) (db : Db)
    → a.id ≡ i
    → Still i org db (best_effort (update a db.alerts) db)
best_effort-Still i org a db key = elim (Option-cases (update a db.alerts)) [
  | inl fails ↦ rw fails (refl, refl)
  | inr (rows, wrote) ↦ rw wrote (update-Still i org a db rows key wrote)
]

resolve_if_up-Still :
    (env : Env) (i org : String) (status : RemediationStatus) (db : Db)
    → Still i org db (resolve_if_up env i status db)
unfolding resolve_if_up
resolve_if_up-Still env i org status db =
    elim (Option-cases (if env.reread_ok then get_by_id i db.alerts else none)) [
      | inl missing ↦ rw (missing, resolve_if_up) (refl, refl)
      | inr (a, found) ↦
          let key : a.id ≡ i = get_by_id-key i db.alerts a (ground arith) in
          rw (found, resolve_if_up)
            (if_rule (Still i org db) _
              (best_effort-Still i org (record a { status = resolved; resolved_at = some env.now })
                db key)
              (refl, refl))
    ]

module _ (env : Env) (call : Handled) (db : Db) where
  abbrev IsProper : Result → Type 0
  IsProper r = Proper env.audit_ok (OwnAlert call db) call db r

  start_remediation-Proper :
      (fields : RemediationStartedData)
      → OwnAlert call db
      → IsProper (start_remediation env call call.entry.alert_id fields db)
  unfolding start_remediation
  start_remediation-Proper fields own =
      let row : AlertRemediation = started_row env call call.entry.alert_id fields in
      elim (Option-cases (if env.insert_ok then create_remediation row db else none)) [
        | inl fails ↦
            rw (fails, start_remediation) (fail_write-Proper env call _ db "create_remediation")
        | inr (db', wrote) ↦
            let still : Still call.entry.alert_id call.entry.org_id db db' =
              unfold started_row in
              create_remediation-Still call.entry.org_id row db db' (ground arith) in
            rw (wrote, start_remediation)
              (accept-Proper env call _ db _ own (annotate-audits env _ _ _ _ _ ∙ still.0)
                (annotate-outside env call.entry.alert_id call.entry.org_id _ _ _ _ ∙ still.1))
      ]

  pub handle_remediation_started-Proper :
      (payload : Option RemediationStartedData)
      → IsProper (handle_remediation_started env call payload db)
  unfolding handle_remediation_started
  handle_remediation_started-Proper payload = decoded-Proper env call _ db payload _ (λ fields.
      guarded-Proper env call _ db (remediation_started_checks call fields) _ (λ passed.
        rw (effective_alert_id-scoped call.entry.alert_id fields.alert_id passed.1.1.0) (
          load_and_verify-Proper env call _ db call.entry.alert_id _
            (λ a there own. start_remediation-Proper fields (a, there, own)))))

  module _ (keys : HasKeys db.remediations) (status : RemediationStatus)
      (fields : RemediationResultData) where
    complete-Still :
        (r : AlertRemediation) (db' : Db)
        → get_remediation fields.remediation_id db.remediations ≡ some r
        → r.alert_id ≡ call.entry.alert_id
        → (complete env status fields db).0 ≡ some db'
        → Still call.entry.alert_id call.entry.org_id db db'
    unfolding complete
    complete-Still r db' found same e =
        let rows =
          complete_rows env.now fields.remediation_id status fields.message fields.artifact_url
            db.remediations in
        let is : db' ≡ record db { remediations = rows } = ground (arith, found) in
        let others =
          others-complete_rows env.now fields.remediation_id r.alert_id status fields.message
            fields.artifact_url db.remediations
            (get_remediation-IsOf fields.remediation_id db.remediations r keys found) in
        rw is (
          refl,
          ap (λ rs. record (outside call.entry.alert_id call.entry.org_id db) { remediations = rs })
              (subst
                (λ i.
                  keep (λ (s : AlertRemediation). not (str_eq s.alert_id i)) rows
                  ≡ keep (λ (s : AlertRemediation). not (str_eq s.alert_id i)) db.remediations)
                same others),
        )

    finish_remediation-Proper :
        (r : AlertRemediation)
        → get_remediation fields.remediation_id db.remediations ≡ some r
        → r.alert_id ≡ call.entry.alert_id
        → OwnAlert call db
        → IsProper (finish_remediation env call call.entry.alert_id status fields db)
    unfolding finish_remediation
    finish_remediation-Proper r found same own =
        elim (Option-cases (complete env status fields db).0) [
          | inl fails ↦
              rw (finish_remediation, fails)
                (if_rule IsProper _
                  (warn_and_reject-Proper env call _ db "remediation_already_completed")
                  (fail_write-Proper env call _ db "complete_remediation"))
          | inr (db', wrote) ↦
              let still = complete-Still r db' found same wrote in
              let after =
                resolve_if_up-Still env call.entry.alert_id call.entry.org_id status db' in
              rw (finish_remediation, wrote)
                (accept-Proper env call _ db _ own
                  (annotate-audits env _ _ _ _ _ ∙ after.0 ∙ still.0)
                  (annotate-outside env call.entry.alert_id call.entry.org_id _ _ _ _
                    ∙ after.1
                    ∙ still.1))
        ]

  module _ (keys : HasKeys db.remediations) where
    verify_remediation-Proper :
        (status : RemediationStatus) (fields : RemediationResultData)
        → IsProper (verify_remediation env call status fields db)
    unfolding verify_remediation
    verify_remediation-Proper status fields =
        elim (Option-cases
          (if env.read_ok then get_remediation fields.remediation_id db.remediations else none)) [
            | inl missing ↦
                rw (missing, verify_remediation)
                  (warn_and_reject-Proper env call _ db "unknown_remediation")
            | inr (r, read) ↦
                rw (read, verify_remediation)
                  (guarded-Proper env call _ db
                    ((not (is_in_progress r.status), "remediation_already_completed")
                      ∷ (not (str_eq r.alert_id call.entry.alert_id), "remediation_alert_mismatch")
                      ∷ [])
                    _
                    (λ passed.
                      let same : r.alert_id ≡ call.entry.alert_id =
                        ground (arith, eq_iff r.alert_id call.entry.alert_id, passed.1.0) in
                      subst
                        (λ i. IsProper (
                          load_and_verify env call i
                            (λ _. finish_remediation env call i status fields) db))
                        (sym same)
                        (load_and_verify-Proper env call _ db call.entry.alert_id _ (λ a there own.
                          finish_remediation-Proper keys status fields r (ground (arith, read)) same
                            (a, there, own)))))
          ]

    check_outcome-Proper :
        (fields : RemediationResultData) → IsProper (check_outcome env call fields db)
    unfolding check_outcome
    check_outcome-Proper fields = elim (Option-cases (remediation_outcome fields.outcome)) [
      | inl bad ↦ rw (bad, check_outcome) (warn_and_reject-Proper env call _ db "invalid_outcome")
      | inr (status, ok) ↦
          rw (ok, check_outcome)
            (guarded-Proper env call _ db _ _ (λ _. verify_remediation-Proper status fields))
    ]

    pub handle_remediation_result-Proper :
        (payload : Option RemediationResultData)
        → IsProper (handle_remediation_result env call payload db)
    unfolding handle_remediation_result
    handle_remediation_result-Proper payload = decoded-Proper env call _ db payload _ (λ fields.
        guarded-Proper env call _ db (remediation_result_checks call fields) _
          (λ passed. check_outcome-Proper fields))
