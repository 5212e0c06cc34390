-- ===== src/Replies/Completion.antt =====
-- internal/cloudevents/reply/handlers/remediation_result.go against `Complete` of internal/store/sqlite/phase5_reply.go:
-- two results for one remediation.
use yip_yap_foss.Prelude.{
  ℕ, true, false, ◌≡◌, refl, ◌∙◌, ap, arith, inl, inr, String, none, some, List, [], ◌∷◌, any,
  Bool-cases, Option-cases, if◌then◌else◌,
}
use yip_yap_foss.Reply.Dispatcher.{Handled}
use yip_yap_foss.Replies.Model.{remediation_result, Db, Env, AlertRemediation, RemediationStatus}
use yip_yap_foss.Replies.Common.{warn_and_reject, accept, fail_write, annotate, write_audit}
use yip_yap_foss.Replies.Remediations.{
  is_remediation, is_in_progress, get_remediation, in_progress_for, complete_rows, complete,
  RemediationResultData, resolve_if_up, finish_remediation,
}

none_left :
    (now : ℕ) (key : String) (status : RemediationStatus) (message url : String)
    (rs : List AlertRemediation)
    → is_in_progress status ≡ false
    → any (in_progress_for key) (complete_rows now key status message url rs) ≡ false
unfolding complete_rows
none_left now key status message url [] h = refl
none_left now key status message url (r ∷ rs) h =
    ground (arith, none_left now key status message url rs h)

still_there :
    (now : ℕ) (key : String) (status : RemediationStatus) (message url : String)
    (rs : List AlertRemediation)
    → any (in_progress_for key) rs ≡ true
    → (r : AlertRemediation) × (get_remediation key (complete_rows now key status message url rs)
        ≡ some r)
unfolding complete_rows get_remediation
still_there now key status message url [] h = absurd (impossible h)
  where
    impossible : false ≡ true → ⊥
    impossible e = cc
still_there now key status message url (r ∷ rs) h = elim (Bool-cases (in_progress_for key r)) [
  | inl hit ↦ (
    record r { status = status; message = message; artifact_url = url; completed_at = some now },
    ground arith,
  )
  | inr miss ↦
      let (found, is) = still_there now key status message url rs (ground arith) in
      elim (Bool-cases (is_remediation key r)) [
        | inl same ↦ (r, ground arith)
        | inr other ↦ (found, ground (arith, is))
      ]
]

module _ (env : Env) (status : RemediationStatus) (fields : RemediationResultData) (db : Db) where
  complete_eq :
      (db' : Db)
      → (complete env status fields db).0 ≡ some db'
      → (any (in_progress_for fields.remediation_id) db.remediations ≡ true)
        × (db'.remediations
            ≡ complete_rows env.now fields.remediation_id status fields.message fields.artifact_url
                db.remediations)
  unfolding complete
  complete_eq db' e = (
    ground (
      arith,
      Option-cases
          (if env.recheck_ok then get_remediation fields.remediation_id db.remediations else none),
    ),
    ground (
      arith,
      Option-cases
          (if env.recheck_ok then get_remediation fields.remediation_id db.remediations else none),
    ),
  )

  complete-lost :
      (r : AlertRemediation)
      → env.update_ok ≡ true
      → any (in_progress_for fields.remediation_id) db.remediations ≡ false
      → get_remediation fields.remediation_id db.remediations ≡ some r
      → complete env status fields db ≡ (none, env.recheck_ok)
  unfolding complete
  complete-lost r writes gone there = elim (Bool-cases env.recheck_ok) [
    | inl ok ↦ ground (arith, ok)
    | inr failed ↦ ground (arith, failed)
  ]

resolve_if_up-remediations :
    (env : Env) (i : String) (status : RemediationStatus) (db : Db)
    → (resolve_if_up env i status db).remediations ≡ db.remediations
unfolding resolve_if_up
resolve_if_up-remediations env i status db = ground arith

accepted-remediations :
    (env : Env) (call : Handled) (i : String) (status : RemediationStatus)
    (fields : RemediationResultData) (db db' : Db)
    → finish_remediation env call i status fields db ≡ (none, db')
    → (completed : Db) × ((complete env status fields db).0 ≡ some completed)
      × (db'.remediations ≡ completed.remediations)
unfolding finish_remediation warn_and_reject fail_write accept annotate write_audit
accepted-remediations env call i status fields db db' e =
    elim (Option-cases (complete env status fields db).0) [
      | inl fails ↦ absurd (impossible fails)
      | inr (completed, wrote) ↦ (
        completed,
        wrote,
        ground (arith, wrote, resolve_if_up-remediations env i status completed),
      )
    ]
  where
    impossible : (complete env status fields db).0 ≡ none → ⊥
    impossible fails = ground (arith, fails)

-- Two results for one remediation, whose lookups may both have found it in progress: once the first is accepted, a
-- second that can write changes nothing but the audit, whatever it reports: it is rejected as complete already, or as a
-- write that failed if the read that tells why no row was updated fails.
pub second_result_rejected :
    (env env' : Env) (call call' : Handled) (i i' : String) (status status' : RemediationStatus)
    (fields fields' : RemediationResultData) (db db' : Db)
    → is_in_progress status ≡ false
    → fields'.remediation_id ≡ fields.remediation_id
    → env'.update_ok ≡ true
    → finish_remediation env call i status fields db ≡ (none, db')
    → finish_remediation env' call' i' status' fields' db' ≡ (
        if env'.recheck_ok
        then warn_and_reject env' call' "remediation_already_completed" db'
        else fail_write env' call' "complete_remediation" db')
unfolding finish_remediation
second_result_rejected env env' call call' i i' status status' fields fields' db db' ends same
      writes first =
    let (completed, wrote, kept) = accepted-remediations env call i status fields db db' first in
    let (there, rows) = complete_eq env status fields db completed wrote in
    let now_rows = kept ∙ rows in
    let key = fields.remediation_id in
    let (r, found) =
      still_there env.now key status fields.message fields.artifact_url db.remediations there in
    let gone =
      none_left env.now key status fields.message fields.artifact_url db.remediations ends in
    let lost : complete env' status' fields' db' ≡ (none, env'.recheck_ok) =
      complete-lost env' status' fields' db' r writes (rw (same, now_rows) gone)
        (rw (same, now_rows) found) in
    ap
      (λ o. elim o.0 [
        | some done ↦ accept env' call' (
            annotate env' i' remediation_result none (some call'.sub)
              (resolve_if_up env' i' status' done))
        | none ↦
            if o.1
            then warn_and_reject env' call' "remediation_already_completed" db'
            else fail_write env' call' "complete_remediation" db'
      ])
      lost
