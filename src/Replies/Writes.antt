-- ===== src/Replies/Writes.antt =====
-- internal/store/sqlite/alerts_phase5.go: the writes of an alert, as the rows of other alerts see them.
use yip_yap_foss.Prelude.{
  ℕ, Bool, false, not, ◌≡◌, refl, ◌∙◌, arith, inl, inr, String, Option, none, some, List, [], ◌∷◌,
  keep, Bool-cases, Option-cases, str_eq_refl, if_rule,
}
use yip_yap_foss.Domain.Alert.{Alert}
use yip_yap_foss.Store.Alerts.{has_id, get_by_id}
use yip_yap_foss.Replies.Model.{ReplyEventType, Mark, Db, Env}
use yip_yap_foss.Replies.Common.{timeline, set_mark}
use yip_yap_foss.Replies.Mutations.{
  with_event, when, mark_duplicate, set_owner, acknowledge_rows, acknowledge, store_ack,
}
use yip_yap_foss.Replies.Rules.{outside}

-- The audit and the outside are as before.
abbrev pub Still : String → String → Db → Db → Type 0
Still i org db db' = (db'.audits ≡ db.audits) × (outside i org db' ≡ outside i org db)

module _ (env : Env) (i org : String) (db : Db) where
  timeline-Still :
      (kind : ReplyEventType) (actor sub : Option String) (db' db'' : Db)
      → timeline env i kind actor sub db' ≡ some db''
      → Still i org db' db''
  timeline-Still kind actor sub db' db'' e = elim (Bool-cases env.event_ok) [
    | inl ok ↦
        let same : db'' ≡ record db' {
          events =
              record { alert_id = i; event_type = kind; actor = actor; sub = sub } ∷ db'.events;
        } =
          ground arith in
        rw same (refl, rw (str_eq_refl i) refl)
    | inr fails ↦ absurd (impossible fails)
  ]
    where
      impossible : env.event_ok ≡ false → ⊥
      impossible fails = ground arith

  with_event-Still :
      (kind : ReplyEventType) (actor : Option String) (o : Option Db)
      → ((db' : Db) → o ≡ some db' → Still i org db db')
      → Still i org db (with_event env i kind actor o db).1
  with_event-Still kind actor none h = (refl, refl)
  with_event-Still kind actor (some db') h =
      elim (Option-cases (timeline env i kind actor none db')) [
        | inl fails ↦ rw (fails, with_event) (h db' refl)
        | inr (db'', wrote) ↦
            let (a, o) = h db' refl in
            let (a', o') = timeline-Still kind actor none db' db'' wrote in
            rw (wrote, with_event) (a' ∙ a, o' ∙ o)
      ]

  set_mark-Still :
      (mark : Mark) (db' : Db)
      → when env.update_ok (set_mark i mark db) ≡ some db'
      → Still i org db db'
  unfolding set_mark
  set_mark-Still mark db' e =
      let same : db' ≡ record db { marks = (i, mark) ∷ db.marks } =
        ground (arith, Option-cases (get_by_id i db.alerts)) in
      rw same (refl, rw (str_eq_refl i) refl)

  pub mark_duplicate-Still : (primary : String) → Still i org db (mark_duplicate env i primary db).1
  unfolding mark_duplicate
  mark_duplicate-Still primary =
      if_rule (λ (o : Bool × Db). Still i org db o.1) _ (refl, refl)
        (with_event-Still _ _ _ (set_mark-Still _))

  pub set_owner-Still : (kind owner : String) → Still i org db (set_owner env i kind owner db).1
  unfolding set_owner
  set_owner-Still kind owner =
      if_rule (λ (o : Bool × Db). Still i org db o.1) _ (refl, refl)
        (with_event-Still _ _ _ (set_mark-Still _))

others-acknowledge_rows :
    (now : ℕ) (by i : String) (rows : List Alert)
    → keep (λ (a : Alert). not (has_id i a)) (acknowledge_rows now by i rows)
      ≡ keep (λ (a : Alert). not (has_id i a)) rows
unfolding acknowledge_rows
others-acknowledge_rows now by i [] = refl
others-acknowledge_rows now by i (a ∷ rows) = ground (arith, others-acknowledge_rows now by i rows)

acknowledge-Still :
    (env : Env) (i org : String) (db : Db) (mark : Mark) (by : String) (db' : Db)
    → when env.update_ok (acknowledge env i mark by db) ≡ some db'
    → Still i org db db'
unfolding acknowledge
acknowledge-Still env i org db mark by db' e =
    let same : db' ≡ record db {
      alerts = acknowledge_rows env.now by i db.alerts;
      marks = (i, mark) ∷ db.marks;
    } =
      ground (arith, Option-cases (get_by_id i db.alerts)) in
    rw same (refl, rw (str_eq_refl i, others-acknowledge_rows env.now by i db.alerts) refl)

pub store_ack-Still :
    (env : Env) (i org : String) (db : Db) (code reference by : String)
    → Still i org db (store_ack env i code reference by db).1
unfolding store_ack
store_ack-Still env i org db code reference by =
    if_rule (λ (o : Bool × Db). Still i org db o.1) _ (refl, refl)
      (with_event-Still env i org db _ _ _ (acknowledge-Still env i org db _ by))
