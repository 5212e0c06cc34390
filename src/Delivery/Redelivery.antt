-- ===== src/Delivery/Redelivery.antt =====
-- internal/notify/dispatcher.go: a request that is delivered again after an error.
use yip_yap_foss.Prelude.{
  ◌+◌, ◌<◌, Bool, false, ◌≡◌, refl, ◌∙◌, ap, arith, inl, inr, is_blank, Option, none, some, ◌∷◌,
  Bool-cases, Option-cases,
}
use yip_yap_foss.Domain.Notification.{NotificationJob}
use yip_yap_foss.Delivery.Dispatch.{
  World, Env, DispatchError, dedupe_ttl, expiry_of, is_fresh, forget, mark_in_memory, dispatch,
}
use yip_yap_foss.Delivery.Duplicates.{IsSeen, route-Once, mark_seen-memory, marked, dispatch-seen}
use yip_yap_foss.Delivery.Outbox.{acked, nak, receive}

-- A job that is not routed leaves its key marked.
failed-IsSeen :
    (env : Env) (job : NotificationJob) (w : World) (error : DispatchError)
    → env.dedup ≡ none
    → is_blank job.dedupe_key ≡ false
    → (dispatch env job w).0 ≡ some error
    → IsSeen job.dedupe_key (env.now + dedupe_ttl) (dispatch env job w).1
unfolding dispatch mark_in_memory
failed-IsSeen env job w error off named e =
    elim (Bool-cases (is_fresh env.now (expiry_of job.dedupe_key w.seen))) [
      | inl known ↦ ground (arith, e, named, mark_seen-memory env job.dedupe_key w off, known)
      | inr new ↦
          rw (named, mark_seen-memory env job.dedupe_key w off, new)
            (route-Once job job.dedupe_key (env.now + dedupe_ttl)
              (record w {
                seen = (job.dedupe_key, env.now + dedupe_ttl) ∷ forget job.dedupe_key w.seen;
              })
              (marked env job.dedupe_key w)).0
    ]

nak-failed :
    (env : Env) (has_outbox : Bool) (job : NotificationJob) (w : World)
    → (receive env has_outbox (some job) w).0 ≡ nak
    → (error : DispatchError) × ((dispatch env job w).0 ≡ some error)
      × ((receive env has_outbox (some job) w).2 ≡ (dispatch env job w).1)
unfolding receive
nak-failed env has_outbox job w e = elim (Option-cases (dispatch env job w).0) [
  | inl done ↦ ground (arith, done, e)
  | inr (error, is) ↦ (error, is, ground (arith, is))
]

-- With no store of claims: when a request cannot be routed, for want of a provider, and is delivered again within five minutes,
-- the second delivery is acknowledged and submits nothing, even if the provider has been registered in the meantime: its
-- key was marked as seen before it was routed.
pub redelivery_lost :
    (env env' : Env) (has_outbox : Bool) (job : NotificationJob) (w w' : World)
    → env.dedup ≡ none
    → env'.dedup ≡ none
    → is_blank job.dedupe_key ≡ false
    → (receive env has_outbox (some job) w).0 ≡ nak
    → w'.seen ≡ (receive env has_outbox (some job) w).2.seen
    → env'.now < env.now + dedupe_ttl
    → ((receive env' has_outbox (some job) w').0 ≡ acked)
      × ((receive env' has_outbox (some job) w').2 ≡ w')
unfolding receive
redelivery_lost env env' has_outbox job w w' off off' named first later soon =
    let (error, is, left) = nak-failed env has_outbox job w first in
    let seen : IsSeen job.dedupe_key (env.now + dedupe_ttl) w' =
      ap (expiry_of job.dedupe_key) (later ∙ ap (λ (v : World). v.seen) left)
      ∙ failed-IsSeen env job w error off named is in
    let dropped = dispatch-seen env' job (env.now + dedupe_ttl) w' off' named seen soon in
    rw (receive, dropped) (refl, ap (λ (o : Option DispatchError × World). o.1) dropped)
