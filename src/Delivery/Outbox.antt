-- ===== src/Delivery/Outbox.antt =====
-- internal/notify/dispatcher.go: the handler of requests that Start subscribes, and a poll of the outbox. What the outbox is
-- told is a log.
use yip_yap_foss.Prelude.{
  Bool, not, ◌&&◌, String, is_blank, Option, none, some, List, [], ◌∷◌, if◌then◌else◌,
}
use yip_yap_foss.Domain.Notification.{NotificationJob}
use yip_yap_foss.Delivery.Dispatch.{World, Env, dispatch}

-- `msg.Ack()`, or the error that has the message delivered again.
pub data Acknowledgement : Type 0 where
  acked nak : Acknowledgement

pub data OutboxCall : Type 0 where
  completed failed : String → OutboxCall

-- The handler of a request: the payload is `none` if it does not decode.
unfoldable pub receive :
    Env → Bool → Option NotificationJob → World → Acknowledgement × List OutboxCall × World
unfolding dispatch
receive env has_outbox none w = (acked, [], w)
receive env has_outbox (some job) w =
    let (error, w') = dispatch env job w in
    elim error [
      | some _ ↦ (nak, [], w')
      | none ↦
          (acked, (if has_outbox && not (is_blank job.id) then completed job.id ∷ [] else []), w')
    ]

-- A job that the poll claimed: its id and its payload.
pub record OutboxJob : Type 0 where
  pub id : String
  pub payload : Option NotificationJob

-- One round of the loop of `processOutbox`.
unfoldable pub process_one : Env → OutboxJob → World → OutboxCall × World
unfolding dispatch
process_one env oj w = elim oj.payload [
  | none ↦ (failed oj.id, w)
  | some job ↦
      let (error, w') = dispatch env job w in
      (elim error [ some _ ↦ failed oj.id | none ↦ completed oj.id ], w')
]

-- The loop of `processOutbox`, over the jobs that `Claim` returns.
unfoldable pub process_outbox : Env → List OutboxJob → World → List OutboxCall × World
unfolding process_one
process_outbox env [] w = ([], w)
process_outbox env (oj ∷ jobs) w =
    let (call, w') = process_one env oj w in
    let (calls, w'') = process_outbox env jobs w' in (call ∷ calls, w'')
