-- ===== src/Replies/Handling.antt =====
-- internal/cloudevents/reply/handlers/register.go: the handler of each reply type, and its call by the dispatcher.
use yip_yap_foss.Prelude.{String, str_eq, Option, none, some, List, [], ◌∷◌, if◌then◌else◌}
use yip_yap_foss.Reply.Registry.{Event}
use yip_yap_foss.Reply.Dispatcher.{Handled}
use yip_yap_foss.Replies.Model.{Db, Env}
use yip_yap_foss.Replies.Common.{Result}
use yip_yap_foss.Replies.Annotations.{
  ClaimedData, handle_claimed, EnrichedData, handle_enriched, LinkedData, handle_linked,
  StatusPageData, handle_status_page,
}
use yip_yap_foss.Replies.Mutations.{
  DeduplicatedData, handle_deduplicated, OwnershipData, handle_ownership, AckData,
  handle_ack_with_context, SuppressedData, handle_suppressed,
}
use yip_yap_foss.Replies.Elevated.{
  EscalatedData, handle_escalated, RouteData, handle_route, DeregisterData,
  handle_monitor_deregister,
}
use yip_yap_foss.Replies.Remediations.{
  RemediationStartedData, handle_remediation_started, RemediationResultData,
  handle_remediation_result,
}

-- `json.Unmarshal` of a payload into the type of each handler.
pub record Decoders : Type 0 where
  pub claimed : Event → Option ClaimedData
  pub enriched : Event → Option EnrichedData
  pub linked : Event → Option LinkedData
  pub suppressed : Event → Option SuppressedData
  pub deduplicated : Event → Option DeduplicatedData
  pub escalated : Event → Option EscalatedData
  pub remediation_started : Event → Option RemediationStartedData
  pub remediation_result : Event → Option RemediationResultData
  pub ownership : Event → Option OwnershipData
  pub ack_with_context : Event → Option AckData
  pub route : Event → Option RouteData
  pub status_page : Event → Option StatusPageData
  pub monitor_deregister : Event → Option DeregisterData

pub data ReplyKind : Type 0 where
  claimed enriched linked suppressed deduplicated escalated remediation_started remediation_result :
      ReplyKind
  ownership ack_with_context route status_page monitor_deregister : ReplyKind

-- The types that `RegisterAll` registers, in its order.
abbrev pub registered : List (String × ReplyKind)
registered =
    ("run.yipyap.reply.alert.claimed.v1", claimed)
    ∷ ("run.yipyap.reply.alert.enriched.v1", enriched)
    ∷ ("run.yipyap.reply.alert.linked.v1", linked)
    ∷ ("run.yipyap.reply.alert.suppressed.v1", suppressed)
    ∷ ("run.yipyap.reply.alert.deduplicated.v1", deduplicated)
    ∷ ("run.yipyap.reply.alert.escalated.v1", escalated)
    ∷ ("run.yipyap.reply.alert.remediation_started.v1", remediation_started)
    ∷ ("run.yipyap.reply.alert.remediation_result.v1", remediation_result)
    ∷ ("run.yipyap.reply.alert.ownership.v1", ownership)
    ∷ ("run.yipyap.reply.alert.ack_with_context.v1", ack_with_context)
    ∷ ("run.yipyap.reply.alert.route.v1", route)
    ∷ ("run.yipyap.reply.alert.status_page.v1", status_page)
    ∷ ("run.yipyap.reply.monitor.deregister.v1", monitor_deregister)
    ∷ []

unfoldable pub find_kind : String → List (String × ReplyKind) → Option ReplyKind
find_kind type [] = none
find_kind type ((t, kind) ∷ rest) = if str_eq t type then some kind else find_kind type rest

-- `Handle` of the handler of a kind.
unfoldable pub handle_kind : Env → Decoders → Handled → ReplyKind → Db → Result
handle_kind env d call claimed db = handle_claimed env call (d.claimed call.event) db
handle_kind env d call enriched db = handle_enriched env call (d.enriched call.event) db
handle_kind env d call linked db = handle_linked env call (d.linked call.event) db
handle_kind env d call suppressed db = handle_suppressed env call (d.suppressed call.event) db
handle_kind env d call deduplicated db = handle_deduplicated env call (d.deduplicated call.event) db
handle_kind env d call escalated db = handle_escalated env call (d.escalated call.event) db
handle_kind env d call remediation_started db =
    handle_remediation_started env call (d.remediation_started call.event) db
handle_kind env d call remediation_result db =
    handle_remediation_result env call (d.remediation_result call.event) db
handle_kind env d call ownership db = handle_ownership env call (d.ownership call.event) db
handle_kind env d call ack_with_context db =
    handle_ack_with_context env call (d.ack_with_context call.event) db
handle_kind env d call route db = handle_route env call (d.route call.event) db
handle_kind env d call status_page db = handle_status_page env call (d.status_page call.event) db
handle_kind env d call monitor_deregister db =
    handle_monitor_deregister env call (d.monitor_deregister call.event) db

-- The handler that the dispatcher finds for a reply; with none it is not called.
unfoldable pub handle_reply : Env → Decoders → Handled → Db → Result
unfolding find_kind handle_kind
handle_reply env d call db = elim (find_kind call.event.type registered) [
  | none ↦ (none, db)
  | some kind ↦ handle_kind env d call kind db
]
