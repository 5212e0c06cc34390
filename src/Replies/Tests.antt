-- ===== src/Replies/Tests.antt =====
-- internal/cloudevents/reply/handlers on concrete tables.
use yip_yap_foss.Prelude.{pos, true, false, ◌≡◌, refl, arith, none, some, [], ◌∷◌}
use text.Mathlib.TextEquality.{eq_iff}
use yip_yap_foss.Domain.Alert.{Alert, resolved}
use yip_yap_foss.Store.Alerts.{get_by_id, update}
use yip_yap_foss.Reply.Registry.{Event, Entry}
use yip_yap_foss.Reply.Dispatcher.{DispatcherConfig, Handled, World, Env as DispatcherEnv}
use yip_yap_foss.Replies.Text.{truncate_runes, take_runes, byte_len, rune_count}
use yip_yap_foss.Replies.Model.{
  Db, Env, AlertRemediation, remediation_result, accepted, in_progress, success, failure,
  AlertSuppression,
}
use yip_yap_foss.Replies.Common.{
  audit_row, warn_and_reject, accept, write_audit, first_failure, guarded, decoded,
  effective_alert_id, load_and_verify, annotate, bad_filter,
}
use yip_yap_foss.Replies.Mutations.{
  AckData, handle_ack_with_context, acknowledge, store_ack, settle, allowed_reason_code,
  SuppressedData, add_suppression, handle_suppressed,
}
use yip_yap_foss.Replies.Remediations.{
  RemediationResultData, finish_remediation, complete, complete_rows, get_remediation,
  resolve_if_up, is_fresh_up,
}
use yip_yap_foss.Replies.Handling.{Decoders, ack_with_context, handle_kind}
use yip_yap_foss.Replies.Rules.{Proper, outcome_of}
use yip_yap_foss.Replies.Isolation.{Scope, handle_kind-Proper}
use yip_yap_foss.Replies.Dispatching.{dispatch_reply, dispatch_reply_isolates}
use yip_yap_foss.Replies.Truncation.{IsCut, truncate_runes-IsCut}
use yip_yap_foss.Replies.Completion.{second_result_rejected}
use yip_yap_foss.Replies.Acknowledging.{IsAcknowledged, ack_with_context_reopens}
use yip_yap_foss.Replies.Expiry.{IsBrief, handle_suppressed-IsBrief}

abbrev alert : Alert
alert = record {
  id = "a";
  monitor_id = "m";
  org_id = "o";
  status = resolved;
  severity = "critical";
  error = "";
  started_at = 0;
  acknowledged_at = none;
  acknowledged_by = "";
  resolved_at = some 0;
  current_escalation_step = "";
  incident_id = "";
}

abbrev foreign_alert : Alert
foreign_alert = record alert { id = "b"; org_id = "p" }

abbrev started : AlertRemediation
started = record {
  remediation_id = "r";
  alert_id = "a";
  org_id = "o";
  status = in_progress;
  started_at = 0;
  completed_at = none;
  expires_at = pos 600000000000;
  description = "restart";
  message = "";
  artifact_url = "";
  source_reply_id = "e";
}

abbrev db : Db
db = record {
  alerts = alert ∷ foreign_alert ∷ [];
  marks = [];
  monitors = [];
  suppressions = [];
  remediations = started ∷ [];
  routing_rules = [];
  status_page_refs = [];
  events = [];
  audits = [];
}

abbrev config : DispatcherConfig
config = record {
  accepted_reply_types = "*" ∷ [];
  rate_limit = pos 0;
  trust_elevated = false;
  allow_deregister = false;
  max_suppress_seconds = pos 900;
  max_remediation_seconds = pos 0;
  max_route_duration = pos 0;
}

abbrev env : Env
env = record {
  now = 5000000000;
  config = config;
  parse_url = λ _. none;
  to_lower = λ s. s;
  seconds_between = λ _ _. pos 0;
  get_user = λ _. none;
  get_team = λ _. none;
  get_channel = λ _. none;
  get_steps = λ _. none;
  get_latest_check = λ _. none;
  read_ok = true;
  reread_ok = true;
  recheck_ok = true;
  update_ok = true;
  resolve_ok = true;
  insert_ok = true;
  event_ok = true;
  audit_ok = true;
}

abbrev entry : Entry
entry = record {
  event_id = "e";
  org_id = "o";
  alert_id = "a";
  monitor_id = "m";
  channel_id = "c";
  emitted_at = 5;
}

abbrev reply : Event
reply = record {
  id = "reply";
  type = "run.yipyap.reply.alert.ack_with_context.v1";
  source = "sink";
  extensions = ("alertref", some "e") ∷ [];
  data_ids = ("a", "");
}

abbrev call : Handled
call = record { event = reply; entry = entry; sub = "" }

abbrev ack : AckData
ack = record { alert_id = "a"; reason_code = "known_issue"; note = ""; reference_id = "" }

abbrev decoders : Decoders
decoders = record {
  claimed = λ _. none;
  enriched = λ _. none;
  linked = λ _. none;
  suppressed = λ _. none;
  deduplicated = λ _. none;
  escalated = λ _. none;
  remediation_started = λ _. none;
  remediation_result = λ _. none;
  ownership = λ _. none;
  ack_with_context = λ _. some ack;
  route = λ _. none;
  status_page = λ _. none;
  monitor_deregister = λ _. none;
}

handle_kind-Proper_example :
    let r = handle_kind env decoders call ack_with_context db in
    (r.1.audits ≡ audit_row call (outcome_of r.0) ∷ db.audits)
    × Proper env.audit_ok (Scope env call db ack_with_context) call db r
handle_kind-Proper_example =
    handle_kind-Proper env decoders call ack_with_context db refl refl refl (refl, tt)

abbrev dispatcher : DispatcherEnv
dispatcher = record {
  now = 50;
  registry = record { max_entries = pos 2; ttl = pos 100 };
  alertref_ttl = pos 80;
  handle = λ _ _. true;
  match = λ _ _. true;
  has_audit = true;
}

abbrev world : World
world = record {
  entries = entry ∷ [];
  buckets = [];
  audits = [];
  handled = [];
  handlers = "run.yipyap.reply.alert.ack_with_context.v1" ∷ [];
}

other_org : foreign_alert.org_id ≡ entry.org_id → ⊥
other_org e = let h : false ≡ true = (eq_iff "p" "o").1 e in ground arith

dispatch_reply_isolates_example :
    get_by_id "b" (dispatch_reply dispatcher env decoders reply config "o" "c" "" world db).1.alerts
    ≡ some foreign_alert
unfolding get_by_id
dispatch_reply_isolates_example =
    dispatch_reply_isolates dispatcher env decoders reply config "o" "c" "" world db "b"
      foreign_alert refl (refl, tt) refl other_org

-- U+00E9 has two bytes, so three bytes hold an `a` and one of it.
truncated : truncate_runes (97 ∷ 0xe9 ∷ 0xe9 ∷ []) 4 ≡ 97 ∷ 0xe9 ∷ []
unfolding truncate_runes take_runes byte_len
truncated = refl

truncate_runes-IsCut_example :
    IsCut 4 (97 ∷ 0xe9 ∷ 0xe9 ∷ []) (truncate_runes (97 ∷ 0xe9 ∷ 0xe9 ∷ []) 4)
truncate_runes-IsCut_example = truncate_runes-IsCut 4 (97 ∷ 0xe9 ∷ 0xe9 ∷ []) (ground arith)

abbrev done : RemediationResultData
done = record {
  alert_id = "a";
  remediation_id = "r";
  outcome = "success";
  message = "ok";
  artifact_url = "";
}

abbrev after_first : Db
after_first = record db {
  remediations =
      record started { status = success; message = "ok"; completed_at = some 5000000000 } ∷ [];
  events = (annotate env "a" remediation_result none (some "") db).events;
  audits = (write_audit env call accepted db).audits;
}

second_result_rejected_example :
    finish_remediation env call "a" failure done after_first
    ≡ warn_and_reject env call "remediation_already_completed" after_first
unfolding finish_remediation complete complete_rows get_remediation resolve_if_up get_by_id update
    is_fresh_up annotate accept write_audit
second_result_rejected_example =
    second_result_rejected env env call call "a" "a" success failure done done db after_first refl
      refl refl refl

abbrev tables_after : Db
tables_after = (handle_ack_with_context env call (some ack) db).1

ack_with_context_reopens_example :
    (a : Alert) × (get_by_id "a" db.alerts ≡ some a)
    × (after : Alert) × (get_by_id "a" tables_after.alerts ≡ some after)
    × IsAcknowledged env call a after
unfolding handle_ack_with_context decoded guarded first_failure load_and_verify get_by_id settle
    store_ack acknowledge accept rune_count allowed_reason_code effective_alert_id
ack_with_context_reopens_example = ack_with_context_reopens env call ack db tables_after refl

abbrev forever : SuppressedData
forever = record {
  alert_id = "a";
  duration_seconds = pos 1000000;
  reason = "known";
  match_filter = [];
}

abbrev suppressed_db : Db
suppressed_db = (handle_suppressed env call (some forever) db).1

handle_suppressed-IsBrief_example :
    (r : AlertSuppression) × (suppressed_db.suppressions ≡ r ∷ db.suppressions)
    × IsBrief call 5000000000 900 r
unfolding handle_suppressed decoded guarded first_failure load_and_verify get_by_id add_suppression
    accept rune_count bad_filter effective_alert_id
handle_suppressed-IsBrief_example =
    handle_suppressed-IsBrief env call forever 900 db suppressed_db refl (ground arith) refl
