-- ===== src/Reply/Dispatcher.antt =====
-- internal/cloudevents/reply/dispatcher.go and internal/cloudevents/match.go: how a reply is validated
-- and routed. The handlers of the reply types are a parameter, `handle`, as the interface `Handler`
-- is to the dispatcher; `path.Match` is another.
use yip_yap_foss.Prelude.{
  ℕ, ℤ, pos, ltb_ℤ, leb_ℤ, since, String, Bool, true, false, not, ◌&&◌, ◌||◌, Option, none, some,
  List, [], ◌∷◌, any, str_eq, is_blank, if◌then◌else◌,
}
use yip_yap_foss.Reply.Registry.{Event, Entry, RegistryConfig, lookup}
use yip_yap_foss.Reply.RateLimiter.{Bucket, allow}

pub record DispatcherConfig : Type 0 where
  pub accepted_reply_types : List String
  pub rate_limit : ℤ
  pub trust_elevated : Bool
  pub allow_deregister : Bool
  pub max_suppress_seconds : ℤ
  pub max_remediation_seconds : ℤ
  pub max_route_duration : ℤ

-- The body of the three clamps: the channel's cap or the default, and the request if it is within.
abbrev clamp : ℤ → ℤ → ℤ → ℤ
clamp max default requested =
    let cap = if leb_ℤ max (pos 0) then default else max in
    if leb_ℤ requested (pos 0) || ltb_ℤ cap requested then cap else requested

unfoldable pub clamp_suppress_seconds : DispatcherConfig → ℤ → ℤ
clamp_suppress_seconds cfg requested = clamp cfg.max_suppress_seconds (pos 3600) requested

unfoldable pub clamp_remediation_seconds : DispatcherConfig → ℤ → ℤ
clamp_remediation_seconds cfg requested = clamp cfg.max_remediation_seconds (pos 600) requested

unfoldable pub clamp_route_duration : DispatcherConfig → ℤ → ℤ
clamp_route_duration cfg requested = clamp cfg.max_route_duration (pos 86400) requested

pub data ReplyError : Type 0 where
  no_alertref unknown_alertref alertref_expired org_mismatch channel_mismatch unknown_type :
      ReplyError
  trust_flag_required rate_limited handler_failed : ReplyError

pub record RejectAudit : Type 0 where
  pub reply_id : String
  pub reply_type : String
  pub reply_source : String
  pub org_id : String
  pub channel_id : String
  pub alert_id : String
  pub monitor_id : String
  pub outcome : String

-- A reply that reached its handler.
pub record Handled : Type 0 where
  pub event : Event
  pub entry : Entry
  pub sub : String

pub record World : Type 0 where
  pub entries : List Entry
  pub buckets : List Bucket
  pub audits : List RejectAudit
  pub handled : List Handled
  -- The types that have a handler.
  pub handlers : List String

pub record Env : Type 0 where
  pub now : ℕ
  pub registry : RegistryConfig
  pub alertref_ttl : ℤ
  pub handle : DispatcherConfig → Handled → Bool
  pub match : String → String → Bool
  pub has_audit : Bool

-- `Register`: a handler with no type is ignored, and a second registration replaces the first.
unfoldable pub register : String → World → World
register type w =
    if is_blank type
    then w
    else if any (str_eq type) w.handlers
    then w
    else record w { handlers = type ∷ w.handlers }

-- `MatchAnyGlob`, an error of `path.Match` being no match.
unfoldable pub match_any_glob : Env → String → List String → Bool
match_any_glob env s [] = false
match_any_glob env s (p ∷ ps) = env.match p s || match_any_glob env s ps

-- `trustRequiredReplyTypes`: whether a type needs `TrustElevated`, and whether `AllowDeregister` too.
unfoldable pub required_trust : String → Bool × Bool
required_trust type =
    if str_eq type "run.yipyap.reply.monitor.deregister.v1" then (true, true) else (
      str_eq type "run.yipyap.reply.alert.ack_with_context.v1"
          || str_eq type "run.yipyap.reply.alert.suppressed.v1"
          || str_eq type "run.yipyap.reply.alert.ownership.v1"
          || str_eq type "run.yipyap.reply.alert.remediation_started.v1"
          || str_eq type "run.yipyap.reply.alert.remediation_result.v1"
          || str_eq type "run.yipyap.reply.alert.status_page.v1"
          || str_eq type "run.yipyap.reply.alert.escalated.v1"
          || str_eq type "run.yipyap.reply.alert.route.v1",
      false,
    )

-- The extension of the name, if it is there, is not nil and is not empty.
abbrev text_of : List (String × Option String) → String → Option String
text_of [] k = none
text_of ((name, value) ∷ rest) k =
    if str_eq name k
    then elim value [ none ↦ none | some s ↦ if is_blank s then none else some s ]
    else text_of rest k

-- `extractAlertref`.
unfoldable pub extract_alertref : Event → String
extract_alertref ev = elim (text_of ev.extensions "alertref") [
  | some s ↦ s
  | none ↦ elim (text_of ev.extensions "ce_alertref") [
    | some s ↦ s
    | none ↦ elim (text_of ev.extensions "cealertref") [ some s ↦ s | none ↦ "" ]
  ]
]

abbrev reject_org_mismatch : String
reject_org_mismatch = "rejected:org_mismatch"

abbrev write_audit : Env → RejectAudit → World → World
write_audit env a w = if env.has_audit then record w { audits = a ∷ w.audits } else w

-- `auditReject`, for an entry that is known.
unfoldable pub audit_reject : Env → Event → Entry → String → String → String → World → World
audit_reject env ev entry expected_org expected_channel outcome w =
    write_audit env
      (record {
        reply_id = ev.id;
        reply_type = ev.type;
        reply_source = ev.source;
        org_id =
            if str_eq outcome reject_org_mismatch && not (is_blank expected_org)
            then expected_org
            else entry.org_id;
        channel_id =
            if not (is_blank expected_channel) && is_blank entry.channel_id
            then expected_channel
            else entry.channel_id;
        alert_id = entry.alert_id;
        monitor_id = entry.monitor_id;
        outcome = outcome;
      })
      w

-- The row for an alertref that is not known, where there is an org to file it under.
unfoldable pub audit_unknown : Env → Event → String → String → World → World
audit_unknown env ev expected_org expected_channel w =
    if is_blank expected_org
    then w
    else write_audit env
        (record {
          reply_id = ev.id;
          reply_type = ev.type;
          reply_source = ev.source;
          org_id = expected_org;
          channel_id = expected_channel;
          alert_id = "";
          monitor_id = "";
          outcome = "rejected:unknown_alertref";
        })
        w

-- Whether the reply was accepted, the error, and what is left behind.
abbrev pub Outcome : Type 0
Outcome = Bool × Option ReplyError × World

abbrev reject : ReplyError → World → Outcome
reject e w = (false, some e, w)

-- The call of the handler.
unfoldable pub run_handler : Env → Event → DispatcherConfig → String → Entry → World → Outcome
run_handler env ev cfg sub entry w =
    let call : Handled = record { event = ev; entry = entry; sub = sub } in
    let w' : World = record w { handled = call ∷ w.handled } in
    if env.handle cfg call then (true, none, w') else reject handler_failed w'

-- The limiter, and then the handler.
unfoldable pub limit_reply :
    Env → Event → DispatcherConfig → String → String → String → Entry → World → Outcome
unfolding run_handler audit_reject
limit_reply env ev cfg sub expected_org expected_channel entry w =
    let (ok, buckets') = allow entry.org_id ev.type cfg.rate_limit env.now w.buckets in
    let w' : World = record w { buckets = buckets' } in
    if ok
    then run_handler env ev cfg sub entry w'
    else reject rate_limited
        (audit_reject env ev entry expected_org expected_channel "rejected:rate_limited" w')

-- A flag that the type needs and the channel lacks.
unfoldable pub lacks_trust : Event → DispatcherConfig → Bool
unfolding required_trust
lacks_trust ev cfg =
    let (elevated, deregister) = required_trust ev.type in
    (elevated && not cfg.trust_elevated) || (deregister && not cfg.allow_deregister)

-- `entry.EmittedAt` is older than the dispatcher's own limit.
unfoldable pub is_stale : Env → Entry → Bool
is_stale env entry =
    ltb_ℤ (pos 0) env.alertref_ttl && ltb_ℤ env.alertref_ttl (since env.now entry.emitted_at)

abbrev pub mismatches : String → String → Bool
mismatches expected actual = not (is_blank expected) && not (str_eq actual expected)

-- `dispatchCore`, from the handler's lookup on.
unfoldable pub dispatch_type :
    Env → Event → DispatcherConfig → String → String → String → Entry → World → Outcome
unfolding match_any_glob lacks_trust limit_reply audit_reject
dispatch_type env ev cfg sub expected_org expected_channel entry w =
    let audited =
      λ (reason : String). audit_reject env ev entry expected_org expected_channel reason w in
    if not (any (str_eq ev.type) w.handlers)
    then reject unknown_type (audited "rejected:unknown_type")
    else if not (match_any_glob env ev.type cfg.accepted_reply_types)
    then (false, none, w)
    else if lacks_trust ev cfg
    then reject trust_flag_required (audited "rejected:trust_required")
    else limit_reply env ev cfg sub expected_org expected_channel entry w

-- `dispatchCore`, once the entry is known.
unfoldable pub dispatch_entry :
    Env → Event → DispatcherConfig → String → String → String → Entry → World → Outcome
unfolding is_stale dispatch_type audit_reject
dispatch_entry env ev cfg sub expected_org expected_channel entry w =
    let audited =
      λ (reason : String). audit_reject env ev entry expected_org expected_channel reason w in
    if is_stale env entry
    then reject alertref_expired (audited "rejected:alertref_expired")
    else if mismatches expected_org entry.org_id
    then reject org_mismatch (audited reject_org_mismatch)
    else if mismatches expected_channel entry.channel_id
    then reject channel_mismatch (audited "rejected:channel_mismatch")
    else dispatch_type env ev cfg sub expected_org expected_channel entry w

-- `dispatchCore`.
unfoldable pub dispatch_core :
    Env → Event → DispatcherConfig → String → String → String → World → Outcome
unfolding extract_alertref dispatch_entry audit_unknown
dispatch_core env ev cfg sub expected_org expected_channel w =
    let alertref = extract_alertref ev in
    if is_blank alertref
    then reject no_alertref w
    else let (found, entries') = lookup env.registry env.now alertref w.entries in
      let w' : World = record w { entries = entries' } in
      elim found [
        | none ↦ reject unknown_alertref (audit_unknown env ev expected_org expected_channel w')
        | some entry ↦ dispatch_entry env ev cfg sub expected_org expected_channel entry w'
      ]

-- `Dispatch` and `DispatchForChannel`.
unfoldable pub dispatch : Env → Event → DispatcherConfig → String → World → Outcome
unfolding dispatch_core
dispatch env ev cfg sub w = dispatch_core env ev cfg sub "" "" w

unfoldable pub dispatch_for_channel :
    Env → Event → DispatcherConfig → String → String → String → World → Outcome
unfolding dispatch_core
dispatch_for_channel env ev cfg expected_org expected_channel sub w =
    dispatch_core env ev cfg sub expected_org expected_channel w
