-- ===== src/Replies/Annotations.antt =====
-- internal/cloudevents/reply/handlers: claimed.go, enriched.go, linked.go and status_page.go, which annotate an alert and
-- leave its row alone.
use yip_yap_foss.Prelude.{
  codes, ℕ, ltb, Bool, not, ◌&&◌, ◌||◌, String, str_eq, is_blank, Option, some, List, [], ◌∷◌, any,
  length, if◌then◌else◌, ◌==◌,
}
use yip_yap_foss.Reply.Dispatcher.{Handled}
use yip_yap_foss.Replies.Text.{rune_count, truncate_runes}
use yip_yap_foss.Replies.Model.{
  reply_claimed, reply_enriched, reply_linked, status_page_synced, AlertStatusPageRef, Db, Env,
}
use yip_yap_foss.Replies.Common.{
  Result, accept, fail_write, guarded, decoded, cross_alert, alert_scope, effective_alert_id,
  missing_alert, too_long, load_and_verify, effective_actor, annotate, write_timeline_event,
  bad_url,
}

-- Without the time of the claim, which is copied.
pub record ClaimedData : Type 0 where
  pub alert_id : String
  pub who : String
  pub note : String

-- The checks of `Handle`, in order.
abbrev pub claimed_checks : Handled → ClaimedData → List (Bool × String)
claimed_checks call fields =
    (is_blank fields.who, "missing_who")
    ∷ too_long 256 fields.who
    ∷ too_long 2048 fields.note
    ∷ cross_alert call fields.alert_id
    ∷ alert_scope call
    ∷ missing_alert call fields.alert_id
    ∷ []

-- `ClaimedHandler.Handle`.
unfoldable pub handle_claimed : Env → Handled → Option ClaimedData → Db → Result
handle_claimed env call payload = decoded env call payload λ fields.
    guarded env call (claimed_checks call fields) (
      let i = effective_alert_id call.entry.alert_id fields.alert_id in
      load_and_verify env call i (λ _. write_timeline_event env call i reply_claimed))

-- The texts of an attachment, empty where the value is missing or no text.
pub record Attachment : Type 0 where
  pub label : String
  pub href : String
  pub preview : String
  pub kind : String

pub record EnrichedData : Type 0 where
  pub alert_id : String
  pub attachments : List Attachment

-- `normaliseAttachment`; a failure is `true`.
unfoldable pub bad_attachment : Env → Attachment → Bool
unfolding bad_url
bad_attachment env a =
    is_blank a.label
    || ltb 256 (rune_count a.label)
    || (not (is_blank a.href) && bad_url env a.href)
    || ltb 4096 (rune_count a.preview)
    || ltb 64 (rune_count a.kind)

-- The checks of `Handle`, in order.
abbrev pub enriched_checks : Env → Handled → EnrichedData → List (Bool × String)
enriched_checks env call fields =
    cross_alert call fields.alert_id
    ∷ alert_scope call
    ∷ (ltb 20 (length fields.attachments), "too_many_attachments")
    ∷ (any (bad_attachment env) fields.attachments, "attachment_invalid")
    ∷ missing_alert call fields.alert_id
    ∷ []

-- `EnrichedHandler.Handle`.
unfoldable pub handle_enriched : Env → Handled → Option EnrichedData → Db → Result
unfolding bad_attachment
handle_enriched env call payload = decoded env call payload λ fields.
    guarded env call (enriched_checks env call fields) (
      let i = effective_alert_id call.entry.alert_id fields.alert_id in
      load_and_verify env call i (λ _. write_timeline_event env call i reply_enriched))

-- `allowedLinkKinds`.
unfoldable pub allowed_link_kind : String → Bool
allowed_link_kind kind = any (str_eq kind) (
    "jira" ∷ "pagerduty" ∷ "slack_thread" ∷ "github_issue" ∷ "gitlab_issue" ∷ "linear"
    ∷ "servicenow" ∷ "other" ∷ [])

pub record LinkedData : Type 0 where
  pub alert_id : String
  pub kind : String
  pub id : String
  pub url : String
  pub title : String

-- The checks of `Handle`, in order.
abbrev pub linked_checks : Env → Handled → LinkedData → List (Bool × String)
linked_checks env call fields =
    cross_alert call fields.alert_id
    ∷ alert_scope call
    ∷ (not (allowed_link_kind fields.kind), "invalid_kind")
    ∷ (is_blank fields.id, "missing_id")
    ∷ too_long 256 fields.id
    ∷ too_long 256 fields.title
    ∷ (bad_url env fields.url, "url_scheme")
    ∷ missing_alert call fields.alert_id
    ∷ []

-- `LinkedHandler.Handle`.
unfoldable pub handle_linked : Env → Handled → Option LinkedData → Db → Result
unfolding allowed_link_kind bad_url
handle_linked env call payload = decoded env call payload λ fields.
    guarded env call (linked_checks env call fields) (
      let i = effective_alert_id call.entry.alert_id fields.alert_id in
      load_and_verify env call i (λ _. write_timeline_event env call i reply_linked))

-- `allowedStatusPageProviders`.
unfoldable pub allowed_provider : String → Bool
allowed_provider provider = any (str_eq provider) (
    "statuspage_io" ∷ "cachet" ∷ "instatus" ∷ "atlassian_sb" ∷ "incidentio" ∷ "statusgator"
    ∷ "better_uptime" ∷ "openstatus" ∷ "yipyap_internal" ∷ "other" ∷ [])

-- The zero time is 0.
pub record StatusPageData : Type 0 where
  pub alert_id : String
  pub provider : String
  pub url : String
  pub public_message : String
  pub updated_at : ℕ

-- The row of a status page.
unfoldable pub status_page_ref : Env → Handled → String → StatusPageData → AlertStatusPageRef
unfolding truncate_runes
status_page_ref env call i fields = record {
  alert_id = i;
  provider = fields.provider;
  url = fields.url;
  public_message = truncate_runes (codes fields.public_message) 2048;
  updated_at = if fields.updated_at == 0 then env.now else fields.updated_at;
  source_reply_id = call.event.id;
}

-- What `StatusPageHandler.Handle` does once the alert is verified.
unfoldable pub add_status_page : Env → Handled → String → StatusPageData → Db → Result
unfolding status_page_ref
add_status_page env call i fields db =
    if env.insert_ok
    then accept env call (
        annotate env i status_page_synced (some (effective_actor call)) (some call.sub) (record db {
          status_page_refs = status_page_ref env call i fields ∷ db.status_page_refs;
        }))
    else fail_write env call "create_status_page_ref" db

-- The checks of `Handle`, in order.
abbrev pub status_page_checks : Env → Handled → StatusPageData → List (Bool × String)
status_page_checks env call fields =
    cross_alert call fields.alert_id
    ∷ alert_scope call
    ∷ (not (allowed_provider fields.provider), "invalid_provider")
    ∷ (bad_url env fields.url, "url_scheme")
    ∷ missing_alert call fields.alert_id
    ∷ []

-- `StatusPageHandler.Handle`.
unfoldable pub handle_status_page : Env → Handled → Option StatusPageData → Db → Result
unfolding allowed_provider bad_url
handle_status_page env call payload = decoded env call payload λ fields.
    guarded env call (status_page_checks env call fields) (
      let i = effective_alert_id call.entry.alert_id fields.alert_id in
      load_and_verify env call i (λ _. add_status_page env call i fields))
