-- ===== src/Reply/Audits.antt =====
-- internal/cloudevents/reply/dispatcher.go, `dispatchCore`: the audit rows of rejections.
use yip_yap_foss.Prelude.{
  String, true, false, not, ◌≡◌, refl, arith, inl, inr, ◌⊎◌, Option, none, some, List, ◌∷◌, any,
  str_eq, is_blank, if_rule, if_known,
}
use text.Mathlib.TextEquality.{eq_iff}
use yip_yap_foss.Reply.Registry.{Event, Entry, lookup}
use yip_yap_foss.Reply.RateLimiter.{allow}
use yip_yap_foss.Reply.Dispatcher.{
  DispatcherConfig, ReplyError, no_alertref, unknown_alertref, alertref_expired, org_mismatch,
  channel_mismatch, unknown_type, trust_flag_required, rate_limited, handler_failed, RejectAudit,
  World, Env, Outcome, match_any_glob, extract_alertref, audit_reject, audit_unknown, run_handler,
  limit_reply, lacks_trust, is_stale, mismatches, dispatch_type, dispatch_entry, dispatch_core,
}

module _ (env : Env) (ev : Event) (cfg : DispatcherConfig)
    (sub expected_org expected_channel : String) (on : env.has_audit ≡ true)
    (named : is_blank expected_org ≡ false) where
  -- One new row, of this reply and this reason.
  abbrev OneRow : String → List RejectAudit → World → Type 0
  OneRow reason before w' =
      (row : RejectAudit) × (w'.audits ≡ row ∷ before)
      × (row.outcome ≡ reason)
      × (row.reply_type ≡ ev.type)
      × (row.reply_id ≡ ev.id)

  -- One new row, filed under the expected org.
  abbrev OwnRow : String → List RejectAudit → World → Type 0
  OwnRow reason before w' =
      (row : RejectAudit) × (w'.audits ≡ row ∷ before)
      × (row.outcome ≡ reason)
      × (row.reply_type ≡ ev.type)
      × (row.reply_id ≡ ev.id)
      × (row.org_id ≡ expected_org)

  -- What each result leaves in the audit log.
  abbrev pub IsAudited : List RejectAudit → Option ReplyError → World → Type 0
  IsAudited before none w' = w'.audits ≡ before
  IsAudited before (some no_alertref) w' = w'.audits ≡ before
  IsAudited before (some unknown_alertref) w' = OwnRow "rejected:unknown_alertref" before w'
  IsAudited before (some alertref_expired) w' = OneRow "rejected:alertref_expired" before w'
  IsAudited before (some org_mismatch) w' = OwnRow "rejected:org_mismatch" before w'
  IsAudited before (some channel_mismatch) w' = OwnRow "rejected:channel_mismatch" before w'
  IsAudited before (some unknown_type) w' = OwnRow "rejected:unknown_type" before w'
  IsAudited before (some trust_flag_required) w' = OwnRow "rejected:trust_required" before w'
  IsAudited before (some rate_limited) w' = OwnRow "rejected:rate_limited" before w'
  IsAudited before (some handler_failed) w' = w'.audits ≡ before

  abbrev Audited : World → Outcome → Type 0
  Audited w o = IsAudited w.audits o.1 o.2

  audit_unknown-OwnRow :
      (w : World)
      → OwnRow "rejected:unknown_alertref" w.audits
          (audit_unknown env ev expected_org expected_channel w)
  unfolding audit_unknown
  audit_unknown-OwnRow w = rw (named, on) (_, refl, refl, refl, refl, refl)

  audit_reject-OneRow :
      (entry : Entry) (w : World) (reason : String)
      → OneRow reason w.audits (audit_reject env ev entry expected_org expected_channel reason w)
  unfolding audit_reject
  audit_reject-OneRow entry w reason = rw on (_, refl, refl, refl, refl)

  -- The entry is of the expected org, or the reason is that it is not.
  audit_reject-OwnRow :
      (entry : Entry) (w : World) (reason : String)
      → (entry.org_id ≡ expected_org) ⊎ (str_eq reason "rejected:org_mismatch" ≡ true)
      → OwnRow reason w.audits (audit_reject env ev entry expected_org expected_channel reason w)
  unfolding audit_reject
  audit_reject-OwnRow entry w reason why =
      rw (on, named) (_, refl, refl, refl, refl, ground (arith, why))

  run_handler-Audited :
      (entry : Entry) (v w : World)
      → v.audits ≡ w.audits
      → Audited w (run_handler env ev cfg sub entry v)
  unfolding run_handler
  run_handler-Audited entry v w same = if_rule (Audited w) (env.handle cfg _) same same

  module _ (entry : Entry) (w : World) (own : entry.org_id ≡ expected_org) where
    limit_reply-Audited :
        Audited w (limit_reply env ev cfg sub expected_org expected_channel entry w)
    unfolding limit_reply
    limit_reply-Audited =
        let (ok, buckets') = allow entry.org_id ev.type cfg.rate_limit env.now w.buckets in
        let w' : World = record w { buckets = buckets' } in
        if_rule (Audited w) ok (run_handler-Audited entry w' w refl)
          (audit_reject-OwnRow entry w' "rejected:rate_limited" (inl own))

    dispatch_type-Audited :
        Audited w (dispatch_type env ev cfg sub expected_org expected_channel entry w)
    unfolding dispatch_type
    dispatch_type-Audited =
        if_rule (Audited w) (not (any (str_eq ev.type) w.handlers))
          (audit_reject-OwnRow entry w "rejected:unknown_type" (inl own))
          (if_rule (Audited w) (not (match_any_glob env ev.type cfg.accepted_reply_types)) refl (
            if_rule (Audited w) (lacks_trust ev cfg)
              (audit_reject-OwnRow entry w "rejected:trust_required" (inl own))
              limit_reply-Audited))

  own_org :
      (entry : Entry) → mismatches expected_org entry.org_id ≡ false → entry.org_id ≡ expected_org
  own_org entry h = ground (arith, named, eq_iff entry.org_id expected_org)

  dispatch_entry-Audited :
      (entry : Entry) (w : World)
      → Audited w (dispatch_entry env ev cfg sub expected_org expected_channel entry w)
  unfolding dispatch_entry
  dispatch_entry-Audited entry w =
      if_rule (Audited w) (is_stale env entry)
        (audit_reject-OneRow entry w "rejected:alertref_expired")
        (if_known (Audited w) (mismatches expected_org entry.org_id)
          (λ _. audit_reject-OwnRow entry w "rejected:org_mismatch" (inr refl))
          (λ h.
            if_rule (Audited w) (mismatches expected_channel entry.channel_id)
              (audit_reject-OwnRow entry w "rejected:channel_mismatch" (inl (own_org entry h)))
              (dispatch_type-Audited entry w (own_org entry h))))

  -- With an audit writer and an expected org: every reply that is refused for anything but a missing
  -- alertref, the channel's own choice of types or a failed handler writes one row, with the reply's id
  -- and type and the reason of the refusal; those three, and an accepted reply, write none. The row is filed under the
  -- expected org, unless the reason is that the event is too old.
  pub dispatch_core-IsAudited :
      (w : World)
      → let o = dispatch_core env ev cfg sub expected_org expected_channel w in
        IsAudited w.audits o.1 o.2
  unfolding dispatch_core
  dispatch_core-IsAudited w =
      if_rule (Audited w) (is_blank (extract_alertref ev)) refl
        (by_entry (lookup env.registry env.now (extract_alertref ev) w.entries).0)
    where
      after : World
      after = record w { entries = (lookup env.registry env.now (extract_alertref ev) w.entries).1 }

      by_entry :
          (found : Option Entry)
          → Audited w (
              let o : Outcome = elim found [
                | none ↦ (
                  false,
                  some unknown_alertref,
                  audit_unknown env ev expected_org expected_channel after,
                )
                | some entry ↦
                    dispatch_entry env ev cfg sub expected_org expected_channel entry after
              ] in
              o)
      by_entry none = audit_unknown-OwnRow after
      by_entry (some entry) = dispatch_entry-Audited entry after
