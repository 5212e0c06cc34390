-- ===== src/Reply/Budget.antt =====
-- internal/cloudevents/reply/dispatcher.go, `dispatchCore`: the use of the rate limit.
use yip_yap_foss.Prelude.{
  String, true, false, not, ◌≡◌, refl, inl, inr, ◌⊎◌, Option, none, some, any, str_eq, is_blank,
  if_rule, if_known, arith,
}
use yip_yap_foss.Reply.Registry.{Event, Entry, lookup}
use yip_yap_foss.Reply.RateLimiter.{allow}
use yip_yap_foss.Reply.Dispatcher.{
  DispatcherConfig, ReplyError, unknown_alertref, rate_limited, handler_failed, World, Env, Outcome,
  match_any_glob, extract_alertref, audit_reject, audit_unknown, run_handler, limit_reply,
  lacks_trust, is_stale, mismatches, dispatch_type, dispatch_entry, dispatch_core,
}

audit_reject-buckets :
    (env : Env) (ev : Event) (entry : Entry) (org channel reason : String) (w : World)
    → (audit_reject env ev entry org channel reason w).buckets ≡ w.buckets
unfolding audit_reject
audit_reject-buckets env ev entry org channel reason w = ground arith

audit_unknown-buckets :
    (env : Env) (ev : Event) (org channel : String) (w : World)
    → (audit_unknown env ev org channel w).buckets ≡ w.buckets
unfolding audit_unknown
audit_unknown-buckets env ev org channel w = ground arith

module _ (env : Env) (ev : Event) (cfg : DispatcherConfig)
    (sub expected_org expected_channel : String) where
  -- The buckets are as before; or the reply was accepted, limited or failed by its handler, and then its
  -- type is one that the channel accepts and has the trust flags for.
  abbrev pub Spends : World → Outcome → Type 0
  Spends w o =
      (o.2.buckets ≡ w.buckets)
      ⊎ (((o.0 ≡ true) ⊎ (o.1 ≡ some rate_limited) ⊎ (o.1 ≡ some handler_failed))
          × (match_any_glob env ev.type cfg.accepted_reply_types ≡ true)
          × (lacks_trust ev cfg ≡ false))

  abbrev Ends : Outcome → Type 0
  Ends o = (o.0 ≡ true) ⊎ (o.1 ≡ some rate_limited) ⊎ (o.1 ≡ some handler_failed)

  run_handler-Ends : (entry : Entry) (w : World) → Ends (run_handler env ev cfg sub entry w)
  unfolding run_handler
  run_handler-Ends entry w = if_rule Ends (env.handle cfg _) (inl refl) (inr (inr refl))

  limit_reply-Ends :
      (entry : Entry) (w : World)
      → Ends (limit_reply env ev cfg sub expected_org expected_channel entry w)
  unfolding limit_reply
  limit_reply-Ends entry w =
      let (ok, buckets') = allow entry.org_id ev.type cfg.rate_limit env.now w.buckets in
      if_rule Ends ok (run_handler-Ends entry (record w { buckets = buckets' })) (inr (inl refl))

  dispatch_type-Spends :
      (entry : Entry) (w : World)
      → Spends w (dispatch_type env ev cfg sub expected_org expected_channel entry w)
  unfolding dispatch_type
  dispatch_type-Spends entry w =
      if_rule (Spends w) (not (any (str_eq ev.type) w.handlers))
        (inl (
          audit_reject-buckets env ev entry expected_org expected_channel "rejected:unknown_type"
            w))
        (if_known (Spends w) (not (match_any_glob env ev.type cfg.accepted_reply_types))
          (λ _. inl refl)
          (λ accepted.
            if_known (Spends w) (lacks_trust ev cfg)
              (λ _. inl (
                audit_reject-buckets env ev entry expected_org expected_channel
                  "rejected:trust_required" w))
              (λ trusted. inr (limit_reply-Ends entry w, ground arith, trusted))))

  dispatch_entry-Spends :
      (entry : Entry) (w : World)
      → Spends w (dispatch_entry env ev cfg sub expected_org expected_channel entry w)
  unfolding dispatch_entry
  dispatch_entry-Spends entry w =
      if_rule (Spends w) (is_stale env entry) (unspent "rejected:alertref_expired") (
        if_rule (Spends w) (mismatches expected_org entry.org_id) (unspent "rejected:org_mismatch")
          (if_rule (Spends w) (mismatches expected_channel entry.channel_id)
            (unspent "rejected:channel_mismatch") (dispatch_type-Spends entry w)))
    where
      unspent :
          (reason : String)
          → {e : ReplyError}
          → Spends w
              (false, some e, audit_reject env ev entry expected_org expected_channel reason w)
      unspent reason =
          inl (audit_reject-buckets env ev entry expected_org expected_channel reason w)

  -- A reply leaves the limiter as it is, unless it is accepted, refused for its rate or failed by its handler; and
  -- then its type is one that the channel accepts and has the trust flags for.
  pub dispatch_core-Spends :
      (w : World) → Spends w (dispatch_core env ev cfg sub expected_org expected_channel w)
  unfolding dispatch_core
  dispatch_core-Spends w =
      if_rule (Spends w) (is_blank (extract_alertref ev)) (inl refl)
        (by_entry (lookup env.registry env.now (extract_alertref ev) w.entries).0)
    where
      after : World
      after = record w { entries = (lookup env.registry env.now (extract_alertref ev) w.entries).1 }

      by_entry :
          (found : Option Entry)
          → Spends w (
              let o : Outcome = elim found [
                | none ↦ (
                  false,
                  some unknown_alertref,
                  audit_unknown env ev expected_org expected_channel after,
                )
                | some entry ↦
                    dispatch_entry env ev cfg sub expected_org expected_channel entry after
              ] in
              o)
      by_entry none = inl (audit_unknown-buckets env ev expected_org expected_channel after)
      by_entry (some entry) = dispatch_entry-Spends entry after
