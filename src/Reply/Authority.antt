-- ===== src/Reply/Authority.antt =====
-- internal/cloudevents/reply/dispatcher.go, `dispatchCore`: the checks before a handler runs.
use yip_yap_foss.Prelude.{
  String, true, false, not, ◌≡◌, refl, arith, inl, inr, ◌⊎◌, Option, none, some, ◌∷◌, any, str_eq,
  eq_of_str_eq, is_blank, if_rule, if_known, Bool-cases,
}
use text.Mathlib.TextEquality.{eq_iff}
use yip_yap_foss.Reply.Registry.{Event, Entry, lookup}
use yip_yap_foss.Reply.RegistryLaws.{IsLive}
use yip_yap_foss.Reply.Correlation.{lookup_sound}
use yip_yap_foss.Reply.RateLimiter.{allow}
use yip_yap_foss.Reply.Dispatcher.{
  DispatcherConfig, unknown_alertref, World, Env, Outcome, match_any_glob, required_trust,
  extract_alertref, audit_reject, audit_unknown, run_handler, limit_reply, lacks_trust, is_stale,
  mismatches, dispatch_type, dispatch_entry, dispatch_core,
}

write_audit-handled :
    (env : Env) (ev : Event) (entry : Entry) (org channel reason : String) (w : World)
    → (audit_reject env ev entry org channel reason w).handled ≡ w.handled
unfolding audit_reject
write_audit-handled env ev entry org channel reason w = ground arith

audit_unknown-handled :
    (env : Env) (ev : Event) (org channel : String) (w : World)
    → (audit_unknown env ev org channel w).handled ≡ w.handled
unfolding audit_unknown
audit_unknown-handled env ev org channel w = ground arith

module _ (env : Env) (ev : Event) (cfg : DispatcherConfig)
    (sub expected_org expected_channel : String) where
  -- Either no handler ran and the reply is not accepted, or the handler ran once, on this entry, and `G` holds.
  abbrev Unless : Type 0 → Entry → World → Outcome → Type 0
  Unless G entry w o =
      ((o.2.handled ≡ w.handled) × (o.0 ≡ false))
      ⊎ ((o.2.handled ≡ record { event = ev; entry = entry; sub = sub } ∷ w.handled) × G)

  Unless-map :
      (G H : Type 0) (entry : Entry) (w : World) (o : Outcome)
      → (G → H)
      → Unless G entry w o
      → Unless H entry w o
  Unless-map G H entry w o f (inl off) = inl off
  Unless-map G H entry w o f (inr (ran, g)) = inr (ran, f g)

  module _ (entry : Entry) (w : World) where
    abbrev Allowed : Type 0
    Allowed = (allow entry.org_id ev.type cfg.rate_limit env.now w.buckets).0 ≡ true

    run_handler-ran :
        (v : World)
        → v.handled ≡ w.handled
        → (run_handler env ev cfg sub entry v).2.handled
          ≡ record { event = ev; entry = entry; sub = sub } ∷ w.handled
    unfolding run_handler
    run_handler-ran v same = ground (arith, same)

    limit_reply-Allowed :
        Unless Allowed entry w (limit_reply env ev cfg sub expected_org expected_channel entry w)
    unfolding limit_reply
    limit_reply-Allowed =
        let (ok, buckets') = allow entry.org_id ev.type cfg.rate_limit env.now w.buckets in
        let w' : World = record w { buckets = buckets' } in
        if_known (Unless Allowed entry w) ok (λ yes. inr (run_handler-ran w' refl, yes))
          (λ _. inl (
            write_audit-handled env ev entry expected_org expected_channel "rejected:rate_limited"
                w',
            refl,
          ))

    -- The type has a handler, the channel accepts it, the channel has the flags that it needs, and the
    -- limiter lets it through.
    pub record IsPermitted : Type 0 where
      pub known : any (str_eq ev.type) w.handlers ≡ true
      pub accepted : match_any_glob env ev.type cfg.accepted_reply_types ≡ true
      pub elevated : (required_trust ev.type).0 ≡ true → cfg.trust_elevated ≡ true
      pub deregister : (required_trust ev.type).1 ≡ true → cfg.allow_deregister ≡ true
      pub allowed : Allowed

    dispatch_type-IsPermitted :
        Unless IsPermitted entry w
          (dispatch_type env ev cfg sub expected_org expected_channel entry w)
    unfolding dispatch_type lacks_trust
    dispatch_type-IsPermitted =
        if_known (Unless IsPermitted entry w) (not (any (str_eq ev.type) w.handlers))
          (λ _. inl (
            write_audit-handled env ev entry expected_org expected_channel "rejected:unknown_type"
                w,
            refl,
          ))
          (λ known.
            if_known (Unless IsPermitted entry w)
              (not (match_any_glob env ev.type cfg.accepted_reply_types)) (λ _. inl (refl, refl))
              (λ accepted.
                if_known (Unless IsPermitted entry w) (lacks_trust ev cfg)
                  (λ _. inl (
                    write_audit-handled env ev entry expected_org expected_channel
                        "rejected:trust_required" w,
                    refl,
                  ))
                  (λ trusted.
                    Unless-map Allowed IsPermitted entry w
                      (limit_reply env ev cfg sub expected_org expected_channel entry w)
                      (λ allowed. record {
                        known = ground arith;
                        accepted = ground arith;
                        elevated = λ needs. ground arith;
                        deregister = λ needs. ground arith;
                        allowed = allowed;
                      })
                      limit_reply-Allowed)))

    abbrev Matches : String → String → Type 0
    Matches expected actual = (expected ≡ "") ⊎ (actual ≡ expected)

    mismatches-Matches :
        (expected actual : String) → mismatches expected actual ≡ false → Matches expected actual
    mismatches-Matches expected actual h = elim (Bool-cases (is_blank expected)) [
      | inl blank ↦ inl (eq_of_str_eq expected "" blank)
      | inr named ↦ inr (ground (arith, eq_iff actual expected))
    ]

    -- The reply answers an event of the expected org and channel, in time, and is permitted.
    pub record IsCleared : Type 0 where
      pub timely : is_stale env entry ≡ false
      pub org : Matches expected_org entry.org_id
      pub channel : Matches expected_channel entry.channel_id
      pub permitted : IsPermitted

    dispatch_entry-IsCleared :
        Unless IsCleared entry w
          (dispatch_entry env ev cfg sub expected_org expected_channel entry w)
    unfolding dispatch_entry
    dispatch_entry-IsCleared =
        if_known (Unless IsCleared entry w) (is_stale env entry)
          (λ _. inl (
            write_audit-handled env ev entry expected_org expected_channel
                "rejected:alertref_expired" w,
            refl,
          ))
          (λ timely.
            if_known (Unless IsCleared entry w) (mismatches expected_org entry.org_id)
              (λ _. inl (
                write_audit-handled env ev entry expected_org expected_channel
                    "rejected:org_mismatch" w,
                refl,
              ))
              (λ org.
                if_known (Unless IsCleared entry w) (mismatches expected_channel entry.channel_id)
                  (λ _. inl (
                    write_audit-handled env ev entry expected_org expected_channel
                        "rejected:channel_mismatch" w,
                    refl,
                  ))
                  (λ channel.
                    Unless-map IsPermitted IsCleared entry w
                      (dispatch_type env ev cfg sub expected_org expected_channel entry w)
                      (λ permitted. record {
                        timely = timely;
                        org = mismatches-Matches expected_org entry.org_id org;
                        channel = mismatches-Matches expected_channel entry.channel_id channel;
                        permitted = permitted;
                      })
                      dispatch_type-IsPermitted)))

  -- The registry after the lookup, which may have dropped an expired entry.
  abbrev looked_up : World → World
  looked_up w = record w {
    entries = (lookup env.registry env.now (extract_alertref ev) w.entries).1;
  }

  -- No handler ran, or the handler of a cleared reply.
  abbrev pub IsAnswered : World → Outcome → Type 0
  IsAnswered w o =
      ((o.2.handled ≡ w.handled) × (o.0 ≡ false))
      ⊎ ((entry : Entry) × (o.2.handled
            ≡ record { event = ev; entry = entry; sub = sub } ∷ w.handled)
          × (entry.event_id ≡ extract_alertref ev)
          × IsLive env.registry env.now entry
          × IsCleared entry (looked_up w))

  -- Whatever a reply, a channel's configuration and the expectations of the caller are: either no handler
  -- runs and the reply is not accepted; or the handler runs once, and then on a live entry of the
  -- registry whose id is the reply's alertref, no older than the dispatcher's limit, of the expected org
  -- and channel where they are given, for a type that has a handler and that the channel accepts, with the trust flags
  -- that the type requires, and within the rate limit.
  pub dispatch_core-IsAnswered :
      (w : World) → IsAnswered w (dispatch_core env ev cfg sub expected_org expected_channel w)
  unfolding dispatch_core
  dispatch_core-IsAnswered w =
      if_rule (IsAnswered w) (is_blank (extract_alertref ev)) (inl (refl, refl))
        (by_entry (lookup env.registry env.now (extract_alertref ev) w.entries).0 refl)
    where
      by_entry :
          (found : Option Entry)
          → (lookup env.registry env.now (extract_alertref ev) w.entries).0 ≡ found
          → IsAnswered w (
              let o : Outcome = elim found [
                | none ↦ (
                  false,
                  some unknown_alertref,
                  audit_unknown env ev expected_org expected_channel (looked_up w),
                )
                | some entry ↦
                    dispatch_entry env ev cfg sub expected_org expected_channel entry (looked_up w)
              ] in
              o)
      by_entry none e =
          inl (audit_unknown-handled env ev expected_org expected_channel (looked_up w), refl)
      by_entry (some entry) e =
          let (is, live) =
            lookup_sound env.registry env.now (extract_alertref ev) w.entries entry e in
          elim (dispatch_entry-IsCleared entry (looked_up w)) [
            | inl off ↦ inl off
            | inr (ran, cleared) ↦ inr (entry, ran, is, live, cleared)
          ]
