-- ===== src/Keys/Sweeps.antt =====
-- internal/auth/jwks/manager.go: what the second half of `rotateLocked` does to the row of each key, and the whole of it.
use yip_yap_foss.Prelude.{
  ℕ, ◌+◌, ◌≤◌, ◌<◌, true, false, not, ◌&&◌, ltb, ◌≡◌, ◌≢◌, refl, sym, subst, ◌∙◌, ap, arith, inl,
  inr, ◌⊎◌, String, str_eq, Option, none, some, List, [], ◌∷◌, All, some_injective, Bool-cases,
  Option-cases, if_rule, str_eq_refl, eq_of_str_eq,
}
use yip_yap_foss.Store.Time.{stored_time, stored_optional, stored_time_bounds}
use yip_yap_foss.Keys.Store.{
  KeyStatus, is_expired_key, is_active_key, active, retiring, expired, SigningKey, KeyRow, find_key,
  set_status, update_status, list_by_status, is_prunable, delete_expired_before,
}
use yip_yap_foss.Keys.Manager.{
  retiring_overlap, expired_key_prune_age, Env, Fault, latest_active, is_due, mint_if_due,
  is_overdue, expire, prune_after, sweep, sweep_after, rotate,
}
use yip_yap_foss.Keys.Rows.{
  HasKids, find-set_same, find-set_other, find-keep, HasKids-set_status, HasKids-keep,
}
use yip_yap_foss.Keys.Listed.{Listed, IsLatest, list_by_status-Listed, latest_active-Listed}
use yip_yap_foss.Keys.Transitions.{
  expired_row, Retires, Expires, update_status-set, After, mint-After,
}

overdue_since :
    (now : ℕ) (s : KeyStatus) (at : Option ℕ)
    → is_overdue now s at ≡ true
    → (t : ℕ) × (s ≡ retiring) × (at ≡ some t) × (t + retiring_overlap ≤ now)
overdue_since now active none h = ground (arith, h)
overdue_since now active (some t) h = ground (arith, h)
overdue_since now expired none h = ground (arith, h)
overdue_since now expired (some t) h = ground (arith, h)
overdue_since now retiring none h = ground (arith, h)
overdue_since now retiring (some t) h = (t, refl, refl, ground (arith, h))

prunable_since :
    (now age : ℕ) (s : KeyStatus) (at : Option ℕ)
    → (is_expired_key s && elim at [ none ↦ false | some t ↦ ltb (t + age) (stored_time now) ])
      ≡ true
    → (t : ℕ) × (s ≡ expired) × (at ≡ some t) × (t + age < stored_time now)
prunable_since now age active at h = ground (arith, h)
prunable_since now age retiring at h = ground (arith, h)
prunable_since now age expired none h = ground (arith, h)
prunable_since now age expired (some t) h = (t, refl, refl, ground (arith, h))

-- The key had been retired longer ago than the age at which expired rows are deleted.
abbrev pub Gone : ℕ → KeyRow → Type 0
Gone now r =
    (t : ℕ) × (r.status ≢ active)
    × (r.retired_at ≡ some t)
    × (stored_time t + expired_key_prune_age < stored_time now)

-- A row that is expired, for the first time or again.
expired_again :
    (now : ℕ) (r c : KeyRow) (s : KeyStatus) (at : Option ℕ)
    → is_overdue now s at ≡ true
    → r.status ≡ s
    → r.retired_at ≡ at
    → Expires now r c
    → Expires now r (record c { status = expired; retired_at = stored_optional at })
expired_again now r c s at over status retired moved =
    let (t, is_retiring, since_t, long) = overdue_since now s at over in
    let at_since : record r { status = expired; retired_at = stored_optional at }
        ≡ expired_row t r =
      ap (λ o. record r { status = expired; retired_at = stored_optional o }) since_t in
    let again : record c { status = expired; retired_at = stored_optional at } ≡ expired_row t r =
      elim moved [
        | inl same ↦
            ap (λ (row : KeyRow). record row { status = expired; retired_at = stored_optional at })
              same
            ∙ at_since
        | inr (t', _, _, _, is) ↦
            ap (λ (row : KeyRow). record row { status = expired; retired_at = stored_optional at })
              is
            ∙ at_since
      ] in
    inr (t, status ∙ is_retiring, retired ∙ since_t, long, again)

module _ (env : Env) (kid : String) (r : KeyRow) (rows : List KeyRow)
    (found : find_key kid rows ≡ some r) where
  expire-After :
      (ks : List SigningKey) (cur : List KeyRow)
      → All (Listed rows) ks
      → After env kid r Expires cur
      → After env kid r Expires (expire env ks cur).1
  unfolding expire
  expire-After [] cur listed after = after
  expire-After (k ∷ ks) cur (((q, at, status, retired, _), rest)) (keys, (c, now_is, moved)) =
      elim (Bool-cases (is_overdue env.now k.status k.retired_at)) [
        | inr due ↦ rw (due, expire) (expire-After ks cur rest (keys, (c, now_is, moved)))
        | inl over ↦
            elim (Option-cases
              (update_status (env.expire_ok k.kid) k.kid expired k.retired_at cur)) [
                | inl failed ↦ rw (over, expire, failed) (keys, (c, now_is, moved))
                | inr (rows', done) ↦
                    let set = update_status-set _ _ _ _ cur rows' done in
                    rw (over, expire, done, set)
                      (expire-After ks (set_status k.kid expired k.retired_at cur) rest (
                        HasKids-set_status k.kid expired k.retired_at cur keys,
                        elim (Bool-cases (str_eq kid k.kid)) [
                          | inl same ↦
                              let here : kid ≡ k.kid = eq_of_str_eq kid k.kid same in
                              let is_row : q ≡ r =
                                some_injective q r
                                  (sym at ∙ ap (λ i. find_key i rows) (sym here) ∙ found) in
                              (
                                record c {
                                  status = expired;
                                  retired_at = stored_optional k.retired_at;
                                },
                                ap (λ i. find_key i (set_status k.kid expired k.retired_at cur))
                                      here
                                    ∙ find-set_same k.kid expired k.retired_at cur c
                                        (ap (λ i. find_key i cur) (sym here) ∙ now_is),
                                expired_again env.now r c k.status k.retired_at over
                                    (ap (λ (row : KeyRow). row.status) (sym is_row) ∙ status)
                                    (ap (λ (row : KeyRow). row.retired_at) (sym is_row) ∙ retired)
                                    moved,
                              )
                          | inr other ↦
                              let apart : kid ≢ k.kid = λ e. cc (e, str_eq_refl k.kid, other) in
                              (
                                c,
                                find-set_other kid k.kid expired k.retired_at cur apart ∙ now_is,
                                moved,
                              )
                        ],
                      ))
              ]
      ]

-- After the second half of `rotateLocked`, or after the whole.
abbrev pub Swept : ℕ → String → KeyRow → (ℕ → KeyRow → KeyRow → Type 0) → List KeyRow → Type 0
Swept now kid r Goes rows' =
    HasKids rows' × (((r' : KeyRow) × (find_key kid rows' ≡ some r') × Goes now r r') ⊎ Gone now r)

stored_earlier :
    (t now : ℕ)
    → stored_time t + expired_key_prune_age < stored_time now
    → stored_time (stored_time t) + expired_key_prune_age < stored_time now
stored_earlier t now h =
    let (below, _) = stored_time_bounds (stored_time t) in omega (arith, below, h)

active_only : (s : KeyStatus) → is_active_key s ≡ false → s ≢ active
active_only s off on = cc (off, ap is_active_key on)

-- A row that is pruned was retired long ago.
pruned-Gone :
    (now : ℕ) (r c : KeyRow)
    → Expires now r c
    → is_prunable now expired_key_prune_age c ≡ true
    → Gone now r
unfolding is_prunable
pruned-Gone now r c (inl same) h =
    let (t, status, at, old) = prunable_since now expired_key_prune_age c.status c.retired_at h in
    let (below, _) = stored_time_bounds t in
    (
      t,
      active_only r.status
          (ap is_active_key (ap (λ (row : KeyRow). row.status) (sym same) ∙ status)),
      ap (λ (row : KeyRow). row.retired_at) (sym same) ∙ at,
      omega (arith, below, old),
    )
pruned-Gone now r c (inr (u, was, since_u, _, is)) h =
    let (t, status, at, old) = prunable_since now expired_key_prune_age c.status c.retired_at h in
    let stored : stored_time u ≡ t =
      some_injective _ _ (ap (λ (row : KeyRow). row.retired_at) (sym is) ∙ at) in
    (u, active_only r.status (ap is_active_key was), since_u, omega (arith, stored, old))

module _ (env : Env) (kid : String) (r : KeyRow) where
  prune_after-Swept :
      (o : Option Fault × List KeyRow)
      → After env kid r Expires o.1
      → Swept env.now kid r Expires (prune_after env o).1
  unfolding prune_after delete_expired_before
  prune_after-Swept (some f, rows) (keys, at) = (keys, inl at)
  prune_after-Swept (none, rows) (keys, (c, at, moved)) =
      if_rule (λ (o : Option Fault × List KeyRow). Swept env.now kid r Expires o.1) env.prune_ok
        (
          HasKids-keep _ rows keys,
          elim (Bool-cases (is_prunable env.now expired_key_prune_age c)) [
            | inl old ↦ inr (pruned-Gone env.now r c moved old)
            | inr stays ↦ inl (c, find-keep _ kid rows c at (ap not stays), moved)
          ],
        )
        (keys, inl (c, at, moved))

  pub sweep-Swept :
      (rows : List KeyRow)
      → HasKids rows
      → find_key kid rows ≡ some r
      → Swept env.now kid r Expires (sweep env rows).1
  unfolding sweep
  sweep-Swept rows keys found =
      elim (Option-cases (list_by_status env.envelope env.relist_ok (λ _. true) rows)) [
        | inl failed ↦ rw (failed, sweep) (keys, inl (r, found, inl refl))
        | inr (ks, listed) ↦
            rw (listed, sweep)
              (prune_after-Swept (expire env ks rows) (
                expire-After env kid r rows found ks rows
                  (list_by_status-Listed env.envelope env.relist_ok rows ks keys listed)
                  (keys, (r, found, inl refl))))
      ]

-- One move of a key in a rotation.
abbrev pub Moves : ℕ → KeyRow → KeyRow → Type 0
Moves now r r' = Retires now r r' ⊎ Expires now r r'

-- A key that is retired now is neither expired nor deleted in the same rotation.
after_retiring :
    (now : ℕ) (kid : String) (r c : KeyRow) (rows' : List KeyRow)
    → Retires now r c
    → Swept now kid c Expires rows'
    → Swept now kid r Moves rows'
after_retiring now kid r c rows' (inl same) (keys, inl (r', at, moved)) =
    (keys, inl (r', at, subst (λ row. Moves now row r') same (inr moved)))
after_retiring now kid r c rows' (inl same) (keys, inr gone) =
    (keys, inr (subst (Gone now) same gone))
after_retiring now kid r c rows' (inr (on, is)) (keys, inl (r', at, inl same)) =
    (keys, inl (r', at, inl (inr (on, same ∙ is))))
after_retiring now kid r c rows' (inr (on, is)) (keys, inl (r', at, inr (t, _, since_t, long, _))) =
    let now_is : stored_time now ≡ t =
      some_injective _ _ (ap (λ (row : KeyRow). row.retired_at) (sym is) ∙ since_t) in
    let (_, close) = stored_time_bounds now in absurd (omega (arith, now_is, close, long))
after_retiring now kid r c rows' (inr (on, is)) (keys, inr (t, _, since_t, old)) =
    let now_is : stored_time now ≡ t =
      some_injective _ _ (ap (λ (row : KeyRow). row.retired_at) (sym is) ∙ since_t) in
    let (_, close) = stored_time_bounds t in absurd (omega (arith, now_is, close, old))

-- Whatever fails in a rotation, a key's row is as it was; or was active and is retired now; or was retiring for two weeks and
-- is expired; or it was no longer active and had been retired for more than thirty days, and may be gone. A key has
-- one row before and after.
pub rotate-Moves :
    (env : Env) (kid : String) (r : KeyRow) (rows : List KeyRow)
    → HasKids rows
    → find_key kid rows ≡ some r
    → Swept env.now kid r Moves (rotate env rows).1
unfolding rotate mint_if_due sweep_after
rotate-Moves env kid r rows keys found =
    elim (Option-cases (list_by_status env.envelope env.list_ok (λ _. true) rows)) [
      | inl failed ↦ rw (failed, rotate) (keys, inl (r, found, inl (inl refl)))
      | inr (ks, listed) ↦
          let latest =
            latest_active-Listed rows ks
              (list_by_status-Listed env.envelope env.list_ok rows ks keys listed) in
          rw (listed, rotate)
            (swept (mint_if_due env (latest_active ks) rows) (first_half ks latest))
    ]
  where
    first_half :
        (ks : List SigningKey)
        → IsLatest rows (latest_active ks)
        → After env kid r Retires (mint_if_due env (latest_active ks) rows).1
    first_half ks latest =
        if_rule (λ (o : Option Fault × List KeyRow). After env kid r Retires o.1)
          (is_due env.now (latest_active ks))
          (mint-After env kid r (latest_active ks) rows keys found latest)
          (keys, (r, found, inl refl))

    swept :
        (o : Option Fault × List KeyRow)
        → After env kid r Retires o.1
        → Swept env.now kid r Moves (sweep_after env o).1
    swept (some f, rows') (keys', (c, at, retires)) = (keys', inl (c, at, inl retires))
    swept (none, rows') (keys', (c, at, retires)) =
        after_retiring env.now kid r c _ retires (sweep-Swept env kid c rows' keys' at)
