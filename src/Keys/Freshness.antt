-- ===== src/Keys/Freshness.antt =====
-- internal/auth/jwks/manager.go: the active key after a rotation.
use yip_yap_foss.Prelude.{
  ℕ, ◌+◌, ◌<◌, true, false, ◌≡◌, ◌≢◌, refl, sym, ◌∙◌, ap, arith, inl, inr, String, Option, none,
  some, List, any, passed, Bool-cases, Option-cases,
}
use yip_yap_foss.Store.Time.{stored_time, stored_time_bounds}
use yip_yap_foss.Keys.Store.{
  active, retiring, SigningKey, KeyRow, has_kid, find_key, place, update_status, list_by_status,
}
use yip_yap_foss.Keys.Manager.{
  active_key_max_age, Env, Fault, list_failed, generate_failed, save_failed, retire_failed,
  default_algorithm, generate, latest_active, is_due, retire, save_new, mint_key, mint, mint_if_due,
  sweep, sweep_after, rotate,
}
use yip_yap_foss.Keys.Rows.{
  HasKids, known_kid, find-place_new, find-set_other, HasKids-place, HasKids-set_status,
}
use yip_yap_foss.Keys.Listed.{IsLatest, list_by_status-Listed, latest_active-Listed}
use yip_yap_foss.Keys.Transitions.{save-Saved, update_status-set}
use yip_yap_foss.Keys.Rotation.{active_apart}
use yip_yap_foss.Keys.Sweeps.{sweep-Swept}

-- There is an active key younger than a week, by the stored instant.
abbrev pub HasFresh : ℕ → List KeyRow → Type 0
HasFresh now rows =
    (kid : String) × (r : KeyRow) × (find_key kid rows ≡ some r)
    × (r.status ≡ active)
    × (now < r.created_at + active_key_max_age)

failed_not : (f : Fault) → some f ≢ none
failed_not f e = ground (arith, e)

module _ (env : Env) where
  -- The first half left the primary key and a fresh key, unless it failed.
  abbrev Half : Option Fault × List KeyRow → Type 0
  Half o = o.0 ≡ none → HasKids o.1 × HasFresh env.now o.1

  retire-Half :
      (latest : Option SigningKey) (new : KeyRow) (rows : List KeyRow)
      → HasKids rows
      → any (has_kid new.kid) rows ≡ false
      → IsLatest rows latest
      → new.status ≡ active
      → new.created_at ≡ stored_time env.now
      → Half (retire env latest (place new rows))
  retire-Half none new rows keys fresh is on at =
      let (_, close) = stored_time_bounds env.now in
      λ ok. (
        HasKids-place new rows fresh keys,
        (new.kid, new, find-place_new new rows fresh, on, omega (arith, close, at)),
      )
  retire-Half (some k) new rows keys fresh ((q, listed, _, _, _), _) on at =
      elim (Option-cases
        (update_status env.retire_ok k.kid retiring (some env.now) (place new rows))) [
          | inl failed ↦ rw (failed, retire) (λ ok. absurd (failed_not retire_failed ok))
          | inr (rows', done) ↦
              let set = update_status-set _ _ _ _ (place new rows) rows' done in
              let apart : new.kid ≢ k.kid =
                λ same. known_kid k.kid new.kid rows q fresh listed (sym same) in
              let (_, close) = stored_time_bounds env.now in
              rw (done, retire, set)
                (λ ok. (
                  HasKids-set_status k.kid retiring (some env.now) (place new rows)
                      (HasKids-place new rows fresh keys),
                  (
                    new.kid,
                    new,
                    find-set_other new.kid k.kid retiring (some env.now) (place new rows) apart
                        ∙ find-place_new new rows fresh,
                    on,
                    omega (arith, close, at),
                  ),
                ))
        ]

  mint_key-Half :
      (k : SigningKey) (latest : Option SigningKey) (rows : List KeyRow)
      → k.status ≡ active
      → HasKids rows
      → IsLatest rows latest
      → Half (mint_key env k latest rows)
  unfolding mint_key
  mint_key-Half k latest rows on keys is = elim (Option-cases (save_new env k rows)) [
    | inl failed ↦ rw (failed, mint_key) (λ ok. absurd (failed_not save_failed ok))
    | inr (rows', done) ↦
        let (_, wrote) = passed env.save_ok _ rows' done in
        let (new, placed, fresh, _, status, created) = save-Saved _ _ rows rows' wrote in
        rw (done, mint_key, placed)
          (retire-Half latest new rows keys fresh is (status ∙ on) created)
  ]

  generate-active : (alg : String) (k : SigningKey) → generate env alg ≡ some k → k.status ≡ active
  unfolding generate
  generate-active alg k made = ground (arith, made)

  first-Half :
      (latest : Option SigningKey) (rows : List KeyRow)
      → HasKids rows
      → IsLatest rows latest
      → Half (mint_if_due env latest rows)
  unfolding mint_if_due mint
  first-Half latest rows keys is = elim (Bool-cases (is_due env.now latest)) [
    | inl due ↦ elim (Option-cases (generate env default_algorithm)) [
      | inl failed ↦
          rw (due, mint_if_due, failed, mint) (λ ok. absurd (failed_not generate_failed ok))
      | inr (k, made) ↦
          rw (due, mint_if_due, made, mint)
            (mint_key-Half k latest rows (generate-active default_algorithm k made) keys is)
    ]
    | inr young ↦ rw (young, mint_if_due) (λ ok. (keys, still_fresh latest is young))
  ]
    where
      still_fresh :
          (latest : Option SigningKey)
          → IsLatest rows latest
          → is_due env.now latest ≡ false
          → HasFresh env.now rows
      still_fresh none is young = ground (arith, young)
      still_fresh (some k) ((q, listed, status, _, created), on) young =
          (k.kid, q, listed, status ∙ on, ground (arith, young, created))

  sweep-HasFresh :
      (rows : List KeyRow)
      → HasKids rows
      → HasFresh env.now rows
      → HasFresh env.now (sweep env rows).1
  sweep-HasFresh rows keys (kid, r, at, on, young) = elim (sweep-Swept env kid r rows keys at).1 [
    | inl (r', at', inl same) ↦ (kid, r, at' ∙ ap some same, on, young)
    | inl (r', at', inr (t, off, _, _, _)) ↦ absurd (active_apart (sym on ∙ off))
    | inr (t, off, _, _) ↦ absurd (off on)
  ]

-- A rotation without an error leaves an active key that is younger than a week, by the stored instant: the one that was
-- there, or a new one.
pub rotate-HasFresh :
    (env : Env) (rows : List KeyRow)
    → HasKids rows
    → (rotate env rows).0 ≡ none
    → HasFresh env.now (rotate env rows).1
unfolding rotate sweep_after
rotate-HasFresh env rows keys =
    elim (Option-cases (list_by_status env.envelope env.list_ok (λ _. true) rows)) [
      | inl failed ↦ rw (failed, rotate) (λ ok. absurd (failed_not list_failed ok))
      | inr (ks, listed) ↦
          rw (listed, rotate)
            (swept (mint_if_due env (latest_active ks) rows) (
              first-Half env (latest_active ks) rows keys (
                latest_active-Listed rows ks
                  (list_by_status-Listed env.envelope env.list_ok rows ks keys listed))))
    ]
  where
    swept :
        (o : Option Fault × List KeyRow)
        → Half env o
        → (sweep_after env o).0 ≡ none
        → HasFresh env.now (sweep_after env o).1
    swept (some f, rows') half ok = absurd (failed_not f ok)
    swept (none, rows') half ok =
        let (keys', fresh) = half refl in sweep-HasFresh env rows' keys' fresh
