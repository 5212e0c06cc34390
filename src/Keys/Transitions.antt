-- ===== src/Keys/Transitions.antt =====
-- internal/auth/jwks/manager.go: what `rotateLocked` does to the row of each key.
use yip_yap_foss.Prelude.{
  ℕ, ◌+◌, ◌≤◌, Bool, false, ◌≡◌, ◌≢◌, refl, sym, ◌∙◌, ap, arith, inl, inr, ◌⊎◌, String, str_eq,
  Option, none, some, List, any, bound, some_injective, passed, passed_not, Bool-cases,
  Option-cases, str_eq_refl, eq_of_str_eq,
}
use yip_yap_foss.Store.Time.{stored_time}
use yip_yap_foss.Keys.Store.{
  KeyStatus, active, retiring, expired, SigningKey, KeyRow, Envelope, has_kid, find_key, place,
  create_key, save, set_status, update_status,
}
use yip_yap_foss.Keys.Manager.{
  retiring_overlap, Env, default_algorithm, generate, retire, save_new, mint_key, mint,
}
use yip_yap_foss.Keys.Rows.{
  HasKids, known_kid, find-place_other, find-set_same, find-set_other, HasKids-set_status,
  HasKids-place,
}
use yip_yap_foss.Keys.Listed.{IsLatest}

abbrev pub retired_row : ℕ → KeyRow → KeyRow
retired_row now r = record r { status = retiring; retired_at = some (stored_time now) }

abbrev pub expired_row : ℕ → KeyRow → KeyRow
expired_row t r = record r { status = expired; retired_at = some (stored_time t) }

-- The row as it was, or retired now if it was active.
abbrev pub Retires : ℕ → KeyRow → KeyRow → Type 0
Retires now r r' = (r' ≡ r) ⊎ ((r.status ≡ active) × (r' ≡ retired_row now r))

-- The row as it was, or expired if it had been retiring for the overlap.
abbrev pub Expires : ℕ → KeyRow → KeyRow → Type 0
Expires now r r' =
    (r' ≡ r)
    ⊎ ((t : ℕ) × (r.status ≡ retiring)
        × (r.retired_at ≡ some t)
        × (t + retiring_overlap ≤ now)
        × (r' ≡ expired_row t r))

-- What `Save` adds.
abbrev Saved : SigningKey → List KeyRow → List KeyRow → Type 0
Saved k rows rows' =
    (new : KeyRow) × (rows' ≡ place new rows)
    × (any (has_kid new.kid) rows ≡ false)
    × (new.kid ≡ k.kid)
    × (new.status ≡ k.status)
    × (new.created_at ≡ stored_time k.created_at)

pub save-Saved :
    (e : Envelope) (k : SigningKey) (rows rows' : List KeyRow)
    → save e k rows ≡ some rows'
    → Saved k rows rows'
unfolding save create_key
save-Saved e k rows rows' is =
    let (der, _, encrypted) = bound (e.marshal k.private_key) _ rows' is in
    let (ct, _, created) = bound (e.encrypt der) _ rows' encrypted in
    let (fresh, placed) = passed_not (any (has_kid k.kid) rows) _ rows' created in
    (_, sym (some_injective _ _ placed), fresh, refl, refl, refl)

pub update_status-set :
    (ok : Bool) (kid : String) (s : KeyStatus) (at : Option ℕ) (rows rows' : List KeyRow)
    → update_status ok kid s at rows ≡ some rows'
    → rows' ≡ set_status kid s at rows
unfolding update_status
update_status-set ok kid s at rows rows' is = ground (arith, is)

pub IsLatest-place :
    (latest : Option SigningKey) (new : KeyRow) (rows : List KeyRow)
    → any (has_kid new.kid) rows ≡ false
    → IsLatest rows latest
    → IsLatest (place new rows) latest
IsLatest-place none new rows fresh is = tt
IsLatest-place (some k) new rows fresh ((q, listed, status, retired, created), on) = (
  (
    q,
    find-place_other new k.kid rows (known_kid k.kid new.kid rows q fresh listed) ∙ listed,
    status,
    retired,
    created,
  ),
  on,
)

module _ (env : Env) (kid : String) (r : KeyRow) where
  -- The key's row after a step, and that the step keeps the primary key.
  abbrev pub After : (ℕ → KeyRow → KeyRow → Type 0) → List KeyRow → Type 0
  After Goes rows' =
      HasKids rows' × ((r' : KeyRow) × (find_key kid rows' ≡ some r') × Goes env.now r r')

  pub retire-After :
      (latest : Option SigningKey) (rows : List KeyRow)
      → HasKids rows
      → find_key kid rows ≡ some r
      → IsLatest rows latest
      → After Retires (retire env latest rows).1
  retire-After none rows keys found is = (keys, (r, found, inl refl))
  retire-After (some k) rows keys found ((q, listed, status, _, _), on) =
      elim (Option-cases (update_status env.retire_ok k.kid retiring (some env.now) rows)) [
        | inl failed ↦ rw (failed, retire) (keys, (r, found, inl refl))
        | inr (rows', done) ↦
            let set = update_status-set _ _ _ _ rows rows' done in
            rw (done, retire, set)
              (
                HasKids-set_status k.kid retiring (some env.now) rows keys,
                elim (Bool-cases (str_eq kid k.kid)) [
                  | inl same ↦
                      let here : kid ≡ k.kid = eq_of_str_eq kid k.kid same in
                      let there : find_key k.kid rows ≡ some r =
                        ap (λ i. find_key i rows) (sym here) ∙ found in
                      let is_row : q ≡ r = some_injective q r (sym listed ∙ there) in
                      (
                        retired_row env.now r,
                        ap (λ i. find_key i (set_status k.kid retiring (some env.now) rows)) here
                            ∙ find-set_same k.kid retiring (some env.now) rows r there,
                        inr (ap (λ (row : KeyRow). row.status) (sym is_row) ∙ status ∙ on, refl),
                      )
                  | inr other ↦
                      let apart : kid ≢ k.kid = λ e. cc (e, str_eq_refl k.kid, other) in
                      (
                        r,
                        find-set_other kid k.kid retiring (some env.now) rows apart ∙ found,
                        inl refl,
                      )
                ],
              )
      ]

  mint_key-After :
      (k : SigningKey) (latest : Option SigningKey) (rows : List KeyRow)
      → HasKids rows
      → find_key kid rows ≡ some r
      → IsLatest rows latest
      → After Retires (mint_key env k latest rows).1
  unfolding mint_key
  mint_key-After k latest rows keys found is = elim (Option-cases (save_new env k rows)) [
    | inl failed ↦ rw (failed, mint_key) (keys, (r, found, inl refl))
    | inr (rows', done) ↦
        let (_, wrote) = passed env.save_ok _ rows' done in
        let (new, placed, fresh, _, _, _) = save-Saved _ _ rows rows' wrote in
        rw (done, mint_key, placed)
          (retire-After latest (place new rows) (HasKids-place new rows fresh keys)
            (find-place_other new kid rows (known_kid kid new.kid rows r fresh found) ∙ found)
            (IsLatest-place latest new rows fresh is))
  ]

  pub mint-After :
      (latest : Option SigningKey) (rows : List KeyRow)
      → HasKids rows
      → find_key kid rows ≡ some r
      → IsLatest rows latest
      → After Retires (mint env latest rows).1
  unfolding mint
  mint-After latest rows keys found is = elim (Option-cases (generate env default_algorithm)) [
    | inl failed ↦ rw (failed, mint) (keys, (r, found, inl refl))
    | inr (k, made) ↦ rw (made, mint) (mint_key-After k latest rows keys found is)
  ]
