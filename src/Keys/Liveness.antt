-- ===== src/Keys/Liveness.antt =====
-- internal/auth/jwks/manager.go: a rotation whose queries all succeed.
use yip_yap_foss.Prelude.{
  ℕ, true, false, ◌≡◌, refl, ◌∙◌, arith, inl, inr, String, Option, none, some, List, [], ◌∷◌, any,
  ltb, keep, All, Bool-cases, if_rule,
}
use yip_yap_foss.Keys.Store.{
  KeyStatus, retiring, expired, SigningKey, KeyRow, Envelope, has_kid, place, create_key, save,
  row_to_key, rows_to_keys, list_by_status, set_status, update_status,
}
use yip_yap_foss.Keys.Manager.{
  Env, Fault, default_algorithm, is_valid, generate, latest_active, is_due, retire, mint_key, mint,
  mint_if_due, is_overdue, expire, prune_after, sweep, sweep_after, rotate,
}
use yip_yap_foss.Keys.Rows.{HasKids, find-any, any-set_status, HasKids-place, HasKids-set_status}
use yip_yap_foss.Keys.Listed.{Listed, IsLatest, list_by_status-Listed, latest_active-Listed}
use yip_yap_foss.Keys.Transitions.{IsLatest-place}
use yip_yap_foss.Keys.Freshness.{HasFresh, rotate-HasFresh}

-- A ciphertext that decrypts to a private key.
abbrev pub Opens : Envelope → String → Type 0
Opens e ct = (der : String) × (key : String) × (e.decrypt ct ≡ some der) × (e.parse der ≡ some key)

abbrev pub Readable : Envelope → KeyRow → Type 0
Readable e r = Opens e r.encrypted_private

row_to_key-some :
    (e : Envelope) (r : KeyRow) → Readable e r → (k : SigningKey) × (row_to_key e r ≡ some k)
unfolding row_to_key
row_to_key-some e r (der, key, decrypted, parsed) = (
  record {
    kid = r.kid;
    algorithm = r.algorithm;
    private_key = key;
    public_jwk = r.public_jwk;
    status = r.status;
    created_at = r.created_at;
    activated_at = r.activated_at;
    retired_at = r.retired_at;
  },
  rw (decrypted, parsed) refl,
)

rows_to_keys-some :
    (e : Envelope) (rows : List KeyRow)
    → All (Readable e) rows
    → (ks : List SigningKey) × (rows_to_keys e rows ≡ some ks)
unfolding rows_to_keys
rows_to_keys-some e [] h = ([], refl)
rows_to_keys-some e (r ∷ rows) h =
    let (k, one) = row_to_key-some e r h.0 in
    let (ks, rest) = rows_to_keys-some e rows h.1 in (k ∷ ks, rw (one, rest) refl)

list-some :
    (e : Envelope) (rows : List KeyRow)
    → All (Readable e) rows
    → (ks : List SigningKey) × (list_by_status e true (λ _. true) rows ≡ some ks)
unfolding list_by_status
list-some e rows h = rows_to_keys-some e (keep (λ (r : KeyRow). true) rows) (kept rows h)
  where
    kept :
        (rows : List KeyRow)
        → All (Readable e) rows
        → All (Readable e) (keep (λ (r : KeyRow). true) rows)
    kept [] h = tt
    kept (r ∷ rows) h = (h.0, kept rows h.1)

Readable-set_status :
    (e : Envelope) (kid : String) (s : KeyStatus) (at : Option ℕ) (rows : List KeyRow)
    → All (Readable e) rows
    → All (Readable e) (set_status kid s at rows)
unfolding set_status
Readable-set_status e kid s at [] h = tt
Readable-set_status e kid s at (r ∷ rows) h =
    if_rule (All (Readable e)) (has_kid kid r) (h.0, Readable-set_status e kid s at rows h.1)
      (h.0, Readable-set_status e kid s at rows h.1)

Readable-place :
    (e : Envelope) (new : KeyRow) (rows : List KeyRow)
    → Readable e new
    → All (Readable e) rows
    → All (Readable e) (place new rows)
unfolding place
Readable-place e new [] is h = (is, tt)
Readable-place e new (r ∷ rows) is h =
    if_rule (All (Readable e)) (ltb new.created_at r.created_at) (is, h)
      (h.0, Readable-place e new rows is h.1)

-- The table has a row for the key.
abbrev Present : List KeyRow → SigningKey → Type 0
Present rows k = any (has_kid k.kid) rows ≡ true

Listed-Present :
    (rows : List KeyRow) (ks : List SigningKey) → All (Listed rows) ks → All (Present rows) ks
Listed-Present rows [] h = tt
Listed-Present rows (k ∷ ks) ((q, listed, _, _, _), rest) =
    (find-any k.kid rows q listed, Listed-Present rows ks rest)

Present-set_status :
    (kid : String) (s : KeyStatus) (at : Option ℕ) (rows : List KeyRow) (ks : List SigningKey)
    → All (Present rows) ks
    → All (Present (set_status kid s at rows)) ks
Present-set_status kid s at rows [] h = tt
Present-set_status kid s at rows (k ∷ ks) h =
    (any-set_status k.kid kid s at rows ∙ h.0, Present-set_status kid s at rows ks h.1)

expire-none :
    (env : Env) (ks : List SigningKey) (rows : List KeyRow)
    → ((kid : String) → env.expire_ok kid ≡ true)
    → All (Present rows) ks
    → (expire env ks rows).0 ≡ none
unfolding expire update_status
expire-none env [] rows ok h = refl
expire-none env (k ∷ ks) rows ok h = elim (Bool-cases (is_overdue env.now k.status k.retired_at)) [
  | inr due ↦ rw (due, expire) (expire-none env ks rows ok h.1)
  | inl over ↦
      rw (over, expire, update_status, ok k.kid, h.0)
        (expire-none env ks (set_status k.kid expired k.retired_at rows) ok
          (Present-set_status k.kid expired k.retired_at rows ks h.1))
]

-- Every query succeeds, every row decrypts, and a new key can be made, encrypted and decrypted again, under an
-- identifier that is new.
pub record IsHealthy (env : Env) (rows : List KeyRow) : Type 0 where
  pub lists : env.list_ok ≡ true
  pub relists : env.relist_ok ≡ true
  pub saves : env.save_ok ≡ true
  pub retires : env.retire_ok ≡ true
  pub expires : (kid : String) → env.expire_ok kid ≡ true
  pub prunes : env.prune_ok ≡ true
  pub readable : All (Readable env.envelope) rows
  pub key : String
  pub jwk : String
  pub made : env.keygen default_algorithm ≡ some (key, jwk)
  pub der : String
  pub ct : String
  pub marshalled : env.envelope.marshal key ≡ some der
  pub encrypted : env.envelope.encrypt der ≡ some ct
  pub opens : Opens env.envelope ct
  pub unused : any (has_kid env.new_kid) rows ≡ false

module _ (env : Env) where
  abbrev Sound : Option Fault × List KeyRow → Type 0
  Sound o = (o.0 ≡ none) × HasKids o.1 × All (Readable env.envelope) o.1

  retire-Sound :
      (latest : Option SigningKey) (new : KeyRow) (rows : List KeyRow)
      → env.retire_ok ≡ true
      → IsLatest (place new rows) latest
      → HasKids (place new rows)
      → All (Readable env.envelope) (place new rows)
      → Sound (retire env latest (place new rows))
  unfolding update_status
  retire-Sound none new rows ok is keys plain = (refl, keys, plain)
  retire-Sound (some k) new rows ok ((q, listed, _, _, _), _) keys plain =
      rw (ok, retire, update_status, find-any k.kid (place new rows) q listed)
        (
          refl,
          HasKids-set_status k.kid retiring (some env.now) (place new rows) keys,
          Readable-set_status env.envelope k.kid retiring (some env.now) (place new rows) plain,
        )

  mint-Sound :
      (latest : Option SigningKey) (rows : List KeyRow)
      → IsHealthy env rows
      → HasKids rows
      → IsLatest rows latest
      → Sound (mint_if_due env latest rows)
  unfolding mint_if_due mint generate is_valid mint_key save create_key
  mint-Sound latest rows well keys is = elim (Bool-cases (is_due env.now latest)) [
    | inr young ↦ rw (young, mint_if_due) (refl, keys, well.readable)
    | inl due ↦
        rw
          (
            due, mint_if_due, mint, generate, well.made, mint_key, well.saves, save,
            well.marshalled, well.encrypted, create_key, well.unused,
          )
          (retire-Sound latest _ rows well.retires (IsLatest-place latest _ rows well.unused is)
            (HasKids-place _ rows well.unused keys)
            (Readable-place env.envelope _ rows well.opens well.readable))
  ]

-- A rotation in which every query succeeds, over rows with distinct identifiers that decrypt and with a new key under an
-- unused identifier, returns no error, and so leaves an active key that is younger than a week.
pub rotate_succeeds :
    (env : Env) (rows : List KeyRow)
    → HasKids rows
    → IsHealthy env rows
    → ((rotate env rows).0 ≡ none) × HasFresh env.now (rotate env rows).1
unfolding rotate sweep_after sweep prune_after
rotate_succeeds env rows keys well =
    let (ks, listed) = list-some env.envelope rows well.readable in
    let is =
      latest_active-Listed rows ks (list_by_status-Listed env.envelope true rows ks keys listed) in
    let (minted, keys', plain) = mint-Sound env (latest_active ks) rows well keys is in
    let done = swept (mint_if_due env (latest_active ks) rows) minted keys' plain in
    let ok : (rotate env rows).0 ≡ none = rw (rotate, well.lists, listed) done in
    (ok, rotate-HasFresh env rows keys ok)
  where
    pruned : (o : Option Fault × List KeyRow) → o.0 ≡ none → (prune_after env o).0 ≡ none
    pruned (some f, rows') failed = failed
    pruned (none, rows') clean = rw (prune_after, well.prunes) refl

    swept :
        (o : Option Fault × List KeyRow)
        → o.0 ≡ none
        → HasKids o.1
        → All (Readable env.envelope) o.1
        → (sweep_after env o).0 ≡ none
    swept (some f, rows') failed keys' plain = ground (arith, failed)
    swept (none, rows') minted keys' plain =
        let (ks', listed) = list-some env.envelope rows' plain in
        let there =
          Listed-Present rows' ks'
            (list_by_status-Listed env.envelope true rows' ks' keys' listed) in
        rw (sweep_after, sweep, well.relists, listed)
          (pruned (expire env ks' rows') (expire-none env ks' rows' well.expires there))
