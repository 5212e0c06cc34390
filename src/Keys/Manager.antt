-- ===== src/Keys/Manager.antt =====
-- internal/auth/jwks: manager.go, boot.go and the constants of types.go. A call of Rotate holds a mutex, so rotations
-- come one after another.
use yip_yap_foss.Prelude.{
  ℕ, ltb, pos, leb_ℤ, since, Bool, true, false, ◌&&◌, String, str_eq, Option, none, some, List, [],
  ◌∷◌, any, if◌then◌else◌,
}
use yip_yap_foss.Keys.Store.{
  KeyStatus, active, retiring, expired, SigningKey, KeyRow, Envelope, is_active_key, is_retiring,
  save, list_by_status, update_status, delete_expired_before,
}

abbrev pub active_key_max_age : ℕ
active_key_max_age = 604800000000000

abbrev pub retiring_overlap : ℕ
retiring_overlap = 1209600000000000

abbrev pub expired_key_prune_age : ℕ
expired_key_prune_age = 2592000000000000

abbrev pub default_algorithm : String
default_algorithm = "EdDSA"

-- `Valid`.
unfoldable pub is_valid : String → Bool
is_valid alg = any (str_eq alg) (
    "EdDSA" ∷ "RS256" ∷ "RS384" ∷ "RS512" ∷ "PS256" ∷ "PS384" ∷ "PS512" ∷ "ES256" ∷ "ES384"
    ∷ "ES512" ∷ [])

-- The clock, a new identifier, the private key and the public JWK that the crypto libraries make, the envelope, and the
-- queries that succeed.
pub record Env : Type 0 where
  pub now : ℕ
  pub new_kid : String
  pub keygen : String → Option (String × String)
  pub envelope : Envelope
  -- `json.Unmarshal` of a JWK, and whether `jose.NewSigner` takes a key.
  pub decode_jwk : String → Option String
  pub accepts_key : SigningKey → Bool
  pub list_ok : Bool
  pub relist_ok : Bool
  pub save_ok : Bool
  pub retire_ok : Bool
  pub expire_ok : String → Bool
  pub prune_ok : Bool

-- Where `Rotate` stopped with an error.
pub data Fault : Type 0 where
  list_failed generate_failed save_failed retire_failed relist_failed expire_failed prune_failed :
      Fault

-- `Generate`.
unfoldable pub generate : Env → String → Option SigningKey
unfolding is_valid
generate env alg =
    if is_valid alg
    then elim (env.keygen alg) [
      | none ↦ none
      | some made ↦ some (record {
        kid = env.new_kid;
        algorithm = alg;
        private_key = made.0;
        public_jwk = made.1;
        status = active;
        created_at = env.now;
        activated_at = none;
        retired_at = none;
      })
    ]
    else none

-- The newer of an active key and the latest so far.
abbrev pub newer : Option SigningKey → SigningKey → Option SigningKey
newer none k = some k
newer (some out) k = if ltb out.created_at k.created_at then some k else some out

-- The loop of `latestActive`, from what it has so far.
unfoldable pub latest_from : Option SigningKey → List SigningKey → Option SigningKey
latest_from out [] = out
latest_from out (k ∷ ks) = latest_from (if is_active_key k.status then newer out k else out) ks

-- `latestActive`.
unfoldable pub latest_active : List SigningKey → Option SigningKey
unfolding latest_from
latest_active ks = latest_from none ks

-- Whether `rotateLocked` mints.
abbrev pub is_due : ℕ → Option SigningKey → Bool
is_due now none = true
is_due now (some k) = leb_ℤ (pos active_key_max_age) (since now k.created_at)

abbrev pub retire : Env → Option SigningKey → List KeyRow → Option Fault × List KeyRow
retire env none rows = (none, rows)
retire env (some k) rows = elim (update_status env.retire_ok k.kid retiring (some env.now) rows) [
  | none ↦ (some retire_failed, rows)
  | some rows' ↦ (none, rows')
]

-- `Save` of the new key, from now on active.
abbrev pub save_new : Env → SigningKey → List KeyRow → Option (List KeyRow)
save_new env k rows =
    if env.save_ok
    then save env.envelope (record k { created_at = env.now; activated_at = some env.now }) rows
    else none

unfoldable pub mint_key :
    Env → SigningKey → Option SigningKey → List KeyRow → Option Fault × List KeyRow
mint_key env k latest rows = elim (save_new env k rows) [
  | none ↦ (some save_failed, rows)
  | some rows' ↦ retire env latest rows'
]

-- The branch of `rotateLocked` that mints.
unfoldable pub mint : Env → Option SigningKey → List KeyRow → Option Fault × List KeyRow
unfolding generate mint_key
mint env latest rows = elim (generate env default_algorithm) [
  | none ↦ (some generate_failed, rows)
  | some k ↦ mint_key env k latest rows
]

-- A retiring key is past the overlap.
abbrev pub is_overdue : ℕ → KeyStatus → Option ℕ → Bool
is_overdue now status none = false
is_overdue now status (some t) = is_retiring status && leb_ℤ (pos retiring_overlap) (since now t)

-- The loop that expires.
unfoldable pub expire : Env → List SigningKey → List KeyRow → Option Fault × List KeyRow
expire env [] rows = (none, rows)
expire env (k ∷ ks) rows = elim (is_overdue env.now k.status k.retired_at) [
  | false ↦ expire env ks rows
  | true ↦ elim (update_status (env.expire_ok k.kid) k.kid expired k.retired_at rows) [
    | none ↦ (some expire_failed, rows)
    | some rows' ↦ expire env ks rows'
  ]
]

-- The last step of `rotateLocked`, unless the loop failed.
unfoldable pub prune_after : Env → Option Fault × List KeyRow → Option Fault × List KeyRow
unfolding delete_expired_before
prune_after env (some f, rows) = (some f, rows)
prune_after env (none, rows) =
    if env.prune_ok
    then (none, delete_expired_before env.now expired_key_prune_age rows)
    else (some prune_failed, rows)

-- `rotateLocked`, from the second listing on.
unfoldable pub sweep : Env → List KeyRow → Option Fault × List KeyRow
unfolding list_by_status expire prune_after
sweep env rows = elim (list_by_status env.envelope env.relist_ok (λ _. true) rows) [
  | none ↦ (some relist_failed, rows)
  | some ks ↦ prune_after env (expire env ks rows)
]

-- The second half, unless the first failed.
unfoldable pub sweep_after : Env → Option Fault × List KeyRow → Option Fault × List KeyRow
unfolding sweep
sweep_after env (some f, rows) = (some f, rows)
sweep_after env (none, rows) = sweep env rows

-- The first half: a key is minted if one is due.
unfoldable pub mint_if_due : Env → Option SigningKey → List KeyRow → Option Fault × List KeyRow
unfolding mint
mint_if_due env latest rows = if is_due env.now latest then mint env latest rows else (none, rows)

-- `rotateLocked`, which `Rotate` calls; the metrics are left out.
unfoldable pub rotate : Env → List KeyRow → Option Fault × List KeyRow
unfolding list_by_status latest_active mint_if_due sweep_after
rotate env rows = elim (list_by_status env.envelope env.list_ok (λ _. true) rows) [
  | none ↦ (some list_failed, rows)
  | some ks ↦ sweep_after env (mint_if_due env (latest_active ks) rows)
]
