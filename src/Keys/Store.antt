-- ===== src/Keys/Store.antt =====
-- internal/auth/jwks/keystore.go with internal/store/sqlite/oidc_signing_keys.go: the table of signing keys, in the order
-- of `created_at` that every list has; of two rows of one second the older one is first, which SQLite leaves open.
use yip_yap_foss.Prelude.{
  ℕ, ◌+◌, ltb, Bool, true, false, not, ◌&&◌, ◌||◌, String, str_eq, Option, none, some, List, [],
  ◌∷◌, any, first, keep, ◌>>=◌, if◌then◌else◌,
}
use yip_yap_foss.Store.Time.{stored_time, stored_optional}

pub data KeyStatus : Type 0 where
  active retiring expired : KeyStatus

-- The private key is the text of its encoding, whatever the code has for it.
pub record SigningKey : Type 0 where
  pub kid : String
  pub algorithm : String
  pub private_key : String
  pub public_jwk : String
  pub status : KeyStatus
  pub created_at : ℕ
  pub activated_at : Option ℕ
  pub retired_at : Option ℕ

-- `OIDCSigningKey`: the row, with the private key encrypted.
pub record KeyRow : Type 0 where
  pub kid : String
  pub algorithm : String
  pub encrypted_private : String
  pub public_jwk : String
  pub status : KeyStatus
  pub created_at : ℕ
  pub activated_at : Option ℕ
  pub retired_at : Option ℕ

-- PKCS#8 and the envelope, `none` being an error.
pub record Envelope : Type 0 where
  pub marshal : String → Option String
  pub encrypt : String → Option String
  pub decrypt : String → Option String
  pub parse : String → Option String

abbrev pub is_active_key : KeyStatus → Bool
is_active_key active = true
is_active_key _ = false

abbrev pub is_retiring : KeyStatus → Bool
is_retiring retiring = true
is_retiring _ = false

abbrev pub is_expired_key : KeyStatus → Bool
is_expired_key expired = true
is_expired_key _ = false

-- The statuses of the published set.
abbrev pub is_public : KeyStatus → Bool
is_public s = is_active_key s || is_retiring s

abbrev pub has_kid : String → KeyRow → Bool
has_kid kid r = str_eq r.kid kid

-- `GetByKID`.
unfoldable pub find_key : String → List KeyRow → Option KeyRow
find_key kid rows = first (has_kid kid) rows

-- Its place in the order of the lists.
unfoldable pub place : KeyRow → List KeyRow → List KeyRow
place r [] = r ∷ []
place r (s ∷ rows) = if ltb r.created_at s.created_at then r ∷ s ∷ rows else s ∷ place r rows

-- `Create`: the primary key refuses a second row, and instants are rounded.
unfoldable pub create_key : KeyRow → List KeyRow → Option (List KeyRow)
unfolding place stored_time
create_key r rows =
    if any (has_kid r.kid) rows
    then none
    else some (
        place
          (record r {
            created_at = stored_time r.created_at;
            activated_at = stored_optional r.activated_at;
            retired_at = stored_optional r.retired_at;
          })
          rows)

-- `Save`.
unfoldable pub save : Envelope → SigningKey → List KeyRow → Option (List KeyRow)
unfolding create_key
save e k rows = e.marshal k.private_key >>= λ der. e.encrypt der >>= λ ct.
    create_key
      (record {
        kid = k.kid;
        algorithm = k.algorithm;
        encrypted_private = ct;
        public_jwk = k.public_jwk;
        status = k.status;
        created_at = k.created_at;
        activated_at = k.activated_at;
        retired_at = k.retired_at;
      })
      rows

-- `rowToKey`.
unfoldable pub row_to_key : Envelope → KeyRow → Option SigningKey
row_to_key e r = e.decrypt r.encrypted_private >>= λ der. e.parse der >>= λ private. some (record {
  kid = r.kid;
  algorithm = r.algorithm;
  private_key = private;
  public_jwk = r.public_jwk;
  status = r.status;
  created_at = r.created_at;
  activated_at = r.activated_at;
  retired_at = r.retired_at;
})

-- `rowsToKeys`: one row that does not decrypt fails the list.
unfoldable pub rows_to_keys : Envelope → List KeyRow → Option (List SigningKey)
unfolding row_to_key
rows_to_keys e [] = some []
rows_to_keys e (r ∷ rows) =
    let rest = rows_to_keys e rows in row_to_key e r >>= λ k. rest >>= λ ks. some (k ∷ ks)

-- `ListByStatus`, for the statuses that pass.
unfoldable pub list_by_status :
    Envelope → Bool → (KeyStatus → Bool) → List KeyRow → Option (List SigningKey)
unfolding rows_to_keys
list_by_status e ok passes rows =
    if ok then rows_to_keys e (keep (λ (r : KeyRow). passes r.status) rows) else none

unfoldable pub set_status : String → KeyStatus → Option ℕ → List KeyRow → List KeyRow
unfolding stored_time
set_status kid status at [] = []
set_status kid status at (r ∷ rows) =
    let rest = set_status kid status at rows in
    if has_kid kid r
    then record r { status = status; retired_at = stored_optional at } ∷ rest
    else r ∷ rest

-- `UpdateStatus`: an error if there is no such row.
unfoldable pub update_status :
    Bool → String → KeyStatus → Option ℕ → List KeyRow → Option (List KeyRow)
unfolding set_status
update_status ok kid status at rows =
    if ok && any (has_kid kid) rows then some (set_status kid status at rows) else none

-- The test of `DeleteExpiredBefore`, with the age that the cutoff is before `now`, in whole seconds.
unfoldable pub is_prunable : ℕ → ℕ → KeyRow → Bool
unfolding stored_time
is_prunable now age r =
    is_expired_key r.status
    && elim r.retired_at [ none ↦ false | some t ↦ ltb (t + age) (stored_time now) ]

-- `DeleteExpiredBefore`.
unfoldable pub delete_expired_before : ℕ → ℕ → List KeyRow → List KeyRow
unfolding is_prunable
delete_expired_before now age rows = keep (λ r. not (is_prunable now age r)) rows
