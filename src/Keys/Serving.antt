-- ===== src/Keys/Serving.antt =====
-- internal/auth/jwks: the calls of manager.go beside Rotate, boot.go, handler.go and the algorithms of signer.go.
use yip_yap_foss.Prelude.{String, str_eq, Option, none, some, List, [], ◌∷◌, ◌>>=◌, if◌then◌else◌}
use yip_yap_foss.Keys.Store.{
  active, SigningKey, KeyRow, is_active_key, is_public, save, list_by_status,
}
use yip_yap_foss.Keys.Manager.{Env, default_algorithm, is_valid, generate, latest_active}

-- The loop of `ListPublicJWKs`.
unfoldable pub decode_all : (String → Option String) → List SigningKey → Option (List String)
decode_all decode [] = some []
decode_all decode (k ∷ ks) =
    let rest = decode_all decode ks in
    decode k.public_jwk >>= λ jwk. rest >>= λ jwks. some (jwk ∷ jwks)

-- `ListPublicJWKs`.
unfoldable pub list_public_jwks : Env → List KeyRow → Option (List String)
unfolding list_by_status decode_all
list_public_jwks env rows =
    list_by_status env.envelope env.list_ok is_public rows >>= λ ks. decode_all env.decode_jwk ks

-- `GetActiveSigner`, by the key that the signer has; of two that are created in one second, `sort.Slice` may take either.
unfoldable pub get_active_signer : Env → List KeyRow → Option SigningKey
unfolding list_by_status latest_active is_valid
get_active_signer env rows = list_by_status env.envelope env.list_ok is_active_key rows >>= λ ks.
    latest_active ks >>= λ k.
    if is_valid k.algorithm then if env.accepts_key k then some k else none else none

-- `SaveAndActivate`.
unfoldable pub save_and_activate : Env → SigningKey → List KeyRow → Option (List KeyRow)
unfolding save
save_and_activate env k rows =
    if env.save_ok
    then save env.envelope (record k { status = active; activated_at = some env.now }) rows
    else none

-- `EnsureInitialKey`: the table, or none for an error.
unfoldable pub ensure_initial_key : Env → List KeyRow → Option (List KeyRow)
unfolding list_public_jwks generate save_and_activate
ensure_initial_key env rows = list_public_jwks env rows >>= λ jwks. elim jwks [
  | _ ∷ _ ↦ some rows
  | [] ↦ generate env default_algorithm >>= λ k. save_and_activate env k rows
]

pub data Response : Type 0 where
  method_not_allowed unavailable : Response
  key_set : List String → Response

-- `ServeHTTP`.
unfoldable pub serve_http : Env → String → List KeyRow → Response
unfolding list_public_jwks
serve_http env method rows =
    if str_eq method "GET"
    then elim (list_public_jwks env rows) [
      | none ↦ unavailable
      | some jwks ↦ elim jwks [ [] ↦ unavailable | jwk ∷ rest ↦ key_set (jwk ∷ rest) ]
    ]
    else method_not_allowed
