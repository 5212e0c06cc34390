-- ===== src/Oidc/Cache.antt =====
-- internal/cloudevents/oidc/verifier_cache.go. A verifier is known by a number, its pointer. `Get` locks the cache twice, and
-- builds in between; each time is a step, so calls that run at once are steps in some order.
use Prim.Native.String.{compare}
use Prim.Native.Nat.{Ordering}
use yip_yap_foss.Prelude.{
  ℕ, ◌+◌, ℤ, pos, negsuc, ltb, ◌==◌, not, String, str_eq, str_append, Option, none, some, List, [],
  ◌∷◌, keep, if◌then◌else◌,
}

-- `DefaultVerifierCacheTTL`, ten minutes.
abbrev pub default_verifier_cache_ttl : ℕ
default_verifier_cache_ttl = 600000000000

-- The time to live that `NewVerifierCache` sets.
abbrev pub cache_ttl : ℤ → ℕ
cache_ttl (pos n) = if n == 0 then default_verifier_cache_ttl else n
cache_ttl (negsuc _) = default_verifier_cache_ttl

-- The fields that the key has.
pub record VerifierConfig : Type 0 where
  pub issuer : String
  pub jwks_url : String
  pub audiences : List String

pub record CacheEntry : Type 0 where
  pub verifier : ℕ
  pub expires : ℕ

abbrev pub Items : Type 0
Items = List (String × CacheEntry)

abbrev insert : String → List String → List String
insert s [] = s ∷ []
insert s (t ∷ ts) = elim (compare s t) [ Ordering.gt ↦ t ∷ insert s ts | _ ↦ s ∷ t ∷ ts ]

-- `sort.Strings`.
abbrev pub sort_strings : List String → List String
sort_strings [] = []
sort_strings (s ∷ ss) = insert s (sort_strings ss)

-- Texts with commas between them.
abbrev pub with_commas : List String → String
with_commas [] = ""
with_commas (s ∷ []) = s
with_commas (s ∷ t ∷ ts) = str_append s (str_append "," (with_commas (t ∷ ts)))

-- `verifierCacheKey`.
unfoldable pub verifier_cache_key : VerifierConfig → String
verifier_cache_key cfg = str_append cfg.issuer (
    str_append "|"
      (str_append cfg.jwks_url (str_append "|" (with_commas (sort_strings cfg.audiences)))))

unfoldable pub find_item : String → Items → Option CacheEntry
find_item key [] = none
find_item key ((k, e) ∷ rest) = if str_eq k key then some e else find_item key rest

-- `delete(items, key)`.
abbrev pub delete_item : String → Items → Items
delete_item key = keep (λ (item : String × CacheEntry). not (str_eq item.0 key))

-- The first half of `Get`: a live entry, or a miss that drops an expired one.
unfoldable pub get_cached : ℕ → String → Items → Option ℕ × Items
unfolding find_item
get_cached now key items = elim (find_item key items) [
  | none ↦ (none, items)
  | some e ↦ if ltb now e.expires then (some e.verifier, items) else (none, delete_item key items)
]

abbrev store_entry : ℕ → ℕ → String → ℕ → Items → ℕ × Items
store_entry ttl now key v items =
    (v, (key, record { verifier = v; expires = now + ttl }) ∷ delete_item key items)

-- The second half, with the verifier that was built: a live entry of another call is preferred.
unfoldable pub store_built : ℕ → ℕ → String → ℕ → Items → ℕ × Items
unfolding find_item
store_built ttl now key v items = elim (find_item key items) [
  | none ↦ store_entry ttl now key v items
  | some e ↦ if ltb now e.expires then (e.verifier, items) else store_entry ttl now key v items
]

pub data Step : Type 0 where
  lookup : ℕ → String → Step
  build : ℕ → String → ℕ → Step
  invalidate : String → Step

-- A step's key, the verifier that it returns if it returns one, and the cache after it.
unfoldable pub run_step : ℕ → Step → Items → String × Option ℕ × Items
unfolding get_cached store_built
run_step ttl (lookup now key) items =
    let (answer, items') = get_cached now key items in (key, answer, items')
run_step ttl (build now key v) items =
    let (v', items') = store_built ttl now key v items in (key, some v', items')
run_step ttl (invalidate key) items = (key, none, delete_item key items)

-- What the steps return for a key, in order.
unfoldable pub answers : ℕ → String → List Step → Items → List ℕ
unfolding run_step
answers ttl key [] items = []
answers ttl key (s ∷ steps) items =
    let (k, answer, items') = run_step ttl s items in
    let rest = answers ttl key steps items' in
    if str_eq k key then elim answer [ some v ↦ v ∷ rest | none ↦ rest ] else rest
