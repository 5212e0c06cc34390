-- ===== src/Oidc/Tests.antt =====
-- internal/cloudevents/oidc/verifier_cache.go on concrete calls.
use yip_yap_foss.Prelude.{◌<◌, ◌≡◌, refl, arith, [], ◌∷◌, All}
use yip_yap_foss.Oidc.Cache.{
  VerifierConfig, verifier_cache_key, find_item, store_built, get_cached, lookup, build, run_step,
  answers,
}
use yip_yap_foss.Oidc.Pinning.{store_built_pins}

abbrev one_audience : VerifierConfig
one_audience = record { issuer = "i"; jwks_url = "u"; audiences = "a,b" ∷ [] }

abbrev two_audiences : VerifierConfig
two_audiences = record { issuer = "i"; jwks_url = "u"; audiences = "b" ∷ "a" ∷ [] }

-- The key does not tell one audience with a comma from two.
same_key : verifier_cache_key one_audience ≡ verifier_cache_key two_audiences
unfolding verifier_cache_key
same_key = refl

-- Two calls that both missed: the second to end returns the verifier of the first.
raced :
    answers 10 "k"
      (lookup 0 "k" ∷ lookup 0 "k" ∷ build 1 "k" 7 ∷ build 2 "k" 8 ∷ lookup 3 "k" ∷ [])
      []
    ≡ 7 ∷ 7 ∷ 7 ∷ []
unfolding answers run_step get_cached store_built find_item
raced = refl

store_built_pins_example :
    (1 < 11)
    × All
        (λ u. u ≡ 7)
        (answers 10 "k" (build 2 "k" 8 ∷ lookup 3 "k" ∷ []) (store_built 10 1 "k" 7 []).1)
unfolding store_built find_item
store_built_pins_example =
    store_built_pins 10 1 "k" 7 [] (record { verifier = 7; expires = 11 })
      (build 2 "k" 8 ∷ lookup 3 "k" ∷ []) (ground arith) refl (ground arith, (ground arith, tt))
