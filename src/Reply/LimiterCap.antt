-- ===== src/Reply/LimiterCap.antt =====
-- internal/cloudevents/reply/rate_limiter.go: the calls of `Allow` in one window.
use yip_yap_foss.Prelude.{
  ℕ, ◌+◌, ◌≤◌, ◌<◌, ℤ, pos, String, ◌≡◌, subst, arith, List, [], ◌∷◌, length, str_eq, eq_of_str_eq,
  if◌then◌else◌, Bool-cases, inl, inr, All,
}
use text.Mathlib.TextEquality.{eq_iff}
use yip_yap_foss.Reply.RateLimiter.{Bucket, max_buckets, find_bucket, aligned_window, allow_key}
use yip_yap_foss.Reply.LimiterCalls.{
  used, Fits, Counted, allow_key-Counted, allow_key-other, length-allow_key,
}

-- A call of `Allow`, by its key.
pub record Call : Type 0 where
  pub key : String
  pub limit : ℤ
  pub at : ℕ

-- Calls one after another: how many of those for the key were let through, and the buckets after them.
unfoldable pub admitted : String → List Call → List Bucket → ℕ × List Bucket
unfolding allow_key
admitted k [] bs = (0, bs)
admitted k (c ∷ cs) bs =
    let (ok, bs') = allow_key c.key c.limit c.at bs in
    let (n, after) = admitted k cs bs' in
    ((if str_eq c.key k then (if ok then 1 else 0) else 0) + n, after)

-- Calls in one window, those for the key all under the limit `l`.
abbrev InWindow : String → ℕ → ℕ → List Call → Type 0
InWindow k a l cs = All (λ (c : Call). (aligned_window c.at ≡ a) × (c.key ≡ k → c.limit ≡ pos l)) cs

module _ (k : String) (a l : ℕ) (some_limit : 0 < l) (no_overflow : l < 50000000) where
  -- What one call of the window does to the key's bucket.
  call-used :
      (c : Call) (bs : List Bucket)
      → aligned_window c.at ≡ a
      → (c.key ≡ k → c.limit ≡ pos l)
      → length bs < max_buckets
      → Fits l (find_bucket k bs)
      → used a (find_bucket k bs) ≤ l
      → let (ok, bs') = allow_key c.key c.limit c.at bs in
        (used a (find_bucket k bs')
          ≡ used a (find_bucket k bs) + (if str_eq c.key k then (if ok then 1 else 0) else 0))
        × Fits l (find_bucket k bs')
        × (used a (find_bucket k bs') ≤ l)
  call-used c bs at limited room fits below = elim (Bool-cases (str_eq c.key k)) [
    | inl own ↦
        let is = eq_of_str_eq c.key k own in
        let (count, fits', capped) =
          subst (λ v. Counted k v l (used v (find_bucket k bs)) (allow_key k (pos l) c.at bs)) at
            (allow_key-Counted k l c.at some_limit no_overflow bs fits) in
        rw (own, limited is, is)
          (
            count,
            fits',
            elim (Bool-cases (allow_key k (pos l) c.at bs).0) [
              | inl ok ↦ capped ok
              | inr refused ↦ ground arith
            ],
          )
    | inr other ↦
        let same =
          allow_key-other k c.key c.limit c.at (λ e. ground (arith, eq_iff c.key k)) bs room in
        rw (other, same) (ground arith, fits, below)
  ]

  -- Calls of one window, in whatever order, those of one key all under one limit below 50 million: if the
  -- key's bucket counts no more than the limit, and the calls are too few to fill the ten thousand
  -- buckets, then the calls of the key that are let through, with those that were counted in the window
  -- before, are no more than the limit.
  pub admitted-used :
      (cs : List Call) (bs : List Bucket)
      → InWindow k a l cs
      → length bs + length cs ≤ max_buckets
      → Fits l (find_bucket k bs)
      → used a (find_bucket k bs) ≤ l
      → (admitted k cs bs).0 + used a (find_bucket k bs) ≤ l
  unfolding admitted
  admitted-used [] bs win room fits below = omega arith
  admitted-used (c ∷ cs) bs win room fits below =
      let (at, limited) = win.0 in
      let (count, fits', below') = call-used c bs at limited (ground arith) fits below in
      let bs' = (allow_key c.key c.limit c.at bs).1 in
      let shorter = length-allow_key c.key c.limit c.at bs in
      let rest = admitted-used cs bs' win.1 (ground arith) fits' below' in
      omega (arith, rest, count)
