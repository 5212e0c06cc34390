-- ===== src/Reply/RateLimiter.antt =====
-- internal/cloudevents/reply/rate_limiter.go. The map and the linked list hold the same buckets; here
-- they are one list, most recently used first. Instants are nanoseconds since the zero time.
use yip_yap_foss.Prelude.{
  ℕ, suc, ◌+◌, ◌-◌, ◌*◌, ◌/◌, ltb, leb, ◌==◌, ℤ, pos, ◌+ℤ◌, ◌*ℤ◌, leb_ℤ, wrap64, String, Bool, true,
  false, not, Option, none, some, List, [], ◌∷◌, length, keep, str_eq, str_append, if◌then◌else◌,
}

abbrev pub default_rate_limit_per_minute : ℤ
default_rate_limit_per_minute = pos 60

-- `rateLimiterWindowSize`, a minute.
abbrev pub window_size : ℕ
window_size = 60000000000

abbrev pub max_buckets : ℕ
max_buckets = 10000

-- `rateLimiterWindowGrace`.
abbrev pub window_grace : ℕ
window_grace = 120000000000

pub record Bucket : Type 0 where
  pub key : String
  pub window_start : ℕ
  pub count : ℕ
  pub prev_count : ℕ

abbrev pub bucket_key : String → String → String
bucket_key org_id reply_type = str_append org_id (str_append "|" reply_type)

abbrev pub keyed : String → Bucket → Bool
keyed k b = str_eq b.key k

-- `buckets[key]`.
unfoldable pub find_bucket : String → List Bucket → Option Bucket
find_bucket k [] = none
find_bucket k (b ∷ bs) = if keyed k b then some b else find_bucket k bs

-- The list without the element of the key.
unfoldable pub remove_bucket : String → List Bucket → List Bucket
remove_bucket k [] = []
remove_bucket k (b ∷ bs) = if keyed k b then bs else b ∷ remove_bucket k bs

-- `now.Truncate(rateLimiterWindowSize)`.
unfoldable pub aligned_window : ℕ → ℕ
aligned_window now = now / 60000000000 * 60000000000

-- The window of a bucket, rolled forward.
unfoldable pub roll : ℕ → Bucket → Bucket
roll aligned b =
    if aligned == b.window_start
    then b
    else if aligned == b.window_start + window_size
    then record b { prev_count = b.count; count = 0; window_start = aligned }
    else record b { prev_count = 0; count = 0; window_start = aligned }

-- `evictOldestLocked`: the element at the back.
unfoldable pub evict_oldest : List Bucket → List Bucket
evict_oldest [] = []
evict_oldest (b ∷ []) = []
evict_oldest (b ∷ c ∷ bs) = b ∷ evict_oldest (c ∷ bs)

-- The bucket that is counted, and the others.
unfoldable pub select_bucket : String → ℕ → List Bucket → Bucket × List Bucket
unfolding find_bucket remove_bucket roll evict_oldest
select_bucket k aligned bs = elim (find_bucket k bs) [
  | some b ↦ (roll aligned b, remove_bucket k bs)
  | none ↦ (
    record { key = k; window_start = aligned; count = 0; prev_count = 0 },
    if leb max_buckets (length bs) then evict_oldest bs else bs,
  )
]

-- `elapsed`, with its two clamps.
unfoldable pub elapsed_in : ℕ → Bucket → ℕ
elapsed_in now b =
    if ltb now b.window_start
    then 0
    else if ltb window_size (now - b.window_start)
    then window_size
    else now - b.window_start

-- The decision, in 64-bit integers.
unfoldable pub admits : ℤ → ℕ → Bucket → Bool
unfolding elapsed_in wrap64 ◌+ℤ◌ ◌*ℤ◌
admits limit now b =
    let effective = wrap64 (
      wrap64 (pos b.count *ℤ pos window_size)
      +ℤ wrap64 (pos b.prev_count *ℤ pos (window_size - elapsed_in now b))) in
    leb_ℤ (wrap64 (effective +ℤ pos window_size)) (wrap64 (limit *ℤ pos window_size))

-- A limit that is not positive is the default.
abbrev pub limit_or_default : ℤ → ℤ
limit_or_default limit = if leb_ℤ limit (pos 0) then default_rate_limit_per_minute else limit

-- `Allow`.
unfoldable pub allow_key : String → ℤ → ℕ → List Bucket → Bool × List Bucket
unfolding select_bucket admits aligned_window
allow_key k limit now bs =
    let (b, others) = select_bucket k (aligned_window now) bs in
    if admits (limit_or_default limit) now b
    then (true, record b { count = suc b.count } ∷ others)
    else (false, b ∷ others)

unfoldable pub allow : String → String → ℤ → ℕ → List Bucket → Bool × List Bucket
unfolding allow_key
allow org_id reply_type limit now bs = allow_key (bucket_key org_id reply_type) limit now bs

-- `now.Sub(b.windowStart) >= rateLimiterWindowGrace`.
abbrev pub is_idle : ℕ → Bucket → Bool
is_idle now b = leb (b.window_start + window_grace) now

-- `sweepOnce`.
unfoldable pub sweep_once : ℕ → List Bucket → List Bucket
sweep_once now bs = keep (λ b. not (is_idle now b)) bs
