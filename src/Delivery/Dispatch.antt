-- ===== src/Delivery/Dispatch.antt =====
-- internal/notify/dispatcher.go: `Dispatch`, `markSeen` and the clean-up of the keys that were seen. A pool is known
-- by its channel; what is submitted to it is a log, newest first. The workers are in Worker.
use yip_yap_foss.Prelude.{
  ℕ, ◌+◌, ltb, String, Bool, true, false, not, Option, none, some, List, [], ◌∷◌, any, keep, str_eq,
  is_blank, if◌then◌else◌,
}
use yip_yap_foss.Domain.Notification.{NotificationJob}

-- `dedupeTTL`, five minutes.
abbrev pub dedupe_ttl : ℕ
dedupe_ttl = 300000000000

-- `seen` holds the expiry of a key.
pub record World : Type 0 where
  pub seen : List (String × ℕ)
  pub pools : List String
  pub submitted : List NotificationJob

-- `dedup` is the store of claims, or nil; an error of a claim is `none`.
pub record Env : Type 0 where
  pub now : ℕ
  pub dedup : Option (String → Option Bool)

pub data DispatchError : Type 0 where
  no_provider : DispatchError

unfoldable pub expiry_of : String → List (String × ℕ) → Option ℕ
expiry_of k [] = none
expiry_of k ((j, e) ∷ rest) = if str_eq j k then some e else expiry_of k rest

abbrev pub is_fresh : ℕ → Option ℕ → Bool
is_fresh now none = false
is_fresh now (some e) = ltb now e

-- All entries but those of a key.
abbrev pub forget : String → List (String × ℕ) → List (String × ℕ)
forget k = keep (λ (entry : String × ℕ). not (str_eq entry.0 k))

-- The in-memory half of `markSeen`.
unfoldable pub mark_in_memory : ℕ → String → World → Bool × World
unfolding expiry_of
mark_in_memory now key w =
    if is_fresh now (expiry_of key w.seen)
    then (false, w)
    else (true, record w { seen = (key, now + dedupe_ttl) ∷ forget key w.seen })

abbrev claim_of : Option (String → Option Bool) → String → Option Bool
claim_of none key = none
claim_of (some claim) key = claim key

-- `markSeen`: true for the first sight of a key.
unfoldable pub mark_seen : Env → String → World → Bool × World
unfolding mark_in_memory
mark_seen env key w = elim (claim_of env.dedup key) [
  | some claimed ↦ (claimed, w)
  | none ↦ mark_in_memory env.now key w
]

-- `Register`.
unfoldable pub register : String → World → World
register channel w =
    if any (str_eq channel) w.pools then w else record w { pools = channel ∷ w.pools }

-- The routing of a job that is no duplicate.
unfoldable pub route : NotificationJob → World → Option DispatchError × World
route job w =
    if any (str_eq job.channel) w.pools
    then (none, record w { submitted = job ∷ w.submitted })
    else (some no_provider, w)

-- `Dispatch`.
unfoldable pub dispatch : Env → NotificationJob → World → Option DispatchError × World
unfolding mark_seen route
dispatch env job w =
    if is_blank job.dedupe_key
    then route job w
    else let (first_sight, w') = mark_seen env job.dedupe_key w in
      if first_sight then route job w' else (none, w')

-- The in-memory half of `cleanupLoop`'s round.
unfoldable pub clean_up : ℕ → World → World
clean_up now w = record w { seen = keep (λ (entry : String × ℕ). not (ltb entry.1 now)) w.seen }
