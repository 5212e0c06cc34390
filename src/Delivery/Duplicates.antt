-- ===== src/Delivery/Duplicates.antt =====
-- internal/notify/dispatcher.go: runs of `Dispatch` with one key.
use yip_yap_foss.Prelude.{
  ℕ, ◌+◌, ◌≤◌, ◌<◌, String, false, ◌≡◌, refl, ◌∙◌, ap, arith, subst, inl, inr, ◌⊎◌, Option, none,
  some, List, [], ◌∷◌, length, any, str_eq, str_eq_refl, is_blank, if_rule, Bool-cases, All,
}
use yip_yap_foss.Domain.Notification.{NotificationJob}
use yip_yap_foss.Delivery.Dispatch.{
  dedupe_ttl, World, Env, DispatchError, expiry_of, is_fresh, forget, mark_in_memory, mark_seen,
  route, dispatch,
}

-- The key is known until `until`.
abbrev pub IsSeen : String → ℕ → World → Type 0
IsSeen k until w = expiry_of k w.seen ≡ some until

pub mark_seen-memory :
    (env : Env) (k : String) (w : World)
    → env.dedup ≡ none
    → mark_seen env k w ≡ mark_in_memory env.now k w
unfolding mark_seen
mark_seen-memory env k w e = ground (arith, e)

-- A job whose key is still known changes nothing.
pub dispatch-seen :
    (env : Env) (job : NotificationJob) (until : ℕ) (w : World)
    → env.dedup ≡ none
    → is_blank job.dedupe_key ≡ false
    → IsSeen job.dedupe_key until w
    → env.now < until
    → dispatch env job w ≡ (none, w)
unfolding dispatch mark_in_memory
dispatch-seen env job until w off named seen early =
    let marked : mark_seen env job.dedupe_key w ≡ (false, w) =
      mark_seen-memory env job.dedupe_key w off ∙ ground (arith, seen, early) in
    rw (named, marked) refl

-- What one dispatch of a keyed job does to the log and to the memory.
abbrev Once : Env → String → World → World → Type 0
Once env k w w' =
    (w' ≡ w) ⊎ (IsSeen k (env.now + dedupe_ttl) w' × (length w'.submitted ≤ length w.submitted + 1))

pub route-Once :
    (job : NotificationJob) (k : String) (until : ℕ) (w : World)
    → IsSeen k until w
    → IsSeen k until (route job w).1 × (length (route job w).1.submitted ≤ length w.submitted + 1)
unfolding route
route-Once job k until w seen =
    if_rule
      (λ (o : Option DispatchError × World).
        IsSeen k until o.1 × (length o.1.submitted ≤ length w.submitted + 1))
      (any (str_eq job.channel) w.pools) (seen, omega arith) (seen, omega arith)

pub marked :
    (env : Env) (k : String) (w : World)
    → IsSeen k
        (env.now + dedupe_ttl)
        (record w { seen = (k, env.now + dedupe_ttl) ∷ forget k w.seen })
unfolding expiry_of
marked env k w = ground (arith, str_eq_refl k)

dispatch-Once :
    (env : Env) (job : NotificationJob) (w : World)
    → env.dedup ≡ none
    → is_blank job.dedupe_key ≡ false
    → Once env job.dedupe_key w (dispatch env job w).1
unfolding dispatch mark_in_memory
dispatch-Once env job w off named =
    let k = job.dedupe_key in
    let w' : World = record w { seen = (k, env.now + dedupe_ttl) ∷ forget k w.seen } in
    rw (named, mark_seen-memory env k w off)
      (elim (Bool-cases (is_fresh env.now (expiry_of k w.seen))) [
        | inl known ↦ rw known (inl refl)
        | inr new ↦ rw new (inr (route-Once job k (env.now + dedupe_ttl) w' (marked env k w)))
      ])

-- Jobs one after another.
unfoldable pub dispatches : List (Env × NotificationJob) → World → World
unfolding dispatch
dispatches [] w = w
dispatches ((env, job) ∷ rest) w = dispatches rest (dispatch env job w).1

abbrev pub InSpan : String → ℕ → Env × NotificationJob → Type 0
InSpan k t (env, job) =
    (env.dedup ≡ none) × (job.dedupe_key ≡ k) × (t ≤ env.now) × (env.now < t + dedupe_ttl)

dispatches-seen :
    (k : String) (t until : ℕ) (js : List (Env × NotificationJob)) (w : World)
    → is_blank k ≡ false
    → All (InSpan k t) js
    → t + dedupe_ttl ≤ until
    → IsSeen k until w
    → dispatches js w ≡ w
unfolding dispatches
dispatches-seen k t until [] w named span late seen = refl
dispatches-seen k t until ((env, job) ∷ rest) w named span late seen =
    let (off, is, from, to) = span.0 in
    let same : dispatch env job w ≡ (none, w) =
      dispatch-seen env job until w off (rw is named) (rw is seen) (omega arith) in
    ap (λ (o : Option DispatchError × World). dispatches rest o.1) same
    ∙ dispatches-seen k t until rest w named span.1 late seen

-- With no store of claims: of the jobs with one key that are dispatched within five minutes, in whatever
-- order and to whatever channels, at most one reaches a worker.
pub dispatches_once :
    (k : String) (t : ℕ) (js : List (Env × NotificationJob)) (w : World)
    → is_blank k ≡ false
    → All (InSpan k t) js
    → length (dispatches js w).submitted ≤ length w.submitted + 1
unfolding dispatches
dispatches_once k t [] w named span = omega arith
dispatches_once k t ((env, job) ∷ rest) w named span =
    let (off, is, from, to) = span.0 in
    let w' = (dispatch env job w).1 in
    let once : Once env k w w' =
      subst (λ j. Once env j w w') is (dispatch-Once env job w off (rw is named)) in
    elim once [
      | inl same ↦
          let more = dispatches_once k t rest w' named span.1 in
          let kept : length w'.submitted ≡ length w.submitted = ap (λ v. length v.submitted) same in
          omega (arith, more, kept)
      | inr (seen, one) ↦
          let stays : length (dispatches rest w').submitted ≡ length w'.submitted =
            ap (λ v. length v.submitted)
              (dispatches-seen k t (env.now + dedupe_ttl) rest w' named span.1 (omega arith)
                seen) in
          omega (arith, one, stays)
    ]
