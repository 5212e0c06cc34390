-- ===== src/Reply/LimiterSweep.antt =====
-- internal/cloudevents/reply/rate_limiter.go: `sweepOnce` and the verdicts after it.
use yip_yap_foss.Prelude.{
  ℕ, suc, ◌+◌, ◌*◌, ◌/◌, ◌≤◌, ℤ, String, Bool, true, false, not, ◌≡◌, refl, sym, ◌∙◌, ap, subst,
  arith, Option, none, some, List, [], ◌∷◌, eq_of_str_eq, if◌then◌else◌, Bool-cases, if_rule, inl,
  inr, All, length-keep-le,
}
use yip_yap_foss.Reply.RateLimiter.{
  Bucket, keyed, find_bucket, roll, select_bucket, aligned_window, admits, limit_or_default,
  allow_key, is_idle, sweep_once,
}
use yip_yap_foss.Reply.LimiterState.{
  IsUnique, IsAligned, IsSound, find_bucket-key, find_bucket-All, select_bucket-some,
  select_bucket-none, fresh_bucket,
}

sweep_once-none :
    (j : String) (now : ℕ) (bs : List Bucket)
    → find_bucket j bs ≡ none
    → find_bucket j (sweep_once now bs) ≡ none
unfolding find_bucket sweep_once
sweep_once-none j now [] h = refl
sweep_once-none j now (b ∷ bs) h = ground (arith, sweep_once-none j now bs)

sweep_once-some :
    (j : String) (now : ℕ) (bs : List Bucket) (b : Bucket)
    → IsUnique bs
    → find_bucket j bs ≡ some b
    → find_bucket j (sweep_once now bs) ≡ (if is_idle now b then none else some b)
unfolding find_bucket sweep_once
sweep_once-some j now [] b u e = ground arith
sweep_once-some j now (c ∷ bs) b u e = elim (Bool-cases (keyed j c)) [
  | inl hit ↦
      let is : c ≡ b = ground arith in
      let gone : find_bucket j (sweep_once now bs) ≡ none =
        sweep_once-none j now bs
          (subst (λ i. find_bucket i bs ≡ none) (eq_of_str_eq c.key j hit) u.0) in
      subst
        (λ d. find_bucket j (sweep_once now (c ∷ bs)) ≡ (if is_idle now d then none else some d)) is
        (ground (arith, gone))
  | inr miss ↦ ground (arith, sweep_once-some j now bs b u.1 (ground arith))
]

sweep_once-IsUnique : (now : ℕ) (bs : List Bucket) → IsUnique bs → IsUnique (sweep_once now bs)
unfolding sweep_once
sweep_once-IsUnique now [] u = u
sweep_once-IsUnique now (b ∷ bs) u =
    if_rule IsUnique (not (is_idle now b))
      (sweep_once-none b.key now bs u.0, sweep_once-IsUnique now bs u.1)
      (sweep_once-IsUnique now bs u.1)

sweep_once-All : (now : ℕ) (bs : List Bucket) → All IsAligned bs → All IsAligned (sweep_once now bs)
unfolding sweep_once
sweep_once-All now [] h = h
sweep_once-All now (b ∷ bs) h =
    if_rule (All IsAligned) (not (is_idle now b)) (h.0, sweep_once-All now bs h.1)
      (sweep_once-All now bs h.1)

sweep_once-IsSound : (now : ℕ) (bs : List Bucket) → IsSound bs → IsSound (sweep_once now bs)
sweep_once-IsSound now bs v = record {
  unique = sweep_once-IsUnique now bs v.unique;
  aligned = sweep_once-All now bs v.aligned;
  capped =
      unfold sweep_once in omega (arith, length-keep-le (λ b. not (is_idle now b)) bs, v.capped);
}

fst-if :
    (v : Bool) (x y : List Bucket)
    → (let o : Bool × List Bucket = if v then (true, x) else (false, y) in o.0) ≡ v
fst-if true x y = refl
fst-if false x y = refl

-- The verdict depends on the bucket of the key alone.
allow_key-verdict :
    (k : String) (limit : ℤ) (now : ℕ) (bs : List Bucket)
    → (allow_key k limit now bs).0
      ≡ admits (limit_or_default limit) now (select_bucket k (aligned_window now) bs).0
unfolding allow_key
allow_key-verdict k limit now bs =
    let (b, others) = select_bucket k (aligned_window now) bs in
    fst-if (admits (limit_or_default limit) now b) (record b { count = suc b.count } ∷ others)
      (b ∷ others)

-- A bucket that is idle counts nothing when its window is rolled forward.
roll-idle :
    (now later : ℕ) (b : Bucket)
    → IsAligned b
    → is_idle now b ≡ true
    → now ≤ later
    → roll (aligned_window later) b ≡ fresh_bucket b.key (aligned_window later)
unfolding roll aligned_window fresh_bucket
roll-idle now later b at idle ahead =
    let far : b.window_start + 120000000000 ≤ later / 60000000000 * 60000000000 = ground arith in
    ground arith

-- In a sound state, a sweep at one instant changes no verdict of a later call, whatever its key and its
-- limit, and leaves the state sound.
pub sweep_once-unseen :
    (k : String) (limit : ℤ) (now later : ℕ) (bs : List Bucket)
    → IsSound bs
    → now ≤ later
    → ((allow_key k limit later (sweep_once now bs)).0 ≡ (allow_key k limit later bs).0)
      × IsSound (sweep_once now bs)
sweep_once-unseen k limit now later bs v ahead = (
  allow_key-verdict k limit later (sweep_once now bs)
      ∙ ap (admits (limit_or_default limit) later) (selects (find_bucket k bs) refl)
      ∙ sym (allow_key-verdict k limit later bs),
  sweep_once-IsSound now bs v,
)
  where
    a : ℕ
    a = aligned_window later

    new : (cs : List Bucket) → find_bucket k cs ≡ none → (select_bucket k a cs).0 ≡ fresh_bucket k a
    new cs e = ap (λ s. s.0) (select_bucket-none k a cs e)

    old :
        (cs : List Bucket) (b : Bucket)
        → find_bucket k cs ≡ some b
        → (select_bucket k a cs).0 ≡ roll a b
    old cs b e = ap (λ s. s.0) (select_bucket-some k a cs b e)

    selects :
        (o : Option Bucket)
        → find_bucket k bs ≡ o
        → (select_bucket k a (sweep_once now bs)).0 ≡ (select_bucket k a bs).0
    selects none e = new (sweep_once now bs) (sweep_once-none k now bs e) ∙ sym (new bs e)
    selects (some b) e = elim (Bool-cases (is_idle now b)) [
      | inl idle ↦
          new (sweep_once now bs)
            (sweep_once-some k now bs b v.unique e ∙ ap (λ t. if t then none else some b) idle)
          ∙ ap (λ j. fresh_bucket j a) (sym (find_bucket-key k bs b e))
          ∙ sym (roll-idle now later b (find_bucket-All k IsAligned b bs e v.aligned) idle ahead)
          ∙ sym (old bs b e)
      | inr live ↦
          old (sweep_once now bs) b
            (sweep_once-some k now bs b v.unique e ∙ ap (λ t. if t then none else some b) live)
          ∙ sym (old bs b e)
    ]
