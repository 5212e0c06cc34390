-- ===== src/Reply/LimiterCalls.antt =====
-- internal/cloudevents/reply/rate_limiter.go: the bucket of a key in one call of `Allow`.
use yip_yap_foss.Prelude.{
  ℕ, suc, ◌+◌, ◌≤◌, ◌<◌, ◌==◌, ℤ, pos, String, Bool, true, false, ◌≡◌, ◌≢◌, refl, sym, ◌∙◌, ap,
  subst, arith, Option, none, some, List, [], ◌∷◌, length, if◌then◌else◌, Bool-cases, if_rule,
  Option-cases, inl, inr,
}
use text.Mathlib.TextEquality.{eq_iff}
use yip_yap_foss.Reply.RateLimiter.{
  Bucket, max_buckets, find_bucket, remove_bucket, roll, evict_oldest, select_bucket,
  aligned_window, admits, limit_or_default, allow_key,
}
use yip_yap_foss.Reply.LimiterBounds.{admits-bounds}

abbrev bit : Bool → ℕ
bit b = if b then 1 else 0

-- What the bucket has counted in the window that starts at `a`.
abbrev pub used : ℕ → Option Bucket → ℕ
used a none = 0
used a (some b) = if b.window_start == a then b.count else 0

-- Neither counter is above the limit.
abbrev pub Fits : ℕ → Option Bucket → Type 0
Fits l none = Unit
Fits l (some b) = (b.count ≤ l) × (b.prev_count ≤ l)

find_bucket-keyed :
    (k : String) (bs : List Bucket) (b : Bucket) → find_bucket k bs ≡ some b → b.key ≡ k
unfolding find_bucket
find_bucket-keyed k [] b e = ground arith
find_bucket-keyed k (c ∷ bs) b e = ground (arith, eq_iff c.key k, find_bucket-keyed k bs b)

find_bucket-remove_bucket :
    (k j : String) (bs : List Bucket)
    → j ≢ k
    → find_bucket k (remove_bucket j bs) ≡ find_bucket k bs
unfolding find_bucket remove_bucket
find_bucket-remove_bucket k j [] h = refl
find_bucket-remove_bucket k j (b ∷ bs) h =
    ground (arith, eq_iff b.key k, eq_iff b.key j, find_bucket-remove_bucket k j bs h)

length-remove_bucket : (k : String) (bs : List Bucket) → length (remove_bucket k bs) ≤ length bs
unfolding remove_bucket
length-remove_bucket k [] = omega arith
length-remove_bucket k (b ∷ bs) = ground (arith, length-remove_bucket k bs)

-- The bucket of the call is in the call's window, and has counted what was counted there.
select_bucket-selected :
    (k : String) (a l : ℕ) (bs : List Bucket)
    → Fits l (find_bucket k bs)
    → let b = (select_bucket k a bs).0 in
      (b.key ≡ k) × (b.window_start ≡ a) × (b.count ≡ used a (find_bucket k bs)) × Fits l (some b)
unfolding select_bucket roll
select_bucket-selected k a l bs fits = elim (Option-cases (find_bucket k bs)) [
  | inl e ↦ ground arith
  | inr (b, e) ↦ ground (arith, find_bucket-keyed k bs b e)
]

-- The end of `Allow`.
abbrev verdict : ℕ → ℕ → Bucket → List Bucket → Bool × List Bucket
verdict l now b others =
    if admits (pos l) now b
    then (true, record b { count = suc b.count } ∷ others)
    else (false, b ∷ others)

abbrev pub Counted : String → ℕ → ℕ → ℕ → Bool × List Bucket → Type 0
Counted k a l before (ok, bs) =
    (used a (find_bucket k bs) ≡ before + bit ok)
    × Fits l (find_bucket k bs)
    × (ok ≡ true → used a (find_bucket k bs) ≤ l)

module _ (k : String) (l now : ℕ) (some_limit : 0 < l) (no_overflow : l < 50000000) where
  admits-room : (b : Bucket) → Fits l (some b) → admits (pos l) now b ≡ true → b.count < l
  admits-room b fits ok =
      let h = admits-bounds l now b (omega arith) (omega arith) (omega arith) in ground arith

  verdict-Counted :
      (b : Bucket) (others : List Bucket)
      → b.key ≡ k
      → b.window_start ≡ aligned_window now
      → Fits l (some b)
      → Counted k (aligned_window now) l b.count (verdict l now b others)
  unfolding find_bucket
  verdict-Counted b others is at fits = elim (Bool-cases (admits (pos l) now b)) [
    | inl ok ↦
        let room = admits-room b fits ok in
        rw ok (
          ground (arith, eq_iff b.key k),
          ground (arith, eq_iff b.key k),
          λ _. ground (arith, eq_iff b.key k),
        )
    | inr refused ↦
        rw refused
          (ground (arith, eq_iff b.key k), ground (arith, eq_iff b.key k), λ e. ground arith)
  ]

  limit_or_default-pos : limit_or_default (pos l) ≡ pos l
  limit_or_default-pos = ground arith

  allow_key-verdict :
      (bs : List Bucket)
      → allow_key k (pos l) now bs
        ≡ verdict l now
            (select_bucket k (aligned_window now) bs).0
            (select_bucket k (aligned_window now) bs).1
  unfolding allow_key
  allow_key-verdict bs =
      ap
        (λ limit.
          let (b, others) = select_bucket k (aligned_window now) bs in
          if admits limit now b
          then (true, record b { count = suc b.count } ∷ others)
          else (false, b ∷ others))
        limit_or_default-pos

  -- A call for the key.
  pub allow_key-Counted :
      (bs : List Bucket)
      → Fits l (find_bucket k bs)
      → Counted k
          (aligned_window now)
          l
          (used (aligned_window now) (find_bucket k bs))
          (allow_key k (pos l) now bs)
  allow_key-Counted bs fits =
      let (b, others) = select_bucket k (aligned_window now) bs in
      let (is, at, count, fits') = select_bucket-selected k (aligned_window now) l bs fits in
      subst (Counted k (aligned_window now) l (used (aligned_window now) (find_bucket k bs)))
        (sym (allow_key-verdict bs))
        (subst (λ before. Counted k (aligned_window now) l before (verdict l now b others)) count
          (verdict-Counted b others is at fits'))

-- A call for another key.
module _ (k j : String) (limit : ℤ) (now : ℕ) (other : j ≢ k) where
  select_bucket-other :
      (a : ℕ) (bs : List Bucket)
      → length bs < max_buckets
      → let (b, others) = select_bucket j a bs in
        (b.key ≢ k) × (find_bucket k others ≡ find_bucket k bs) × (length others ≤ length bs)
  unfolding select_bucket roll
  select_bucket-other a bs room = elim (Option-cases (find_bucket j bs)) [
    | inl e ↦ ground arith
    | inr (b, e) ↦ ground (
      arith,
      find_bucket-keyed j bs b e,
      find_bucket-remove_bucket k j bs other,
      length-remove_bucket j bs,
    )
  ]

  find_bucket-skip :
      (b : Bucket) (bs : List Bucket) → b.key ≢ k → find_bucket k (b ∷ bs) ≡ find_bucket k bs
  unfolding find_bucket
  find_bucket-skip b bs h = ground (arith, eq_iff b.key k)

  pub allow_key-other :
      (bs : List Bucket)
      → length bs < max_buckets
      → find_bucket k (allow_key j limit now bs).1 ≡ find_bucket k bs
  unfolding allow_key
  allow_key-other bs room =
      let (b, others) = select_bucket j (aligned_window now) bs in
      let (ne, same, _) = select_bucket-other (aligned_window now) bs room in
      if_rule (λ (o : Bool × List Bucket). find_bucket k o.1 ≡ find_bucket k bs)
        (admits (limit_or_default limit) now b)
        (find_bucket-skip (record b { count = suc b.count }) others ne ∙ same)
        (find_bucket-skip b others ne ∙ same)

length-evict_oldest : (bs : List Bucket) → length (evict_oldest bs) ≤ length bs
unfolding evict_oldest
length-evict_oldest [] = omega arith
length-evict_oldest (b ∷ []) = omega arith
length-evict_oldest (b ∷ c ∷ bs) = omega (arith, length-evict_oldest (c ∷ bs))

length-select_bucket :
    (j : String) (a : ℕ) (bs : List Bucket) → length (select_bucket j a bs).1 ≤ length bs
unfolding select_bucket
length-select_bucket j a bs = elim (Option-cases (find_bucket j bs)) [
  | inl e ↦ ground (arith, length-evict_oldest bs)
  | inr (b, e) ↦ ground (arith, length-remove_bucket j bs)
]

pub length-allow_key :
    (j : String) (limit : ℤ) (now : ℕ) (bs : List Bucket)
    → length (allow_key j limit now bs).1 ≤ suc (length bs)
unfolding allow_key
length-allow_key j limit now bs =
    let (b, others) = select_bucket j (aligned_window now) bs in
    let short = length-select_bucket j (aligned_window now) bs in
    if_rule (λ (o : Bool × List Bucket). length o.1 ≤ suc (length bs))
      (admits (limit_or_default limit) now b) (ground arith) (ground arith)
