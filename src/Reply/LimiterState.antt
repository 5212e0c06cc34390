-- ===== src/Reply/LimiterState.antt =====
-- internal/cloudevents/reply/rate_limiter.go: the keys and the number of the buckets.
use yip_yap_foss.Prelude.{
  ℕ, suc, ◌≤◌, leb, ℤ, String, Bool, true, ◌≡◌, refl, sym, ◌∙◌, subst, arith, none, some, List, [],
  ◌∷◌, length, if◌then◌else◌, Bool-cases, Option-cases, if_rule, inl, inr, All,
}
use text.Mathlib.TextEquality.{eq_iff}
use yip_yap_foss.Reply.RateLimiter.{
  Bucket, max_buckets, keyed, find_bucket, remove_bucket, roll, evict_oldest, select_bucket,
  aligned_window, admits, limit_or_default, allow_key,
}

-- One bucket to a key.
abbrev pub IsUnique : List Bucket → Type 0
IsUnique [] = Unit
IsUnique (b ∷ bs) = (find_bucket b.key bs ≡ none) × IsUnique bs

abbrev pub IsAligned : Bucket → Type 0
IsAligned b = aligned_window b.window_start ≡ b.window_start

-- One bucket to a key, each counting from the start of a window, and no more than the cap.
pub record IsSound (bs : List Bucket) : Type 0 where
  pub unique : IsUnique bs
  pub aligned : All IsAligned bs
  pub capped : length bs ≤ max_buckets

aligned_window-aligned_window : (t : ℕ) → aligned_window (aligned_window t) ≡ aligned_window t
unfolding aligned_window
aligned_window-aligned_window t = omega arith

module _ (k : String) where
  remove_bucket-none :
      (j : String) (bs : List Bucket)
      → find_bucket j bs ≡ none
      → find_bucket j (remove_bucket k bs) ≡ none
  unfolding find_bucket remove_bucket
  remove_bucket-none j [] h = refl
  remove_bucket-none j (b ∷ bs) h = ground (arith, remove_bucket-none j bs)

  remove_bucket-IsUnique : (bs : List Bucket) → IsUnique bs → IsUnique (remove_bucket k bs)
  unfolding remove_bucket
  remove_bucket-IsUnique [] u = u
  remove_bucket-IsUnique (b ∷ bs) u =
      if_rule IsUnique (keyed k b) u.1
        (remove_bucket-none b.key bs u.0, remove_bucket-IsUnique bs u.1)

  remove_bucket-gone : (bs : List Bucket) → IsUnique bs → find_bucket k (remove_bucket k bs) ≡ none
  unfolding find_bucket remove_bucket
  remove_bucket-gone [] u = refl
  remove_bucket-gone (b ∷ bs) u = ground (arith, eq_iff b.key k, remove_bucket-gone bs)

  remove_bucket-All :
      (P : Bucket → Type 0) (bs : List Bucket) → All P bs → All P (remove_bucket k bs)
  unfolding remove_bucket
  remove_bucket-All P [] h = h
  remove_bucket-All P (b ∷ bs) h = if_rule (All P) (keyed k b) h.1 (h.0, remove_bucket-All P bs h.1)

  length-remove_bucket-found :
      (b : Bucket) (bs : List Bucket)
      → find_bucket k bs ≡ some b
      → suc (length (remove_bucket k bs)) ≡ length bs
  unfolding find_bucket remove_bucket
  length-remove_bucket-found b [] e = ground arith
  length-remove_bucket-found b (c ∷ bs) e = ground (arith, length-remove_bucket-found b bs)

  pub find_bucket-All :
      (P : Bucket → Type 0) (b : Bucket) (bs : List Bucket)
      → find_bucket k bs ≡ some b
      → All P bs
      → P b
  unfolding find_bucket
  find_bucket-All P b [] e h = ground arith
  find_bucket-All P b (c ∷ bs) e h = elim (Bool-cases (keyed k c)) [
    | inl hit ↦ let is : c ≡ b = ground arith in subst P is h.0
    | inr miss ↦ find_bucket-All P b bs (ground arith) h.1
  ]

evict_oldest-none :
    (j : String) (bs : List Bucket)
    → find_bucket j bs ≡ none
    → find_bucket j (evict_oldest bs) ≡ none
unfolding find_bucket evict_oldest
evict_oldest-none j [] h = refl
evict_oldest-none j (b ∷ []) h = refl
evict_oldest-none j (b ∷ c ∷ bs) h = ground (arith, evict_oldest-none j (c ∷ bs))

evict_oldest-IsUnique : (bs : List Bucket) → IsUnique bs → IsUnique (evict_oldest bs)
unfolding evict_oldest
evict_oldest-IsUnique [] u = u
evict_oldest-IsUnique (b ∷ []) u = tt
evict_oldest-IsUnique (b ∷ c ∷ bs) u =
    (evict_oldest-none b.key (c ∷ bs) u.0, evict_oldest-IsUnique (c ∷ bs) u.1)

evict_oldest-All : (P : Bucket → Type 0) (bs : List Bucket) → All P bs → All P (evict_oldest bs)
unfolding evict_oldest
evict_oldest-All P [] h = h
evict_oldest-All P (b ∷ []) h = tt
evict_oldest-All P (b ∷ c ∷ bs) h = (h.0, evict_oldest-All P (c ∷ bs) h.1)

length-evict_oldest :
    (b : Bucket) (bs : List Bucket) → suc (length (evict_oldest (b ∷ bs))) ≡ suc (length bs)
unfolding evict_oldest
length-evict_oldest b [] = omega arith
length-evict_oldest b (c ∷ bs) = omega (arith, length-evict_oldest c bs)

pub find_bucket-key :
    (k : String) (bs : List Bucket) (b : Bucket) → find_bucket k bs ≡ some b → b.key ≡ k
unfolding find_bucket
find_bucket-key k [] b e = ground arith
find_bucket-key k (c ∷ bs) b e = ground (arith, eq_iff c.key k, find_bucket-key k bs b)

-- A bucket that may stand in front of others.
abbrev IsReady : Bucket × List Bucket → Type 0
IsReady (b, others) =
    (find_bucket b.key others ≡ none)
    × IsUnique others
    × IsAligned b
    × All IsAligned others
    × (suc (length others) ≤ max_buckets)

unfoldable pub fresh_bucket : String → ℕ → Bucket
fresh_bucket k aligned = record { key = k; window_start = aligned; count = 0; prev_count = 0 }

pub select_bucket-none :
    (k : String) (aligned : ℕ) (bs : List Bucket)
    → find_bucket k bs ≡ none
    → select_bucket k aligned bs
      ≡ (fresh_bucket k aligned, if leb max_buckets (length bs) then evict_oldest bs else bs)
unfolding select_bucket fresh_bucket
select_bucket-none k aligned bs e = rw (e, select_bucket) refl

pub select_bucket-some :
    (k : String) (aligned : ℕ) (bs : List Bucket) (b : Bucket)
    → find_bucket k bs ≡ some b
    → select_bucket k aligned bs ≡ (roll aligned b, remove_bucket k bs)
unfolding select_bucket
select_bucket-some k aligned bs b e = rw (e, select_bucket) refl

length-evict_oldest-full :
    (bs : List Bucket)
    → leb max_buckets (length bs) ≡ true
    → suc (length (evict_oldest bs)) ≡ length bs
length-evict_oldest-full [] h = ground arith
length-evict_oldest-full (b ∷ bs) h = length-evict_oldest b bs

fresh-IsReady :
    (k : String) (now : ℕ) (bs : List Bucket)
    → IsSound bs
    → find_bucket k bs ≡ none
    → IsReady (
      fresh_bucket k (aligned_window now),
      if leb max_buckets (length bs) then evict_oldest bs else bs,
    )
unfolding fresh_bucket
fresh-IsReady k now bs v e = elim (Bool-cases (leb max_buckets (length bs))) [
  | inl full ↦ rw full (
    evict_oldest-none k bs e,
    evict_oldest-IsUnique bs v.unique,
    aligned_window-aligned_window now,
    evict_oldest-All IsAligned bs v.aligned,
    ground (arith, length-evict_oldest-full bs full, v.capped),
  )
  | inr room ↦
      rw room (e, v.unique, aligned_window-aligned_window now, v.aligned, ground (arith, v.capped))
]

roll-key : (a : ℕ) (b : Bucket) → (roll a b).key ≡ b.key
unfolding roll
roll-key a b = ground arith

roll-start : (a : ℕ) (b : Bucket) → (roll a b).window_start ≡ a
unfolding roll
roll-start a b = ground arith

select_bucket-IsReady :
    (k : String) (now : ℕ) (bs : List Bucket)
    → IsSound bs
    → IsReady (select_bucket k (aligned_window now) bs)
select_bucket-IsReady k now bs v = elim (Option-cases (find_bucket k bs)) [
  | inl e ↦ rw (select_bucket-none k (aligned_window now) bs e) (fresh-IsReady k now bs v e)
  | inr (b, e) ↦ rw (select_bucket-some k (aligned_window now) bs b e) (
    subst (λ j. find_bucket j (remove_bucket k bs) ≡ none)
        (sym (roll-key (aligned_window now) b ∙ find_bucket-key k bs b e))
        (remove_bucket-gone k bs v.unique),
    remove_bucket-IsUnique k bs v.unique,
    subst (λ t. aligned_window t ≡ t) (sym (roll-start (aligned_window now) b))
        (aligned_window-aligned_window now),
    remove_bucket-All k IsAligned bs v.aligned,
    ground (arith, length-remove_bucket-found k b bs e, v.capped),
  )
]

-- A call of `Allow`, whatever its key, its limit and its instant, leaves one bucket to a key, each
-- counting from the start of a window, and no more than ten thousand buckets.
pub allow_key-IsSound :
    (k : String) (limit : ℤ) (now : ℕ) (bs : List Bucket)
    → IsSound bs
    → IsSound (allow_key k limit now bs).1
unfolding allow_key
allow_key-IsSound k limit now bs v =
    let (b, others) = select_bucket k (aligned_window now) bs in
    let (new, unique, at, aligned, room) = select_bucket-IsReady k now bs v in
    if_rule (λ (o : Bool × List Bucket). IsSound o.1) (admits (limit_or_default limit) now b)
      (record { unique = (new, unique); aligned = (at, aligned); capped = room })
      (record { unique = (new, unique); aligned = (at, aligned); capped = room })
