-- ===== src/Oidc/Pinning.antt =====
-- internal/cloudevents/oidc/verifier_cache.go: calls of `Get` for one key that run at once.
use yip_yap_foss.Prelude.{
  ℕ, ◌+◌, ◌<◌, ltb, false, ◌≡◌, ◌≢◌, refl, sym, subst, ◌∙◌, ap, arith, inl, inr, String, str_eq,
  Option, none, some, List, [], ◌∷◌, All, Bool-cases, Option-cases, if◌then◌else◌, str_eq_refl,
  str_eq_of_ne, if_rule, eq_of_str_eq, some_injective,
}
use text.Mathlib.TextEquality.{eq_iff}
use yip_yap_foss.Oidc.Cache.{
  CacheEntry, Items, find_item, delete_item, get_cached, store_built, Step, lookup, build,
  invalidate, run_step, answers,
}

-- A step that leaves the key alone, or that comes before an instant and does not invalidate it.
abbrev pub Before : String → ℕ → Step → Type 0
Before key until (lookup now k) = now < until
Before key until (build now k v) = now < until
Before key until (invalidate k) = k ≢ key

find-delete_other :
    (key k : String) (items : Items)
    → k ≢ key
    → find_item key (delete_item k items) ≡ find_item key items
unfolding find_item
find-delete_other key k [] ne = refl
find-delete_other key k ((j, e) ∷ rest) ne =
    ground (arith, find-delete_other key k rest ne, eq_iff j k, eq_iff j key)

find-store_other :
    (key k : String) (e' : CacheEntry) (items : Items)
    → k ≢ key
    → find_item key ((k, e') ∷ delete_item k items) ≡ find_item key items
unfolding find_item
find-store_other key k e' items ne = ground (arith, find-delete_other key k items ne, eq_iff k key)

module _ (ttl : ℕ) (key : String) (e : CacheEntry) where
  get_cached-other :
      (now : ℕ) (k : String) (items : Items)
      → k ≢ key
      → find_item key (get_cached now k items).1 ≡ find_item key items
  unfolding get_cached
  get_cached-other now k items ne = elim (Option-cases (find_item k items)) [
    | inl missing ↦ rw (missing, get_cached) refl
    | inr (e', there) ↦
        rw (there, get_cached)
          (if_rule (λ (o : Option ℕ × Items). find_item key o.1 ≡ find_item key items)
            (ltb now e'.expires) refl (find-delete_other key k items ne))
  ]

  store_built-other :
      (now : ℕ) (k : String) (v : ℕ) (items : Items)
      → k ≢ key
      → find_item key (store_built ttl now k v items).1 ≡ find_item key items
  unfolding store_built
  store_built-other now k v items ne = elim (Option-cases (find_item k items)) [
    | inl missing ↦ rw (missing, store_built) (find-store_other key k _ items ne)
    | inr (e', there) ↦
        rw (there, store_built)
          (if_rule (λ (o : ℕ × Items). find_item key o.1 ≡ find_item key items) (ltb now e'.expires)
            refl (find-store_other key k _ items ne))
  ]

  -- While the entry is live, both halves of `Get` return its verifier and keep it.
  get_cached-live :
      (now : ℕ) (items : Items)
      → now < e.expires
      → find_item key items ≡ some e
      → get_cached now key items ≡ (some e.verifier, items)
  unfolding get_cached
  get_cached-live now items early found = ground (arith, found, early)

  store_built-live :
      (now v : ℕ) (items : Items)
      → now < e.expires
      → find_item key items ≡ some e
      → store_built ttl now key v items ≡ (e.verifier, items)
  unfolding store_built
  store_built-live now v items early found = ground (arith, found, early)

  -- What is returned after a step with this outcome.
  abbrev from_step : List Step → String × Option ℕ × Items → List ℕ
  from_step steps (k, answer, items') =
      let rest = answers ttl key steps items' in
      if str_eq k key then elim answer [ some v ↦ v ∷ rest | none ↦ rest ] else rest

  answers-cons :
      (s : Step) (steps : List Step) (items : Items) (o : String × Option ℕ × Items)
      → run_step ttl s items ≡ o
      → answers ttl key (s ∷ steps) items ≡ from_step steps o
  unfolding answers
  answers-cons s steps items o is = ap (from_step steps) is

  abbrev Pinned : List ℕ → Type 0
  Pinned = All (λ v. v ≡ e.verifier)

  answers-Pinned :
      (steps : List Step) (items : Items)
      → All (Before key e.expires) steps
      → find_item key items ≡ some e
      → Pinned (answers ttl key steps items)
  unfolding answers run_step
  answers-Pinned [] items early found = tt
  answers-Pinned (lookup now k ∷ steps) items (early, rest) found =
      elim (Bool-cases (str_eq k key)) [
        | inl same ↦
            let here : k ≡ key = eq_of_str_eq k key same in
            let live : run_step ttl (lookup now k) items ≡ (k, some e.verifier, items) =
              ap (λ (o : Option ℕ × Items). (k, o.0, o.1))
                (ap (λ i. get_cached now i items) here ∙ get_cached-live now items early found) in
            rw (answers-cons (lookup now k) steps items _ live, same)
              (refl, answers-Pinned steps items rest found)
        | inr other ↦
            let apart : k ≢ key = λ is. cc (is, str_eq_refl key, other) in
            rw (answers-cons (lookup now k) steps items _ refl, other)
              (answers-Pinned steps _ rest (get_cached-other now k items apart ∙ found))
      ]
  answers-Pinned (build now k v ∷ steps) items (early, rest) found =
      elim (Bool-cases (str_eq k key)) [
        | inl same ↦
            let here : k ≡ key = eq_of_str_eq k key same in
            let live : run_step ttl (build now k v) items ≡ (k, some e.verifier, items) =
              ap (λ (o : ℕ × Items). (k, some o.0, o.1))
                (ap (λ i. store_built ttl now i v items) here
                  ∙ store_built-live now v items early found) in
            rw (answers-cons (build now k v) steps items _ live, same)
              (refl, answers-Pinned steps items rest found)
        | inr other ↦
            let apart : k ≢ key = λ is. cc (is, str_eq_refl key, other) in
            rw (answers-cons (build now k v) steps items _ refl, other)
              (answers-Pinned steps _ rest (store_built-other now k v items apart ∙ found))
      ]
  answers-Pinned (invalidate k ∷ steps) items (apart, rest) found =
      let other : str_eq k key ≡ false = str_eq_of_ne k key apart in
      rw (answers-cons (invalidate k) steps items _ refl, other)
        (answers-Pinned steps (delete_item k items) rest
          (find-delete_other key k items apart ∙ found))

-- A live entry after the second half of `Get`, with the verifier that it returned.
store_built-entry :
    (ttl now : ℕ) (key : String) (v : ℕ) (items : Items)
    → 0 < ttl
    → (e : CacheEntry) × (now < e.expires)
      × (e.verifier ≡ (store_built ttl now key v items).0)
      × (find_item key (store_built ttl now key v items).1 ≡ some e)
unfolding store_built find_item
store_built-entry ttl now key v items some_time =
    let fresh : CacheEntry = record { verifier = v; expires = now + ttl } in
    elim (Option-cases (find_item key items)) [
      | inl missing ↦
          rw (missing, store_built)
            (fresh, omega (arith, some_time), refl, rw (str_eq_refl key) refl)
      | inr (e, there) ↦ elim (Bool-cases (ltb now e.expires)) [
        | inl live ↦ rw (there, store_built, live) (e, ground (arith, live), refl, there)
        | inr old ↦
            rw (there, store_built, old)
              (fresh, omega (arith, some_time), refl, rw (str_eq_refl key) refl)
      ]
    ]

-- Once a call of `Get` has stored or found a verifier for a key, its entry is live, and every call for that key returns
-- the same verifier until the entry expires or is invalidated, however many calls run at once and whatever they build.
pub store_built_pins :
    (ttl now : ℕ) (key : String) (v : ℕ) (items : Items) (e : CacheEntry) (steps : List Step)
    → 0 < ttl
    → find_item key (store_built ttl now key v items).1 ≡ some e
    → All (Before key e.expires) steps
    → (now < e.expires)
      × All
          (λ u. u ≡ (store_built ttl now key v items).0)
          (answers ttl key steps (store_built ttl now key v items).1)
store_built_pins ttl now key v items e steps some_time found early =
    let (e', later, is, found') = store_built-entry ttl now key v items some_time in
    let same : e' ≡ e = some_injective e' e (sym found' ∙ found) in
    let verifier : e.verifier ≡ (store_built ttl now key v items).0 =
      ap (λ (x : CacheEntry). x.verifier) (sym same) ∙ is in
    (
      subst (λ (x : CacheEntry). now < x.expires) same later,
      subst (λ u. All (λ w. w ≡ u) (answers ttl key steps (store_built ttl now key v items).1))
          verifier (answers-Pinned ttl key e steps (store_built ttl now key v items).1 early found),
    )
