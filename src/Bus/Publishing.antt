-- ===== src/Bus/Publishing.antt =====
-- internal/bus/channel.go: the subscriptions that `Publish` starts.
use yip_yap_foss.Prelude.{
  ℕ, zero, suc, ◌+◌, ◌≡◌, refl, sym, ap, subst, ◌∙◌, arith, inl, inr, Bool, false, ◌||◌, Bool-cases,
  String, str_eq, is_blank, List, [], ◌∷◌, ◌++◌, map, any, keep, count_if, All, All-append,
  if◌then◌else◌, eq_of_str_eq,
}
use text.Mathlib.TextEquality.{eq_iff}
use yip_yap_foss.Bus.Channel.{
  Subscription, Subs, snapshot, Group, add_member, groups, nth, chosen, publish,
}

abbrev is_of : String → Subscription → Bool
is_of q s = str_eq s.queue q

abbrev is_named : String → Group → Bool
is_named q g = str_eq g.name q

abbrev is_broadcast : Subscription → Bool
is_broadcast s = is_blank s.queue

add_member-known :
    (q : String) (s : Subscription) (gs : List Group)
    → any (is_named q) (add_member s gs) ≡ (any (is_named q) gs || is_of q s)
unfolding add_member
add_member-known q s [] = ground arith
add_member-known q s (g ∷ rest) =
    ground
      (arith, eq_iff g.name s.queue, eq_iff g.name q, eq_iff s.queue q, add_member-known q s rest)

add_member-count :
    (q : String) (s : Subscription) (gs : List Group)
    → count_if (is_named q) (add_member s gs)
      ≡ count_if (is_named q) gs + (if any (is_named q) gs then 0 else if is_of q s then 1 else 0)
unfolding add_member
add_member-count q s [] = ground arith
add_member-count q s (g ∷ rest) =
    ground
      (arith, eq_iff g.name s.queue, eq_iff g.name q, eq_iff s.queue q, add_member-count q s rest)

groups-count :
    (q : String) (xs : List Subscription) (gs : List Group)
    → is_blank q ≡ false
    → count_if (is_named q) (groups xs gs)
      ≡ count_if (is_named q) gs
        + (if any (is_named q) gs then 0 else if any (is_of q) xs then 1 else 0)
unfolding groups
groups-count q [] gs named = ground arith
groups-count q (s ∷ xs) gs named = elim (Bool-cases (is_blank s.queue)) [
  | inl blank ↦ rw blank (
      ground (arith, groups-count q xs gs named, eq_iff s.queue q, eq_iff s.queue "", named, blank))
  | inr own ↦ rw own (
      ground (
        arith,
        groups-count q xs (add_member s gs) named,
        add_member-count q s gs,
        add_member-known q s gs,
      ))
]

module _ (P : Subscription → Type 0) where
  -- A subscription of a group: its queue is the group's, which has a name.
  abbrev Fits : String → Subscription → Type 0
  Fits n s = (s.queue ≡ n) × (is_blank n ≡ false) × P s

  abbrev IsFit : Group → Type 0
  IsFit g = Fits g.name g.member × All (Fits g.name) g.others

  add_member-IsFit :
      (s : Subscription) (gs : List Group)
      → Fits s.queue s
      → All IsFit gs
      → All IsFit (add_member s gs)
  unfolding add_member
  add_member-IsFit s [] fits h = ((fits, tt), tt)
  add_member-IsFit s (g ∷ rest) fits h = elim (Bool-cases (str_eq g.name s.queue)) [
    | inl same ↦
        let here : Fits g.name s =
          subst (λ n. Fits n s) (sym (eq_of_str_eq g.name s.queue same)) fits in
        rw same ((h.0.0, All-append (Fits g.name) g.others (s ∷ []) h.0.1 (here, tt)), h.1)
    | inr n ↦ rw n (h.0, add_member-IsFit s rest fits h.1)
  ]

  groups-IsFit :
      (xs : List Subscription) (gs : List Group)
      → All P xs
      → All IsFit gs
      → All IsFit (groups xs gs)
  unfolding groups
  groups-IsFit [] gs p h = h
  groups-IsFit (s ∷ xs) gs p h = elim (Bool-cases (is_blank s.queue)) [
    | inl blank ↦ rw blank (groups-IsFit xs gs p.1 h)
    | inr own ↦
        rw own (groups-IsFit xs (add_member s gs) p.1 (add_member-IsFit s gs (refl, own, p.0) h))
  ]

  nth-All :
      (n : String) (s : Subscription) (xs : List Subscription) (i : ℕ)
      → Fits n s
      → All (Fits n) xs
      → Fits n (nth s xs i)
  unfolding nth
  nth-All n s [] i fits h = fits
  nth-All n s (t ∷ xs) zero fits h = fits
  nth-All n s (t ∷ xs) (suc i) fits h = nth-All n t xs i h.0 h.1

  chosen-Fits : (random : String → ℕ) (g : Group) → IsFit g → Fits g.name (chosen random g)
  unfolding chosen
  chosen-Fits random g h = nth-All g.name g.member g.others _ h.0 h.1

  choices-All :
      (random : String → ℕ) (gs : List Group) → All IsFit gs → All P (map (chosen random) gs)
  choices-All random [] h = tt
  choices-All random (g ∷ gs) h = ((chosen-Fits random g h.0).2, choices-All random gs h.1)

  choices-count :
      (random : String → ℕ) (q : String) (gs : List Group)
      → All IsFit gs
      → count_if (is_of q) (map (chosen random) gs) ≡ count_if (is_named q) gs
  choices-count random q [] h = refl
  choices-count random q (g ∷ gs) h =
      let own = (chosen-Fits random g h.0).0 in
      let rest = choices-count random q gs h.1 in rw (own, rest) refl

  choices-named :
      (random : String → ℕ) (gs : List Group)
      → All IsFit gs
      → keep is_broadcast (map (chosen random) gs) ≡ []
  choices-named random [] h = refl
  choices-named random (g ∷ gs) h =
      let (own, named, _) = chosen-Fits random g h.0 in
      let rest = choices-named random gs h.1 in rw (own, named, rest) refl

keep-append :
    (p : Subscription → Bool) (xs ys : List Subscription)
    → keep p (xs ++ ys) ≡ keep p xs ++ keep p ys
keep-append p [] ys = refl
keep-append p (x ∷ xs) ys = ground (arith, keep-append p xs ys)

keep_twice : (p : Subscription → Bool) (xs : List Subscription) → keep p (keep p xs) ≡ keep p xs
keep_twice p [] = refl
keep_twice p (x ∷ xs) = ground (arith, keep_twice p xs)

keep-All :
    (P : Subscription → Type 0) (p : Subscription → Bool) (xs : List Subscription)
    → All P xs
    → All P (keep p xs)
keep-All P p [] h = tt
keep-All P p (x ∷ xs) h = elim (Bool-cases (p x)) [
  | inl is ↦ rw is (h.0, keep-All P p xs h.1)
  | inr n ↦ rw n (keep-All P p xs h.1)
]

count_if-append :
    (p : Subscription → Bool) (xs ys : List Subscription)
    → count_if p (xs ++ ys) ≡ count_if p xs + count_if p ys
count_if-append p [] ys = omega arith
count_if-append p (x ∷ xs) ys = ground (arith, count_if-append p xs ys)

broadcasts-count :
    (q : String) (xs : List Subscription)
    → is_blank q ≡ false
    → count_if (is_of q) (keep is_broadcast xs) ≡ 0
broadcasts-count q [] named = refl
broadcasts-count q (s ∷ xs) named =
    ground (arith, broadcasts-count q xs named, eq_iff s.queue q, eq_iff s.queue "", named)

abbrev IsAny : Subscription → Type 0
IsAny _ = Unit

anything : (xs : List Subscription) → All IsAny xs
anything [] = tt
anything (x ∷ xs) = (tt, anything xs)

fit : (subject : String) (subs : Subs) → All (IsFit IsAny) (groups (snapshot subject subs) [])
fit subject subs = groups-IsFit IsAny (snapshot subject subs) [] (anything _) tt

-- `Publish` starts one subscription of each queue group that has a matching member, whatever the random
-- numbers are.
pub publish_once :
    (random : String → ℕ) (subject q : String) (subs : Subs)
    → is_blank q ≡ false
    → count_if (is_of q) (publish random subject subs)
      ≡ (if any (is_of q) (snapshot subject subs) then 1 else 0)
unfolding publish
publish_once random subject q subs named =
    let xs = snapshot subject subs in
    let gs = groups xs [] in
    let apart = count_if-append (is_of q) (keep is_broadcast xs) (map (chosen random) gs) in
    let broadcasts = broadcasts-count q xs named in
    let choices = choices-count IsAny random q gs (fit subject subs) in
    ground (arith, apart, broadcasts, choices, groups-count q xs [] named)

-- `Publish` starts every matching subscription that is in no queue group, once and in the order of the snapshot,
-- and starts no subscription but those of the snapshot: what holds of these holds of what it starts.
pub publish-Reaches :
    (random : String → ℕ) (subject : String) (subs : Subs) (P : Subscription → Type 0)
    → All P (snapshot subject subs)
    → (keep is_broadcast (publish random subject subs) ≡ keep is_broadcast (snapshot subject subs))
      × All P (publish random subject subs)
unfolding publish
publish-Reaches random subject subs P h =
    let xs = snapshot subject subs in
    let none_more = choices-named IsAny random (groups xs []) (fit subject subs) in
    (
      keep-append is_broadcast (keep is_broadcast xs) (map (chosen random) (groups xs []))
          ∙ rw (none_more, keep_twice is_broadcast xs) (append_empty (keep is_broadcast xs)),
      All-append P (keep is_broadcast xs) (map (chosen random) (groups xs []))
          (keep-All P is_broadcast xs h)
          (choices-All P random (groups xs []) (groups-IsFit P xs [] h tt)),
    )
  where
    append_empty : (ys : List Subscription) → ys ++ [] ≡ ys
    append_empty [] = refl
    append_empty (y ∷ ys) = ap (◌∷◌ y) (append_empty ys)
