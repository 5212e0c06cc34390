-- ===== src/Bus/Channel.antt =====
-- internal/bus/channel.go: the subscriptions of `ChannelBus` and its deliveries. A handler is known by its name, and the
-- goroutine that runs it by the subscription that it serves.
use yip_yap_foss.Prelude.{
  ℕ, zero, suc, ◌%◌, not, String, str_eq, is_blank, List, [], ◌∷◌, ◌++◌, map, keep, if◌then◌else◌,
  length,
}
use yip_yap_foss.Bus.Subjects.{subject_matches}

pub record Subscription : Type 0 where
  pub handler : String
  pub queue : String

-- `subs`, from a subject to its subscriptions; the order stands for the order in which `range` visits the map.
abbrev pub Subs : Type 0
Subs = List (String × List Subscription)

-- `b.subs[subject] = append(b.subs[subject], ...)`.
unfoldable pub queue_subscribe : String → Subscription → Subs → Subs
queue_subscribe subject s [] = (subject, s ∷ []) ∷ []
queue_subscribe subject s ((k, members) ∷ rest) =
    if str_eq k subject
    then (k, members ++ (s ∷ [])) ∷ rest
    else (k, members) ∷ queue_subscribe subject s rest

-- An entry that has no member left is deleted.
abbrev put_kept : String → List Subscription → Subs → Subs
put_kept k [] rest = rest
put_kept k (s ∷ kept) rest = (k, s ∷ kept) ∷ rest

-- `Unsubscribe`.
unfoldable pub unsubscribe : String → String → Subs → Subs
unsubscribe subject queue [] = []
unsubscribe subject queue ((k, members) ∷ rest) =
    if str_eq k subject
    then put_kept k (keep (λ (s : Subscription). not (str_eq s.queue queue)) members) rest
    else (k, members) ∷ unsubscribe subject queue rest

-- The snapshot that `Publish` takes.
unfoldable pub snapshot : String → Subs → List Subscription
snapshot subject [] = []
snapshot subject ((k, members) ∷ rest) =
    let more = snapshot subject rest in if subject_matches k subject then members ++ more else more

-- A group of subscriptions with one queue: its first member and those after it.
pub record Group : Type 0 where
  pub name : String
  pub member : Subscription
  pub others : List Subscription

-- `queues[s.queue] = append(queues[s.queue], s)`.
unfoldable pub add_member : Subscription → List Group → List Group
add_member s [] = (record { name = s.queue; member = s; others = [] }) ∷ []
add_member s (g ∷ rest) =
    if str_eq g.name s.queue
    then record g { others = g.others ++ (s ∷ []) } ∷ rest
    else g ∷ add_member s rest

-- The loop that fills `queues`.
unfoldable pub groups : List Subscription → List Group → List Group
unfolding add_member
groups [] gs = gs
groups (s ∷ rest) gs = groups rest (if is_blank s.queue then gs else add_member s gs)

unfoldable pub nth : Subscription → List Subscription → ℕ → Subscription
nth s [] i = s
nth s (t ∷ rest) zero = s
nth s (t ∷ rest) (suc i) = nth t rest i

-- `members[rand.IntN(len(members))]`: `random` gives the number of a group's choice.
unfoldable pub chosen : (String → ℕ) → Group → Subscription
unfolding nth
chosen random g = nth g.member g.others (random g.name % suc (length g.others))

-- `Publish`: the subscriptions whose handlers are started.
unfoldable pub publish : (String → ℕ) → String → Subs → List Subscription
unfolding snapshot groups chosen
publish random subject subs =
    keep (λ (s : Subscription). is_blank s.queue) (snapshot subject subs)
    ++ map (chosen random) (groups (snapshot subject subs) [])
