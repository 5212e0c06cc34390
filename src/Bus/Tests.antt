-- ===== src/Bus/Tests.antt =====
-- internal/bus/channel.go on a few subjects.
use yip_yap_foss.Prelude.{
  String, ℕ, any, count_if, keep, All, is_blank, str_eq, if◌then◌else◌, true, false, ◌≡◌, ◌↔◌, refl,
  [], ◌∷◌,
}
use yip_yap_foss.Bus.Subjects.{split_dots, has_wildcard, subject_matches}
use yip_yap_foss.Bus.Channel.{Subscription, Subs, queue_subscribe, unsubscribe, snapshot, publish}
use yip_yap_foss.Bus.Publishing.{publish_once, publish-Reaches}
use yip_yap_foss.Bus.Matching.{Matches, subject_matches-Matches}

tokens : split_dots "alert..firing" ≡ "alert" ∷ "" ∷ "firing" ∷ []
unfolding split_dots
tokens = refl

star_is_one : subject_matches "alert.*" "alert.trigger.x" ≡ false
unfolding subject_matches
star_is_one = refl

rest_is_some : subject_matches "alert.>" "alert" ≡ false
unfolding subject_matches
rest_is_some = refl

subject_matches-Matches_example :
    subject_matches "ce.*.>" "ce.org.monitor.down" ≡ true
    ↔ Matches (split_dots "ce.*.>") (split_dots "ce.org.monitor.down")
unfolding has_wildcard
subject_matches-Matches_example = subject_matches-Matches "ce.*.>" "ce.org.monitor.down" refl

abbrev audit : Subscription
audit = record { handler = "audit"; queue = "" }

abbrev worker : String → Subscription
worker name = record { handler = name; queue = "workers" }

-- Two workers of one queue under two patterns, and a listener to all.
abbrev subs : Subs
subs =
    ("alert.*", worker "first" ∷ [])
    ∷ (">", audit ∷ [])
    ∷ ("alert.trigger", worker "second" ∷ [])
    ∷ []

abbrev second : String → ℕ
second _ = 1

second_chosen : publish second "alert.trigger" subs ≡ audit ∷ worker "second" ∷ []
unfolding publish snapshot subject_matches
second_chosen = refl

subscribed :
    queue_subscribe "alert.trigger"
      (worker "second")
      (queue_subscribe ">" audit (queue_subscribe "alert.*" (worker "first") []))
    ≡ subs
unfolding queue_subscribe
subscribed = refl

unsubscribed :
    unsubscribe ">" "" subs
    ≡ ("alert.*", worker "first" ∷ []) ∷ ("alert.trigger", worker "second" ∷ []) ∷ []
unfolding unsubscribe
unsubscribed = refl

publish_once_example :
    count_if (λ (s : Subscription). str_eq s.queue "workers") (publish second "alert.trigger" subs)
    ≡ (if any (λ (s : Subscription). str_eq s.queue "workers") (snapshot "alert.trigger" subs)
        then 1
        else 0)
publish_once_example = publish_once second "alert.trigger" "workers" subs refl

abbrev HasHandler : Subscription → Type 0
HasHandler s = is_blank s.handler ≡ false

publish-Reaches_example :
    (keep (λ (s : Subscription). is_blank s.queue) (publish second "alert.trigger" subs)
      ≡ keep (λ (s : Subscription). is_blank s.queue) (snapshot "alert.trigger" subs))
    × All HasHandler (publish second "alert.trigger" subs)
unfolding snapshot subject_matches
publish-Reaches_example =
    publish-Reaches second "alert.trigger" subs HasHandler (refl, (refl, (refl, tt)))
