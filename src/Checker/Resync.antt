-- ===== src/Checker/Resync.antt =====
-- internal/checker/scheduler.go: the table of runners after `resyncFromDB`.
use yip_yap_foss.Prelude.{
  ℤ, pos, ◌≤ℤ◌, ◌<ℤ◌, ltb_ℤ, seconds, ◌⊎◌, some_injective, String, Bool, true, false, not, ◌||◌,
  ◌≡◌, ◌≢◌, refl, ◌∙◌, ap, arith, inl, inr, Option, none, some, List, [], ◌∷◌, any, keep, first,
  str_eq_refl, eq_of_str_eq, if◌then◌else◌, if_rule, if_known, first_holds, any-first, Bool-cases,
  Option-cases, All, subst, eq_of_parts,
}
use text.Mathlib.TextEquality.{eq_iff}
use yip_yap_foss.Domain.Monitor.{Monitor}
use yip_yap_foss.Checker.Runners.{
  Runner, find_runner, stop_runner, runner_interval, add_monitor, same_ℤ, sync_monitor, sync_all,
  has_monitor_id, resync_from_db, runs,
}

-- Every id is listed once.
abbrev pub IsDistinct : List Monitor → Type 0
IsDistinct [] = Unit
IsDistinct (m ∷ ms) = (any (has_monitor_id m.id) ms ≡ false) × IsDistinct ms

-- The period of a ticker: the seconds of the interval, or one second where they are less.
abbrev pub HasPeriod : ℤ → ℤ → Type 0
HasPeriod interval period =
    ((pos 1000000000 ≤ℤ seconds interval) × (period ≡ seconds interval))
    ⊎ ((seconds interval <ℤ pos 1000000000) × (period ≡ pos 1000000000))

-- The runner's ticker has the period of its own copy of the monitor.
abbrev pub IsPaced : Runner → Type 0
IsPaced r = HasPeriod r.monitor.interval_seconds r.interval

-- The runner of the id is there, with the interval and the timeout of the monitor, and ticks at that interval.
abbrev pub Follows : Monitor → List Runner → Type 0
Follows m rs =
    (r : Runner) × (find_runner m.id rs ≡ some r)
    × (r.monitor.interval_seconds ≡ m.interval_seconds)
    × (r.monitor.timeout_seconds ≡ m.timeout_seconds)
    × HasPeriod m.interval_seconds r.interval

runner_interval-HasPeriod : (m : Monitor) → HasPeriod m.interval_seconds (runner_interval m)
unfolding runner_interval
runner_interval-HasPeriod m =
    elim (Bool-cases (ltb_ℤ (seconds m.interval_seconds) (pos 1000000000))) [
      | inl short ↦ inr (ground (arith, short), ground (arith, short))
      | inr long ↦ inl (ground (arith, long), ground (arith, long))
    ]

find_runner-IsPaced :
    (i : String) (rs : List Runner) (r : Runner)
    → All IsPaced rs
    → find_runner i rs ≡ some r
    → IsPaced r
unfolding find_runner
find_runner-IsPaced i [] r h e = ground (arith, e)
find_runner-IsPaced i (s ∷ rs) r h e = elim (Bool-cases (runs i s)) [
  | inl hit ↦ subst IsPaced (some_injective s r (rw hit at e)) h.0
  | inr miss ↦ find_runner-IsPaced i rs r h.1 (rw miss at e)
]

keep-IsPaced : (p : Runner → Bool) (rs : List Runner) → All IsPaced rs → All IsPaced (keep p rs)
keep-IsPaced p [] h = tt
keep-IsPaced p (r ∷ rs) h =
    if_rule (All IsPaced) (p r) (h.0, keep-IsPaced p rs h.1) (keep-IsPaced p rs h.1)

add_monitor-IsPaced :
    (m : Monitor) (rs : List Runner) → All IsPaced rs → All IsPaced (add_monitor m rs)
unfolding add_monitor stop_runner
add_monitor-IsPaced m rs h =
    let kept = keep-IsPaced (λ r. not (runs m.id r)) rs h in
    if_rule (All IsPaced) m.enabled (runner_interval-HasPeriod m, kept) kept

sync_monitor-IsPaced :
    (m : Monitor) (rs : List Runner) → All IsPaced rs → All IsPaced (sync_monitor m rs)
unfolding sync_monitor stop_runner
sync_monitor-IsPaced m rs h = elim (Option-cases (find_runner m.id rs)) [
  | inl e ↦ rw (e, sync_monitor) (add_monitor-IsPaced m rs h)
  | inr (r, e) ↦
      rw (e, sync_monitor)
        (if_rule (All IsPaced) _
          (add_monitor-IsPaced m _ (keep-IsPaced (λ r. not (runs m.id r)) rs h)) h)
]

sync_all-IsPaced :
    (ms : List Monitor) (rs : List Runner) → All IsPaced rs → All IsPaced (sync_all ms rs)
unfolding sync_all
sync_all-IsPaced [] rs h = h
sync_all-IsPaced (m ∷ ms) rs h =
    sync_all-IsPaced ms (sync_monitor m rs) (sync_monitor-IsPaced m rs h)

passed_first : (a b : Bool) → (not a || not b) ≡ false → a ≡ true
passed_first a b h = ground arith

passed_second : (a b : Bool) → (not a || not b) ≡ false → b ≡ true
passed_second a b h = ground arith

same_ℤ-eq : (a b : ℤ) → same_ℤ a b ≡ true → a ≡ b
same_ℤ-eq a b h = eq_of_parts a b (ground arith)

find_runner-stop_runner :
    (i : String) (j : String) (rs : List Runner)
    → j ≢ i
    → find_runner i (stop_runner j rs) ≡ find_runner i rs
unfolding find_runner stop_runner
find_runner-stop_runner i j [] h = refl
find_runner-stop_runner i j (r ∷ rs) h =
    ground (arith, eq_iff r.monitor.id i, eq_iff r.monitor.id j, find_runner-stop_runner i j rs h)

find_runner-add_monitor_own :
    (m : Monitor) (rs : List Runner)
    → m.enabled ≡ true
    → find_runner m.id (add_monitor m rs)
      ≡ some (record { monitor = m; interval = runner_interval m })
unfolding find_runner add_monitor
find_runner-add_monitor_own m rs on = ground (arith, on, str_eq_refl m.id)

find_runner-add_monitor_other :
    (i : String) (m : Monitor) (rs : List Runner)
    → m.id ≢ i
    → find_runner i (add_monitor m rs) ≡ find_runner i rs
unfolding find_runner add_monitor
find_runner-add_monitor_other i m rs h =
    let same = find_runner-stop_runner i m.id rs h in ground (arith, eq_iff m.id i, same)

sync_monitor-Follows :
    (m : Monitor) (rs : List Runner)
    → All IsPaced rs
    → m.enabled ≡ true
    → Follows m (sync_monitor m rs)
unfolding sync_monitor
sync_monitor-Follows m rs paced on = by_runner (find_runner m.id rs) refl
  where
    added : (ss : List Runner) → Follows m (add_monitor m ss)
    added ss = (
      record { monitor = m; interval = runner_interval m },
      find_runner-add_monitor_own m ss on,
      refl,
      refl,
      runner_interval-HasPeriod m,
    )

    by_runner :
        (o : Option Runner)
        → find_runner m.id rs ≡ o
        → Follows m (
            let out : List Runner = elim o [
              | none ↦ add_monitor m rs
              | some r ↦
                  if not (same_ℤ r.monitor.interval_seconds m.interval_seconds)
                    || not (same_ℤ r.monitor.timeout_seconds m.timeout_seconds)
                  then add_monitor m (stop_runner m.id rs)
                  else rs
            ] in
            out)
    by_runner none e = added rs
    by_runner (some r) e =
        if_known (Follows m)
          (not (same_ℤ r.monitor.interval_seconds m.interval_seconds)
            || not (same_ℤ r.monitor.timeout_seconds m.timeout_seconds))
          (λ _. added (stop_runner m.id rs))
          (λ same. (
            r,
            e,
            same_ℤ-eq r.monitor.interval_seconds m.interval_seconds (passed_first _ _ same),
            same_ℤ-eq r.monitor.timeout_seconds m.timeout_seconds (passed_second _ _ same),
            subst (λ (k : ℤ). HasPeriod k r.interval)
                (same_ℤ-eq r.monitor.interval_seconds m.interval_seconds (passed_first _ _ same))
                (find_runner-IsPaced m.id rs r paced e),
          ))

sync_monitor-other :
    (i : String) (m : Monitor) (rs : List Runner)
    → m.id ≢ i
    → find_runner i (sync_monitor m rs) ≡ find_runner i rs
unfolding sync_monitor
sync_monitor-other i m rs h = elim (Option-cases (find_runner m.id rs)) [
  | inl e ↦ rw (e, sync_monitor) (find_runner-add_monitor_other i m rs h)
  | inr (r, e) ↦
      rw (e, sync_monitor)
        (if_rule (λ ss. find_runner i ss ≡ find_runner i rs) _
          (find_runner-add_monitor_other i m (stop_runner m.id rs) h
            ∙ find_runner-stop_runner i m.id rs h)
          refl)
]

unlisted :
    (i : String) (ms : List Monitor)
    → first (has_monitor_id i) ms ≡ none
    → any (has_monitor_id i) ms ≡ false
unlisted i [] h = refl
unlisted i (m ∷ ms) h = ground (arith, unlisted i ms)

sync_all-other :
    (i : String) (ms : List Monitor) (rs : List Runner)
    → any (has_monitor_id i) ms ≡ false
    → find_runner i (sync_all ms rs) ≡ find_runner i rs
unfolding sync_all
sync_all-other i [] rs h = refl
sync_all-other i (m ∷ ms) rs h =
    sync_all-other i ms (sync_monitor m rs) (ground arith)
    ∙ sync_monitor-other i m rs (λ e. ground (arith, eq_iff m.id i))

abbrev pub IsEnabled : Monitor → Type 0
IsEnabled m = m.enabled ≡ true

abbrev pub find_monitor : String → List Monitor → Option Monitor
find_monitor i ms = first (has_monitor_id i) ms

sync_all-Follows :
    (i : String) (m : Monitor) (ms : List Monitor) (rs : List Runner)
    → All IsPaced rs
    → IsDistinct ms
    → All IsEnabled ms
    → find_monitor i ms ≡ some m
    → Follows m (sync_all ms rs)
unfolding sync_all
sync_all-Follows i m [] rs paced d on e = ground arith
sync_all-Follows i m (n ∷ ms) rs paced d on e = elim (Bool-cases (has_monitor_id i n)) [
  | inl hit ↦
      let is : n ≡ m = ground arith in
      let (r, found, interval, timeout, period) = sync_monitor-Follows n rs paced on.0 in
      subst (λ o. Follows o (sync_all ms (sync_monitor n rs))) is
        (r, sync_all-other n.id ms (sync_monitor n rs) d.0 ∙ found, interval, timeout, period)
  | inr miss ↦
      sync_all-Follows i m ms (sync_monitor n rs) (sync_monitor-IsPaced n rs paced) d.1 on.1
        (ground arith)
]

find_runner-keep :
    (i : String) (ms : List Monitor) (rs : List Runner)
    → find_runner i (keep (λ r. any (has_monitor_id r.monitor.id) ms) rs)
      ≡ (if any (has_monitor_id i) ms then find_runner i rs else none)
unfolding find_runner
find_runner-keep i ms [] = ground arith
find_runner-keep i ms (r ∷ rs) = elim (Bool-cases (runs i r)) [
  | inl hit ↦
      let is = eq_of_str_eq r.monitor.id i hit in
      let same : any (has_monitor_id r.monitor.id) ms ≡ any (has_monitor_id i) ms =
        ap (λ j. any (has_monitor_id j) ms) is in
      ground (arith, same, find_runner-keep i ms rs)
  | inr miss ↦ ground (arith, find_runner-keep i ms rs)
]

-- After a resync from a listing of enabled monitors, each listed once, over runners whose tickers have the period of
-- their interval: every listed monitor runs with the interval and the timeout that are listed, its ticker's period
-- being that interval or, if it is shorter, one second; no other monitor runs; and the tickers still have the periods
-- of their intervals.
pub resync_from_db-Follows :
    (i : String) (ms : List Monitor) (rs : List Runner)
    → All IsPaced rs
    → IsDistinct ms
    → All IsEnabled ms
    → ((m : Monitor) → find_monitor i ms ≡ some m → Follows m (resync_from_db (some ms) rs))
      × (find_monitor i ms ≡ none → find_runner i (resync_from_db (some ms) rs) ≡ none)
      × All IsPaced (resync_from_db (some ms) rs)
unfolding resync_from_db
resync_from_db-Follows i ms rs paced d on = (
  λ m e.
      let (r, found, interval, timeout, period) = sync_all-Follows i m ms rs paced d on e in
      let key = eq_of_str_eq m.id i (first_holds (has_monitor_id i) ms m e) in
      let listed : any (has_monitor_id m.id) ms ≡ true =
        ap (λ j. any (has_monitor_id j) ms) key ∙ any-first (has_monitor_id i) ms m e in
      (
        r,
        find_runner-keep m.id ms (sync_all ms rs)
            ∙ ap (λ b. if b then find_runner m.id (sync_all ms rs) else none) listed
            ∙ found,
        interval,
        timeout,
        period,
      ),
  λ e.
      find_runner-keep i ms (sync_all ms rs)
      ∙ ap (λ b. if b then find_runner i (sync_all ms rs) else none) (unlisted i ms e),
  keep-IsPaced (λ (r : Runner). any (has_monitor_id r.monitor.id) ms) (sync_all ms rs)
      (sync_all-IsPaced ms rs paced),
)
