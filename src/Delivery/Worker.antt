-- ===== src/Delivery/Worker.antt =====
-- internal/notify/worker.go: `sendWithRetry` and what `worker` does with its result.
use yip_yap_foss.Prelude.{
  ℕ, zero, suc, ◌*◌, ltb, Bool, true, false, Option, none, some, List, [], ◌∷◌, if◌then◌else◌,
}

pub data Verdict : Type 0 where
  delivered failed cancelled : Verdict

-- Whether the attempt of a number succeeds, and whether the context ends in the wait after it.
pub record Attempts : Type 0 where
  pub succeeds : ℕ → Bool
  pub ends : ℕ → Bool

-- The verdict, how often `Send` was called, and the waits, in order.
pub record Effort : Type 0 where
  pub verdict : Verdict
  pub sends : ℕ
  pub waits : List ℕ

abbrev pub next_backoff : ℕ → ℕ → ℕ
next_backoff max b = if ltb max (b * 2) then max else b * 2

abbrev pub spend : Option ℕ → Effort → Effort
spend none e = record e { sends = suc e.sends }
spend (some b) e = record e { sends = suc e.sends; waits = b ∷ e.waits }

-- The loop: attempts left, the number of the next one, the backoff.
unfoldable pub attempt_from : Attempts → ℕ → ℕ → ℕ → ℕ → Effort
attempt_from t max zero n b = record { verdict = failed; sends = 0; waits = [] }
attempt_from t max (suc zero) n b = record {
  verdict = if t.succeeds n then delivered else failed;
  sends = 1;
  waits = [];
}
attempt_from t max (suc (suc left)) n b =
    let rest = attempt_from t max (suc left) (suc n) (next_backoff max b) in
    if t.succeeds n
    then record { verdict = delivered; sends = 1; waits = [] }
    else if t.ends n
    then record { verdict = cancelled; sends = 1; waits = b ∷ [] }
    else spend (some b) rest

-- `sendWithRetry`: five attempts, from one second on, a minute at most.
unfoldable pub send_with_retry : Attempts → Effort
unfolding attempt_from
send_with_retry t = attempt_from t 60000000000 5 0 1000000000

-- The counters and the dead letters of a pool.
pub record Stats : Type 0 where
  pub sent : ℕ
  pub failures : ℕ
  pub dead_letters : ℕ

abbrev is_delivered : Verdict → Bool
is_delivered delivered = true
is_delivered _ = false

-- The body of `worker`'s loop, with a dead-letter handler.
unfoldable pub work : Attempts → Stats → Stats
unfolding send_with_retry
work t s =
    if is_delivered (send_with_retry t).verdict
    then record s { sent = suc s.sent }
    else record s { failures = suc s.failures; dead_letters = suc s.dead_letters }
