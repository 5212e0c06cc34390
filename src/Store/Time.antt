-- ===== src/Store/Time.antt =====
-- internal/store/sqlite/helpers.go: an instant is stored as RFC 3339 text, so to the second.
use yip_yap_foss.Prelude.{ℕ, ◌*◌, ◌/◌, ◌≤◌, ◌<◌, ◌+◌, Option, none, some, arith}

abbrev pub second : ℕ
second = 1000000000

-- `t.UTC().Format(timeFormat)`, read back by `mustParseTime`.
unfoldable pub stored_time : ℕ → ℕ
stored_time t = t / 1000000000 * 1000000000

abbrev pub stored_optional : Option ℕ → Option ℕ
stored_optional none = none
stored_optional (some t) = some (stored_time t)

-- What is read back is at most a second early.
pub stored_time_bounds : (t : ℕ) → (stored_time t ≤ t) × (t < stored_time t + second)
unfolding stored_time
stored_time_bounds t = (omega arith, omega arith)
