-- ===== src/Maintenance/Window.antt =====
-- internal/domain/maintenance.go, with instants in UTC, in nanoseconds since the zero time, which is a
-- midnight. The weekday and the day of the month are those of the library.
use yip_yap_foss.Prelude.{
  ℕ, ◌+◌, ◌*◌, ◌/◌, ◌%◌, ltb, leb, ◌==◌, String, Bool, true, false, ◌&&◌, ◌||◌, Option, none, some,
  List, any, str_eq, is_blank, if◌then◌else◌,
}

-- `days_of_week` is the decoded list, empty if the text does not decode.
pub record MaintenanceWindow : Type 0 where
  pub id : String
  pub org_id : String
  pub monitor_id : String
  pub start_at : ℕ
  pub end_at : ℕ
  pub suppress_alerts : Bool
  pub recurrence_type : String
  pub recurrence_end_at : Option ℕ
  pub days_of_week : List ℕ
  pub day_of_month : ℕ

pub record Calendar : Type 0 where
  pub weekday : ℕ → ℕ
  pub day_of_month : ℕ → ℕ

-- `todayStart`: the start's time of day, in whole seconds, on the day of `t`.
unfoldable pub today_start : MaintenanceWindow → ℕ → ℕ
today_start mw t =
    t / 86400000000000 * 86400000000000 + mw.start_at % 86400000000000 / 1000000000 * 1000000000

-- Between `todayStart` and `todayStart.Add(EndAt.Sub(StartAt))`.
unfoldable pub in_today : MaintenanceWindow → ℕ → Bool
unfolding today_start
in_today mw t = leb (today_start mw t) t && leb (t + mw.start_at) (today_start mw t + mw.end_at)

abbrev pub is_once : MaintenanceWindow → Bool
is_once mw = is_blank mw.recurrence_type || str_eq mw.recurrence_type "none"

-- The day is one of the recurrence.
unfoldable pub recurs_on : Calendar → MaintenanceWindow → ℕ → Bool
recurs_on cal mw t =
    if str_eq mw.recurrence_type "daily"
    then true
    else if str_eq mw.recurrence_type "weekly"
    then any (λ d. d == cal.weekday t) mw.days_of_week
    else if str_eq mw.recurrence_type "monthly"
    then cal.day_of_month t == mw.day_of_month
    else false

abbrev is_past : Option ℕ → ℕ → Bool
is_past none t = false
is_past (some e) t = ltb e t

-- `IsActiveAt`.
unfoldable pub is_active_at : Calendar → MaintenanceWindow → ℕ → Bool
unfolding in_today recurs_on
is_active_at cal mw t =
    if is_once mw
    then leb mw.start_at t && leb t mw.end_at
    else if is_past mw.recurrence_end_at t
    then false
    else if ltb t mw.start_at
    then false
    else recurs_on cal mw t && in_today mw t
