-- ===== src/Maintenance/Tests.antt =====
-- internal/maintenance on a window that runs past midnight and on one that is active at the start.
use yip_yap_foss.Prelude.{ℕ, ◌*◌, Bool, true, false, ◌≡◌, refl, none, some, List, [], ◌∷◌}
use yip_yap_foss.Maintenance.Window.{
  MaintenanceWindow, Calendar, is_active_at, recurs_on, in_today, today_start,
}
use yip_yap_foss.Maintenance.Ticker.{World, Env, observed, poll}
use yip_yap_foss.Maintenance.Observed.{IsPaired, unseen, is_open, kinds_for}
use yip_yap_foss.Maintenance.Lifecycle.{polls, polls-IsPaired}
use yip_yap_foss.Maintenance.Current.{poll_current}

abbrev hour : ℕ
hour = 3600000000000

-- From 23:00 to 02:00.
abbrev nightly : MaintenanceWindow
nightly = record {
  id = "n";
  org_id = "o";
  monitor_id = "";
  start_at = 23 * hour;
  end_at = 26 * hour;
  suppress_alerts = true;
  recurrence_type = "daily";
  recurrence_end_at = none;
  days_of_week = [];
  day_of_month = 0;
}

abbrev now_open : MaintenanceWindow
now_open = record nightly { recurrence_type = "none" }

abbrev calendar : Calendar
calendar = record { weekday = λ _. 0; day_of_month = λ _. 1 }

abbrev late : Env
late = record { now = 24 * hour; calendar = calendar; emit_ok = λ _. true }

abbrev boot : World
boot = record { active = []; emitted = [] }

boot-IsPaired : IsPaired "n" boot
unfolding observed kinds_for
boot-IsPaired = unseen

polls-IsPaired_example :
    IsPaired "n" (polls ((late, some (now_open ∷ [])) ∷ (late, none) ∷ (late, some []) ∷ []) boot)
polls-IsPaired_example =
    polls-IsPaired "n" ((late, some (now_open ∷ [])) ∷ (late, none) ∷ (late, some []) ∷ []) boot
      boot-IsPaired

poll_current_example :
    (is_open (observed "n" (poll late (some (now_open ∷ [])) boot).active)
      ≡ is_active_at calendar now_open (24 * hour))
    × (is_active_at calendar now_open (24 * hour) ≡ true
        → (ks : List Bool) × (kinds_for "n" (poll late (some (now_open ∷ [])) boot).emitted
            ≡ true ∷ ks))
poll_current_example =
    poll_current "n" late (now_open ∷ []) now_open boot (refl, tt) refl boot-IsPaired

-- At one in the morning the nightly window is not active, though it runs until two.
nightly_over : is_active_at calendar nightly (25 * hour) ≡ false
unfolding is_active_at in_today today_start recurs_on
nightly_over = refl
