-- ===== src/Maintenance/Ticker.antt =====
-- internal/maintenance/ticker.go: `poll`. The map of observed windows is a list in which the first entry
-- of an id counts.
use yip_yap_foss.Prelude.{
  ℕ, String, Bool, true, false, not, ◌&&◌, Option, none, some, List, [], ◌∷◌, any, map, str_eq,
  is_blank, if◌then◌else◌,
}
use yip_yap_foss.Maintenance.Window.{MaintenanceWindow, Calendar, is_once, is_active_at}

pub record WindowState : Type 0 where
  pub active : Bool
  pub org_id : String
  pub monitor_id : String

pub data MaintenanceEvent : Type 0 where
  started :
      (window org : String) (monitors : List String) (started_at : ℕ) (scheduled_end : Option ℕ)
      → MaintenanceEvent
  ended : (window org : String) (ended_at : ℕ) (ended_early : Bool) → MaintenanceEvent

-- The map, and the events that were handed to the emitter, each with whether it took it, newest first.
pub record World : Type 0 where
  pub active : List (String × WindowState)
  pub emitted : List (MaintenanceEvent × Bool)

pub record Env : Type 0 where
  pub now : ℕ
  pub calendar : Calendar
  pub emit_ok : MaintenanceEvent → Bool

-- `active[id]`.
unfoldable pub observed : String → List (String × WindowState) → Option WindowState
observed i [] = none
observed i ((j, s) ∷ rest) = if str_eq j i then some s else observed i rest

abbrev hand_over : Env → MaintenanceEvent → World → World
hand_over env e w = record w { emitted = (e, env.emit_ok e) ∷ w.emitted }

-- `emitStarted`.
unfoldable pub emit_started : Env → MaintenanceWindow → World → World
emit_started env mw w =
    hand_over env
      (started mw.id mw.org_id (if is_blank mw.monitor_id then [] else mw.monitor_id ∷ []) env.now
        (if is_once mw then some mw.end_at else none))
      w

-- `emitEnded`.
unfoldable pub emit_ended : Env → String → String → Bool → World → World
emit_ended env org_id window_id early w = hand_over env (ended window_id org_id env.now early) w

-- The event of a window that is seen, by what was remembered of it.
unfoldable pub announce : Env → MaintenanceWindow → Bool → Option WindowState → World → World
unfolding emit_started emit_ended
announce env mw is_active none w = if is_active then emit_started env mw w else w
announce env mw is_active (some prev) w =
    if not prev.active && is_active
    then emit_started env mw w
    else if prev.active && not is_active
    then emit_ended env mw.org_id mw.id false w
    else w

-- One window of the listing.
unfoldable pub observe : Env → MaintenanceWindow → World → World
unfolding observed announce
observe env mw w =
    let is_active = is_active_at env.calendar mw env.now in
    let w' = announce env mw is_active (observed mw.id w.active) w in
    record w' {
      active =
          (mw.id, record { active = is_active; org_id = mw.org_id; monitor_id = mw.monitor_id })
          ∷ w'.active;
    }

unfoldable pub observe_all : Env → List MaintenanceWindow → World → World
unfolding observe
observe_all env [] w = w
observe_all env (mw ∷ rest) w = observe_all env rest (observe env mw w)

abbrev pub has_window_id : String → MaintenanceWindow → Bool
has_window_id i mw = str_eq mw.id i

-- `delete(t.active, id)`.
unfoldable pub forget : String → List (String × WindowState) → List (String × WindowState)
forget i [] = []
forget i ((j, s) ∷ rest) = if str_eq j i then forget i rest else (j, s) ∷ forget i rest

-- One remembered window that is not listed: it was deleted.
unfoldable pub drop_window : Env → String → World → World
unfolding observed emit_ended forget
drop_window env i w = elim (observed i w.active) [
  | none ↦ w
  | some prev ↦
      let w' = if prev.active then emit_ended env prev.org_id i true w else w in
      record w' { active = forget i w'.active }
]

unfoldable pub drop_all : Env → List MaintenanceWindow → List String → World → World
unfolding drop_window
drop_all env listed [] w = w
drop_all env listed (i ∷ rest) w =
    drop_all env listed rest (if any (has_window_id i) listed then w else drop_window env i w)

-- `poll`; a failed read changes nothing.
unfoldable pub poll : Env → Option (List MaintenanceWindow) → World → World
unfolding observe_all drop_all
poll env none w = w
poll env (some listed) w =
    let w' = observe_all env listed w in drop_all env listed (map (λ o. o.0) w'.active) w'
