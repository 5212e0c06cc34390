-- ===== src/Maintenance/Observed.antt =====
-- internal/maintenance/ticker.go: the events of one window in one poll.
use yip_yap_foss.Prelude.{
  String, Bool, true, false, ◌≡◌, ◌≢◌, refl, ◌∙◌, ap, arith, Option, none, some, List, [], ◌∷◌,
  str_eq, str_eq_refl, if◌then◌else◌,
}
use text.Mathlib.TextEquality.{eq_iff}
use yip_yap_foss.Maintenance.Window.{MaintenanceWindow, is_active_at}
use yip_yap_foss.Maintenance.Ticker.{
  WindowState, MaintenanceEvent, started, ended, World, Env, observed, emit_started, emit_ended,
  announce, observe, forget,
}

-- Starts and ends that take turns, newest first; the index says whether the last is a start.
pub data Alternates : Bool → List Bool → Type 0 where
  unseen : Alternates false []
  begun : {ks : List Bool} → Alternates false ks → Alternates true (true ∷ ks)
  finished : {ks : List Bool} → Alternates true ks → Alternates false (false ∷ ks)

abbrev window_of : MaintenanceEvent → String
window_of (started i _ _ _ _) = i
window_of (ended i _ _ _) = i

abbrev is_start : MaintenanceEvent → Bool
is_start (started _ _ _ _ _) = true
is_start (ended _ _ _ _) = false

-- The events of one window: `true` for a start.
unfoldable pub kinds_for : String → List (MaintenanceEvent × Bool) → List Bool
kinds_for i [] = []
kinds_for i ((e, _) ∷ rest) =
    if str_eq (window_of e) i then is_start e ∷ kinds_for i rest else kinds_for i rest

abbrev pub is_open : Option WindowState → Bool
is_open none = false
is_open (some s) = s.active

-- The events of the window take turns, and it is remembered as active exactly if the last is a start.
abbrev pub IsPaired : String → World → Type 0
IsPaired i w = Alternates (is_open (observed i w.active)) (kinds_for i w.emitted)

-- What a window that is seen adds to its events.
abbrev pub step_kinds : Bool → Bool → List Bool → List Bool
step_kinds false true ks = true ∷ ks
step_kinds true false ks = false ∷ ks
step_kinds _ _ ks = ks

pub step_kinds-Alternates :
    (was is : Bool) (ks : List Bool) → Alternates was ks → Alternates is (step_kinds was is ks)
step_kinds-Alternates false false ks a = a
step_kinds-Alternates false true ks a = begun a
step_kinds-Alternates true false ks a = finished a
step_kinds-Alternates true true ks a = a

announce-own :
    (env : Env) (mw : MaintenanceWindow) (is : Bool) (o : Option WindowState) (w : World)
    → kinds_for mw.id (announce env mw is o w).emitted
      ≡ step_kinds (is_open o) is (kinds_for mw.id w.emitted)
unfolding announce emit_started emit_ended kinds_for
announce-own env mw is none w = ground (arith, str_eq_refl mw.id)
announce-own env mw is (some prev) w = ground (arith, str_eq_refl mw.id)

announce-other :
    (i : String) (env : Env) (mw : MaintenanceWindow) (is : Bool) (o : Option WindowState)
    (w : World)
    → mw.id ≢ i
    → kinds_for i (announce env mw is o w).emitted ≡ kinds_for i w.emitted
unfolding announce emit_started emit_ended kinds_for
announce-other i env mw is none w h = ground (arith, eq_iff mw.id i)
announce-other i env mw is (some prev) w h = ground (arith, eq_iff mw.id i)

announce-active :
    (env : Env) (mw : MaintenanceWindow) (is : Bool) (o : Option WindowState) (w : World)
    → (announce env mw is o w).active ≡ w.active
unfolding announce emit_started emit_ended
announce-active env mw is none w = ground arith
announce-active env mw is (some prev) w = ground arith

observed-head :
    (i : String) (s : WindowState) (rest : List (String × WindowState))
    → observed i ((i, s) ∷ rest) ≡ some s
unfolding observed
observed-head i s rest = ground (arith, str_eq_refl i)

observed-skip :
    (i j : String) (s : WindowState) (rest : List (String × WindowState))
    → j ≢ i
    → observed i ((j, s) ∷ rest) ≡ observed i rest
unfolding observed
observed-skip i j s rest h = ground (arith, eq_iff j i)

pub observed-forget_own :
    (i : String) (m : List (String × WindowState)) → observed i (forget i m) ≡ none
unfolding observed forget
observed-forget_own i [] = refl
observed-forget_own i ((j, s) ∷ m) = ground (arith, observed-forget_own i m)

pub observed-forget_other :
    (i j : String) (m : List (String × WindowState))
    → j ≢ i
    → observed i (forget j m) ≡ observed i m
unfolding observed forget
observed-forget_other i j [] h = refl
observed-forget_other i j ((k, s) ∷ m) h =
    ground (arith, eq_iff k i, eq_iff k j, observed-forget_other i j m h)

-- A window that is seen is remembered as it is; other windows are left alone.
pub observe-own :
    (env : Env) (mw : MaintenanceWindow) (w : World)
    → (is_open (observed mw.id (observe env mw w).active) ≡ is_active_at env.calendar mw env.now)
      × (kinds_for mw.id (observe env mw w).emitted
          ≡ step_kinds
              (is_open (observed mw.id w.active))
              (is_active_at env.calendar mw env.now)
              (kinds_for mw.id w.emitted))
unfolding observe
observe-own env mw w = (
  ap is_open (observed-head mw.id _ _),
  announce-own env mw (is_active_at env.calendar mw env.now) (observed mw.id w.active) w,
)

pub observe-other :
    (i : String) (env : Env) (mw : MaintenanceWindow) (w : World)
    → mw.id ≢ i
    → (observed i (observe env mw w).active ≡ observed i w.active)
      × (kinds_for i (observe env mw w).emitted ≡ kinds_for i w.emitted)
unfolding observe
observe-other i env mw w h =
    let is = is_active_at env.calendar mw env.now in
    let prev = observed mw.id w.active in
    (
      observed-skip i mw.id _ _ h ∙ ap (observed i) (announce-active env mw is prev w),
      announce-other i env mw is prev w h,
    )
