-- ===== src/Maintenance/Lifecycle.antt =====
-- internal/maintenance/ticker.go: the events of a window over the polls.
use yip_yap_foss.Prelude.{
  String, Bool, true, false, ◌≡◌, ◌≢◌, refl, sym, ◌∙◌, ap, subst, arith, inl, inr, Option, none,
  some, List, [], ◌∷◌, any, map, str_eq, str_eq_refl, eq_of_str_eq, if◌then◌else◌, if_rule,
  Bool-cases, Option-cases,
}
use text.Mathlib.TextEquality.{eq_iff}
use yip_yap_foss.Maintenance.Window.{MaintenanceWindow}
use yip_yap_foss.Maintenance.Ticker.{
  WindowState, World, Env, observed, emit_ended, observe, observe_all, has_window_id, forget,
  drop_window, drop_all, poll,
}
use yip_yap_foss.Maintenance.Observed.{
  Alternates, kinds_for, is_open, IsPaired, step_kinds, step_kinds-Alternates, observed-forget_own,
  observed-forget_other, observe-own, observe-other,
}

paired :
    (i : String) (w : World) {b : Bool} {ks : List Bool}
    → is_open (observed i w.active) ≡ b
    → kinds_for i w.emitted ≡ ks
    → Alternates b ks
    → IsPaired i w
paired i w e f a = rw (e, f) a

observe-IsPaired :
    (i : String) (env : Env) (mw : MaintenanceWindow) (w : World)
    → IsPaired i w
    → IsPaired i (observe env mw w)
observe-IsPaired i env mw w p = elim (Bool-cases (has_window_id i mw)) [
  | inl own ↦
      let is = eq_of_str_eq mw.id i own in
      let (open_now, kinds) = observe-own env mw w in
      subst (λ j. IsPaired j w → IsPaired j (observe env mw w)) is
        (λ q. paired mw.id (observe env mw w) open_now kinds (step_kinds-Alternates _ _ _ q)) p
  | inr other ↦
      let (same, kinds) = observe-other i env mw w (λ e. ground (arith, eq_iff mw.id i)) in
      paired i (observe env mw w) (ap is_open same) kinds p
]

observe_all-IsPaired :
    (i : String) (env : Env) (listed : List MaintenanceWindow) (w : World)
    → IsPaired i w
    → IsPaired i (observe_all env listed w)
unfolding observe_all
observe_all-IsPaired i env [] w p = p
observe_all-IsPaired i env (mw ∷ rest) w p =
    observe_all-IsPaired i env rest (observe env mw w) (observe-IsPaired i env mw w p)

-- The world of a window that is dropped, before its entry is deleted.
abbrev pub closing : Env → String → WindowState → World → World
closing env j prev w = if prev.active then emit_ended env prev.org_id j true w else w

pub drop_window-some :
    (env : Env) (j : String) (prev : WindowState) (w : World)
    → observed j w.active ≡ some prev
    → drop_window env j w
      ≡ record (closing env j prev w) { active = forget j (closing env j prev w).active }
unfolding drop_window
drop_window-some env j prev w e = rw (e, drop_window) refl

pub closing-active :
    (env : Env) (j : String) (prev : WindowState) (w : World)
    → (closing env j prev w).active ≡ w.active
unfolding emit_ended
closing-active env j prev w = ground arith

closing-own :
    (env : Env) (j : String) (prev : WindowState) (w : World)
    → kinds_for j (closing env j prev w).emitted
      ≡ step_kinds prev.active false (kinds_for j w.emitted)
unfolding emit_ended kinds_for
closing-own env j prev w = ground (arith, str_eq_refl j)

closing-other :
    (i j : String) (env : Env) (prev : WindowState) (w : World)
    → j ≢ i
    → kinds_for i (closing env j prev w).emitted ≡ kinds_for i w.emitted
unfolding emit_ended kinds_for
closing-other i j env prev w h = ground (arith, eq_iff j i)

-- Dropping a window ends it if it was active.
drop_window-IsPaired :
    (i j : String) (env : Env) (w : World) → IsPaired i w → IsPaired i (drop_window env j w)
unfolding drop_window
drop_window-IsPaired i j env w p = elim (Option-cases (observed j w.active)) [
  | inl e ↦ rw (e, drop_window) p
  | inr (prev, e) ↦
      let after : World = record (closing env j prev w) {
        active = forget j (closing env j prev w).active;
      } in
      subst (IsPaired i) (sym (drop_window-some env j prev w e)) (elim (Bool-cases (str_eq j i)) [
        | inl own ↦
            let is = eq_of_str_eq j i own in
            subst (λ k. IsPaired k w → IsPaired k after) is
              (λ q.
                paired j after (ap is_open (observed-forget_own j _)) (closing-own env j prev w) (
                  step_kinds-Alternates prev.active false _
                    (subst (λ o. Alternates (is_open o) (kinds_for j w.emitted)) e q)))
              p
        | inr other ↦
            let ne : j ≢ i = λ same. ground (arith, eq_iff j i) in
            paired i after
              (ap is_open
                (observed-forget_other i j _ ne ∙ ap (observed i) (closing-active env j prev w)))
              (closing-other i j env prev w ne) p
      ])
]

drop_all-IsPaired :
    (i : String) (env : Env) (listed : List MaintenanceWindow) (js : List String) (w : World)
    → IsPaired i w
    → IsPaired i (drop_all env listed js w)
unfolding drop_all
drop_all-IsPaired i env listed [] w p = p
drop_all-IsPaired i env listed (j ∷ js) w p =
    drop_all-IsPaired i env listed js _
      (if_rule (IsPaired i) (any (has_window_id j) listed) p (drop_window-IsPaired i j env w p))

-- A list of polls, each with an environment and a listing of its own.
unfoldable pub polls : List (Env × Option (List MaintenanceWindow)) → World → World
unfolding poll
polls [] w = w
polls ((env, listed) ∷ rest) w = polls rest (poll env listed w)

pub poll-IsPaired :
    (i : String) (env : Env) (listed : Option (List MaintenanceWindow)) (w : World)
    → IsPaired i w
    → IsPaired i (poll env listed w)
unfolding poll
poll-IsPaired i env none w p = p
poll-IsPaired i env (some listed) w p =
    let w' = observe_all env listed w in
    drop_all-IsPaired i env listed (map (λ o. o.0) w'.active) w'
      (observe_all-IsPaired i env listed w p)

-- Over any polls, whatever windows are listed, edited or deleted and whichever reads fail: the events of a
-- window are starts and ends that take turns, beginning with a start, and the window is remembered as active exactly if
-- the last one is a start.
pub polls-IsPaired :
    (i : String) (ps : List (Env × Option (List MaintenanceWindow))) (w : World)
    → IsPaired i w
    → IsPaired i (polls ps w)
unfolding polls
polls-IsPaired i [] w p = p
polls-IsPaired i ((env, listed) ∷ rest) w p =
    polls-IsPaired i rest (poll env listed w) (poll-IsPaired i env listed w p)
