-- ===== src/Maintenance/Current.antt =====
-- internal/maintenance/ticker.go: the memory of windows after one poll.
use yip_yap_foss.Prelude.{
  String, Bool, true, false, ◌≡◌, ◌≢◌, refl, sym, ◌∙◌, ap, subst, arith, inl, inr, some, List, [],
  ◌∷◌, any, map, first, eq_of_str_eq, if_known, Bool-cases, Option-cases, any-first,
}
use text.Mathlib.TextEquality.{eq_iff}
use yip_yap_foss.Maintenance.Window.{MaintenanceWindow, is_active_at}
use yip_yap_foss.Maintenance.Ticker.{
  World, Env, observed, observe, observe_all, has_window_id, drop_window, drop_all, poll,
}
use yip_yap_foss.Maintenance.Observed.{
  Alternates, begun, kinds_for, is_open, IsPaired, observe-own, observe-other,
  observed-forget_other,
}
use yip_yap_foss.Maintenance.Lifecycle.{drop_window-some, closing-active, poll-IsPaired}

-- Every id is listed once.
abbrev pub IsDistinct : List MaintenanceWindow → Type 0
IsDistinct [] = Unit
IsDistinct (mw ∷ rest) = (any (has_window_id mw.id) rest ≡ false) × IsDistinct rest

observe_all-unlisted :
    (i : String) (env : Env) (listed : List MaintenanceWindow) (w : World)
    → any (has_window_id i) listed ≡ false
    → observed i (observe_all env listed w).active ≡ observed i w.active
unfolding observe_all
observe_all-unlisted i env [] w h = refl
observe_all-unlisted i env (mw ∷ rest) w h =
    observe_all-unlisted i env rest (observe env mw w) (ground arith)
    ∙ (observe-other i env mw w (λ e. ground (arith, eq_iff mw.id i))).0

observe_all-listed :
    (i : String) (env : Env) (listed : List MaintenanceWindow) (mw : MaintenanceWindow) (w : World)
    → IsDistinct listed
    → first (has_window_id i) listed ≡ some mw
    → is_open (observed i (observe_all env listed w).active) ≡ is_active_at env.calendar mw env.now
unfolding observe_all
observe_all-listed i env [] mw w d e = ground arith
observe_all-listed i env (n ∷ rest) mw w d e = elim (Bool-cases (has_window_id i n)) [
  | inl hit ↦
      let is : n ≡ mw = ground arith in
      let key : n.id ≡ i = eq_of_str_eq n.id i hit in
      subst
        (λ j.
          is_open (observed j (observe_all env rest (observe env n w)).active)
          ≡ is_active_at env.calendar mw env.now)
        key
        (ap is_open (observe_all-unlisted n.id env rest (observe env n w) d.0)
          ∙ (observe-own env n w).0
          ∙ ap (λ o. is_active_at env.calendar o env.now) is)
  | inr miss ↦ observe_all-listed i env rest mw (observe env n w) d.1 (ground arith)
]

drop_window-other :
    (i j : String) (env : Env) (w : World)
    → j ≢ i
    → observed i (drop_window env j w).active ≡ observed i w.active
unfolding drop_window
drop_window-other i j env w h = elim (Option-cases (observed j w.active)) [
  | inl e ↦ rw (e, drop_window) refl
  | inr (prev, e) ↦
      ap (λ v. observed i v.active) (drop_window-some env j prev w e)
      ∙ observed-forget_other i j _ h
      ∙ ap (observed i) (closing-active env j prev w)
]

drop_all-listed :
    (i : String) (env : Env) (listed : List MaintenanceWindow) (js : List String) (w : World)
    → any (has_window_id i) listed ≡ true
    → observed i (drop_all env listed js w).active ≡ observed i w.active
unfolding drop_all
drop_all-listed i env listed [] w h = refl
drop_all-listed i env listed (j ∷ js) w h =
    drop_all-listed i env listed js _ h
    ∙ if_known (λ (v : World). observed i v.active ≡ observed i w.active)
        (any (has_window_id j) listed) (λ _. refl)
        (λ gone. drop_window-other i j env w (λ e.
          let there : any (has_window_id j) listed ≡ true =
            subst (λ k. any (has_window_id k) listed ≡ true) (sym e) h in
          ground arith))

-- After a poll of a listing with each window once, a listed window is remembered as active exactly if it is active
-- now. In particular the first poll after a start announces every window that is active: its last event is
-- a start.
pub poll_current :
    (i : String) (env : Env) (listed : List MaintenanceWindow) (mw : MaintenanceWindow) (w : World)
    → IsDistinct listed
    → first (has_window_id i) listed ≡ some mw
    → IsPaired i w
    → (is_open (observed i (poll env (some listed) w).active)
        ≡ is_active_at env.calendar mw env.now)
      × (is_active_at env.calendar mw env.now ≡ true
          → (ks : List Bool) × (kinds_for i (poll env (some listed) w).emitted ≡ true ∷ ks))
unfolding poll
poll_current i env listed mw w d e p =
    let w' = observe_all env listed w in
    let current : is_open (observed i (poll env (some listed) w).active)
        ≡ is_active_at env.calendar mw env.now =
      ap is_open (
        drop_all-listed i env listed (map (λ o. o.0) w'.active) w'
          (any-first (has_window_id i) listed mw e))
      ∙ observe_all-listed i env listed mw w d e in
    (
      current,
      λ on. last_start _ (
          subst (λ b. Alternates b (kinds_for i (poll env (some listed) w).emitted)) (current ∙ on)
            (poll-IsPaired i env (some listed) w p)),
    )
  where
    last_start : (ks : List Bool) → Alternates true ks → (rest : List Bool) × (ks ≡ true ∷ rest)
    last_start [] a = elim a [ ]
    last_start (false ∷ rest) a = elim a [ ]
    last_start (true ∷ rest) (begun a) = (rest, refl)
