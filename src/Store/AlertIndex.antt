-- ===== src/Store/AlertIndex.antt =====
-- internal/store/sqlite/alerts.go: the constraints of the table `alerts` under its writes.
use text.Mathlib.TextEquality.{eq_iff}
use yip_yap_foss.Prelude.{
  String, true, false, ◌&&◌, ◌≡◌, refl, inl, inr, some, List, [], ◌∷◌, any, arith, Bool-cases,
  Option-cases, first_holds,
}
use yip_yap_foss.Domain.Alert.{Alert, is_active}
use yip_yap_foss.Store.Alerts.{has_id, active_for, rival, create, get_by_id, replace_row, update}
use yip_yap_foss.Store.AlertLaws.{IsValid}

-- A created row breaks no constraint.
pub create-IsValid :
    (a : Alert) (rows : List Alert) {rows' : List Alert}
    → IsValid rows
    → create a rows ≡ some rows'
    → IsValid rows'
unfolding create
create-IsValid a rows v e = ground arith

any_id-replace_row :
    (i : String) (a : Alert) (rows : List Alert)
    → any (has_id i) (replace_row a rows) ≡ any (has_id i) rows
unfolding replace_row
any_id-replace_row i a [] = refl
any_id-replace_row i a (b ∷ rows) = ground (arith, any_id-replace_row i a rows)

-- No rival, and no second row with the key: nothing else is active for the monitor.
rival-none :
    (c : Alert) (rows : List Alert)
    → any (has_id c.id) rows ≡ false
    → any (rival c) rows ≡ false
    → any (active_for c.monitor_id) rows ≡ false
rival-none c [] h r = refl
rival-none c (b ∷ rows) h r = ground (arith, rival-none c rows)

-- The rewritten row can only make its own monitor active, and only if it is itself active.
active-replace_row :
    (m : String) (a : Alert) (rows : List Alert) (row : Alert)
    → get_by_id a.id rows ≡ some row
    → any (active_for m) rows ≡ false
    → is_active a.status && active_for m (record row { status = a.status }) ≡ false
    → any (active_for m) (replace_row a rows) ≡ false
unfolding get_by_id replace_row
active-replace_row m a [] row e h g = refl
active-replace_row m a (b ∷ rows) row e h g = ground (arith, active-replace_row m a rows row)

rival-any :
    (row : Alert) (rows : List Alert) (c : Alert)
    → any (rival row) (c ∷ rows) ≡ false
    → rival row c ≡ false
rival-any row rows c h = ground arith

-- Above the rewritten row, an active alert keeps its monitor to itself.
other_active :
    (a : Alert) (rows : List Alert) (row c : Alert)
    → get_by_id a.id rows ≡ some row
    → has_id a.id c ≡ false
    → is_active c.status ≡ true
    → any (active_for c.monitor_id) rows ≡ false
    → is_active a.status && any (rival row) (c ∷ rows) ≡ false
    → any (active_for c.monitor_id) (replace_row a rows) ≡ false
other_active a rows row c e miss live h g = active-replace_row c.monitor_id a rows row e h (
    ground (
      arith,
      eq_iff row.id a.id,
      key,
      eq_iff row.monitor_id c.monitor_id,
      eq_iff c.monitor_id row.monitor_id,
    ))
  where
    key : has_id a.id row ≡ true
    key = unfold get_by_id in first_holds (has_id a.id) rows row e

replace_row-IsValid :
    (a : Alert) (rows : List Alert) (row : Alert)
    → IsValid rows
    → get_by_id a.id rows ≡ some row
    → is_active a.status && any (rival row) rows ≡ false
    → IsValid (replace_row a rows)
unfolding get_by_id replace_row
replace_row-IsValid a [] row v e g = tt
replace_row-IsValid a (c ∷ rows) row v e g = elim (Bool-cases (has_id a.id c)) [
  | inl hit ↦ ground (arith, rival-none c rows v.0)
  | inr miss ↦ rw miss (
    ground (arith, any_id-replace_row c.id a rows),
    λ live. other_active a rows row c (ground arith) miss live (v.1 live) g,
    replace_row-IsValid a rows row v.2 (ground arith) (ground arith),
  )
]

-- An update that goes through breaks no constraint.
pub update-IsValid :
    (a : Alert) (rows : List Alert) {rows' : List Alert}
    → IsValid rows
    → update a rows ≡ some rows'
    → IsValid rows'
unfolding update
update-IsValid a rows v e = elim (Option-cases (get_by_id a.id rows)) [
  | inl missing ↦ ground arith
  | inr (row, found) ↦ ground (arith, replace_row-IsValid a rows row v found)
]
