-- ===== src/Store/AlertLaws.antt =====
-- internal/store/sqlite/alerts.go: the rows of the table `alerts`, and the number of active ones.
use yip_yap_foss.Prelude.{
  ℕ, ◌+◌, String, Bool, true, false, ◌≡◌, refl, inl, inr, none, some, List, [], ◌∷◌, any, count_if,
  if◌then◌else◌, arith, Bool-cases, Option-cases, str_eq_refl, sym, any-first,
}
use text.Mathlib.TextEquality.{eq_iff}
use yip_yap_foss.Domain.Alert.{Alert, is_active}
use yip_yap_foss.Store.Alerts.{
  has_id, active_for, updated_row, get_by_id, get_active_by_monitor, replace_row,
}

-- The constraints of the schema: the primary key, and one active alert to a monitor.
abbrev pub IsValid : List Alert → Type 0
IsValid [] = Unit
IsValid (a ∷ rows) =
    (any (has_id a.id) rows ≡ false)
    × (is_active a.status ≡ true → any (active_for a.monitor_id) rows ≡ false)
    × IsValid rows

-- The number of active alerts of the table.
abbrev pub active_count : List Alert → ℕ
active_count rows = count_if (λ a. is_active a.status) rows

abbrev pub bit : Bool → ℕ
bit b = if b then 1 else 0

-- Rewriting a row that is there moves the count by the change of that row.
pub active_count-replace_row :
    (a : Alert) (rows : List Alert) (row : Alert)
    → get_by_id a.id rows ≡ some row
    → active_count (replace_row a rows) + bit (is_active row.status)
      ≡ active_count rows + bit (is_active a.status)
unfolding get_by_id replace_row
active_count-replace_row a [] row e = cc
active_count-replace_row a (b ∷ rows) row e = ground (arith, active_count-replace_row a rows row)

pub get_by_id-replace_row :
    (a : Alert) (rows : List Alert) (row : Alert)
    → get_by_id a.id rows ≡ some row
    → get_by_id a.id (replace_row a rows) ≡ some (updated_row a row)
unfolding get_by_id replace_row
get_by_id-replace_row a [] row e = cc
get_by_id-replace_row a (b ∷ rows) row e = ground (arith, get_by_id-replace_row a rows row)

-- No active alert for a monitor, as the query and as a test of the rows.
pub get_active-none :
    (m : String) (rows : List Alert)
    → any (active_for m) rows ≡ false
    → get_active_by_monitor m rows ≡ none
unfolding get_active_by_monitor
get_active-none m [] h = refl
get_active-none m (a ∷ rows) h = ground (arith, get_active-none m rows)

pub any-get_active_none :
    (m : String) (rows : List Alert)
    → get_active_by_monitor m rows ≡ none
    → any (active_for m) rows ≡ false
unfolding get_active_by_monitor
any-get_active_none m [] h = refl
any-get_active_none m (a ∷ rows) h =
    ground (arith, any-get_active_none m rows, Option-cases (get_active_by_monitor m rows))

abbrev IsHead : String → Alert → List Alert → Type 0
IsHead m b rows =
    (b.monitor_id ≡ m) × (is_active b.status ≡ true) × (get_active_by_monitor m rows ≡ none)

-- An active row at the head is the only one of its monitor.
active-IsHead :
    (m : String) (b : Alert) (rows : List Alert)
    → IsValid (b ∷ rows)
    → active_for m b ≡ true
    → IsHead m b rows
active-IsHead m b rows v h =
    let (same, live) = parts in (same, live, get_active-none m rows (rw (sym same) (v.1 live)))
  where
    parts : (b.monitor_id ≡ m) × (is_active b.status ≡ true)
    parts = ground (arith, eq_iff b.monitor_id m)

-- A row whose key is found below the head does not have the head's key.
pub other_key :
    (b : Alert) (rows : List Alert) (i : String) {a : Alert}
    → IsValid (b ∷ rows)
    → get_by_id i rows ≡ some a
    → has_id i b ≡ false
unfolding get_by_id
other_key b rows i {a} v e = ground (arith, eq_iff b.id i, any-first (has_id i) rows a e)

-- The active alert that the query finds is a row of the table, active, and of the monitor.
pub get_active-row :
    (m : String) (rows : List Alert) (a : Alert)
    → IsValid rows
    → get_active_by_monitor m rows ≡ some a
    → (get_by_id a.id rows ≡ some a) × (active_for m a ≡ true)
unfolding get_active_by_monitor get_by_id
get_active-row m [] a v e = cc
get_active-row m (b ∷ rows) a v e = elim (Bool-cases (active_for m b)) [
  | inl hit ↦ ground (arith, active-IsHead m b rows v hit, str_eq_refl a.id)
  | inr miss ↦
      let ih = get_active-row m rows a v.2 (ground arith) in
      ground (arith, ih, other_key b rows a.id v ih.0)
]

-- Rewriting the row of the active alert as inactive leaves the monitor without one.
pub no_active-replace_row :
    (m : String) (rows : List Alert) (a b : Alert)
    → IsValid rows
    → get_active_by_monitor m rows ≡ some a
    → b.id ≡ a.id
    → is_active b.status ≡ false
    → any (active_for m) (replace_row b rows) ≡ false
unfolding get_active_by_monitor replace_row
no_active-replace_row m [] a b v e i h = refl
no_active-replace_row m (c ∷ rows) a b v e i h = elim (Bool-cases (active_for m c)) [
  | inl hit ↦
      let head = active-IsHead m c rows v hit in
      ground (arith, head, any-get_active_none m rows head.2, eq_iff c.id b.id)
  | inr miss ↦
      let found : get_active_by_monitor m rows ≡ some a = ground arith in
      ground (
        arith,
        no_active-replace_row m rows a b v.2 found i h,
        other_key c rows a.id v (get_active-row m rows a v.2 found).0,
      )
]
