-- ===== src/Keys/Rows.antt =====
-- internal/store/sqlite/oidc_signing_keys.go: lookups in the table of keys after each write, and its primary key.
use yip_yap_foss.Prelude.{
  ℕ, Bool, true, false, ◌≡◌, ◌≢◌, refl, ◌∙◌, arith, inl, inr, String, Option, some, List, [], ◌∷◌,
  any, any-first, ltb, ◌||◌, keep, Bool-cases, str_eq_refl,
}
use text.Mathlib.TextEquality.{eq_iff}
use yip_yap_foss.Store.Time.{stored_optional}
use yip_yap_foss.Keys.Store.{KeyStatus, KeyRow, has_kid, find_key, place, set_status}

-- The primary key of the table.
abbrev pub HasKids : List KeyRow → Type 0
HasKids [] = Unit
HasKids (r ∷ rows) = (any (has_kid r.kid) rows ≡ false) × HasKids rows

pub find-any :
    (kid : String) (rows : List KeyRow) (r : KeyRow)
    → find_key kid rows ≡ some r
    → any (has_kid kid) rows ≡ true
unfolding find_key
find-any kid rows r e = any-first (has_kid kid) rows r e

-- A key in the table is none that is new to it.
pub known_kid :
    (kid new : String) (rows : List KeyRow) (r : KeyRow)
    → any (has_kid new) rows ≡ false
    → find_key kid rows ≡ some r
    → kid ≢ new
known_kid kid new rows r h e same = let there = find-any kid rows r e in cc (there, h, same)

pub find-place_other :
    (new : KeyRow) (kid : String) (rows : List KeyRow)
    → kid ≢ new.kid
    → find_key kid (place new rows) ≡ find_key kid rows
unfolding find_key place
find-place_other new kid [] ne = ground (arith, eq_iff new.kid kid)
find-place_other new kid (s ∷ rows) ne =
    ground (arith, find-place_other new kid rows ne, eq_iff new.kid kid)

pub find-place_new :
    (new : KeyRow) (rows : List KeyRow)
    → any (has_kid new.kid) rows ≡ false
    → find_key new.kid (place new rows) ≡ some new
unfolding find_key place
find-place_new new [] h = rw (str_eq_refl new.kid) refl
find-place_new new (s ∷ rows) h = ground (arith, find-place_new new rows, str_eq_refl new.kid)

pub find-set_same :
    (kid : String) (s : KeyStatus) (at : Option ℕ) (rows : List KeyRow) (r : KeyRow)
    → find_key kid rows ≡ some r
    → find_key kid (set_status kid s at rows)
      ≡ some (record r { status = s; retired_at = stored_optional at })
unfolding find_key set_status
find-set_same kid s at [] r e = ground (arith, e)
find-set_same kid s at (q ∷ rows) r e = ground (arith, find-set_same kid s at rows r)

pub find-set_other :
    (kid other : String) (s : KeyStatus) (at : Option ℕ) (rows : List KeyRow)
    → kid ≢ other
    → find_key kid (set_status other s at rows) ≡ find_key kid rows
unfolding find_key set_status
find-set_other kid other s at [] ne = refl
find-set_other kid other s at (q ∷ rows) ne =
    ground (arith, find-set_other kid other s at rows ne, eq_iff q.kid kid, eq_iff q.kid other)

pub find-keep :
    (p : KeyRow → Bool) (kid : String) (rows : List KeyRow) (r : KeyRow)
    → find_key kid rows ≡ some r
    → p r ≡ true
    → find_key kid (keep p rows) ≡ some r
unfolding find_key
find-keep p kid [] r e h = ground (arith, e)
find-keep p kid (q ∷ rows) r e h = ground (arith, find-keep p kid rows r)

pub any-set_status :
    (k kid : String) (s : KeyStatus) (at : Option ℕ) (rows : List KeyRow)
    → any (has_kid k) (set_status kid s at rows) ≡ any (has_kid k) rows
unfolding set_status
any-set_status k kid s at [] = refl
any-set_status k kid s at (q ∷ rows) = ground (arith, any-set_status k kid s at rows)

any-place :
    (k : String) (new : KeyRow) (rows : List KeyRow)
    → any (has_kid k) (place new rows) ≡ has_kid k new || any (has_kid k) rows
unfolding place
any-place k new [] = refl
any-place k new (s ∷ rows) = ground (arith, any-place k new rows)

any-keep :
    (p : KeyRow → Bool) (k : String) (rows : List KeyRow)
    → any (has_kid k) rows ≡ false
    → any (has_kid k) (keep p rows) ≡ false
any-keep p k [] h = refl
any-keep p k (s ∷ rows) h = ground (arith, any-keep p k rows)

pub HasKids-set_status :
    (kid : String) (s : KeyStatus) (at : Option ℕ) (rows : List KeyRow)
    → HasKids rows
    → HasKids (set_status kid s at rows)
unfolding set_status
HasKids-set_status kid s at [] h = tt
HasKids-set_status kid s at (q ∷ rows) h = elim (Bool-cases (has_kid kid q)) [
  | inl hit ↦
      rw hit (any-set_status q.kid kid s at rows ∙ h.0, HasKids-set_status kid s at rows h.1)
  | inr miss ↦
      rw miss (any-set_status q.kid kid s at rows ∙ h.0, HasKids-set_status kid s at rows h.1)
]

pub HasKids-place :
    (new : KeyRow) (rows : List KeyRow)
    → any (has_kid new.kid) rows ≡ false
    → HasKids rows
    → HasKids (place new rows)
unfolding place
HasKids-place new [] fresh h = (refl, tt)
HasKids-place new (s ∷ rows) fresh h = elim (Bool-cases (ltb new.created_at s.created_at)) [
  | inl earlier ↦ rw earlier (fresh, h)
  | inr later ↦ rw later (
    any-place s.kid new rows
        ∙ ground (arith, fresh, h.0, eq_iff new.kid s.kid, eq_iff s.kid new.kid),
    HasKids-place new rows (ground (arith, fresh)) h.1,
  )
]

pub HasKids-keep : (p : KeyRow → Bool) (rows : List KeyRow) → HasKids rows → HasKids (keep p rows)
HasKids-keep p [] h = tt
HasKids-keep p (s ∷ rows) h = elim (Bool-cases (p s)) [
  | inl kept ↦ rw kept (any-keep p s.kid rows h.0, HasKids-keep p rows h.1)
  | inr gone ↦ rw gone (HasKids-keep p rows h.1)
]
