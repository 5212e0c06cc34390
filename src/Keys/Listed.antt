-- ===== src/Keys/Listed.antt =====
-- internal/auth/jwks: the keys that a list has against the rows of the table.
use yip_yap_foss.Prelude.{
  Bool, true, false, ◌≡◌, ◌≢◌, refl, subst, ap, arith, inl, inr, Option, none, some, List, [], ◌∷◌,
  any, keep, All, bound, some_injective, Bool-cases, if_rule, str_eq_refl, ltb,
}
use text.Mathlib.TextEquality.{eq_iff}
use yip_yap_foss.Keys.Store.{
  KeyStatus, active, retiring, expired, SigningKey, KeyRow, Envelope, is_active_key, has_kid,
  find_key, row_to_key, rows_to_keys, list_by_status,
}
use yip_yap_foss.Keys.Manager.{newer, latest_from, latest_active}
use yip_yap_foss.Keys.Rows.{HasKids, known_kid}

-- The row of a key, with the columns that rotation reads.
abbrev pub Listed : List KeyRow → SigningKey → Type 0
Listed rows k =
    (r : KeyRow) × (find_key k.kid rows ≡ some r)
    × (r.status ≡ k.status)
    × (r.retired_at ≡ k.retired_at)
    × (r.created_at ≡ k.created_at)

row_to_key-Listed :
    (e : Envelope) (r : KeyRow) (rows : List KeyRow) (k : SigningKey)
    → row_to_key e r ≡ some k
    → Listed (r ∷ rows) k
unfolding row_to_key find_key
row_to_key-Listed e r rows k h =
    let (der, _, parsed) = bound (e.decrypt r.encrypted_private) _ k h in
    let (private, _, is) = bound (e.parse der) _ k parsed in
    (
      r,
      ground (arith, is, str_eq_refl r.kid),
      ground (arith, is),
      ground (arith, is),
      ground (arith, is),
    )

Listed-cons :
    (r : KeyRow) (rows : List KeyRow) (k : SigningKey)
    → any (has_kid r.kid) rows ≡ false
    → Listed rows k
    → Listed (r ∷ rows) k
unfolding find_key
Listed-cons r rows k fresh (q, found, status, retired, created) =
    let apart : k.kid ≢ r.kid = known_kid k.kid r.kid rows q fresh found in
    (q, ground (arith, found, eq_iff r.kid k.kid), status, retired, created)

All-Listed_cons :
    (r : KeyRow) (rows : List KeyRow) (ks : List SigningKey)
    → any (has_kid r.kid) rows ≡ false
    → All (Listed rows) ks
    → All (Listed (r ∷ rows)) ks
All-Listed_cons r rows [] fresh h = tt
All-Listed_cons r rows (k ∷ ks) fresh h =
    (Listed-cons r rows k fresh h.0, All-Listed_cons r rows ks fresh h.1)

rows_to_keys-Listed :
    (e : Envelope) (rows : List KeyRow) (ks : List SigningKey)
    → HasKids rows
    → rows_to_keys e rows ≡ some ks
    → All (Listed rows) ks
unfolding rows_to_keys
rows_to_keys-Listed e [] ks h is = subst (All (Listed [])) (some_injective [] ks is) tt
rows_to_keys-Listed e (r ∷ rows) ks h is =
    let (k, first_key, more) = bound (row_to_key e r) _ ks is in
    let (rest, others, whole) = bound (rows_to_keys e rows) _ ks more in
    subst (All (Listed (r ∷ rows))) (some_injective (k ∷ rest) ks whole) (
      row_to_key-Listed e r rows k first_key,
      All-Listed_cons r rows rest h.0 (rows_to_keys-Listed e rows rest h.1 others),
    )

keep_all : (rows : List KeyRow) → keep (λ (r : KeyRow). true) rows ≡ rows
keep_all [] = refl
keep_all (r ∷ rows) = ap (◌∷◌ r) (keep_all rows)

-- What a list of every key has.
pub list_by_status-Listed :
    (e : Envelope) (ok : Bool) (rows : List KeyRow) (ks : List SigningKey)
    → HasKids rows
    → list_by_status e ok (λ _. true) rows ≡ some ks
    → All (Listed rows) ks
unfolding list_by_status
list_by_status-Listed e ok rows ks h is =
    rows_to_keys-Listed e rows ks h (ground (arith, keep_all rows))

-- The latest active key is one of the list, and active.
abbrev pub IsLatest : List KeyRow → Option SigningKey → Type 0
IsLatest rows none = Unit
IsLatest rows (some k) = Listed rows k × (k.status ≡ active)

active_of : (s : KeyStatus) → is_active_key s ≡ true → s ≡ active
active_of active h = refl
active_of retiring h = ground (arith, h)
active_of expired h = ground (arith, h)

newer-Listed :
    (rows : List KeyRow) (out : Option SigningKey) (k : SigningKey)
    → IsLatest rows out
    → Listed rows k
    → k.status ≡ active
    → IsLatest rows (newer out k)
newer-Listed rows none k is h on = (h, on)
newer-Listed rows (some k') k is h on =
    if_rule (IsLatest rows) (ltb k'.created_at k.created_at) (h, on) is

latest_from-Listed :
    (rows : List KeyRow) (ks : List SigningKey) (out : Option SigningKey)
    → IsLatest rows out
    → All (Listed rows) ks
    → IsLatest rows (latest_from out ks)
unfolding latest_from
latest_from-Listed rows [] out is h = is
latest_from-Listed rows (k ∷ ks) out is h = elim (Bool-cases (is_active_key k.status)) [
  | inl on ↦ rw on (
      latest_from-Listed rows ks (newer out k)
        (newer-Listed rows out k is h.0 (active_of k.status on)) h.1)
  | inr off ↦ rw off (latest_from-Listed rows ks out is h.1)
]

pub latest_active-Listed :
    (rows : List KeyRow) (ks : List SigningKey)
    → All (Listed rows) ks
    → IsLatest rows (latest_active ks)
unfolding latest_active
latest_active-Listed rows ks h = latest_from-Listed rows ks none tt h
