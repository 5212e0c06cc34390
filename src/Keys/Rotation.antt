-- ===== src/Keys/Rotation.antt =====
-- internal/auth/jwks: the rotations of rotation.go, one after another, against the set that verifiers fetch.
use yip_yap_foss.Prelude.{
  ℕ, ◌+◌, ◌≤◌, ◌<◌, true, false, ◌≡◌, ◌≢◌, refl, sym, subst, ◌∙◌, ap, arith, inl, inr, ◌⊎◌, String,
  Option, none, some, List, [], ◌∷◌, keep, All, bound, some_injective, passed, Bool-cases,
}
use mathlib.Core.List.{Mem, mem-cons_self, mem-cons_of_mem}
use yip_yap_foss.Store.Time.{stored_time, second, stored_time_bounds}
use yip_yap_foss.Keys.Store.{
  active, retiring, SigningKey, KeyRow, Envelope, is_active_key, has_kid, is_public, find_key,
  row_to_key, rows_to_keys, list_by_status,
}
use yip_yap_foss.Keys.Manager.{retiring_overlap, Env, rotate}
use yip_yap_foss.Keys.Serving.{list_public_jwks, decode_all}
use yip_yap_foss.Keys.Rows.{HasKids}
use yip_yap_foss.Keys.Sweeps.{Moves, Gone, rotate-Moves}

-- `StartRotationLoop`, as the rotations that it runs.
unfoldable pub rotations : List Env → List KeyRow → List KeyRow
unfolding rotate
rotations [] rows = rows
rotations (env ∷ envs) rows = rotations envs (rotate env rows).1

-- Still active, or retiring since no earlier than a second before `start`.
abbrev Live : ℕ → KeyRow → KeyRow → Type 0
Live start r c =
    (c.public_jwk ≡ r.public_jwk)
    × ((c.status ≡ active)
        ⊎ ((t : ℕ) × (c.status ≡ retiring) × (c.retired_at ≡ some t) × (start < t + second)))

-- Within the overlap of `start`, a second apart for the rounding.
abbrev pub Within : ℕ → Env → Type 0
Within start env = (start ≤ env.now) × (env.now + second ≤ start + retiring_overlap)

pub active_apart : active ≢ retiring
active_apart e = let off : true ≡ false = ap is_active_key e in ground (arith, off)

moved-Live :
    (start now : ℕ) (r c c' : KeyRow)
    → start ≤ now
    → now + second ≤ start + retiring_overlap
    → Live start r c
    → Moves now c c'
    → Live start r c'
moved-Live start now r c c' late soon live (inl (inl same)) = subst (Live start r) (sym same) live
moved-Live start now r c c' late soon (jwk, _) (inl (inr (on, is))) =
    let (_, close) = stored_time_bounds now in
    subst (Live start r) (sym is)
      (jwk, inr (stored_time now, refl, refl, omega (arith, close, late)))
moved-Live start now r c c' late soon live (inr (inl same)) = subst (Live start r) (sym same) live
moved-Live start now r c c' late soon (jwk, inl on) (inr (inr (t, off, _, _, _))) =
    absurd (active_apart (sym on ∙ off))
moved-Live start now r c c' late soon (jwk, inr (u, _, since_u, close))
      (inr (inr (t, off, since_t, long, _))) =
    let same : u ≡ t = some_injective u t (sym since_u ∙ since_t) in
    absurd (omega (arith, same, close, long, soon))

stays_listed :
    (start now : ℕ) (r c : KeyRow)
    → now + second ≤ start + retiring_overlap
    → Live start r c
    → Gone now c
    → ⊥
stays_listed start now r c soon (jwk, inl on) (t, off, _, _) = off on
stays_listed start now r c soon (jwk, inr (u, _, since_u, close)) (t, _, since_t, old) =
    let same : u ≡ t = some_injective u t (sym since_u ∙ since_t) in
    let (_, after) = stored_time_bounds t in
    let (before, _) = stored_time_bounds now in omega (arith, same, close, old, soon, after, before)

rotations-Live :
    (start : ℕ) (kid : String) (r c : KeyRow) (envs : List Env) (rows : List KeyRow)
    → All (Within start) envs
    → HasKids rows
    → find_key kid rows ≡ some c
    → Live start r c
    → (c' : KeyRow) × (find_key kid (rotations envs rows) ≡ some c') × Live start r c'
unfolding rotations
rotations-Live start kid r c [] rows within keys found live = (c, found, live)
rotations-Live start kid r c (env ∷ envs) rows ((late, soon), rest) keys found live =
    let (keys', swept) = rotate-Moves env kid c rows keys found in
    elim swept [
      | inl (c', at, moves) ↦
          rotations-Live start kid r c' envs (rotate env rows).1 rest keys' at
            (moved-Live start env.now r c c' late soon live moves)
      | inr gone ↦ absurd (stays_listed start env.now r c soon live gone)
    ]

Live-is_public : (start : ℕ) (r c : KeyRow) → Live start r c → is_public c.status ≡ true
Live-is_public start r c (_, inl on) = ap is_public on
Live-is_public start r c (_, inr (_, off, _, _)) = ap is_public off

row_to_key-jwk :
    (e : Envelope) (r : KeyRow) (k : SigningKey)
    → row_to_key e r ≡ some k
    → k.public_jwk ≡ r.public_jwk
unfolding row_to_key
row_to_key-jwk e r k h =
    let (der, _, parsed) = bound (e.decrypt r.encrypted_private) _ k h in
    let (private, _, is) = bound (e.parse der) _ k parsed in
    ap (λ (key : SigningKey). key.public_jwk) (sym (some_injective _ k is))

rows_to_keys-cons :
    (e : Envelope) (r : KeyRow) (rows : List KeyRow) (ks : List SigningKey)
    → rows_to_keys e (r ∷ rows) ≡ some ks
    → (k : SigningKey) × (rest : List SigningKey) × (row_to_key e r ≡ some k)
      × (rows_to_keys e rows ≡ some rest)
      × (ks ≡ k ∷ rest)
unfolding rows_to_keys
rows_to_keys-cons e r rows ks is =
    let (k, first_key, more) = bound (row_to_key e r) _ ks is in
    let (rest, others, whole) = bound (rows_to_keys e rows) _ ks more in
    (k, rest, first_key, others, sym (some_injective (k ∷ rest) ks whole))

decode_all-cons :
    (decode : String → Option String) (k : SigningKey) (ks : List SigningKey) (jwks : List String)
    → decode_all decode (k ∷ ks) ≡ some jwks
    → (jwk : String) × (rest : List String) × (decode k.public_jwk ≡ some jwk)
      × (decode_all decode ks ≡ some rest)
      × (jwks ≡ jwk ∷ rest)
unfolding decode_all
decode_all-cons decode k ks jwks is =
    let (jwk, one, more) = bound (decode k.public_jwk) _ jwks is in
    let (rest, others, whole) = bound (decode_all decode ks) _ jwks more in
    (jwk, rest, one, others, sym (some_injective (jwk ∷ rest) jwks whole))

-- A row of the table that is public is in the set, if there is one.
module _ (e : Envelope) (decode : String → Option String) (kid : String) (r : KeyRow)
    (public : is_public r.status ≡ true) where
  abbrev In : List String → Type 0
  In jwks = (jwk : String) × (decode r.public_jwk ≡ some jwk) × Mem jwk jwks

  served_row :
      (rows : List KeyRow) (ks : List SigningKey) (jwks : List String)
      → find_key kid rows ≡ some r
      → rows_to_keys e (keep (λ (row : KeyRow). is_public row.status) rows) ≡ some ks
      → decode_all decode ks ≡ some jwks
      → In jwks
  unfolding find_key
  served_row [] ks jwks found listed decoded = absurd (none_found found)
    where
      none_found : none ≡ some r → ⊥
      none_found found = ground (arith, found)
  served_row (s ∷ rows) ks jwks found listed decoded = elim (Bool-cases (has_kid kid s)) [
    | inl hit ↦
        let same : s ≡ r = ground (arith, hit, found) in
        let shown : is_public s.status ≡ true =
          ap (λ (row : KeyRow). is_public row.status) same ∙ public in
        let (k, rest, is, _, whole) =
          rows_to_keys-cons e s (keep (λ (row : KeyRow). is_public row.status) rows) ks
            (rw shown at listed) in
        let (jwk, others, one, _, all_jwks) =
          decode_all-cons decode k rest jwks (ap (decode_all decode) (sym whole) ∙ decoded) in
        (
          jwk,
          ap (λ (row : KeyRow). decode row.public_jwk) (sym same)
              ∙ ap decode (sym (row_to_key-jwk e s k is))
              ∙ one,
          subst (Mem jwk) (sym all_jwks) mem-cons_self,
        )
    | inr miss ↦
        let later : find_key kid rows ≡ some r = ground (arith, miss, found) in
        elim (Bool-cases (is_public s.status)) [
          | inl shown ↦
              let (k, rest, _, listed', whole) =
                rows_to_keys-cons e s (keep (λ (row : KeyRow). is_public row.status) rows) ks
                  (rw shown at listed) in
              let (jwk, others, _, decoded', all_jwks) =
                decode_all-cons decode k rest jwks (ap (decode_all decode) (sym whole) ∙ decoded) in
              let (found_jwk, is, mem) = served_row rows rest others later listed' decoded' in
              (found_jwk, is, subst (Mem found_jwk) (sym all_jwks) (mem-cons_of_mem jwk mem))
          | inr hidden ↦ served_row rows ks jwks later (rw hidden at listed) decoded
        ]
  ]

-- A key that is active when a run of rotations starts, whatever fails in them, is still in the set that verifiers fetch
-- for two weeks after (less the second to which instants are rounded).
pub rotations_publish :
    (start : ℕ) (kid : String) (r : KeyRow) (envs : List Env) (env : Env) (rows : List KeyRow)
    (jwks : List String)
    → HasKids rows
    → find_key kid rows ≡ some r
    → r.status ≡ active
    → All (Within start) envs
    → list_public_jwks env (rotations envs rows) ≡ some jwks
    → (jwk : String) × (env.decode_jwk r.public_jwk ≡ some jwk) × Mem jwk jwks
unfolding list_public_jwks list_by_status
rotations_publish start kid r envs env rows jwks keys found on within listed =
    let (c, at, live) = rotations-Live start kid r r envs rows within keys found (refl, inl on) in
    let (ks, listed_keys, decoded) =
      bound (list_by_status env.envelope env.list_ok is_public (rotations envs rows)) _ jwks
        listed in
    let (_, all_keys) = passed env.list_ok _ ks listed_keys in
    let (jwk, is, mem) =
      served_row env.envelope env.decode_jwk kid c (Live-is_public start r c live)
        (rotations envs rows) ks jwks at all_keys decoded in
    (jwk, ap env.decode_jwk (sym live.0) ∙ is, mem)
