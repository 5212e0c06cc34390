-- ===== src/Replies/Truncation.antt =====
-- internal/cloudevents/reply/handlers/common_phase5.go: `truncateUTF8Runes`.
use yip_yap_foss.Prelude.{
  ℕ, ◌+◌, ◌≤◌, ◌<◌, ltb, leb, false, ◌≡◌, refl, ap, arith, inl, inr, ◌⊎◌, List, [], ◌∷◌, ◌++◌,
  Bool-cases,
}
use yip_yap_foss.Replies.Text.{rune_len, byte_len, take_runes, truncate_runes}

-- A prefix within the cap, after which the next rune, if there is one, would not fit.
pub record IsCut (max : ℕ) (s t : List ℕ) : Type 0 where
  pub cut : List ℕ
  pub prefix : t ++ cut ≡ s
  pub fits : byte_len t ≤ max
  pub full :
      (cut ≡ []) ⊎ ((c : ℕ) × (rest : List ℕ) × (cut ≡ c ∷ rest) × (max < byte_len t + rune_len c))

append_empty : (s : List ℕ) → s ++ [] ≡ s
append_empty [] = refl
append_empty (c ∷ s) = ap (◌∷◌ c) (append_empty s)

take_runes-IsCut :
    (max used : ℕ) (s : List ℕ)
    → used ≤ max
    → (cut : List ℕ) × (take_runes max used s ++ cut ≡ s)
      × (used + byte_len (take_runes max used s) ≤ max)
      × ((cut ≡ [])
          ⊎ ((c : ℕ) × (rest : List ℕ) × (cut ≡ c ∷ rest)
              × (max < used + byte_len (take_runes max used s) + rune_len c)))
unfolding take_runes byte_len
take_runes-IsCut max used [] h = ([], refl, omega arith, inl refl)
take_runes-IsCut max used (c ∷ s) h = elim (Bool-cases (ltb max (used + rune_len c))) [
  | inl over ↦ rw over (c ∷ s, refl, omega arith, inr (c, s, refl, ground arith))
  | inr within ↦
      let (cut, pre, fits, full) = take_runes-IsCut max (used + rune_len c) s (ground arith) in
      rw within (
        cut,
        ap (◌∷◌ c) pre,
        omega (arith, fits),
        elim full [
          | inl all ↦ inl all
          | inr (c', rest, is, over) ↦ inr (c', rest, is, omega (arith, over))
        ],
      )
]

-- With a positive cap, the text that is kept is a prefix of whole runes, its bytes are within the cap, and no longer prefix
-- of whole runes is.
pub truncate_runes-IsCut : (max : ℕ) (s : List ℕ) → 0 < max → IsCut max s (truncate_runes s max)
unfolding truncate_runes
truncate_runes-IsCut max s h = elim (Bool-cases (leb (byte_len s) max)) [
  | inl short ↦
      let zero_cap : leb max 0 ≡ false = ground arith in
      rw (zero_cap, short)
        (record { cut = []; prefix = append_empty s; fits = ground arith; full = inl refl })
  | inr long ↦
      let zero_cap : leb max 0 ≡ false = ground arith in
      let (cut, pre, fits, full) = take_runes-IsCut max 0 s (omega arith) in
      rw (zero_cap, long)
        (record {
          cut = cut;
          prefix = pre;
          fits = omega (arith, fits);
          full = elim full [
            | inl all ↦ inl all
            | inr (c, rest, is, over) ↦ inr (c, rest, is, omega (arith, over))
          ];
        })
]
