-- ===== src/Bus/Matching.antt =====
-- The wildcards of internal/bus/channel.go as a relation on tokens.
use yip_yap_foss.Prelude.{
  ◌≡◌, ◌≢◌, refl, sym, arith, subst, inl, inr, ◌↔◌, true, false, Bool-cases, String, str_eq,
  str_eq_refl, eq_of_str_eq, List, [], ◌∷◌,
}
use yip_yap_foss.Bus.Subjects.{split_dots, has_wildcard, match_tokens, subject_matches}

-- `>` stands for one token or more at the end, `*` for any one token, and another token for itself.
pub data Matches : List String → List String → Type 0 where
  none_left : Matches [] []
  all_left :
      (pattern : List String) (s : String) (subject : List String)
      → Matches (">" ∷ pattern) (s ∷ subject)
  one_token :
      (pattern : List String) (s : String) (subject : List String)
      → Matches pattern subject
      → Matches ("*" ∷ pattern) (s ∷ subject)
  same_token :
      (token : String) (pattern subject : List String)
      → Matches pattern subject
      → Matches (token ∷ pattern) (token ∷ subject)

false_is_not_true : false ≢ true
false_is_not_true e = cc e

match_tokens_sound : (p s : List String) → match_tokens p s ≡ true → Matches p s
unfolding match_tokens
match_tokens_sound [] [] h = none_left
match_tokens_sound [] (s ∷ ss) h = absurd (false_is_not_true h)
match_tokens_sound (t ∷ p) [] h = absurd (false_is_not_true h)
match_tokens_sound (t ∷ p) (s ∷ ss) h = elim (Bool-cases (str_eq t ">")) [
  | inl rest ↦
      subst (λ u. Matches (u ∷ p) (s ∷ ss)) (sym (eq_of_str_eq t ">" rest)) (all_left p s ss)
  | inr r ↦ elim (Bool-cases (str_eq t "*")) [
    | inl star ↦
        subst (λ u. Matches (u ∷ p) (s ∷ ss)) (sym (eq_of_str_eq t "*" star))
          (one_token p s ss (match_tokens_sound p ss (ground (arith, h, r, star))))
    | inr n ↦
        subst (λ u. Matches (t ∷ p) (u ∷ ss)) (eq_of_str_eq t s (ground (arith, h, r, n)))
          (same_token t p ss (match_tokens_sound p ss (ground (arith, h, r, n))))
  ]
]

match_tokens_complete : {p s : List String} → Matches p s → match_tokens p s ≡ true
unfolding match_tokens
match_tokens_complete none_left = refl
match_tokens_complete (all_left p s ss) = refl
match_tokens_complete (one_token p s ss m) = match_tokens_complete m
match_tokens_complete (same_token t p ss m) =
    let rest = match_tokens_complete m in ground (arith, rest, str_eq_refl t)

match_tokens_refl : (p : List String) → Matches p p
match_tokens_refl [] = none_left
match_tokens_refl (t ∷ p) = same_token t p p (match_tokens_refl p)

-- A pattern that contains a wildcard matches a subject exactly if their tokens match: the shortcut for equal
-- texts decides nothing else.
pub subject_matches-Matches :
    (pattern subject : String)
    → has_wildcard pattern ≡ true
    → subject_matches pattern subject ≡ true ↔ Matches (split_dots pattern) (split_dots subject)
unfolding subject_matches
subject_matches-Matches pattern subject wild = (sound, complete)
  where
    sound :
        subject_matches pattern subject ≡ true → Matches (split_dots pattern) (split_dots subject)
    sound h = elim (Bool-cases (str_eq pattern subject)) [
      | inl same ↦
          subst (λ s. Matches (split_dots pattern) (split_dots s))
            (eq_of_str_eq pattern subject same) (match_tokens_refl _)
      | inr n ↦ match_tokens_sound _ _ (unfold subject_matches in ground (arith, h, n, wild))
    ]

    complete :
        Matches (split_dots pattern) (split_dots subject) → subject_matches pattern subject ≡ true
    complete m =
        let hit = match_tokens_complete m in unfold subject_matches in ground (arith, hit, wild)
