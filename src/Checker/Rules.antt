-- ===== src/Checker/Rules.antt =====
-- internal/checker/rules.go. `strings.Contains` and `regexp.MatchString` are parameters; a pattern
-- that does not compile is `none`.
use yip_yap_foss.Prelude.{
  ℤ, ltb_ℤ, leb_ℤ, String, Bool, true, false, not, ◌&&◌, Option, none, some, List, [], ◌∷◌, ◌++◌,
  str_eq, is_blank, if◌then◌else◌, ◌≡◌, refl, sym, ◌∙◌, ap, inl, inr, ◌⊎◌, All, taken,
}
use yip_yap_foss.Domain.Monitor.{CheckStatus, up, down, degraded}

pub record MonitorMatchRule : Type 0 where
  pub status_code : Option ℤ
  pub status_code_min : Option ℤ
  pub status_code_max : Option ℤ
  pub body_match : String
  pub body_match_mode : String
  pub header_match : String
  pub header_value : String
  pub header_match_mode : String
  pub state_id : String
  pub health_class : String

pub record Texts : Type 0 where
  pub contains : String → String → Bool
  pub regex_match : String → String → Option Bool

-- What the rules look at: the code, the body, and the header that `Get` returns.
pub record Response : Type 0 where
  pub status_code : ℤ
  pub body : String
  pub header : String → String

abbrev is_match : Option Bool → Bool
is_match none = false
is_match (some b) = b

unfoldable pub status_matches : MonitorMatchRule → ℤ → Bool
status_matches r code =
    elim r.status_code [ none ↦ true | some c ↦ leb_ℤ c code && leb_ℤ code c ]
    && elim r.status_code_min [ none ↦ true | some c ↦ not (ltb_ℤ code c) ]
    && elim r.status_code_max [ none ↦ true | some c ↦ not (ltb_ℤ c code) ]

unfoldable pub body_matches : Texts → MonitorMatchRule → String → Bool
body_matches t r body =
    if is_blank r.body_match
    then true
    else if str_eq r.body_match_mode "not_contains"
    then not (t.contains body r.body_match)
    else if str_eq r.body_match_mode "regex"
    then is_match (t.regex_match r.body_match body)
    else t.contains body r.body_match

unfoldable pub header_matches : Texts → MonitorMatchRule → (String → String) → Bool
header_matches t r get =
    let value = get r.header_match in
    if is_blank r.header_match
    then true
    else if is_blank r.header_value
    then not (is_blank value)
    else if str_eq r.header_match_mode "contains"
    then t.contains value r.header_value
    else if str_eq r.header_match_mode "regex"
    then is_match (t.regex_match r.header_value value)
    else str_eq value r.header_value

-- `matchesRule`.
unfoldable pub matches_rule : Texts → MonitorMatchRule → Response → Bool
unfolding status_matches body_matches header_matches
matches_rule t r res =
    status_matches r res.status_code && body_matches t r res.body && header_matches t r res.header

-- `EvaluateMatchRules`.
unfoldable pub evaluate_match_rules : Texts → List MonitorMatchRule → Response → String × String
unfolding matches_rule
evaluate_match_rules t [] res = ("", "")
evaluate_match_rules t (r ∷ rs) res =
    if matches_rule t r res then (r.state_id, r.health_class) else evaluate_match_rules t rs res

-- `HealthClassToStatus`.
unfoldable pub health_class_to_status : String → CheckStatus
health_class_to_status c =
    if str_eq c "healthy" then up else if str_eq c "degraded" then degraded else down

-- No rule matches and the result is empty, or the result is that of a rule that matches, after rules
-- that do not.
pub evaluate_match_rules_first :
    (t : Texts) (rs : List MonitorMatchRule) (res : Response)
    → (All (λ r. matches_rule t r res ≡ false) rs × (evaluate_match_rules t rs res ≡ ("", "")))
      ⊎ ((before : List MonitorMatchRule) × (r : MonitorMatchRule) × (after : List MonitorMatchRule)
          × (rs ≡ before ++ r ∷ after)
          × All (λ q. matches_rule t q res ≡ false) before
          × (matches_rule t r res ≡ true)
          × (evaluate_match_rules t rs res ≡ (r.state_id, r.health_class)))
unfolding evaluate_match_rules
evaluate_match_rules_first t [] res = inl (tt, refl)
evaluate_match_rules_first t (r ∷ rs) res =
    elim (taken (matches_rule t r res) (r.state_id, r.health_class) (evaluate_match_rules t rs res)
      _ refl) [
        | inl (hit, is) ↦ inr ([], r, rs, refl, tt, hit, sym is)
        | inr (miss, is) ↦ elim (evaluate_match_rules_first t rs res) [
          | inl (none_match, empty) ↦ inl ((miss, none_match), sym is ∙ empty)
          | inr (before, q, after, split, misses, hit, result) ↦
              inr (r ∷ before, q, after, ap (◌∷◌ r) split, (miss, misses), hit, sym is ∙ result)
        ]
      ]
