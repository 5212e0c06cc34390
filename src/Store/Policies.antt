-- ===== src/Store/Policies.antt =====
-- internal/store/sqlite/escalations.go: the queries over the table `escalation_steps`.
use yip_yap_foss.Prelude.{
  String, Bool, Option, List, [], ◌∷◌, first, ltb_ℤ, leb_ℤ, ℤ, str_eq, if◌then◌else◌,
}
use yip_yap_foss.Domain.Escalation.{EscalationStep}

insert_by_position : EscalationStep → List EscalationStep → List EscalationStep
insert_by_position s [] = s ∷ []
insert_by_position s (t ∷ ts) =
    let rest = insert_by_position s ts in
    if leb_ℤ s.position t.position then s ∷ t ∷ ts else t ∷ rest

abbrev in_policy : String → EscalationStep → Bool
in_policy p s = str_eq s.policy_id p

-- `GetSteps`: `WHERE policy_id = ? ORDER BY position`.
unfoldable pub get_steps : String → List EscalationStep → List EscalationStep
unfolding insert_by_position
get_steps p [] = []
get_steps p (s ∷ ss) =
    let rest = get_steps p ss in if in_policy p s then insert_by_position s rest else rest

abbrev pub after_position : ℤ → EscalationStep → Bool
after_position k s = ltb_ℤ k s.position

-- `GetNextStep`: `position > ? ORDER BY position LIMIT 1`.
unfoldable pub get_next_step : String → ℤ → List EscalationStep → Option EscalationStep
unfolding get_steps
get_next_step p k ss = first (after_position k) (get_steps p ss)
