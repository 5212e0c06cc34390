-- ===== src/Escalation/Pace.antt =====
-- internal/escalation/engine.go: a turn of `processFiringAlerts` and the state row of its alert.
use yip_yap_foss.Prelude.{
  ℕ, suc, ◌+◌, ℤ, pos, ◌≤ℤ◌, ◌<ℤ◌, ltb_ℤ, String, Bool, true, false, ◌≡◌, refl, sym, ◌∙◌, ap, inl,
  inr, ◌⊎◌, eq_of_str_eq, Option, none, some, List, [], ◌∷◌, arith, if◌then◌else◌, first,
  first_holds, since, seconds, is_blank, Bool-cases, Option-cases, subst,
}
use yip_yap_foss.Domain.Alert.{
  Alert, AlertEscalationState, NotificationsSent, blank, loop_meta, undecodable,
}
use yip_yap_foss.Domain.Monitor.{Monitor}
use yip_yap_foss.Domain.Escalation.{EscalationPolicy, EscalationStep}
use yip_yap_foss.Store.Time.{stored_time}
use yip_yap_foss.Store.Alerts.{state_of, get_escalation_state, stored_state, stored_sent}
use yip_yap_foss.Store.Policies.{get_next_step, after_position, get_steps}
use yip_yap_foss.Escalation.World.{Env, World}
use yip_yap_foss.Escalation.Handlers.{read_steps}
use yip_yap_foss.Escalation.Tick.{
  Due, retry, advance, restart, decide, decide_step, decide_next, decide_loop, is_waiting,
  next_state, process_alert, apply, get_loop_count, step_has_id, is_exhausted, read_state,
}
use yip_yap_foss.Escalation.Progress.{SameCourse, Unsaved, apply-Follows}

-- The wait of the step has passed since the step was entered.
abbrev pub Rested : Env → AlertEscalationState → EscalationStep → Type 0
Rested env st c = seconds c.wait_seconds ≤ℤ since env.now st.step_entered_at

abbrev pub Used : AlertEscalationState → EscalationStep → Type 0
Used st c = c.repeat_count ≤ℤ pos st.retry_count

-- The steps of a policy, in the order of their positions.
abbrev pub HasSteps : Env → String → EscalationStep → List EscalationStep → Type 0
HasSteps env p f rest = (env.steps_ok ≡ true) × (get_steps p env.steps ≡ f ∷ rest)

-- The starts that were counted are below the policy's maximum, or have reached it.
abbrev pub MayLoop : Option ℤ → ℕ → Type 0
MayLoop none n = Unit
MayLoop (some k) n = pos n <ℤ k

abbrev pub IsSpent : Option ℤ → ℕ → Type 0
IsSpent none n = ⊥
IsSpent (some k) n = k ≤ℤ pos n

-- Why a policy with no next step does not start over.
abbrev pub NoLoop : Env → String → AlertEscalationState → Type 0
NoLoop env p st =
    (env.get_policy p ≡ none)
    ⊎ ((policy : EscalationPolicy) × (env.get_policy p ≡ some policy)
        × ((policy.loop ≡ false) ⊎ IsSpent policy.max_loops (get_loop_count st.notifications_sent)))

-- What is due when the state stands at step `c` of the policy `p`, whose first step is `f`.
pub data Standing (env : Env) (p : String) (f c : EscalationStep) (st : AlertEscalationState)
    : Option Due → Type 0 where
  waits : since env.now st.step_entered_at <ℤ seconds c.wait_seconds → Standing env p f c st none
  again :
      Rested env st c
      → pos (suc st.retry_count) ≤ℤ c.repeat_count
      → Standing env p f c st (some (retry c))
  onward :
      (n : EscalationStep)
      → Rested env st c
      → Used st c
      → env.next_step_ok ≡ true
      → get_next_step p c.position env.steps ≡ some n
      → c.position <ℤ n.position
      → Standing env p f c st (some (advance n))
  over :
      (policy : EscalationPolicy)
      → Rested env st c
      → Used st c
      → env.next_step_ok ≡ true
      → get_next_step p c.position env.steps ≡ none
      → env.get_policy p ≡ some policy
      → policy.loop ≡ true
      → MayLoop policy.max_loops (get_loop_count st.notifications_sent)
      → Standing env p f c st (some (restart f (get_loop_count st.notifications_sent + 1)))
  ends :
      Rested env st c
      → Used st c
      → (env.next_step_ok ≡ false)
        ⊎ ((get_next_step p c.position env.steps ≡ none) × NoLoop env p st)
      → Standing env p f c st none

-- What is due for an alert of the monitor, and why.
pub data Decided (env : Env) (m : Monitor) (st : AlertEscalationState) : Option Due → Type 0 where
  no_policy : is_blank m.escalation_policy_id ≡ true → Decided env m st none
  no_steps :
      (env.steps_ok ≡ false) ⊎ (get_steps m.escalation_policy_id env.steps ≡ [])
      → Decided env m st none
  lost :
      (f : EscalationStep) (rest : List EscalationStep)
      → HasSteps env m.escalation_policy_id f rest
      → first (step_has_id st.current_step_id) (f ∷ rest) ≡ none
      → Decided env m st none
  standing :
      (f c : EscalationStep) (rest : List EscalationStep) (o : Option Due)
      → HasSteps env m.escalation_policy_id f rest
      → first (step_has_id st.current_step_id) (f ∷ rest) ≡ some c
      → Standing env m.escalation_policy_id f c st o
      → Decided env m st o

get_next_step-after :
    (p : String) (k : ℤ) (ss : List EscalationStep) (n : EscalationStep)
    → get_next_step p k ss ≡ some n
    → k <ℤ n.position
unfolding get_next_step
get_next_step-after p k ss n e =
    let h = first_holds (after_position k) (get_steps p ss) n e in ground arith

MayLoop-or_IsSpent :
    (max : Option ℤ) (n : ℕ) (b : Bool)
    → is_exhausted max n ≡ b
    → (if b then IsSpent max n else MayLoop max n)
MayLoop-or_IsSpent none n true e = ground (arith, e)
MayLoop-or_IsSpent none n false e = tt
MayLoop-or_IsSpent (some k) n true e = ground (arith, e)
MayLoop-or_IsSpent (some k) n false e = ground (arith, e)

module _ (env : Env) (p : String) (f c : EscalationStep) (st : AlertEscalationState) where
  -- What `o` stands for is what was decided.
  decided_as : (d o : Option Due) → d ≡ o → Standing env p f c st o → Standing env p f c st d
  decided_as d o e t = subst (Standing env p f c st) (sym e) t

  decide_loop-Standing :
      (policy : EscalationPolicy)
      → Rested env st c
      → Used st c
      → env.next_step_ok ≡ true
      → get_next_step p c.position env.steps ≡ none
      → env.get_policy p ≡ some policy
      → Standing env p f c st (decide_loop policy f st)
  unfolding decide_loop
  decide_loop-Standing policy rested used ok last found =
      let count = get_loop_count st.notifications_sent in
      elim (Bool-cases policy.loop) [
        | inr off ↦
            decided_as (decide_loop policy f st) none (ground (arith, off))
              (ends rested used (inr (last, inr (policy, found, inl off))))
        | inl loops ↦ elim (Bool-cases (is_exhausted policy.max_loops count)) [
          | inl spent ↦ decided_as (decide_loop policy f st) none (simp (loops, spent) refl) (
              ends rested used (
                inr (
                  last,
                  inr (policy, found, inr (MayLoop-or_IsSpent policy.max_loops count true spent)),
                )))
          | inr within ↦
              decided_as (decide_loop policy f st) (some (restart f (count + 1)))
                (simp (loops, within) refl)
                (over policy rested used ok last found loops
                  (MayLoop-or_IsSpent policy.max_loops count false within))
        ]
      ]

  decide_next-Standing :
      Rested env st c → Used st c → Standing env p f c st (decide_next env p f c st)
  unfolding decide_next
  decide_next-Standing rested used = elim (Bool-cases env.next_step_ok) [
    | inr failed ↦
        decided_as (decide_next env p f c st) none (simp failed refl)
          (ends rested used (inl failed))
    | inl ok ↦ elim (Option-cases (get_next_step p c.position env.steps)) [
      | inr (n, found) ↦
          decided_as (decide_next env p f c st) (some (advance n)) (simp (ok, found) refl)
            (onward n rested used ok found (get_next_step-after p c.position env.steps n found))
      | inl last ↦ elim (Option-cases (env.get_policy p)) [
        | inl missing ↦
            decided_as (decide_next env p f c st) none (simp (ok, last, missing) refl)
              (ends rested used (inr (last, inl missing)))
        | inr (policy, found) ↦
            decided_as (decide_next env p f c st) (decide_loop policy f st)
              (simp (ok, last, found) refl) (decide_loop-Standing policy rested used ok last found)
      ]
    ]
  ]

  decide_step-Standing : Standing env p f c st (decide_step env p f c st)
  unfolding decide_step
  decide_step-Standing = elim (Bool-cases (is_waiting env c st)) [
    | inl early ↦ rw early (waits (unfold is_waiting in ground arith))
    | inr late ↦
        let rested : Rested env st c = unfold is_waiting in ground arith in
        elim (Bool-cases (ltb_ℤ (pos st.retry_count) c.repeat_count)) [
          | inl left ↦ rw (late, left) (again rested (ground arith))
          | inr used ↦ rw (late, used) (decide_next-Standing rested (ground arith))
        ]
  ]

read_steps-HasSteps :
    (env : Env) (p : String) (f : EscalationStep) (ss : List EscalationStep)
    → read_steps env p ≡ some (f, ss)
    → (rest : List EscalationStep) × HasSteps env p f rest × (ss ≡ f ∷ rest)
unfolding read_steps
read_steps-HasSteps env p f ss e = by_steps (get_steps p env.steps) refl
  where
    by_steps :
        (gs : List EscalationStep)
        → get_steps p env.steps ≡ gs
        → (rest : List EscalationStep) × HasSteps env p f rest × (ss ≡ f ∷ rest)
    by_steps [] is = ground (arith, e, is)
    by_steps (g ∷ rest) is =
        (rest, (ground (arith, e, is), ground (arith, e, is)), ground (arith, e, is))

read_steps-none :
    (env : Env) (p : String)
    → read_steps env p ≡ none
    → (env.steps_ok ≡ false) ⊎ (get_steps p env.steps ≡ [])
unfolding read_steps
read_steps-none env p e = by_steps (get_steps p env.steps) refl
  where
    by_steps :
        (gs : List EscalationStep)
        → get_steps p env.steps ≡ gs
        → (env.steps_ok ≡ false) ⊎ (get_steps p env.steps ≡ [])
    by_steps [] is = inr is
    by_steps (g ∷ rest) is = inl (ground (arith, e, is))

decide-Decided :
    (env : Env) (m : Monitor) (st : AlertEscalationState) → Decided env m st (decide env m st)
unfolding decide
decide-Decided env m st =
    let p = m.escalation_policy_id in
    elim (Bool-cases (is_blank p)) [
      | inl unset ↦ rw unset (no_policy unset)
      | inr named ↦ elim (Option-cases (read_steps env p)) [
        | inl none_read ↦ rw (named, none_read) (no_steps (read_steps-none env p none_read))
        | inr ((f, ss), read) ↦
            let (rest, has, is) = read_steps-HasSteps env p f ss read in
            let by = ap (first (step_has_id st.current_step_id)) is in
            elim (Option-cases (first (step_has_id st.current_step_id) ss)) [
              | inl missing ↦ rw (named, read, missing) (lost f rest has (sym by ∙ missing))
              | inr (c, current) ↦
                  rw (named, read, current)
                    (standing f c rest _ has (sym by ∙ current) (decide_step-Standing env p f c st))
            ]
      ]
    ]

get_escalation_state-keyed :
    (i : String) (ss : List AlertEscalationState) (st : AlertEscalationState)
    → get_escalation_state i ss ≡ some st
    → st.alert_id ≡ i
unfolding get_escalation_state
get_escalation_state-keyed i ss st found =
    eq_of_str_eq st.alert_id i (first_holds (state_of i) ss st found)

abbrev by_due : Env → Alert → Monitor → AlertEscalationState → World → Option Due → World
by_due env a m st w o = elim o [ none ↦ w | some due ↦ apply env a m st due w ]

process_alert-known :
    (env : Env) (a : Alert) (m : Monitor) (st : AlertEscalationState) (w : World)
    → read_state env a.id w ≡ some st
    → env.get_monitor a.monitor_id ≡ some m
    → process_alert env a w ≡ by_due env a m st w (decide env m st)
unfolding process_alert
process_alert-known env a m st w read known = rw (read, known, process_alert) refl

-- The row of the alert stands at the step, entered now, with these counts; or on its old course, a write having
-- failed.
abbrev pub Lands : Env → AlertEscalationState → String → ℕ → ℕ → AlertEscalationState → Type 0
Lands env st step retries starts row =
    ((row.current_step_id ≡ step)
      × (row.step_entered_at ≡ stored_time env.now)
      × (row.retry_count ≡ retries)
      × (get_loop_count row.notifications_sent ≡ starts))
    ⊎ (Unsaved env × SameCourse st row)

-- The row after what was due.
abbrev pub Moved : Env → AlertEscalationState → Option Due → AlertEscalationState → Type 0
Moved env st none row = row ≡ st
Moved env st (some (retry c)) row =
    Lands env st st.current_step_id (suc st.retry_count) (get_loop_count st.notifications_sent) row
Moved env st (some (advance n)) row = Lands env st n.id 0 (get_loop_count st.notifications_sent) row
Moved env st (some (restart f n)) row = Lands env st f.id 0 n row

abbrev pub Turn : Env → Alert → Monitor → AlertEscalationState → World → Type 0
Turn env a m st w =
    (due : Option Due) × (row : AlertEscalationState) × Decided env m st due
    × (get_escalation_state a.id (process_alert env a w).states ≡ some row)
    × Moved env st due row
    × (due ≡ none → process_alert env a w ≡ w)

stored_count : (s : NotificationsSent) → get_loop_count (stored_sent s) ≡ get_loop_count s
stored_count blank = refl
stored_count (loop_meta n) = refl
stored_count undecodable = refl

apply-Moved :
    (env : Env) (st row : AlertEscalationState) (due : Due)
    → (Unsaved env × SameCourse st row) ⊎ SameCourse (stored_state (next_state env st due)) row
    → Moved env st (some due) row
unfolding next_state
apply-Moved env st row (retry c) (inl old) = inr old
apply-Moved env st row (advance c) (inl old) = inr old
apply-Moved env st row (restart c n) (inl old) = inr old
apply-Moved env st row (retry c) (inr new) = inl (
  new.step,
  new.entered,
  new.retries,
  ap get_loop_count new.loops ∙ stored_count st.notifications_sent,
)
apply-Moved env st row (advance c) (inr new) = inl (
  new.step,
  new.entered,
  new.retries,
  ap get_loop_count new.loops ∙ stored_count st.notifications_sent,
)
apply-Moved env st row (restart c n) (inr new) =
    inl (new.step, new.entered, new.retries, ap get_loop_count new.loops)

-- One turn of a firing alert whose state row and monitor are read leaves it with a state row again. Nothing is due,
-- and then the turn changes nothing, if the monitor has no policy, the steps are not read or there are none, the
-- current step is not among them, or its wait is not over. Else, while repeats of the step are left, the turn counts
-- one more; once they are used up, it moves to the next step, of a greater position, with no repeat counted; and if
-- there is no next step and the policy loops and its maximum of starts is not counted yet, to the policy's first step,
-- one start more being counted. If it does not loop or the maximum is counted, or if the next step or the policy is not
-- read, nothing is due. The row stands as said, entered now, or on its old course if a write of a state failed.
pub process_alert-Turn :
    (env : Env) (a : Alert) (m : Monitor) (st : AlertEscalationState) (w : World)
    → env.get_state_ok a.id ≡ true
    → get_escalation_state a.id w.states ≡ some st
    → env.get_monitor a.monitor_id ≡ some m
    → Turn env a m st w
process_alert-Turn env a m st w ok found known =
    turn (decide env m st) (decide-Decided env m st) refl
  where
    read : read_state env a.id w ≡ some st
    read = unfold read_state in rw ok found

    turned : (o : Option Due) → decide env m st ≡ o → process_alert env a w ≡ by_due env a m st w o
    turned o e = process_alert-known env a m st w read known ∙ ap (by_due env a m st w) e

    turn : (o : Option Due) → Decided env m st o → decide env m st ≡ o → Turn env a m st w
    turn none why e = (
      none,
      st,
      why,
      ap (λ v. get_escalation_state a.id v.states) (turned none e) ∙ found,
      refl,
      λ _. turned none e,
    )
    turn (some due) why e =
        let (row, there, was) =
          apply-Follows env a m st due w found
            (get_escalation_state-keyed a.id w.states st found) in
        (
          some due,
          row,
          why,
          ap (λ v. get_escalation_state a.id v.states) (turned (some due) e) ∙ there,
          apply-Moved env st row due was,
          λ off. ground (arith, off),
        )
