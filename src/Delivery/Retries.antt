-- ===== src/Delivery/Retries.antt =====
-- internal/notify/worker.go: the ends of the loop of `sendWithRetry`.
use yip_yap_foss.Prelude.{
  ◌∷◌, ℕ, zero, suc, ◌+◌, ◌<◌, true, false, ◌≡◌, refl, ◌∙◌, ap, arith, inl, inr, Bool-cases,
}
use yip_yap_foss.Delivery.Worker.{
  delivered, failed, Attempts, Effort, next_backoff, attempt_from, send_with_retry,
}

-- What a loop of `left` attempts from the number `n` on may end in: the first success is the attempt `n + k`,
-- or there is none.
pub data Ends (t : Attempts) (left n : ℕ) (e : Effort) : Type 0 where
  ends_delivered :
      (k : ℕ)
      → k < left
      → e.sends ≡ suc k
      → t.succeeds (n + k) ≡ true
      → ((j : ℕ) → j < k → t.succeeds (n + j) ≡ false)
      → e.verdict ≡ delivered
      → Ends t left n e
  ends_failed :
      e.sends ≡ left
      → ((j : ℕ) → j < left → t.succeeds (n + j) ≡ false)
      → e.verdict ≡ failed
      → Ends t left n e

none_below : (j : ℕ) → ¬ (j < 0)
none_below j lt = omega (arith, lt)

-- A failure before the others.
after_failure :
    (t : Attempts) (n bound : ℕ)
    → t.succeeds n ≡ false
    → ((j : ℕ) → j < bound → t.succeeds (suc n + j) ≡ false)
    → (j : ℕ) → j < suc bound
    → t.succeeds (n + j) ≡ false
after_failure t n bound fails rest zero lt = ap t.succeeds (omega arith) ∙ fails
after_failure t n bound fails rest (suc j) lt = ap t.succeeds (omega arith) ∙ rest j (omega arith)

spend-Ends :
    (t : Attempts) (left n b : ℕ) (e : Effort)
    → t.succeeds n ≡ false
    → Ends t left (suc n) e
    → Ends t (suc left) n (record e { sends = suc e.sends; waits = b ∷ e.waits })
spend-Ends t left n b e fails (ends_delivered k lt sends works before is) =
    ends_delivered (suc k) (omega arith) (ap suc sends) (ap t.succeeds (omega arith) ∙ works)
      (after_failure t n k fails before) is
spend-Ends t left n b e fails (ends_failed sends none_before is) =
    ends_failed (ap suc sends) (after_failure t n left fails none_before) is

attempt_from-Ends :
    (t : Attempts) (max left n b : ℕ)
    → ((j : ℕ) → t.ends j ≡ false)
    → Ends t left n (attempt_from t max left n b)
unfolding attempt_from
attempt_from-Ends t max zero n b runs = ends_failed refl (λ j lt. absurd (none_below j lt)) refl
attempt_from-Ends t max (suc zero) n b runs = elim (Bool-cases (t.succeeds n)) [
  | inl works ↦
      ends_delivered 0 (omega arith) refl (ap t.succeeds (omega arith) ∙ works)
        (λ j lt. absurd (none_below j lt)) (rw works refl)
  | inr fails ↦
      ends_failed refl (after_failure t n 0 fails (λ j lt. absurd (none_below j lt)))
        (rw fails refl)
]
attempt_from-Ends t max (suc (suc left)) n b runs =
    let rest = attempt_from-Ends t max (suc left) (suc n) (next_backoff max b) runs in
    elim (Bool-cases (t.succeeds n)) [
      | inl works ↦ rw works (
          ends_delivered 0 (omega arith) refl (ap t.succeeds (omega arith) ∙ works)
            (λ j lt. absurd (none_below j lt)) refl)
      | inr fails ↦ rw (fails, runs n) (spend-Ends t (suc left) n b _ fails rest)
    ]

-- While the context of the pool lasts, `sendWithRetry` ends, either with the first attempt that succeeds, among
-- five, and no call of `Send` after it, or with the failure of all five.
pub send_with_retry-Ends :
    (t : Attempts) → ((j : ℕ) → t.ends j ≡ false) → Ends t 5 0 (send_with_retry t)
unfolding send_with_retry
send_with_retry-Ends t runs = attempt_from-Ends t 60000000000 5 0 1000000000 runs
