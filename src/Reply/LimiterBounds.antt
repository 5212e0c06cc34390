-- ===== src/Reply/LimiterBounds.antt =====
-- internal/cloudevents/reply/rate_limiter.go: the decision of `Allow` without its machine integers.
use yip_yap_foss.Prelude.{
  ℕ, zero, suc, ◌+◌, ◌-◌, ◌*◌, ◌≤◌, ◌<◌, leb, pos, ◌+ℤ◌, ◌*ℤ◌, wrap64, ◌≡◌, ◌∙◌, ap, arith,
}
use yip_yap_foss.Reply.RateLimiter.{Bucket, window_size, elapsed_in, admits}

abbrev max_int64 : ℕ
max_int64 = 0x8000000000000000

wrap64-small : (n : ℕ) → n < 0x8000000000000000 → wrap64 (pos n) ≡ pos n
unfolding wrap64
wrap64-small n h = ground arith

+ℤ-pos : (a b : ℕ) → pos a +ℤ pos b ≡ pos (a + b)
unfolding ◌+ℤ◌
+ℤ-pos a b = ground arith

mul_zero : (a : ℕ) → a * 0 ≡ 0
mul_zero a = omega arith

weight_le : (p e : ℕ) → p * (window_size - e) ≤ p * 60000000000
weight_le zero e = omega arith
weight_le (suc p) e = ground (arith, weight_le p e)

*ℤ-pos : (a b : ℕ) → pos a *ℤ pos b ≡ pos (a * b)
unfolding ◌*ℤ◌
*ℤ-pos a b = ground (arith, mul_zero a)

-- Counts and limits below a hundred million do not reach the bounds of int64.
pub admits-bounds :
    (limit now : ℕ) (b : Bucket)
    → limit < 100000000
    → b.count < 50000000
    → b.prev_count < 50000000
    → admits (pos limit) now b
      ≡ leb
          (b.count * window_size + b.prev_count * (window_size - elapsed_in now b) + window_size)
          (limit * window_size)
unfolding admits
admits-bounds limit now b hl hc hp =
    let e = elapsed_in now b in
    let p = b.prev_count * (window_size - e) in
    let small = weight_le b.prev_count e in
    let c₁ : wrap64 (pos b.count *ℤ pos window_size) ≡ pos (b.count * window_size) =
      ap wrap64 (*ℤ-pos b.count window_size) ∙ wrap64-small (b.count * window_size) (omega arith) in
    let c₂ : wrap64 (pos b.prev_count *ℤ pos (window_size - e)) ≡ pos p =
      ap wrap64 (*ℤ-pos b.prev_count (window_size - e)) ∙ wrap64-small p (omega arith) in
    let c₃ : wrap64 (pos limit *ℤ pos window_size) ≡ pos (limit * window_size) =
      ap wrap64 (*ℤ-pos limit window_size) ∙ wrap64-small (limit * window_size) (omega arith) in
    let c₄ : wrap64 (pos (b.count * window_size) +ℤ pos p) ≡ pos (b.count * window_size + p) =
      ap wrap64 (+ℤ-pos _ p) ∙ wrap64-small (b.count * window_size + p) (omega arith) in
    let c₅ : wrap64 (pos (b.count * window_size + p) +ℤ pos window_size)
        ≡ pos (b.count * window_size + p + window_size) =
      ap wrap64 (+ℤ-pos _ window_size)
      ∙ wrap64-small (b.count * window_size + p + window_size) (omega arith) in
    rw (c₁, c₂, c₃, c₄, c₅) (ground arith)
