-- ===== src/Prelude/Duration.antt =====
-- Go's `time.Duration`, a signed 64-bit number of nanoseconds.
use Prim.Native.Nat.{ℕ, ◌-◌, ◌%◌}
use yip_yap_foss.Prelude.Tests.{ltb, if◌then◌else◌}
use yip_yap_foss.Prelude.Int.{ℤ, pos, negsuc, sub_ℕ, ◌*ℤ◌}

-- The int64 whose bits are those of the word `r`.
signed64 : ℕ → ℤ
signed64 r = if ltb r 0x8000000000000000 then pos r else negsuc (0x10000000000000000 - r - 1)

-- Two's complement wrap-around.
unfoldable pub wrap64 : ℤ → ℤ
unfolding signed64
wrap64 (pos n) = signed64 (n % 0x10000000000000000)
wrap64 (negsuc n) = signed64 (0x10000000000000000 - 1 - n % 0x10000000000000000)

-- `time.Duration(n) * time.Second`.
unfoldable pub seconds : ℤ → ℤ
unfolding wrap64 ◌*ℤ◌
seconds n = wrap64 (n *ℤ pos 1000000000)

-- `t.Sub(u)`, for instants less than 2 ^ 63 nanoseconds apart.
abbrev pub since : ℕ → ℕ → ℤ
since t u = sub_ℕ t u
