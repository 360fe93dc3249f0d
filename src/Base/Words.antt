-- ===== src/Base/Words.antt =====
-- Machine integers as bit patterns: `int` in 32 bits, `unsigned long` in 64.
use Prim.Native.Nat.{ℕ, ◌+◌, ◌-◌, ◌%◌, ◌^◌, ◌<◌}
use mathlib.Core.Path.{◌≡◌}
use native.Mathlib.Omega.{arith}
use dazukofs_linux.Base.Tests.{ltb, if◌then◌else◌}

-- `n++` on an `int`.
unfoldable pub inc32 : ℕ → ℕ
inc32 n = (n + 1) % 2 ^ 32

-- `n--` on an `int`.
unfoldable pub dec32 : ℕ → ℕ
dec32 n = (n + (2 ^ 32 - 1)) % 2 ^ 32

-- An `int` assigned to an `unsigned long` is sign-extended.
unfoldable pub sign_extend : ℕ → ℕ
sign_extend n = if ltb n (2 ^ 31) then n else n + (2 ^ 64 - 2 ^ 32)

pub inc32_lem : (n : ℕ) → n + 1 < 2 ^ 32 → inc32 n ≡ n + 1
unfolding inc32
inc32_lem n h = omega arith

pub dec32_lem : (n : ℕ) → n < 2 ^ 32 → 0 < n → dec32 n + 1 ≡ n
unfolding dec32
dec32_lem n h p = omega arith

pub dec32-inc32 : (n : ℕ) → n < 2 ^ 32 → dec32 (inc32 n) ≡ n
unfolding inc32 dec32
dec32-inc32 n h = omega arith
