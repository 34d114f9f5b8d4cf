-- ===== src/Base/Bytes.antt =====
-- Machine words: bytes, the sizes that wrap at 2 ^ 32, and the outbox counter at 2 ^ 64.
use Prim.Native.Nat.{ℕ, ◌+◌, ◌-◌, ◌%◌, ◌^◌, ◌<◌}
use mathlib.Core.Path.{◌≡◌}
use native.Mathlib.Omega.{arith}

abbrev pub IsByte : ℕ → Type 0
IsByte b = b < 256

-- `size_t` arithmetic on the 32-bit targets.
unfoldable pub add32 : ℕ → ℕ → ℕ
add32 a b = (a + b) % 2 ^ 32

unfoldable pub sub32 : ℕ → ℕ → ℕ
sub32 a b = (a + 2 ^ 32 - b % 2 ^ 32) % 2 ^ 32

-- `uint64_t` arithmetic.
unfoldable pub add64 : ℕ → ℕ → ℕ
add64 a b = (a + b) % 2 ^ 64

unfoldable pub sub64 : ℕ → ℕ → ℕ
sub64 a b = (a + 2 ^ 64 - b % 2 ^ 64) % 2 ^ 64

pub sub64-add64 : (s t n : ℕ) → s ≡ (t + n) % 2 ^ 64 → sub64 s n ≡ t % 2 ^ 64
unfolding sub64
sub64-add64 s t n h = omega arith

pub add64_mod : (s t n : ℕ) → s ≡ t % 2 ^ 64 → add64 s n ≡ (t + n) % 2 ^ 64
unfolding add64
add64_mod s t n h = omega arith
