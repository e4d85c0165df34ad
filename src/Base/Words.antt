-- ===== src/Base/Words.antt =====
-- Counters of 32 and 64 bits, which wrap around.
use Prim.Native.Nat.{ℕ, ◌+◌, ◌%◌, ◌^◌, ◌<◌}
use native.Mathlib.Nat.{mod-eq_of_lt}
use mathlib.Core.Path.{◌≡◌}

-- `++n` on a `uint64_t` or a `size_t`
unfoldable pub succ64 : ℕ → ℕ
succ64 n = (n + 1) % 2 ^ 64

-- `++n` on a `uint32_t`
unfoldable pub succ32 : ℕ → ℕ
succ32 n = (n + 1) % 2 ^ 32

-- `a + b` on `uint64_t`
unfoldable pub add64 : ℕ → ℕ → ℕ
add64 a b = (a + b) % 2 ^ 64

pub succ64-eq : (n : ℕ) → n + 1 < 2 ^ 64 → succ64 n ≡ n + 1
unfolding succ64
succ64-eq n h = mod-eq_of_lt h

pub succ32-eq : (n : ℕ) → n + 1 < 2 ^ 32 → succ32 n ≡ n + 1
unfolding succ32
succ32-eq n h = mod-eq_of_lt h

pub add64-eq : (a b : ℕ) → a + b < 2 ^ 64 → add64 a b ≡ a + b
unfolding add64
add64-eq a b h = mod-eq_of_lt h
