-- ===== src/Base/Hash.antt =====
-- FNV-1a over bytes, as three source files have it, and the 16 hexadecimal digits of "%016zx".
use Prim.Native.Nat.{ℕ, zero, suc, ◌+◌, ◌*◌, ◌/◌, ◌%◌, ◌^◌, bit_xor}
use mathlib.Core.Path.{◌≡◌, refl}
use mathlib.Core.List.{[], ◌∷◌, ◌++◌}
use native.Mathlib.Omega.{arith}
use g.Base.Tests.{ltb, if◌then◌else◌}
use g.Base.Lists.{length, length-append}
use g.Base.Text.{Str}

unfoldable pub fnv1a_from : ℕ → Str → ℕ
fnv1a_from hash [] = hash
fnv1a_from hash (c ∷ s) = fnv1a_from ((bit_xor hash c * 1099511628211) % 2 ^ 64) s

unfoldable pub fnv1a : Str → ℕ
unfolding fnv1a_from
fnv1a s = fnv1a_from 1469598103934665603 s

unfoldable pub hex_digit : ℕ → ℕ
hex_digit n = if ltb n 10 then 48 + n else 87 + n

-- the last `k` hexadecimal digits
unfoldable pub hex : ℕ → ℕ → Str
unfolding hex_digit
hex zero n = []
hex (suc k) n = hex k (n / 16) ++ hex_digit (n % 16) ∷ []

pub length-hex : (k n : ℕ) → length (hex k n) ≡ k
unfolding hex
length-hex zero n = refl
length-hex (suc k) n =
    omega (arith, length-append (hex k (n / 16)) (hex_digit (n % 16) ∷ []), length-hex k (n / 16))
