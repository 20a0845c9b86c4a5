-- ===== src/Base/Word.antt =====
-- int64 counts as bit patterns below 2 ^ 64, with Go's wrapping arithmetic and signed tests.
use Prim.Native.Nat.{ℕ, ◌+◌, ◌-◌, ◌%◌, ◌^◌, ◌<◌}
use mathlib.Core.Path.{◌≡◌}
use mathlib.Core.Bool.{Bool, ◌||◌}
use native.Mathlib.Omega.{arith}
use wb_test_task.Base.Tests.{ltb, leb, ◌==◌}

abbrev pub int64_mod : ℕ
int64_mod = 2 ^ 64

-- The values from here on are negative.
abbrev pub int64_sign : ℕ
int64_sign = 2 ^ 63

-- c++
unfoldable pub inc64 : ℕ → ℕ
inc64 c = (c + 1) % int64_mod

-- a - b
unfoldable pub sub64 : ℕ → ℕ → ℕ
sub64 a b = (a + int64_mod - b) % int64_mod

-- c <= 0
unfoldable pub nonpos64 : ℕ → Bool
nonpos64 c = c == 0 || leb int64_sign c

-- a < b
unfoldable pub less64 : ℕ → ℕ → Bool
less64 a b = ltb ((a + int64_sign) % int64_mod) ((b + int64_sign) % int64_mod)

pub less64_pos : (a b : ℕ) → a < int64_sign → b < int64_sign → less64 a b ≡ ltb a b
unfolding less64
less64_pos a b ha hb = ground arith
