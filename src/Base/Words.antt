-- ===== src/Base/Words.antt =====
-- Machine integers: an int, an int64 and a time.Duration as their 64-bit patterns.
use Prim.Native.Nat.{ℕ}
use mathlib.Core.Bool.{Bool, ◌&&◌}
use discord_lite_server.Base.Tests.{ltb, leb}

-- 2 ^ 63 and 2 ^ 64
abbrev pub half_range : ℕ
half_range = 9223372036854775808

abbrev pub range : ℕ
range = 18446744073709551616

abbrev pub is_positive : ℕ → Bool
is_positive x = ltb 0 x && ltb x half_range

abbrev pub is_negative : ℕ → Bool
is_negative x = leb half_range x
