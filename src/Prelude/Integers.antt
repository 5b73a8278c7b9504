-- ===== src/Prelude/Integers.antt =====
-- Go's int where it may be negative, over the native numbers.
use Prim.Native.Nat.{ℕ, ◌-◌}
use mathlib.Core.Bool.{Bool, true}
use passbubble.Prelude.Tests.{ltb}

pub data ℤ : Type 0 where
  pos : ℕ → ℤ
  negsuc : ℕ → ℤ

-- z - n for a loop that counts up to z from n, which does nothing where z is below n.
abbrev pub rest_to : ℤ → ℕ → ℕ
rest_to (pos z) n = z - n
rest_to (negsuc z) n = 0

-- z < n
abbrev pub less_than : ℤ → ℕ → Bool
less_than (pos z) n = ltb z n
less_than (negsuc z) n = true
