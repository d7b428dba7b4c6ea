-- ===== src/Base/Word.antt =====
-- Machine integers: values stay natural numbers, and each width writes its wrap out.
use Prim.Native.Nat.{ℕ, ◌%◌, ◌*◌}
use rathole_x.Base.Tests.{leb, if◌then◌else◌}

-- `as u8` and `as u16`
abbrev pub u8 : ℕ → ℕ
u8 n = n % 256

abbrev pub u16 : ℕ → ℕ
u16 n = n % 65536

abbrev pub u64_max : ℕ
u64_max = 18446744073709551615

abbrev pub saturating_mul64 : ℕ → ℕ → ℕ
saturating_mul64 a b = if leb (a * b) u64_max then a * b else u64_max
