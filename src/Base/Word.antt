-- ===== src/Base/Word.antt =====
-- C's fixed widths: casts, shifts and a byte predicate.
use Prim.Native.Nat.{ℕ, ◌*◌, ◌/◌, ◌%◌, ◌^◌, ◌<◌}

abbrev pub u8 : ℕ → ℕ
u8 n = n % 2 ^ 8

abbrev pub u16 : ℕ → ℕ
u16 n = n % 2 ^ 16

abbrev pub u32 : ℕ → ℕ
u32 n = n % 2 ^ 32

abbrev pub shl : ℕ → ℕ → ℕ
shl x k = x * 2 ^ k

abbrev pub shr : ℕ → ℕ → ℕ
shr x k = x / 2 ^ k

abbrev pub IsByte : ℕ → Type 0
IsByte x = x < 256

abbrev pub IsU32 : ℕ → Type 0
IsU32 x = x < 2 ^ 32
