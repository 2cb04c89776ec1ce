-- ===== src/Shared/Words.antt =====
-- Unsigned machine words as native numbers, their wrap-around written out.
use Prim.Native.Nat.{ℕ, ◌+◌, ◌-◌, ◌%◌, ◌^◌}

-- `a + b` and `a - b` on `uint8_t`, `uint16_t`, `uint32_t`, and on `size_t` and `uint64_t`.
abbrev pub add_u8 : ℕ → ℕ → ℕ
add_u8 a b = (a + b) % 2 ^ 8

abbrev pub sub_u8 : ℕ → ℕ → ℕ
sub_u8 a b = (a + 2 ^ 8 - b) % 2 ^ 8

abbrev pub add_u16 : ℕ → ℕ → ℕ
add_u16 a b = (a + b) % 2 ^ 16

abbrev pub add_u32 : ℕ → ℕ → ℕ
add_u32 a b = (a + b) % 2 ^ 32

abbrev pub sub_u32 : ℕ → ℕ → ℕ
sub_u32 a b = (a + 2 ^ 32 - b) % 2 ^ 32

abbrev pub add_u64 : ℕ → ℕ → ℕ
add_u64 a b = (a + b) % 2 ^ 64

abbrev pub sub_u64 : ℕ → ℕ → ℕ
sub_u64 a b = (a + 2 ^ 64 - b) % 2 ^ 64
