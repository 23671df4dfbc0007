-- ===== src/Buffer/Status.antt =====
-- The status byte of a buffer header: the bits of buffer/buffer.h, tested and set as buffer.c does.
use Prim.Native.Nat.{bit_and, bit_or}
use unix_sys_prog.Base.{ℕ, ◌-◌, ◌%◌, ◌^◌, Bool, not, List, [], ◌∷◌, ◌==◌, if◌then◌else◌}

abbrev pub stat_locked : ℕ
stat_locked = 0b1

abbrev pub stat_valid : ℕ
stat_valid = 0b10

abbrev pub stat_dwr : ℕ
stat_dwr = 0b100

abbrev pub stat_krdwr : ℕ
stat_krdwr = 0b1000

abbrev pub stat_waited : ℕ
stat_waited = 0b1_0000

abbrev pub stat_old : ℕ
stat_old = 0b10_0000

abbrev pub masks : List ℕ
masks = stat_locked ∷ stat_valid ∷ stat_dwr ∷ stat_krdwr ∷ stat_waited ∷ stat_old ∷ []

-- `stat & mask`, read as a truth value.
unfoldable pub test_bit : ℕ → ℕ → Bool
test_bit s mask = not (bit_and s mask == 0)

-- `val ? stat | mask : stat & ~mask`, stored in a `uint8_t`.
unfoldable pub assign_bit : ℕ → ℕ → Bool → ℕ
assign_bit s mask val = if val then bit_or s mask % 2 ^ 8 else bit_and s (2 ^ 8 - 1 - mask) % 2 ^ 8
