-- ===== src/Buffer/Store.antt =====
-- The memory of buffer/buffer.c: the global arrays at fixed addresses, and the fields of
-- `buf_header` as cells.
use unix_sys_prog.Base.{
  ℕ, ◌+◌, ◌%◌, ◌^◌, ◌≤◌, ◌<◌, Bool, ◌==◌, if◌then◌else◌, update, Cmd, ok, fault, within,
}
use unix_sys_prog.Ring.{Ptr, null, Links}
use unix_sys_prog.Buffer.Status.{
  test_bit, assign_bit, stat_locked, stat_valid, stat_dwr, stat_krdwr, stat_waited, stat_old,
}

abbrev pub hash_size : ℕ
hash_size = 4

abbrev pub buf_size : ℕ
buf_size = 12

-- Where the linker put `freelist`, `hash_head` and `buffer`: any distinct addresses would do.
abbrev pub freelist : Ptr
freelist = 1

abbrev pub hash_head : ℕ → Ptr
hash_head i = 2 + i

abbrev pub buffer : ℕ → Ptr
buffer i = 6 + i

abbrev pub IsBuffer : Ptr → Type 0
IsBuffer p = (6 ≤ p) × (p < 6 + buf_size)

-- Two pairs of links for each header: those of its hash queue and those of the free list.
pub record Cache : Type 0 where
  pub initialized : Bool
  pub hash : Links
  pub free : Links
  pub blkno : Ptr → ℕ
  pub stat : Ptr → ℕ
  pub buf_number : Ptr → ℕ

abbrev pub C : Type 0 → Type 0
C A = Cmd Cache A

abbrev pub on_hash : {A : Type 0} → Cmd Links A → C A
on_hash = within (λ c. c.hash) (λ c l. record c { hash = l })

abbrev pub on_free : {A : Type 0} → Cmd Links A → C A
on_free = within (λ c. c.free) (λ c l. record c { free = l })

unfoldable pub read_blkno : Ptr → C ℕ
read_blkno p c = if p == null then fault else ok (c.blkno p) c

unfoldable pub write_blkno : Ptr → ℕ → C (Unit {0})
write_blkno p v c = if p == null then fault else ok tt (record c { blkno = update c.blkno p v })

unfoldable pub write_buf_number : Ptr → ℕ → C (Unit {0})
write_buf_number p v c =
    if p == null then fault else ok tt (record c { buf_number = update c.buf_number p v })

unfoldable pub read_buf_number : Ptr → C ℕ
read_buf_number p c = if p == null then fault else ok (c.buf_number p) c

unfoldable pub read_bit : ℕ → Ptr → C Bool
read_bit mask p c = if p == null then fault else ok (test_bit (c.stat p) mask) c

unfoldable pub write_bit : ℕ → Ptr → Bool → C (Unit {0})
write_bit mask p val c =
    if p == null
    then fault
    else ok tt (record c { stat = update c.stat p (assign_bit (c.stat p) mask val) })

unfoldable pub is_locked : Ptr → C Bool
unfolding read_bit
is_locked = read_bit stat_locked

unfoldable pub is_valid : Ptr → C Bool
unfolding read_bit
is_valid = read_bit stat_valid

unfoldable pub is_dwr : Ptr → C Bool
unfolding read_bit
is_dwr = read_bit stat_dwr

unfoldable pub is_krdwr : Ptr → C Bool
unfolding read_bit
is_krdwr = read_bit stat_krdwr

unfoldable pub is_waited : Ptr → C Bool
unfolding read_bit
is_waited = read_bit stat_waited

unfoldable pub is_old : Ptr → C Bool
unfolding read_bit
is_old = read_bit stat_old

unfoldable pub set_locked : Ptr → Bool → C (Unit {0})
unfolding write_bit
set_locked = write_bit stat_locked

unfoldable pub set_valid : Ptr → Bool → C (Unit {0})
unfolding write_bit
set_valid = write_bit stat_valid

unfoldable pub set_dwr : Ptr → Bool → C (Unit {0})
unfolding write_bit
set_dwr = write_bit stat_dwr

unfoldable pub set_krdwr : Ptr → Bool → C (Unit {0})
unfolding write_bit
set_krdwr = write_bit stat_krdwr

unfoldable pub set_waited : Ptr → Bool → C (Unit {0})
unfolding write_bit
set_waited = write_bit stat_waited

unfoldable pub set_old : Ptr → Bool → C (Unit {0})
unfolding write_bit
set_old = write_bit stat_old

-- `set_stat`: the whole byte.
unfoldable pub set_stat : Ptr → ℕ → C (Unit {0})
set_stat p val c =
    if p == null then fault else ok tt (record c { stat = update c.stat p (val % 2 ^ 8) })
