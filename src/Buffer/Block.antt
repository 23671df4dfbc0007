-- ===== src/Buffer/Block.antt =====
-- The block operations of buffer/blockfunc.c. The messages that they print are left out.
use unix_sys_prog.Base.{
  ℕ, zero, suc, ◌+◌, Bool, true, false, not, ◌&&◌, ◌==◌, if◌then◌else◌, out_of_fuel, pure, ◌>>=◌,
  ◌>>◌,
}
use unix_sys_prog.Ring.{Ptr, null}
use unix_sys_prog.Buffer.Store.{
  C, buf_size, is_locked, is_valid, is_dwr, is_waited, is_old, set_locked, set_valid, set_waited,
  set_old, set_dwr, set_krdwr,
}
use unix_sys_prog.Buffer.Lists.{
  search_hash, add_buf_to_hashlist, remove_from_hash, insert_freelist_head, insert_freelist_tail,
  remove_from_freelist, get_oldest_buffer, is_freelist_empty,
}

-- The block is in a queue: its buffer `p` is waited for (scenario 5) or taken (scenario 1).
unfoldable pub getblk_hit : Ptr → C Ptr
getblk_hit p = do
  busy ← is_locked p
  if busy
      then (do set_waited p true; pure null)
      else (do set_locked p true; remove_from_freelist p; pure p)

-- The clean buffer `p` is given to the block (scenario 2).
unfoldable pub getblk_replace : ℕ → Ptr → C Ptr
getblk_replace blkno p = do
  remove_from_hash p
  add_buf_to_hashlist blkno p
  set_valid p false
  pure p

-- The oldest free buffer, locked and taken off the free list.
unfoldable pub take_oldest : C Ptr
take_oldest = do p ← get_oldest_buffer; set_locked p true; remove_from_freelist p; pure p

-- The `while (1)` of `_getblk`. `continue` (scenario 3) takes a buffer off the free list, so the
-- rounds are at most the buffers and one.
unfoldable pub getblk_loop : ℕ → ℕ → C Ptr
getblk_loop zero blkno = λ _. out_of_fuel
getblk_loop (suc fuel) blkno = do
  p ← search_hash blkno
  if not (p == null) then getblk_hit p else do
    empty ← is_freelist_empty
    if empty then pure null else do
      p ← take_oldest
      delayed ← is_dwr p
      if delayed then getblk_loop fuel blkno else getblk_replace blkno p

unfoldable pub getblk : ℕ → C Ptr
getblk blkno = getblk_loop (buf_size + 1) blkno

-- The end of `_brelse`: back to the free list, at the end that the status asks for.
unfoldable pub put_back_free : Ptr → C (Unit {0})
put_back_free buf = do
  filled ← is_valid buf
  aged ← is_old buf
  if filled && not aged
      then (do insert_freelist_tail buf; set_locked buf false)
      else if filled && aged
      then (do insert_freelist_head buf; set_old buf false; set_locked buf false)
      else pure tt

unfoldable pub brelse : ℕ → C (Unit {0})
brelse blkno = do
  buf ← search_hash blkno
  if buf == null then pure tt else do
    busy ← is_locked buf
    if not busy then pure tt else do
      wanted ← is_waited buf
      if wanted then set_waited buf false else pure tt
      put_back_free buf

-- `_set_stat` and `_reset_stat`, with the setter that the command chose.
unfoldable pub set_block_stat : ℕ → (Ptr → Bool → C (Unit {0})) → C (Unit {0})
set_block_stat blkno func = do
  buf ← search_hash blkno
  if buf == null then pure tt else func buf true

unfoldable pub reset_block_stat : ℕ → (Ptr → Bool → C (Unit {0})) → C (Unit {0})
reset_block_stat blkno func = do
  buf ← search_hash blkno
  if buf == null then pure tt else func buf false

-- The rows of `stat_tbl` (command.c), by the letters L, V, D, K, W and O.
pub data Stat : Type 0 where
  locked valid dwr krdwr waited old : Stat

unfoldable pub setter : Stat → Ptr → Bool → C (Unit {0})
setter locked = set_locked
setter valid = set_valid
setter dwr = set_dwr
setter krdwr = set_krdwr
setter waited = set_waited
setter old = set_old
