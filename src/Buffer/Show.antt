-- ===== src/Buffer/Show.antt =====
-- The functions of buffer/buffer.c that print buffers, queues and the free list: what they print is
-- their result. A read behind the entries of an array is a fault.
use unix_sys_prog.Base.{
  ℕ, zero, suc, ◌+◌, Bool, ◌==◌, ltb, if◌then◌else◌, List, [], ◌∷◌, out_of_fuel, crash, pure, ◌>>=◌,
}
use unix_sys_prog.Ring.{Ptr, read_fp}
use unix_sys_prog.Buffer.Store.{
  C, hash_size, buf_size, freelist, hash_head, buffer, on_hash, on_free, read_blkno,
  read_buf_number, is_locked, is_valid, is_dwr, is_krdwr, is_waited, is_old,
}

-- The letter of a bit that is set, or a dash.
abbrev pub letter : Bool → ℕ → ℕ
letter bit c = if bit then c else b'-'

-- The text in `stat_str`.
unfoldable pub buf_stat : Ptr → C (List ℕ)
buf_stat p = do
  o ← is_old p
  w ← is_waited p
  k ← is_krdwr p
  d ← is_dwr p
  v ← is_valid p
  l ← is_locked p
  pure (
      letter o b'O'
      ∷ letter w b'W'
      ∷ letter k b'K'
      ∷ letter d b'D'
      ∷ letter v b'V'
      ∷ letter l b'L'
      ∷ [])

-- What is printed of a buffer.
pub record Shown : Type 0 where
  pub number : ℕ
  pub block : ℕ
  pub status : List ℕ

unfoldable pub show_buffer : ℕ → C Shown
show_buffer buf_number =
    if ltb buf_number buf_size
    then (do
      stat_str ← buf_stat (buffer buf_number)
      n ← read_buf_number (buffer buf_number)
      b ← read_blkno (buffer buf_number)
      pure (record { number = n; block = b; status = stat_str }))
    else crash

-- The loop of `show_hash` and of `show_free`, from the buffer `p` to the head `h`, along the links
-- that `next` reads. A list has at most the buffers, and one round ends it.
unfoldable pub show_from : (Ptr → C Ptr) → ℕ → Ptr → Ptr → C (List Shown)
show_from next zero h p = λ _. out_of_fuel
show_from next (suc fuel) h p = if p == h then pure [] else do
  n ← read_buf_number p
  one ← show_buffer n
  q ← next p
  others ← show_from next fuel h q
  pure (one ∷ others)

abbrev pub show_fuel : ℕ
show_fuel = buf_size + 1

unfoldable pub show_hash : ℕ → C (List Shown)
show_hash hash_number =
    if ltb hash_number hash_size
    then (do
      p ← on_hash (read_fp (hash_head hash_number))
      show_from (λ r. on_hash (read_fp r)) show_fuel (hash_head hash_number) p)
    else crash

unfoldable pub show_free : C (List Shown)
show_free = do
  p ← on_free (read_fp freelist)
  show_from (λ r. on_free (read_fp r)) show_fuel freelist p
