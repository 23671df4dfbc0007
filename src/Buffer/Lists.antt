-- ===== src/Buffer/Lists.antt =====
-- The list functions of buffer/buffer.c, statement by statement.
use unix_sys_prog.Base.{
  ℕ, zero, suc, ◌+◌, ◌%◌, Bool, true, false, List, [], ◌∷◌, ◌==◌, if◌then◌else◌, Cmd, out_of_fuel,
  pure, modify, ◌>>=◌, ◌>>◌,
}
use unix_sys_prog.Ring.{Ptr, null, Links, read_fp, read_bp, write_fp, write_bp}
use unix_sys_prog.Buffer.Store.{
  C, hash_size, buf_size, freelist, hash_head, buffer, on_hash, on_free, read_blkno, write_blkno,
  write_buf_number, set_locked, set_valid, set_stat,
}

unfoldable pub hash : ℕ → ℕ
hash blkno = blkno % hash_size

-- The loop of `search_hash` from the header `p`, in at most `fuel` rounds.
unfoldable pub search_from : ℕ → ℕ → Ptr → Ptr → C Ptr
search_from zero blkno h p = λ _. out_of_fuel
search_from (suc fuel) blkno h p = if p == h then pure null else do
  b ← read_blkno p
  if b == blkno then pure p else do q ← on_hash (read_fp p); search_from fuel blkno h q

-- A queue holds at most every buffer, so this many rounds reach the end of it.
abbrev pub search_fuel : ℕ
search_fuel = buf_size + 1

unfoldable pub search_hash : ℕ → C Ptr
search_hash blkno = do
  p ← on_hash (read_fp (hash_head (hash blkno)))
  search_from search_fuel blkno (hash_head (hash blkno)) p

unfoldable pub insert_head : Ptr → Ptr → Cmd Links (Unit {0})
insert_head h new = do
  write_bp new h
  write_fp new (← read_fp h)
  write_bp (← read_fp h) new
  write_fp h new

unfoldable pub insert_tail : Ptr → Ptr → Cmd Links (Unit {0})
insert_tail h new = do
  write_bp new (← read_bp h)
  write_fp new h
  write_fp (← read_bp h) new
  write_bp h new

unfoldable pub add_buf_to_hashlist : ℕ → Ptr → C (Unit {0})
add_buf_to_hashlist blkno new = do
  write_blkno new blkno
  on_hash (insert_tail (hash_head (hash blkno)) new)

-- What `remove_from_hash` and `remove_from_freelist` do to the links of their list.
unfoldable pub unlink : Ptr → Cmd Links (Unit {0})
unlink p = do
  before ← read_bp p
  after ← read_fp p
  write_fp before after
  after ← read_fp p
  before ← read_bp p
  write_bp after before
  write_fp p null
  write_bp p null

unfoldable pub remove_from_hash : Ptr → C (Unit {0})
remove_from_hash p = on_hash (unlink p)

unfoldable pub insert_freelist_head : Ptr → C (Unit {0})
insert_freelist_head new = do set_locked new false; on_free (insert_head freelist new)

unfoldable pub insert_freelist_tail : Ptr → C (Unit {0})
insert_freelist_tail new = do set_locked new false; on_free (insert_tail freelist new)

unfoldable pub remove_from_freelist : Ptr → C (Unit {0})
remove_from_freelist p = do set_locked p true; on_free (unlink p)

unfoldable pub get_oldest_buffer : C Ptr
get_oldest_buffer = on_free (read_fp freelist)

unfoldable pub is_freelist_empty : C Bool
is_freelist_empty = do
  p ← on_free (read_fp freelist)
  if p == freelist then pure true else pure false

-- `hash_head[i].hash_fp = hash_head[i].hash_bp = &hash_head[i]`
unfoldable pub empty_ring : Ptr → Cmd Links (Unit {0})
empty_ring h = do write_bp h h; write_fp h h

unfoldable pub init_heads : ℕ → ℕ → C (Unit {0})
init_heads i zero = pure tt
init_heads i (suc left) = do on_hash (empty_ring (hash_head i)); init_heads (i + 1) left

-- The loop over `buffer` and `init_blkno`, from index `i`.
unfoldable pub init_buffers : ℕ → List ℕ → C (Unit {0})
init_buffers i [] = pure tt
init_buffers i (blkno ∷ rest) = do
  add_buf_to_hashlist blkno (buffer i)
  set_stat (buffer i) 0
  set_valid (buffer i) true
  set_locked (buffer i) true
  write_buf_number (buffer i) i
  init_buffers (i + 1) rest

unfoldable pub init_free_list : List ℕ → C (Unit {0})
init_free_list [] = pure tt
init_free_list (blkno ∷ rest) = do insert_freelist_tail (← search_hash blkno); init_free_list rest

abbrev pub init_blkno : List ℕ
init_blkno = 28 ∷ 4 ∷ 64 ∷ 17 ∷ 5 ∷ 97 ∷ 98 ∷ 50 ∷ 10 ∷ 3 ∷ 35 ∷ 99 ∷ []

abbrev pub init_free : List ℕ
init_free = 3 ∷ 5 ∷ 4 ∷ 28 ∷ 97 ∷ 10 ∷ []

unfoldable pub init_buf : C (Unit {0})
init_buf = do
  modify (λ c. record c { initialized = true })
  init_heads 0 hash_size
  on_free (empty_ring freelist)
  init_buffers 0 init_blkno
  init_free_list init_free
