-- ===== src/Buffer/Examples.antt =====
-- Runs of the buffer cache on its own tables, and the theorems at states that those runs reach.
use unix_sys_prog.Base.{ℕ, ◌<◌, ◌≡◌, refl, false, List, [], ◌∷◌, arith, Run, ok, fault, ◌>>◌, map}
use unix_sys_prog.Ring.{Ptr, null, Links}
use unix_sys_prog.Buffer.Status.{test_bit}
use unix_sys_prog.Buffer.Store.{
  Cache, hash_size, buf_size, buffer, is_locked, is_dwr, set_locked, set_valid, set_waited,
}
use unix_sys_prog.Buffer.Lists.{
  init_buf, search_hash, remove_from_freelist, unlink, get_oldest_buffer, is_freelist_empty,
  remove_from_hash, add_buf_to_hashlist,
}
use unix_sys_prog.Buffer.Block.{
  getblk, getblk_loop, getblk_hit, take_oldest, getblk_replace, brelse, setter, reset_block_stat,
  locked, dwr, waited,
}
use unix_sys_prog.Buffer.Invariant.{IsCache}
use unix_sys_prog.Buffer.Search.{NoBuffer}
use unix_sys_prog.Buffer.Take.{taken}
use unix_sys_prog.Buffer.Getblk.{Replaced}
use unix_sys_prog.Buffer.Show.{Shown, show_buffer, show_hash, show_free}
use unix_sys_prog.Buffer.Listing.{line_of, listings-map}
use unix_sys_prog.Buffer.Contract
use unix_sys_prog.Buffer.Contract.{getblk_contract, getblk_miss, getblk_available}
use unix_sys_prog.Buffer.Session.{
  Sound, exec_all, get_block, release, set_stat, reset_stat, session_safe, getblk-brelse,
  reset_locked_faults,
}
use unix_sys_prog.Buffer.Init.{
  initialised, initialised-IsCache, init_queues, init_free_buffers, init_buf-IsCache,
}

-- Static storage before `main`.
abbrev zeroed : Cache
zeroed = record {
  initialized = false;
  hash = record { fp = λ _. null; bp = λ _. null };
  free = record { fp = λ _. null; bp = λ _. null };
  blkno = λ _. 0;
  stat = λ _. 0;
  buf_number = λ _. 0;
}

abbrev started : Cache
started = initialised zeroed

abbrev started_inv : IsCache started init_queues init_free_buffers
started_inv = initialised-IsCache zeroed

-- What a run returns.
abbrev result : Run Cache Ptr → Ptr
result (ok p _) = p
result _ = 99

-- Block 3 stands in buffer 9 and is free; taken once, the next process has to wait.
getblk_3_then_4 : Ptr × Ptr
unfolding getblk getblk_loop getblk_hit take_oldest getblk_replace search_hash is_locked is_dwr
    set_locked remove_from_freelist unlink is_freelist_empty get_oldest_buffer remove_from_hash
    add_buf_to_hashlist set_valid set_waited initialised
getblk_3_then_4 = (result (getblk 3 started), result ((getblk 3 >> getblk 3) started))

getblk_3_then_4_test : getblk_3_then_4 ≡ (15, null)
unfolding getblk_3_then_4
getblk_3_then_4_test = refl

-- Block 18 is in no queue: the oldest free buffer, that of block 3, is given to it.
getblk_18_test : result (getblk 18 started) ≡ 15
unfolding getblk_3_then_4
getblk_18_test = refl

session_safe_example : Sound (
    (init_buf
        >> exec_all
            (get_block 3 ∷ set_stat 3 dwr ∷ release 3 ∷ get_block 18 ∷ reset_stat 18 waited ∷ []))
      zeroed)
session_safe_example =
    session_safe zeroed
      (get_block 3 ∷ set_stat 3 dwr ∷ release 3 ∷ get_block 18 ∷ reset_stat 18 waited ∷ [])
      (tt, (λ e. cc, (tt, (tt, (λ e. cc, tt)))))

getblk_contract_example : Contract.Outcome started init_queues init_free_buffers started_inv 3
getblk_contract_example = getblk_contract started init_queues init_free_buffers started_inv 3

no_18 : NoBuffer started 18
unfolding initialised
no_18 r i e = ground arith

getblk_miss_example :
    (r : Ptr) × (c' : Cache) × (q' : ℕ → List Ptr) × (getblk 18 started ≡ ok r c')
    × Replaced started 18 init_free_buffers r c' q'
getblk_miss_example = getblk_miss started init_queues init_free_buffers started_inv 18 no_18

getblk-brelse_example :
    (c' : Cache) × ((getblk 3 >> brelse 3) started ≡ ok tt c')
    × IsCache c' init_queues (10 ∷ 7 ∷ 6 ∷ 11 ∷ 14 ∷ 15 ∷ [])
unfolding initialised test_bit
getblk-brelse_example =
    getblk-brelse started init_queues init_free_buffers 3 15 started_inv (omega arith) refl refl
      refl refl

getblk_available_example :
    (l : Links) × (getblk 3 started ≡ ok 15 (taken started 15 l))
    × IsCache (taken started 15 l) init_queues (10 ∷ 7 ∷ 6 ∷ 11 ∷ 14 ∷ [])
unfolding initialised
getblk_available_example =
    getblk_available started init_queues init_free_buffers started_inv 3 15 (omega arith) refl refl

init_buf-IsCache_example :
    (c' : Cache) × (init_buf zeroed ≡ ok tt c') × IsCache c' init_queues init_free_buffers
init_buf-IsCache_example = init_buf-IsCache zeroed

-- Block 17 was never free.
reset_locked_faults_example : (reset_block_stat 17 (setter locked) >> getblk 17) started ≡ fault
unfolding initialised
reset_locked_faults_example =
    reset_locked_faults started init_queues init_free_buffers 17 9 started_inv (omega arith) refl
      refl

listings-map_example :
    (show_free started ≡ ok (map (line_of started) init_free_buffers) started)
    × ((i : ℕ)
        → i < hash_size
        → show_hash i started ≡ ok (map (line_of started) (init_queues i)) started)
    × ((n : ℕ)
        → n < buf_size
        → (show_buffer n started ≡ ok (line_of started (buffer n)) started)
          × (started.buf_number (buffer n) ≡ n))
listings-map_example = listings-map started init_queues init_free_buffers started_inv

-- The line of the oldest free buffer, that of block 3: `[  9:  3 ----V-]`.
line_of_15 : Shown
unfolding initialised
line_of_15 = line_of started 15

line_of_15_test :
    line_of_15
    ≡ record { number = 9; block = 3; status = b'-' ∷ b'-' ∷ b'-' ∷ b'-' ∷ b'V' ∷ b'-' ∷ [] }
unfolding line_of_15
line_of_15_test = refl
