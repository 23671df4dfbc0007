-- ===== src/Buffer/Session.antt =====
-- The block operations one after another: setting status bits, a getblk with its brelse, and any
-- sequence of commands from `init_buf` on.
use unix_sys_prog.Base.{
  ℕ, ◌≡◌, ◌≢◌, refl, true, false, Bool, List, [], ◌∷◌, ◌++◌, arith, ◌==◌, has, ◌∈◌, erase, update,
  ok, fault, Bool-cases, inl, inr, ◌>>◌, Run, pure, not-mem-erase_self, eq_of_==,
}
use unix_sys_prog.Ring.{Ptr, null, read_fp, read_bp, write_fp}
use unix_sys_prog.Buffer.Status.{
  masks, test_bit, assign_bit, stat_locked, stat_valid, stat_dwr, stat_krdwr, stat_waited, stat_old,
}
use unix_sys_prog.Buffer.Bits.{test-assign, assign_byte}
use unix_sys_prog.Buffer.Store.{
  Cache, C, IsBuffer, set_locked, set_valid, set_dwr, set_krdwr, set_waited, set_old, write_bit,
  is_locked,
}
use unix_sys_prog.Buffer.Lists.{init_buf, remove_from_freelist, unlink}
use unix_sys_prog.Buffer.Block.{
  Stat, locked, valid, dwr, krdwr, waited, old, setter, getblk, getblk_loop, getblk_hit, brelse,
  set_block_stat, reset_block_stat,
}
use unix_sys_prog.Buffer.Invariant.{IsCache, IsCache-status}
use unix_sys_prog.Buffer.Search.{search_hash_cases, search_hash_found}
use unix_sys_prog.Buffer.Take.{taken, lock_twice_bits}
use unix_sys_prog.Buffer.Contract.{getblk_contract, getblk_available}
use unix_sys_prog.Buffer.Release.{released, brelse_held, brelse_idle}
use unix_sys_prog.Buffer.Init.{init_queues, init_free_buffers, init_buf-IsCache}

abbrev pub mask_of : Stat → ℕ
mask_of locked = stat_locked
mask_of valid = stat_valid
mask_of dwr = stat_dwr
mask_of krdwr = stat_krdwr
mask_of waited = stat_waited
mask_of old = stat_old

setter-write_bit : (s : Stat) → setter s ≡ write_bit (mask_of s)
unfolding setter set_locked set_valid set_dwr set_krdwr set_waited set_old
setter-write_bit locked = refl
setter-write_bit _ = refl

mask_known : (s : Stat) → mask_of s ∈ masks
mask_known locked = refl
mask_known _ = refl

mask_ne_locked : (s : Stat) → s ≢ locked → (mask_of s == stat_locked) ≡ false
mask_ne_locked locked n = absurd (n refl)
mask_ne_locked _ n = refl

module _ (c : Cache) (q : ℕ → List Ptr) (free : List Ptr) (w : IsCache c q free) (s : Stat)
    (other : s ≢ locked) (b : ℕ) where
  abbrev pub Kept : Run Cache (Unit {0}) → Type 0
  Kept run = (c' : Cache) × (run ≡ ok tt c') × IsCache c' q free

  -- A setter on one buffer, for any bit but the lock.
  setter-IsCache : (p : Ptr) (v : Bool) → IsBuffer p → Kept (setter s p v c)
  unfolding write_bit
  setter-IsCache p v i =
      let not_null : (p == null) ≡ false = ground arith in
      let small = w.byte p i in
      let known = mask_known s in
      (
        record c { stat = update c.stat p (assign_bit (c.stat p) (mask_of s) v) },
        rw (setter-write_bit s) (rw not_null),
        IsCache-status c q free w p _
            (record {
              others = λ r n. ground arith;
              small = ground (arith, assign_byte (mask_of s) (c.stat p) v known small);
            })
            (ground (
              arith,
              test-assign (mask_of s) stat_locked (c.stat p) v known refl small,
              mask_ne_locked s other,
            )),
      )

  -- `_set_stat` and `_reset_stat` keep the invariant for every status but the lock, and leave the
  -- queues and the free list as they are.
  pub set_block_stat-IsCache : Kept (set_block_stat b (setter s) c)
  unfolding set_block_stat
  set_block_stat-IsCache =
      let (p, run, (found, _)) = search_hash_cases c q w.index b in
      elim (Bool-cases (p == null)) [
        | inl e ↦ (c, simp (run, e), w)
        | inr n ↦
            let (c', done, inv) = setter-IsCache p true (found (ground arith)).0 in
            (c', simp (run, n) done, inv)
      ]

  pub reset_block_stat-IsCache : Kept (reset_block_stat b (setter s) c)
  unfolding reset_block_stat
  reset_block_stat-IsCache =
      let (p, run, (found, _)) = search_hash_cases c q w.index b in
      elim (Bool-cases (p == null)) [
        | inl e ↦ (c, simp (run, e), w)
        | inr n ↦
            let (c', done, inv) = setter-IsCache p false (found (ground arith)).0 in
            (c', simp (run, n) done, inv)
      ]

-- A free, valid and young block that is taken and given back moves to the tail of the free list:
-- the list is in the order of last use.
pub getblk-brelse :
    (c : Cache) (q : ℕ → List Ptr) (free : List Ptr) (b p : ℕ)
    → IsCache c q free
    → IsBuffer p
    → c.blkno p ≡ b
    → p ∈ free
    → test_bit (c.stat p) stat_valid ≡ true
    → test_bit (c.stat p) stat_old ≡ false
    → (c' : Cache) × ((getblk b >> brelse b) c ≡ ok tt c') × IsCache c' q (erase p free ++ p ∷ [])
unfolding released
getblk-brelse c q free b p w i e m filled young =
    let (l, run, inv) = getblk_available c q free w b p i e m in
    let small = w.byte p i in
    let out = not-mem-erase_self p free w.free_ring.nodup.1.1 in
    let (c', run', inv', _) = brelse_held (taken c p l) q (erase p free) inv b p i e out in
    (
      c',
      simp run run',
      rw
          (
            lock_twice_bits c.stat p stat_valid small refl,
            lock_twice_bits c.stat p stat_old small refl,
            filled,
            young,
          )
          at inv',
    )

-- The commands that work on one block.
pub data Op : Type 0 where
  get_block : ℕ → Op
  release : ℕ → Op
  set_stat : ℕ → Stat → Op
  reset_stat : ℕ → Stat → Op

unfoldable pub exec : Op → C (Unit {0})
exec (get_block b) = getblk b >> pure tt
exec (release b) = brelse b
exec (set_stat b s) = set_block_stat b (setter s)
exec (reset_stat b s) = reset_block_stat b (setter s)

unfoldable pub exec_all : List Op → C (Unit {0})
exec_all [] = pure tt
exec_all (o ∷ os) = exec o >> exec_all os

-- The operation does not set or reset the lock by hand.
abbrev pub LeavesLock : Op → Type 0
LeavesLock (get_block b) = Unit
LeavesLock (release b) = Unit
LeavesLock (set_stat b s) = s ≢ locked
LeavesLock (reset_stat b s) = s ≢ locked

abbrev pub AllLeaveLock : List Op → Type 0
AllLeaveLock [] = Unit
AllLeaveLock (o ∷ os) = LeavesLock o × AllLeaveLock os

abbrev pub Sound : Run Cache (Unit {0}) → Type 0
Sound run =
    (c' : Cache) × (q' : ℕ → List Ptr) × (free' : List Ptr) × (run ≡ ok tt c') × IsCache c' q' free'

release-Sound :
    (c : Cache) (q : ℕ → List Ptr) (free : List Ptr)
    → IsCache c q free
    → (b : ℕ) → Sound (brelse b c)
release-Sound c q free w b =
    let (p, run, (found, missing)) = search_hash_cases c q w.index b in
    elim (Bool-cases (p == null)) [
      | inl e ↦ (
        c,
        q,
        free,
        brelse_idle c q free w b (λ r i h. absurd (missing (eq_of_== p null e) r i h)),
        w,
      )
      | inr n ↦
          let (i, h) = found (ground arith) in
          elim (Bool-cases (has p free)) [
            | inl m ↦ (
              c,
              q,
              free,
              brelse_idle c q free w b
                  (λ r j g. let same : r ≡ p = w.unique r p j i (ground arith) in rw same m),
              w,
            )
            | inr m ↦
                let (c', done, inv, _) = brelse_held c q free w b p i h m in (c', q, _, done, inv)
          ]
    ]

pub exec-Sound :
    (c : Cache) (q : ℕ → List Ptr) (free : List Ptr)
    → IsCache c q free
    → (o : Op) → LeavesLock o
    → Sound (exec o c)
unfolding exec
exec-Sound c q free w (get_block b) h =
    let (r, c', q', free', run, inv, _) = getblk_contract c q free w b in
    (c', q', free', rw run, inv)
exec-Sound c q free w (release b) h = release-Sound c q free w b
exec-Sound c q free w (set_stat b s) h =
    let (c', run, inv) = set_block_stat-IsCache c q free w s h b in (c', q, free, run, inv)
exec-Sound c q free w (reset_stat b s) h =
    let (c', run, inv) = reset_block_stat-IsCache c q free w s h b in (c', q, free, run, inv)

pub exec_all-Sound :
    (os : List Op) (c : Cache) (q : ℕ → List Ptr) (free : List Ptr)
    → IsCache c q free
    → AllLeaveLock os
    → Sound (exec_all os c)
unfolding exec_all
exec_all-Sound [] c q free w h = (c, q, free, refl, w)
exec_all-Sound (o ∷ os) c q free w h =
    let (c1, q1, free1, run1, w1) = exec-Sound c q free w o h.0 in
    let (c2, q2, free2, run2, w2) = exec_all-Sound os c1 q1 free1 w1 h.1 in
    (c2, q2, free2, simp run1 run2, w2)

-- From any contents of the memory, `init_buf` and then any sequence of block commands that do not
-- set the lock by hand runs to its end, without an access through a null pointer and without a
-- loop that does not end, and the invariant holds of the result.
pub session_safe :
    (c : Cache) (os : List Op) → AllLeaveLock os → Sound ((init_buf >> exec_all os) c)
session_safe c os h =
    let (c1, run1, w1) = init_buf-IsCache c in
    let (c2, q2, free2, run2, w2) = exec_all-Sound os c1 init_queues init_free_buffers w1 h in
    (c2, q2, free2, simp run1 run2, w2)

-- Resetting the lock of a buffer that stands on no free list, which the command `reset n L` does,
-- makes the next `_getblk` of its block go through a null pointer.
pub reset_locked_faults :
    (c : Cache) (q : ℕ → List Ptr) (free : List Ptr) (b p : ℕ)
    → IsCache c q free
    → IsBuffer p
    → c.blkno p ≡ b
    → c.free.bp p ≡ null
    → (reset_block_stat b (setter locked) >> getblk b) c ≡ fault
unfolding reset_block_stat setter set_locked write_bit getblk getblk_loop getblk_hit is_locked
    remove_from_freelist unlink read_fp read_bp write_fp
reset_locked_faults c q free b p w i e off =
    let not_null : (p == null) ≡ false = ground arith in
    let self : (p == p) ≡ true = ground arith in
    let find = search_hash_found c q w.index b p i e in
    let small = w.byte p i in
    let open_now = test-assign stat_locked stat_locked (c.stat p) false refl refl small in
    let again =
      search_hash_found
        (record c { stat = update c.stat p (assign_bit (c.stat p) stat_locked false) }) q w.index b
        p i e in
    simp (find, not_null, again, self, open_now, off)
