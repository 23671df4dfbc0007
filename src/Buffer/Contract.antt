-- ===== src/Buffer/Contract.antt =====
-- What `_getblk` promises its caller, from any cache that satisfies the invariant.
use unix_sys_prog.Base.{
  ℕ, ◌+◌, ◌≤◌, ◌≡◌, ◌⊎◌, refl, true, false, List, [], arith, ◌==◌, has, ◌∈◌, ◌∉◌, erase, update, ok,
  Bool-cases, inl, inr, length, length-le_range, eq_of_==, sym, ◌∙◌, not-mem-erase_self,
}
use unix_sys_prog.Ring.{Ptr, null, Links}
use unix_sys_prog.Buffer.Status.{test_bit, assign_bit, stat_locked, stat_waited}
use unix_sys_prog.Buffer.Bits.{test-assign}
use unix_sys_prog.Buffer.Store.{Cache, buf_size, IsBuffer}
use unix_sys_prog.Buffer.Block.{getblk_loop, getblk}
use unix_sys_prog.Buffer.Invariant.{IsCache}
use unix_sys_prog.Buffer.Search.{NoBuffer, search_hash_cases, search_hash_found}
use unix_sys_prog.Buffer.Take.{lock_twice_bits, taken, getblk_hit_free, getblk_hit_busy}
use unix_sys_prog.Buffer.Getblk.{Replaced, after_clean, getblk_loop_miss, after_clean_end}

-- `r` is a locked buffer of block `b` that was free and no longer is; or it is null, and the
-- block's buffer is busy and marked as waited for, or no buffer holds the block and the free list
-- has run out.
abbrev pub Got : Cache → ℕ → List Ptr → Ptr → Cache → List Ptr → Type 0
Got c b free r c' free' =
    (IsBuffer r
      × (c'.blkno r ≡ b)
      × (test_bit (c'.stat r) stat_locked ≡ true)
      × (r ∈ free)
      × (r ∉ free'))
    ⊎ ((r ≡ null)
        × (p : Ptr) × IsBuffer p
        × (c.blkno p ≡ b)
        × (test_bit (c.stat p) stat_locked ≡ true)
        × (test_bit (c'.stat p) stat_waited ≡ true))
    ⊎ ((r ≡ null) × NoBuffer c b × (free' ≡ []))

module _ (c : Cache) (q : ℕ → List Ptr) (free : List Ptr) (w : IsCache c q free) (b : ℕ) where
  free_length : length free ≤ buf_size
  free_length = length-le_range buf_size 6 free w.free_ring.nodup.1.1 w.free_range

  -- For a block that no buffer holds, `_getblk` returns the oldest free buffer that is not delayed
  -- for write and gives it to the block; it takes the delayed buffers before it off the free list;
  -- no other buffer is given another block.
  pub getblk_miss :
      NoBuffer c b
      → (r : Ptr) × (c' : Cache) × (q' : ℕ → List Ptr) × (getblk b c ≡ ok r c')
        × Replaced c b free r c' q'
  unfolding getblk
  getblk_miss none_holds =
      getblk_loop_miss b (buf_size + 1) c q free w none_holds (omega (arith, free_length))

  -- A block whose buffer is free: `_getblk` returns that buffer, locks it and takes it off the free
  -- list, and changes nothing else but the status of that buffer.
  pub getblk_available :
      (p : Ptr)
      → IsBuffer p
      → c.blkno p ≡ b
      → p ∈ free
      → (l : Links) × (getblk b c ≡ ok p (taken c p l)) × IsCache (taken c p l) q (erase p free)
  unfolding getblk getblk_loop
  getblk_available p i e m =
      let (l, hit, inv) = getblk_hit_free c q free w p m in
      let not_null : (p == null) ≡ false = ground arith in
      (l, simp (search_hash_found c q w.index b p i e, not_null) hit, inv)

  getblk_busy :
      (p : Ptr)
      → IsBuffer p
      → c.blkno p ≡ b
      → p ∉ free
      → let c' = record c { stat = update c.stat p (assign_bit (c.stat p) stat_waited true) } in
        (getblk b c ≡ ok null c') × IsCache c' q free
  unfolding getblk getblk_loop
  getblk_busy p i e m =
      let (hit, inv) = getblk_hit_busy c q free w p i m in
      let not_null : (p == null) ≡ false = ground arith in
      (simp (search_hash_found c q w.index b p i e, not_null) hit, inv)

  abbrev pub Outcome : Type 0
  Outcome =
      (r : Ptr) × (c' : Cache) × (q' : ℕ → List Ptr) × (free' : List Ptr) × (getblk b c ≡ ok r c')
      × IsCache c' q' free'
      × Got c b free r c' free'

  held : (p : Ptr) → IsBuffer p → c.blkno p ≡ b → Outcome
  held p i e =
      let small = w.byte p i in
      elim (Bool-cases (has p free)) [
        | inl m ↦
            let (l, run, inv) = getblk_available p i e m in
            (
              p,
              taken c p l,
              q,
              erase p free,
              run,
              inv,
              inl (
                i,
                e,
                ground (arith, lock_twice_bits c.stat p stat_locked small refl),
                m,
                not-mem-erase_self p free w.free_ring.nodup.1.1,
              ),
            )
        | inr m ↦
            let (run, inv) = getblk_busy p i e m in
            (
              null,
              record c { stat = update c.stat p (assign_bit (c.stat p) stat_waited true) },
              q,
              free,
              run,
              inv,
              inr (
                  inl (
                    refl,
                    p,
                    i,
                    e,
                    ground (arith, w.free_iff p i),
                    ground (
                      arith,
                      test-assign stat_waited stat_waited (c.stat p) true refl refl small,
                    ),
                  )),
            )
      ]

  missed : NoBuffer c b → Outcome
  missed none_holds =
      let (r, c', q', run, o) = getblk_miss none_holds in
      (
        r,
        c',
        q',
        after_clean c.stat free,
        run,
        o.inv,
        elim o.given [
          | inl n ↦ inr (
              inr (
                n,
                none_holds,
                after_clean_end c.stat free (sym o.chosen ∙ n)
                    (ground (arith, w.free_ring.nodup.0)),
              ))
          | inr (m, k, v) ↦
              let i = w.free_range r m in
              inl (i, ground (arith, o.rebound r i), k, m, ground (arith, o.inv.free_iff r i))
        ],
      )

  -- From a cache that satisfies the invariant, `_getblk` returns, and its result is as `Got` says;
  -- the invariant holds again.
  pub getblk_contract : Outcome
  getblk_contract =
      let (p, run, (found, missing)) = search_hash_cases c q w.index b in
      elim (Bool-cases (p == null)) [
        | inl e ↦ missed (missing (eq_of_== p null e))
        | inr n ↦ let (i, e) = found (ground arith) in held p i e
      ]
