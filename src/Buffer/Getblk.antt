-- ===== src/Buffer/Getblk.antt =====
-- `_getblk`: it always returns, and what it returns is the buffer of the block, locked, or null.
use unix_sys_prog.Base.{
  ℕ, zero, suc, ◌<◌, ◌≡◌, ◌⊎◌, refl, true, false, List, [], ◌∷◌, arith, ◌==◌, if◌then◌else◌, ◌∈◌,
  ◌∉◌, ok, Bool-cases, inl, inr, length, Run, ◌∙◌,
}
use unix_sys_prog.Ring.{Ptr, null, Links}
use unix_sys_prog.Buffer.Status.{test_bit, stat_locked, stat_valid, stat_dwr}
use unix_sys_prog.Buffer.Bits.{test-assign}
use unix_sys_prog.Buffer.Store.{Cache, IsBuffer, read_bit, is_dwr}
use unix_sys_prog.Buffer.Lists.{hash}
use unix_sys_prog.Buffer.Block.{getblk_loop, getblk_replace}
use unix_sys_prog.Buffer.Invariant.{IsCache}
use unix_sys_prog.Buffer.Search.{NoBuffer, search_hash_missing}
use unix_sys_prog.Buffer.Take.{
  lock_twice, lock_twice_bits, taken, take_oldest_lem, is_freelist_empty_lem,
}
use unix_sys_prog.Buffer.Replace.{move, replaced, getblk_replace_lem}

-- The replacement policy: the oldest free buffer that is not delayed for write, and what is left
-- of the free list behind it.
unfoldable pub first_clean : (Ptr → ℕ) → List Ptr → Ptr
first_clean st [] = null
first_clean st (p ∷ ps) = if test_bit (st p) stat_dwr then first_clean st ps else p

unfoldable pub after_clean : (Ptr → ℕ) → List Ptr → List Ptr
after_clean st [] = []
after_clean st (p ∷ ps) = if test_bit (st p) stat_dwr then after_clean st ps else ps

module _ (st st' : Ptr → ℕ) where
  abbrev SameDwr : List Ptr → Type 0
  SameDwr xs = (r : Ptr) → r ∈ xs → test_bit (st' r) stat_dwr ≡ test_bit (st r) stat_dwr

  first_clean_same : (xs : List Ptr) → SameDwr xs → first_clean st' xs ≡ first_clean st xs
  unfolding first_clean
  first_clean_same [] h = refl
  first_clean_same (x ∷ xs) h = ground (arith, h x, first_clean_same xs (λ r m. h r (ground arith)))

  after_clean_same : (xs : List Ptr) → SameDwr xs → after_clean st' xs ≡ after_clean st xs
  unfolding after_clean
  after_clean_same [] h = refl
  after_clean_same (x ∷ xs) h = ground (arith, h x, after_clean_same xs (λ r m. h r (ground arith)))

-- The outcome for a block that no buffer holds: `r` was chosen by the policy and, if there is one,
-- holds the block now, locked and not valid; no other buffer is given another block.
pub record Replaced (c : Cache) (b : ℕ) (free : List Ptr) (r : Ptr) (c' : Cache) (q' : ℕ → List Ptr)
    : Type 0 where
  pub chosen : r ≡ first_clean c.stat free
  pub inv : IsCache c' q' (after_clean c.stat free)
  pub rebound : (s : Ptr) → IsBuffer s → c'.blkno s ≡ (if s == r then b else c.blkno s)
  pub given :
      (r ≡ null)
      ⊎ ((r ∈ free)
          × (test_bit (c'.stat r) stat_locked ≡ true)
          × (test_bit (c'.stat r) stat_valid ≡ false))

pub after_clean_end :
    (st : Ptr → ℕ) (xs : List Ptr) → first_clean st xs ≡ null → null ∉ xs → after_clean st xs ≡ []
unfolding first_clean after_clean
after_clean_end st [] h n = refl
after_clean_end st (x ∷ xs) h n = ground (arith, after_clean_end st xs)

module _ (b : ℕ) where
  abbrev pub Outcome : Cache → List Ptr → Run Cache Ptr → Type 0
  Outcome c free run =
      (r : Ptr) × (c' : Cache) × (q' : ℕ → List Ptr) × (run ≡ ok r c') × Replaced c b free r c' q'

  -- A round that found its buffer clean.
  replaced-Outcome :
      (c : Cache) (q : ℕ → List Ptr) (p : Ptr) (free : List Ptr) (l : Links)
      → IsCache c q (p ∷ free)
      → IsCache (taken c p l) q free
      → NoBuffer c b
      → test_bit (c.stat p) stat_dwr ≡ false
      → Outcome c (p ∷ free) (getblk_replace b p (taken c p l))
  unfolding first_clean after_clean
  replaced-Outcome c q p free l w v none_holds clean =
      let i = w.free_range p (ground arith) in
      let (l', run, inv) = getblk_replace_lem (taken c p l) q free v b p i none_holds in
      (
        p,
        replaced (taken c p l) b p l',
        move q (hash (c.blkno p)) (hash b) p,
        run,
        record {
          chosen = ground arith;
          inv = rw clean inv;
          rebound = λ s j. refl;
          given = inr (
            ground arith,
            ground (
              arith,
              lock_twice_bits c.stat p stat_locked (w.byte p i) refl,
              test-assign stat_valid stat_locked (lock_twice c.stat p p) false refl refl
                  (v.byte p i),
            ),
            ground (
              arith,
              test-assign stat_valid stat_valid (lock_twice c.stat p p) false refl refl
                  (v.byte p i),
            ),
          );
        },
      )

  -- A round that found its buffer delayed for write, and what the later rounds made of the rest.
  delayed-Outcome :
      (c : Cache) (q : ℕ → List Ptr) (p : Ptr) (free : List Ptr) (l : Links)
      → IsCache c q (p ∷ free)
      → test_bit (c.stat p) stat_dwr ≡ true
      → (run : Run Cache Ptr) → Outcome (taken c p l) free run
      → Outcome c (p ∷ free) run
  unfolding first_clean after_clean
  delayed-Outcome c q p free l w dwr run (r, c', q', e, o) =
      let once : p ∉ free = w.free_ring.nodup.1.1.0 in
      let same : SameDwr c.stat (lock_twice c.stat p) free = λ s m. ground arith in
      (
        r,
        c',
        q',
        e,
        record {
          chosen = rw dwr (o.chosen ∙ first_clean_same c.stat (lock_twice c.stat p) free same);
          inv = rw dwr (rw (after_clean_same c.stat (lock_twice c.stat p) free same) at o.inv);
          rebound = o.rebound;
          given = elim o.given [ inl n ↦ inl n | inr (m, k, v) ↦ inr (ground arith, k, v) ];
        },
      )

  pub getblk_loop_miss :
      (fuel : ℕ) (c : Cache) (q : ℕ → List Ptr) (free : List Ptr)
      → IsCache c q free
      → NoBuffer c b
      → length free < fuel
      → Outcome c free (getblk_loop fuel b c)
  unfolding getblk_loop is_dwr read_bit
  getblk_loop_miss zero c q free w n f = absurd (omega arith)
  getblk_loop_miss (suc fuel) c q [] w n f = (
    null,
    c,
    q,
    simp (search_hash_missing c q w.index b n, is_freelist_empty_lem c q [] w),
    unfold first_clean after_clean in
        record { chosen = refl; inv = w; rebound = λ s i. ground arith; given = inl refl },
  )
  getblk_loop_miss (suc fuel) c q (p ∷ free) w n f =
      let (l, run, v) = take_oldest_lem c q p free w in
      let i = w.free_range p (ground arith) in
      let not_null : (p == null) ≡ false = ground arith in
      let bit = lock_twice_bits c.stat p stat_dwr (w.byte p i) refl in
      let start = search_hash_missing c q w.index b n in
      let full = is_freelist_empty_lem c q (p ∷ free) w in
      elim (Bool-cases (test_bit (c.stat p) stat_dwr)) [
        | inl dwr ↦
            simp (start, full, run, not_null, bit, dwr)
              (delayed-Outcome c q p free l w dwr _
                (getblk_loop_miss fuel (taken c p l) q free v n (omega arith)))
        | inr clean ↦
            simp (start, full, run, not_null, bit, clean)
              (replaced-Outcome c q p free l w v n clean)
      ]
