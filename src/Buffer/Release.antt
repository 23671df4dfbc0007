-- ===== src/Buffer/Release.antt =====
-- `_brelse`: a locked and valid buffer goes back to the free list, at the head if it is old and
-- else at the tail.
use unix_sys_prog.Base.{
  ℕ, ◌<◌, ◌≡◌, refl, true, false, not, List, [], ◌∷◌, ◌++◌, arith, ◌==◌, if◌then◌else◌, ◌∈◌, ◌∉◌,
  update, ok, Bool-cases, inl, inr, has-append,
}
use unix_sys_prog.Ring.{Ptr, null}
use unix_sys_prog.Buffer.Status.{
  masks, test_bit, assign_bit, stat_locked, stat_valid, stat_dwr, stat_krdwr, stat_waited, stat_old,
}
use unix_sys_prog.Buffer.Bits.{test-assign, assign_byte}
use unix_sys_prog.Buffer.Store.{
  Cache, IsBuffer, freelist, is_locked, is_valid, is_old, is_waited, set_locked, set_old,
  set_waited,
}
use unix_sys_prog.Buffer.Lists.{insert_freelist_tail, insert_freelist_head}
use unix_sys_prog.Buffer.Block.{put_back_free, brelse}
use unix_sys_prog.Buffer.Invariant.{IsCache, IsCache-unlock, IsCache-status}
use unix_sys_prog.Buffer.Search.{search_hash_found, search_hash_cases}
use unix_sys_prog.Buffer.Relink.{insert_tail-IsRing, insert_head-IsRing}

-- The free list after the buffer `p` with status `s` was released.
unfoldable pub released : ℕ → Ptr → List Ptr → List Ptr
released s p free =
    if test_bit s stat_valid
    then (if test_bit s stat_old then p ∷ free else free ++ p ∷ [])
    else free

-- The status of `p` with the bit `m` cleared.
abbrev pub clear : ℕ → (Ptr → ℕ) → Ptr → Ptr → ℕ
clear m st p = update st p (assign_bit (st p) m false)

clear_bits :
    (m n : ℕ) (st : Ptr → ℕ) (p : Ptr)
    → m ∈ masks
    → n ∈ masks
    → st p < 256
    → (test_bit (clear m st p p) n ≡ (if m == n then false else test_bit (st p) n))
      × (clear m st p p < 256)
clear_bits m n st p hm hn small = (
  ground (arith, test-assign m n (st p) false hm hn small),
  ground (arith, assign_byte m (st p) false hm small),
)

-- The status after each way back to the free list.
abbrev pub tail_stat : (Ptr → ℕ) → Ptr → Ptr → ℕ
tail_stat st p = clear stat_locked (clear stat_locked st p) p

abbrev pub head_stat : (Ptr → ℕ) → Ptr → Ptr → ℕ
head_stat st p = clear stat_locked (clear stat_old (clear stat_locked st p) p) p

module _ (st : Ptr → ℕ) (p m : ℕ) (known : m ∈ masks) (small : st p < 256) where
  tail_bits :
      (test_bit (tail_stat st p p) m ≡ (if m == stat_locked then false else test_bit (st p) m))
      × (tail_stat st p p < 256)
  tail_bits =
      let one = clear_bits stat_locked m st p refl known small in
      let two = clear_bits stat_locked m (clear stat_locked st p) p refl known one.1 in
      (ground (arith, one.0, two.0), two.1)

  head_bits :
      (test_bit (head_stat st p p) m
        ≡ (if m == stat_locked then false else if m == stat_old then false else test_bit (st p) m))
      × (head_stat st p p < 256)
  head_bits =
      let one = clear_bits stat_locked m st p refl known small in
      let two = clear_bits stat_old m (clear stat_locked st p) p refl known one.1 in
      let three =
        clear_bits stat_locked m (clear stat_old (clear stat_locked st p) p) p refl known two.1 in
      (ground (arith, one.0, two.0, three.0), three.1)

-- What releasing `p` leaves alone, and what becomes of its own bits.
pub record Put (c : Cache) (p : Ptr) (c' : Cache) : Type 0 where
  pub blocks : (r : Ptr) → c'.blkno r ≡ c.blkno r
  pub others : (r : Ptr) → (r == p) ≡ false → c'.stat r ≡ c.stat r
  pub unlocked :
      test_bit (c'.stat p) stat_locked
      ≡ (if test_bit (c.stat p) stat_valid then false else test_bit (c.stat p) stat_locked)
  pub same :
      (m : ℕ)
      → m ∈ stat_valid ∷ stat_dwr ∷ stat_krdwr ∷ stat_waited ∷ []
      → test_bit (c'.stat p) m ≡ test_bit (c.stat p) m

module _ (c : Cache) (q : ℕ → List Ptr) (free : List Ptr) (w : IsCache c q free) (p : Ptr)
    (i : IsBuffer p) (out : p ∉ free) where
  abbrev Released : Type 0
  Released =
      (c' : Cache) × (put_back_free p c ≡ ok tt c')
      × IsCache c' q (released (c.stat p) p free)
      × Put c p c'

  to_tail : test_bit (c.stat p) stat_valid ≡ true → test_bit (c.stat p) stat_old ≡ false → Released
  unfolding put_back_free is_valid is_old insert_freelist_tail set_locked released
  to_tail valid young =
      let off : p ∉ null ∷ freelist ∷ free = ground arith in
      let (l, run, ring, _) = insert_tail-IsRing c.free freelist free w.free_ring p off in
      let not_null : (p == null) ≡ false = ground arith in
      let bits = λ (m : ℕ) (hm : m ∈ masks). tail_bits c.stat p m hm (w.byte p i) in
      (
        record c { stat = tail_stat c.stat p; free = l },
        simp (not_null, valid, young, run),
        rw (valid, young)
            (IsCache-unlock c q free w p (tail_stat c.stat p)
              (record { others = λ r n. ground arith; small = (bits stat_locked refl).1 }) l
              (free ++ p ∷ []) i (bits stat_locked refl).0 ring
              (λ a. ground (arith, has-append a free (p ∷ [])))),
        record {
          blocks = λ r. refl;
          others = λ r n. ground arith;
          unlocked = rw valid (bits stat_locked refl).0;
          same = λ m hm. ground (arith, bits m);
        },
      )

  to_head : test_bit (c.stat p) stat_valid ≡ true → test_bit (c.stat p) stat_old ≡ true → Released
  unfolding put_back_free is_valid is_old insert_freelist_head set_locked set_old released
  to_head valid old =
      let off : p ∉ null ∷ freelist ∷ free = ground arith in
      let (l, run, ring, _) = insert_head-IsRing c.free freelist free w.free_ring p off in
      let not_null : (p == null) ≡ false = ground arith in
      let bits = λ (m : ℕ) (hm : m ∈ masks). head_bits c.stat p m hm (w.byte p i) in
      (
        record c { stat = head_stat c.stat p; free = l },
        simp (not_null, valid, old, run),
        rw (valid, old)
            (IsCache-unlock c q free w p (head_stat c.stat p)
              (record { others = λ r n. ground arith; small = (bits stat_locked refl).1 }) l
              (p ∷ free) i (bits stat_locked refl).0 ring (λ a. refl)),
        record {
          blocks = λ r. refl;
          others = λ r n. ground arith;
          unlocked = rw valid (bits stat_locked refl).0;
          same = λ m hm. ground (arith, bits m);
        },
      )

  put_back_free_lem : Released
  unfolding put_back_free is_valid is_old released
  put_back_free_lem =
      let not_null : (p == null) ≡ false = ground arith in
      elim (Bool-cases (test_bit (c.stat p) stat_valid)) [
        | inl valid ↦ elim (Bool-cases (test_bit (c.stat p) stat_old)) [
          | inl old ↦ to_head valid old
          | inr young ↦ to_tail valid young
        ]
        | inr invalid ↦ (
          c,
          simp (not_null, invalid),
          rw invalid w,
          record {
            blocks = λ r. refl;
            others = λ r n. refl;
            unlocked = rw invalid;
            same = λ m hm. refl;
          },
        )
      ]

-- What `_brelse` leaves alone, and what becomes of the bits of the buffer `p`.
pub record Freed (c : Cache) (p : Ptr) (c' : Cache) : Type 0 where
  pub blocks : (r : Ptr) → c'.blkno r ≡ c.blkno r
  pub others : (r : Ptr) → (r == p) ≡ false → c'.stat r ≡ c.stat r
  pub unlocked : test_bit (c'.stat p) stat_locked ≡ not (test_bit (c.stat p) stat_valid)
  pub not_waited : test_bit (c'.stat p) stat_waited ≡ false
  pub same :
      (m : ℕ)
      → m ∈ stat_valid ∷ stat_dwr ∷ stat_krdwr ∷ []
      → test_bit (c'.stat p) m ≡ test_bit (c.stat p) m

module _ (c : Cache) (q : ℕ → List Ptr) (free : List Ptr) (w : IsCache c q free) (b : ℕ) where
  -- `_brelse` of a block whose buffer is locked wakes its waiters; a valid buffer is unlocked and
  -- goes to the tail of the free list, or to the head if it is old; one that is not valid stays
  -- locked. Nothing else changes.
  pub brelse_held :
      (p : Ptr)
      → IsBuffer p
      → c.blkno p ≡ b
      → p ∉ free
      → (c' : Cache) × (brelse b c ≡ ok tt c')
        × IsCache c' q (released (c.stat p) p free)
        × Freed c p c'
  unfolding brelse is_locked is_waited set_waited released
  brelse_held p i e out =
      let not_null : (p == null) ≡ false = ground arith in
      let small = w.byte p i in
      let locked : test_bit (c.stat p) stat_locked ≡ true = ground (arith, w.free_iff p i) in
      let find = search_hash_found c q w.index b p i e in
      let bits = λ (m : ℕ) (hm : m ∈ masks). clear_bits stat_waited m c.stat p refl hm small in
      let awake : Cache = record c { stat = clear stat_waited c.stat p } in
      let awake_inv : IsCache awake q free =
        IsCache-status c q free w p (clear stat_waited c.stat p)
          (record { others = λ r n. ground arith; small = (bits stat_locked refl).1 })
          (bits stat_locked refl).0 in
      elim (Bool-cases (test_bit (c.stat p) stat_waited)) [
        | inl waited ↦
            let (c', run, inv, put) = put_back_free_lem awake q free awake_inv p i out in
            (
              c',
              simp (find, not_null, locked, waited) run,
              ground (arith, inv, bits stat_valid refl, bits stat_old refl),
              record {
                blocks = put.blocks;
                others = λ r n. ground (arith, put.others r);
                unlocked =
                    ground (arith, put.unlocked, bits stat_valid refl, bits stat_locked refl);
                not_waited = ground (arith, put.same stat_waited refl, bits stat_waited refl);
                same = λ m hm. ground (arith, put.same m, bits m);
              },
            )
        | inr calm ↦
            let (c', run, inv, put) = put_back_free_lem c q free w p i out in
            (
              c',
              simp (find, not_null, locked, calm) run,
              inv,
              record {
                blocks = put.blocks;
                others = put.others;
                unlocked = ground (arith, put.unlocked);
                not_waited = ground (arith, put.same stat_waited refl);
                same = λ m hm. put.same m (ground arith);
              },
            )
      ]

  -- `_brelse` of a block that no buffer holds, or whose buffer is not locked, changes nothing.
  pub brelse_idle : ((p : Ptr) → IsBuffer p → c.blkno p ≡ b → p ∈ free) → brelse b c ≡ ok tt c
  unfolding brelse is_locked
  brelse_idle idle =
      let (p, run, (found, missing)) = search_hash_cases c q w.index b in
      elim (Bool-cases (p == null)) [
        | inl e ↦ simp (run, e)
        | inr n ↦
            let (i, e) = found (ground arith) in
            let unlocked : test_bit (c.stat p) stat_locked ≡ false =
              ground (arith, w.free_iff p i, idle p i e) in
            simp (run, n, unlocked)
      ]
