-- ===== src/Buffer/Replace.antt =====
-- Scenario 2 of `_getblk`: a clean buffer moves to the queue of another block.
use unix_sys_prog.Base.{
  ℕ, ◌<◌, ◌≡◌, ◌≢◌, refl, false, List, [], ◌∷◌, ◌++◌, arith, ◌==◌, if◌then◌else◌, has, erase,
  update, ok, has-append, not-mem-erase_self, has-erase_ne,
}
use unix_sys_prog.Ring.{Ptr, null, Links}
use unix_sys_prog.Buffer.Status.{assign_bit, stat_locked, stat_valid}
use unix_sys_prog.Buffer.Bits.{test-assign, assign_byte}
use unix_sys_prog.Buffer.Store.{Cache, hash_size, hash_head, IsBuffer, set_valid, write_blkno}
use unix_sys_prog.Buffer.Lists.{hash, unlink, insert_tail, add_buf_to_hashlist, remove_from_hash}
use unix_sys_prog.Buffer.Block.{getblk_replace}
use unix_sys_prog.Buffer.Queues.{Queues, Queues-unlink, Queues-insert_tail}
use unix_sys_prog.Buffer.Invariant.{IsCache, hash-lt}

-- `p` taken out of queue `i`, and put at the end of queue `j`.
abbrev pub drop_from : (ℕ → List Ptr) → ℕ → Ptr → ℕ → List Ptr
drop_from q i p = update q i (erase p (q i))

abbrev pub move : (ℕ → List Ptr) → ℕ → ℕ → Ptr → ℕ → List Ptr
move q i j p = update (drop_from q i p) j (drop_from q i p j ++ p ∷ [])

abbrev pub replaced : Cache → ℕ → Ptr → Links → Cache
replaced c b p l = record c {
  hash = l;
  blkno = update c.blkno p b;
  stat = update c.stat p (assign_bit (c.stat p) stat_valid false);
}

module _ (c : Cache) (q : ℕ → List Ptr) (free : List Ptr) (w : IsCache c q free) (b : ℕ) (p : Ptr)
    (buf : IsBuffer p) where
  has-drop_from :
      (i r : ℕ)
      → i < hash_size
      → has r (drop_from q (hash (c.blkno p)) p i) ≡ (if r == p then false else has r (q i))
  has-drop_from i r lt =
      let ring = w.queues.ring (hash (c.blkno p)) (hash-lt (c.blkno p)) in
      ground (
        arith,
        not-mem-erase_self p (q (hash (c.blkno p))) ring.nodup.1.1,
        has-erase_ne r p (q (hash (c.blkno p))),
        w.home i p lt,
      )

  has-move :
      (i r : ℕ)
      → i < hash_size
      → has r (move q (hash (c.blkno p)) (hash b) p i)
        ≡ (if r == p then i == hash b else has r (q i))
  has-move i r lt = ground (
    arith,
    has-drop_from i r lt,
    has-append r (drop_from q (hash (c.blkno p)) p (hash b)) (p ∷ []),
  )

  replace_links :
      (l1 : Links) × (l2 : Links) × (unlink p c.hash ≡ ok tt l1)
      × (insert_tail (hash_head (hash b)) p l1 ≡ ok tt l2)
      × Queues l2 (move q (hash (c.blkno p)) (hash b) p)
  replace_links =
      let (l1, run1, w1) =
        Queues-unlink c.hash q w.queues (hash (c.blkno p)) p (hash-lt (c.blkno p))
          (w.placed p buf) in
      let (l2, run2, w2) =
        Queues-insert_tail l1 (drop_from q (hash (c.blkno p)) p) w1 (hash b) p (hash-lt b) buf
          (λ j lt. ground (arith, has-drop_from j p lt)) in
      (l1, l2, run1, run2, w2)

  pub getblk_replace_lem :
      ((r : Ptr) → IsBuffer r → c.blkno r ≢ b)
      → (l : Links) × (getblk_replace b p c ≡ ok p (replaced c b p l))
        × IsCache (replaced c b p l) (move q (hash (c.blkno p)) (hash b) p) free
  unfolding getblk_replace remove_from_hash add_buf_to_hashlist set_valid write_blkno
  getblk_replace_lem fresh =
      let (l1, l2, run1, run2, w2) = replace_links in
      let small = w.byte p buf in
      let not_null : (p == null) ≡ false = ground arith in
      (
        l2,
        simp (not_null, run1, run2),
        record {
          index = record {
            queues = w2;
            home = λ i r lt m. ground (arith, has-move i r lt, w.home i r lt);
            placed = λ r b'. ground (
              arith,
              has-move (hash (c.blkno r)) r (hash-lt (c.blkno r)),
              has-move (hash b) r (hash-lt b),
              w.placed r b',
            );
            unique = λ r s br bs. ground (arith, w.unique r s br bs, fresh r br, fresh s bs);
          };
          free_ring = w.free_ring;
          free_range = w.free_range;
          free_iff = λ r b'. ground (
            arith,
            w.free_iff r b',
            test-assign stat_valid stat_locked (c.stat p) false refl refl small,
          );
          numbered = w.numbered;
          byte = λ r b'.
              ground (arith, w.byte r b', assign_byte stat_valid (c.stat p) false refl small);
        },
      )
