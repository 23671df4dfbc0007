-- ===== src/Buffer/Invariant.antt =====
-- What holds of the cache between two commands, with the queues `q` and the free list `free` that
-- its links stand for; and how it survives a change of one buffer.
use unix_sys_prog.Base.{
  ℕ, ◌<◌, ◌≡◌, true, false, not, ◌||◌, List, arith, ◌==◌, has, ◌∈◌, erase, has-erase_ne,
  not-mem-erase_self, mem-erase,
}
use unix_sys_prog.Ring.{Ptr, Links, IsRing}
use unix_sys_prog.Buffer.Status.{test_bit, stat_locked}
use unix_sys_prog.Buffer.Store.{Cache, hash_size, freelist, buffer, IsBuffer}
use unix_sys_prog.Buffer.Lists.{hash}
use unix_sys_prog.Buffer.Queues.{Queues}

-- Every buffer stands in the queue of its block, and no two hold the same block.
pub record IsIndexed (l : Links) (blkno : Ptr → ℕ) (q : ℕ → List Ptr) : Type 0 where
  pub queues : Queues l q
  pub home : (i p : ℕ) → i < hash_size → p ∈ q i → hash (blkno p) ≡ i
  pub placed : (p : Ptr) → IsBuffer p → p ∈ q (hash (blkno p))
  pub unique : (p r : Ptr) → IsBuffer p → IsBuffer r → blkno p ≡ blkno r → p ≡ r

-- The free list holds the buffers that are not locked; every buffer has its index as its number.
pub record IsCache (c : Cache) (q : ℕ → List Ptr) (free : List Ptr) : Type 0 where
  pub index : IsIndexed c.hash c.blkno q
  pub open index use *
  pub free_ring : IsRing c.free freelist free
  pub free_range : (p : Ptr) → p ∈ free → IsBuffer p
  pub free_iff : (p : Ptr) → IsBuffer p → has p free ≡ not (test_bit (c.stat p) stat_locked)
  pub byte : (p : Ptr) → IsBuffer p → c.stat p < 256
  pub numbered : (p : Ptr) → IsBuffer p → buffer (c.buf_number p) ≡ p

pub hash-lt : (b : ℕ) → hash b < hash_size
unfolding hash
hash-lt b = omega arith

-- The status of every buffer but `p` is that of `c`, and that of `p` is a byte.
pub record OnlyStat (c : Cache) (p : Ptr) (st : Ptr → ℕ) : Type 0 where
  pub others : (r : Ptr) → (r == p) ≡ false → st r ≡ c.stat r
  pub small : st p < 256

module _ (c : Cache) (q : ℕ → List Ptr) (free : List Ptr) (w : IsCache c q free) (p : ℕ)
    (st : Ptr → ℕ) (o : OnlyStat c p st) where
  byte_after : (r : Ptr) → IsBuffer r → st r < 256
  byte_after r b = ground (arith, o.others r, o.small, w.byte r b)

  -- The status of `p` changes, and its lock does not.
  pub IsCache-status :
      test_bit (st p) stat_locked ≡ test_bit (c.stat p) stat_locked
      → IsCache (record c { stat = st }) q free
  IsCache-status same = record {
    index = w.index;
    free_ring = w.free_ring;
    free_range = w.free_range;
    free_iff = λ r b. ground (arith, w.free_iff r b, o.others r);
    byte = byte_after;
    numbered = w.numbered;
  }

  -- `p` leaves the free list and is locked.
  pub IsCache-lock :
      (l : Links)
      → test_bit (st p) stat_locked ≡ true
      → IsRing l freelist (erase p free)
      → IsCache (record c { stat = st; free = l }) q (erase p free)
  IsCache-lock l locked ring =
      let distinct = w.free_ring.nodup in
      record {
        index = w.index;
        free_ring = ring;
        free_range = λ r m. w.free_range r (mem-erase r p free m);
        free_iff = λ r b. ground (
          arith,
          w.free_iff r b,
          has-erase_ne r p free,
          not-mem-erase_self p free distinct.1.1,
          o.others r,
        );
        byte = byte_after;
        numbered = w.numbered;
      }

  -- `p` is unlocked and enters the free list, wherever.
  pub IsCache-unlock :
      (l : Links) (free' : List Ptr)
      → IsBuffer p
      → test_bit (st p) stat_locked ≡ false
      → IsRing l freelist free'
      → ((a : Ptr) → has a free' ≡ ((a == p) || has a free))
      → IsCache (record c { stat = st; free = l }) q free'
  IsCache-unlock l free' b unlocked ring members = record {
    index = w.index;
    free_ring = ring;
    free_range = λ r m. ground (arith, w.free_range r, members r);
    free_iff = λ r b'. ground (arith, w.free_iff r b', members r, o.others r);
    byte = byte_after;
    numbered = w.numbered;
  }
