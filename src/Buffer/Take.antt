-- ===== src/Buffer/Take.antt =====
-- Taking a buffer off the free list, as both branches of `_getblk` do.
use unix_sys_prog.Base.{
  ℕ, ◌<◌, ◌≡◌, refl, true, false, List, [], ◌∷◌, arith, ◌==◌, if◌then◌else◌, has, ◌∈◌, ◌∉◌, erase,
  update, ok, erase_head,
}
use mathlib.Core.Path.{subst}
use unix_sys_prog.Ring.{Ptr, null, Links, IsRing, read_fp}
use unix_sys_prog.Buffer.Status.{masks, test_bit, assign_bit, stat_locked, stat_waited}
use unix_sys_prog.Buffer.Bits.{test-assign, assign_byte}
use unix_sys_prog.Buffer.Store.{Cache, freelist, IsBuffer, is_locked, set_locked, set_waited}
use unix_sys_prog.Buffer.Lists.{remove_from_freelist, get_oldest_buffer, is_freelist_empty}
use unix_sys_prog.Buffer.Relink.{unlink-IsRing}
use unix_sys_prog.Buffer.Block.{getblk_hit, take_oldest}
use unix_sys_prog.Buffer.Invariant.{IsCache, OnlyStat, IsCache-lock, IsCache-status}

-- The status after `set_locked(p, true)`, which `_getblk` and `remove_from_freelist` both do.
abbrev pub lock : (Ptr → ℕ) → Ptr → Ptr → ℕ
lock st p = update st p (assign_bit (st p) stat_locked true)

abbrev pub lock_twice : (Ptr → ℕ) → Ptr → Ptr → ℕ
lock_twice st p = lock (lock st p) p

pub lock_twice_bits :
    (st : Ptr → ℕ) (p m : ℕ)
    → st p < 256
    → m ∈ masks
    → test_bit (lock_twice st p p) m ≡ (if m == stat_locked then true else test_bit (st p) m)
lock_twice_bits st p m small known = ground (
  arith,
  test-assign stat_locked m (st p) true refl known small,
  assign_byte stat_locked (st p) true refl small,
  test-assign stat_locked m (assign_bit (st p) stat_locked true) true refl known,
)

pub lock_twice-OnlyStat :
    (c : Cache) (p : Ptr) → c.stat p < 256 → OnlyStat c p (lock_twice c.stat p)
lock_twice-OnlyStat c p small = record {
  others = λ r n. ground arith;
  small = ground (
    arith,
    assign_byte stat_locked (c.stat p) true refl small,
    assign_byte stat_locked (assign_bit (c.stat p) stat_locked true) true refl,
  );
}

-- `p` locked and taken off a free list whose links become `l`.
abbrev pub taken : Cache → Ptr → Links → Cache
taken c p l = record c { stat = lock_twice c.stat p; free = l }

module _ (c : Cache) (q : ℕ → List Ptr) (free : List Ptr) (w : IsCache c q free) where
  pub taken-IsCache :
      (p : Ptr) (l : Links)
      → p ∈ free
      → IsRing l freelist (erase p free)
      → IsCache (taken c p l) q (erase p free)
  taken-IsCache p l m ring =
      let small = w.byte p (w.free_range p m) in
      IsCache-lock c q free w p (lock_twice c.stat p) (lock_twice-OnlyStat c p small) l
        (lock_twice_bits c.stat p stat_locked small refl) ring

  -- Scenario 1: the block's buffer is free.
  pub getblk_hit_free :
      (p : Ptr)
      → p ∈ free
      → (l : Links) × (getblk_hit p c ≡ ok p (taken c p l)) × IsCache (taken c p l) q (erase p free)
  unfolding getblk_hit is_locked set_locked remove_from_freelist
  getblk_hit_free p m =
      let (l, run, ring, same) = unlink-IsRing c.free freelist free w.free_ring p m in
      let b = w.free_range p m in
      let not_null : (p == null) ≡ false = ground arith in
      let unlocked : test_bit (c.stat p) stat_locked ≡ false = ground (arith, w.free_iff p b) in
      (l, simp (not_null, unlocked, run), taken-IsCache p l m ring)

  -- Scenario 5: the block's buffer is locked, and is marked as waited for.
  pub getblk_hit_busy :
      (p : Ptr)
      → IsBuffer p
      → p ∉ free
      → let c' = record c { stat = update c.stat p (assign_bit (c.stat p) stat_waited true) } in
        (getblk_hit p c ≡ ok null c') × IsCache c' q free
  unfolding getblk_hit is_locked set_waited
  getblk_hit_busy p b out =
      let small = w.byte p b in
      let not_null : (p == null) ≡ false = ground arith in
      let locked : test_bit (c.stat p) stat_locked ≡ true = ground (arith, w.free_iff p b) in
      let changed : OnlyStat c p (update c.stat p (assign_bit (c.stat p) stat_waited true)) =
        record {
          others = λ r n. ground arith;
          small = ground (arith, assign_byte stat_waited (c.stat p) true refl small);
        } in
      (
        simp (not_null, locked),
        IsCache-status c q free w p _ changed
            (ground (arith, test-assign stat_waited stat_locked (c.stat p) true refl refl small)),
      )

-- The head of the free list, locked and taken off it.
pub take_oldest_lem :
    (c : Cache) (q : ℕ → List Ptr) (p : Ptr) (free : List Ptr)
    → IsCache c q (p ∷ free)
    → (l : Links) × (take_oldest c ≡ ok p (taken c p l)) × IsCache (taken c p l) q free
unfolding take_oldest read_fp get_oldest_buffer set_locked remove_from_freelist
take_oldest_lem c q p free w =
    let self : has p (p ∷ free) ≡ true = ground arith in
    let (l, run, ring, same) = unlink-IsRing c.free freelist (p ∷ free) w.free_ring p self in
    let not_null : (p == null) ≡ false = ground (arith, w.free_range p) in
    (
      l,
      simp (w.free_ring.link.0, not_null, run),
      subst (IsCache (taken c p l) q) (erase_head p free)
          (taken-IsCache c q (p ∷ free) w p l self ring),
    )

pub is_freelist_empty_lem :
    (c : Cache) (q : ℕ → List Ptr) (free : List Ptr)
    → IsCache c q free
    → is_freelist_empty c ≡ ok (elim free [ [] ↦ true | _ ∷ _ ↦ false ]) c
unfolding is_freelist_empty read_fp
is_freelist_empty_lem c q [] w = rw (w.free_ring.link.0)
is_freelist_empty_lem c q (p ∷ free) w =
    let not_head : (p == freelist) ≡ false = ground (arith, w.free_range p) in
    rw (w.free_ring.link.0, not_head)
