-- ===== src/Buffer/Init.antt =====
-- `init_buf` builds, from any contents of the memory, the queues and the free list of its tables.
use unix_sys_prog.Base.{
  ℕ, zero, suc, ◌<◌, ◌≡◌, refl, true, false, not, Bool, List, [], ◌∷◌, arith, ◌==◌, ◌&&◌, ◌||◌, has,
  ◌∈◌, ok, every, every_sound, Run, eq_of_==, Distinct, ◌/◌, ◌-◌, fault, out_of_fuel, ltb,
}
use unix_sys_prog.Ring.{Ptr, null, Links, IsRing, Link, read_fp, read_bp, write_fp, write_bp}
use unix_sys_prog.Buffer.Status.{test_bit, assign_bit, stat_locked}
use unix_sys_prog.Buffer.Store.{
  buffer, Cache, IsBuffer, freelist, hash_size, hash_head, write_blkno, read_blkno, set_stat,
  set_valid, set_locked, write_buf_number,
}
use unix_sys_prog.Buffer.Lists.{
  hash, init_buf, init_heads, empty_ring, init_buffers, init_free_list, add_buf_to_hashlist,
  insert_tail, insert_freelist_tail, search_hash, search_from,
}
use unix_sys_prog.Buffer.Invariant.{IsCache}

abbrev pub state_of : Run Cache (Unit {0}) → Cache → Cache
state_of (ok _ c) d = c
state_of fault d = d
state_of out_of_fuel d = d

-- `buffer[i]` is the header at address 6 + i.
abbrev pub init_queues : ℕ → List Ptr
init_queues zero = 6 ∷ 7 ∷ 8 ∷ []
init_queues (suc zero) = 9 ∷ 10 ∷ 11 ∷ []
init_queues (suc (suc zero)) = 12 ∷ 13 ∷ 14 ∷ []
init_queues (suc (suc (suc i))) = 15 ∷ 16 ∷ 17 ∷ []

abbrev pub init_free_buffers : List Ptr
init_free_buffers = 15 ∷ 10 ∷ 7 ∷ 6 ∷ 11 ∷ 14 ∷ []

buffers : List Ptr
buffers = 6 ∷ 7 ∷ 8 ∷ 9 ∷ 10 ∷ 11 ∷ 12 ∷ 13 ∷ 14 ∷ 15 ∷ 16 ∷ 17 ∷ []

mem_buffers : (p : Ptr) → IsBuffer p → p ∈ buffers
unfolding buffers
mem_buffers p i = ground arith

mem_queue : (i p : ℕ) → i < hash_size → p ∈ init_queues i → IsBuffer p
mem_queue zero p h m = ground arith
mem_queue (suc zero) p h m = ground arith
mem_queue (suc (suc zero)) p h m = ground arith
mem_queue (suc (suc (suc i))) p h m = ground arith

-- The state after `init_buf`, with everything that it runs unfolded.
unfoldable pub initialised : Cache → Cache
unfolding init_buf init_heads empty_ring init_buffers init_free_list add_buf_to_hashlist insert_tail
    insert_freelist_tail search_hash search_from hash read_fp read_bp write_fp write_bp write_blkno
    read_blkno set_stat set_valid set_locked write_buf_number test_bit assign_bit
initialised c = state_of (init_buf c) c

queue_of : (i p : ℕ) → i < hash_size → p ∈ init_queues i → (p - 6) / 3 ≡ i
queue_of zero p h m = ground arith
queue_of (suc zero) p h m = ground arith
queue_of (suc (suc zero)) p h m = ground arith
queue_of (suc (suc (suc zero))) p h m = ground arith
queue_of (suc (suc (suc (suc i)))) p h m = absurd (omega arith)

is_distinct : List ℕ → Bool
is_distinct [] = true
is_distinct (x ∷ xs) = not (has x xs) && is_distinct xs

Distinct-is_distinct : (xs : List ℕ) → is_distinct xs ≡ true → Distinct xs
unfolding is_distinct
Distinct-is_distinct [] h = tt
Distinct-is_distinct (x ∷ xs) h = (ground arith, Distinct-is_distinct xs (ground arith))

IsRing-is_distinct :
    (l : Links) (h : Ptr) (xs : List Ptr)
    → is_distinct (null ∷ h ∷ xs) ≡ true
    → Link l h xs h
    → IsRing l h xs
IsRing-is_distinct l h xs d k = record { nodup = Distinct-is_distinct (null ∷ h ∷ xs) d; link = k }

module _ (c : Cache) where
  init_runs : init_buf c ≡ ok tt (initialised c)
  unfolding initialised
  init_runs = refl

  init_rings : (i : ℕ) → i < hash_size → IsRing (initialised c).hash (hash_head i) (init_queues i)
  unfolding initialised is_distinct
  init_rings zero h =
      IsRing-is_distinct _ (hash_head 0) (init_queues 0) refl
        (refl, refl, (refl, refl, (refl, refl, (refl, refl))))
  init_rings (suc zero) h =
      IsRing-is_distinct _ (hash_head 1) (init_queues 1) refl
        (refl, refl, (refl, refl, (refl, refl, (refl, refl))))
  init_rings (suc (suc zero)) h =
      IsRing-is_distinct _ (hash_head 2) (init_queues 2) refl
        (refl, refl, (refl, refl, (refl, refl, (refl, refl))))
  init_rings (suc (suc (suc zero))) h =
      IsRing-is_distinct _ (hash_head 3) (init_queues 3) refl
        (refl, refl, (refl, refl, (refl, refl, (refl, refl))))
  init_rings (suc (suc (suc (suc i)))) h = absurd (omega arith)

  init_free-IsRing : IsRing (initialised c).free freelist init_free_buffers
  unfolding initialised is_distinct
  init_free-IsRing = IsRing-is_distinct _ freelist init_free_buffers refl (
    refl,
    refl,
    (refl, refl, (refl, refl, (refl, refl, (refl, refl, (refl, refl, (refl, refl)))))),
  )

  init_home : (i p : ℕ) → i < hash_size → p ∈ init_queues i → hash ((initialised c).blkno p) ≡ i
  unfolding initialised every
  init_home zero p h m =
      eq_of_== (hash ((initialised c).blkno p)) 0
        (every_sound (init_queues 0) (λ a. hash ((initialised c).blkno a) == 0) p refl m)
  init_home (suc zero) p h m =
      eq_of_== (hash ((initialised c).blkno p)) 1
        (every_sound (init_queues 1) (λ a. hash ((initialised c).blkno a) == 1) p refl m)
  init_home (suc (suc zero)) p h m =
      eq_of_== (hash ((initialised c).blkno p)) 2
        (every_sound (init_queues 2) (λ a. hash ((initialised c).blkno a) == 2) p refl m)
  init_home (suc (suc (suc zero))) p h m =
      eq_of_== (hash ((initialised c).blkno p)) 3
        (every_sound (init_queues 3) (λ a. hash ((initialised c).blkno a) == 3) p refl m)
  init_home (suc (suc (suc (suc i)))) p h m = absurd (omega arith)

  -- A Boolean check over the twelve buffers.
  check : (t : Ptr → Bool) → every buffers t ≡ true → (p : Ptr) → IsBuffer p → t p ≡ true
  check t all p i = every_sound buffers t p all (mem_buffers p i)

  init_placed : (p : Ptr) → IsBuffer p → p ∈ init_queues (hash ((initialised c).blkno p))
  unfolding initialised every buffers
  init_placed p i = check (λ a. has a (init_queues (hash ((initialised c).blkno a)))) refl p i

  init_unique :
      (p r : Ptr)
      → IsBuffer p
      → IsBuffer r
      → (initialised c).blkno p ≡ (initialised c).blkno r
      → p ≡ r
  unfolding initialised every buffers
  init_unique p r i j e =
      let row =
        check
          (λ a.
            every buffers
              (λ d. not ((initialised c).blkno a == (initialised c).blkno d) || (a == d)))
          refl p i in
      let cell =
        check (λ d. not ((initialised c).blkno p == (initialised c).blkno d) || (p == d)) row r j in
      pick ((initialised c).blkno p) ((initialised c).blkno r) e cell
    where
      pick : (a b : ℕ) → a ≡ b → (not (a == b) || (p == r)) ≡ true → p ≡ r
      pick a b e h = ground arith

  init_free_iff :
      (p : Ptr)
      → IsBuffer p
      → has p init_free_buffers ≡ not (test_bit ((initialised c).stat p) stat_locked)
  unfolding initialised every buffers
  init_free_iff p i = agree _ _ (
      check
        (λ a. same (has a init_free_buffers) (not (test_bit ((initialised c).stat a) stat_locked)))
        refl p i)
    where
      same : Bool → Bool → Bool
      same true b = b
      same false b = not b

      agree : (a b : Bool) → same a b ≡ true → a ≡ b
      agree a b h = ground arith

  init_byte : (p : Ptr) → IsBuffer p → (initialised c).stat p < 256
  unfolding initialised every buffers
  init_byte p i = lt_of_ltb _ _ (check (λ a. ltb ((initialised c).stat a) 256) refl p i)
    where
      lt_of_ltb : (a b : ℕ) → ltb a b ≡ true → a < b
      lt_of_ltb a b h = ground arith

  init_numbered : (p : Ptr) → IsBuffer p → buffer ((initialised c).buf_number p) ≡ p
  unfolding initialised every buffers
  init_numbered p i =
      eq_of_== _ p (check (λ a. buffer ((initialised c).buf_number a) == a) refl p i)

  pub initialised-IsCache : IsCache (initialised c) init_queues init_free_buffers
  initialised-IsCache = record {
    index = record {
      queues = record {
        ring = init_rings;
        range = mem_queue;
        apart = λ i j p hi hj m m'. omega (arith, queue_of i p hi m, queue_of j p hj m');
      };
      home = init_home;
      placed = init_placed;
      unique = init_unique;
    };
    free_ring = init_free-IsRing;
    free_range = λ p m. ground arith;
    free_iff = init_free_iff;
    byte = init_byte;
    numbered = init_numbered;
  }

  -- From any contents of the memory `init_buf` succeeds, and leaves the queues and the free list of
  -- its tables in a cache that satisfies the invariant.
  pub init_buf-IsCache :
      (c' : Cache) × (init_buf c ≡ ok tt c') × IsCache c' init_queues init_free_buffers
  init_buf-IsCache = (initialised c, init_runs, initialised-IsCache)
