-- ===== src/Buffer/Search.antt =====
-- `search_hash` finds the buffer of a block, exactly when there is one, and changes nothing.
use unix_sys_prog.Base.{
  ℕ, zero, suc, ◌<◌, ◌≤◌, ◌≡◌, ◌≢◌, refl, false, List, [], ◌∷◌, arith, ◌==◌, if◌then◌else◌, ◌∈◌,
  ◌∉◌, ok, Bool-cases, inl, inr, eq_of_==, ◌⊎◌, length, length-le_range,
}
use unix_sys_prog.Ring.{Ptr, null, Link, read_fp}
use unix_sys_prog.Buffer.Store.{Cache, hash_size, buf_size, hash_head, IsBuffer, read_blkno}
use unix_sys_prog.Buffer.Lists.{hash, search_from, search_hash, search_fuel}
use unix_sys_prog.Buffer.Invariant.{IsIndexed, hash-lt}

-- The first buffer of a list that holds a block, or null.
unfoldable pub find_block : (Ptr → ℕ) → ℕ → List Ptr → Ptr
find_block blkno b [] = null
find_block blkno b (p ∷ ps) = if blkno p == b then p else find_block blkno b ps

search_from-find :
    (fuel : ℕ) (c : Cache) (b h p : ℕ) (xs : List Ptr)
    → Link c.hash p xs h
    → null ∉ xs
    → h ∉ xs
    → length xs < fuel
    → search_from fuel b h (c.hash.fp p) c ≡ ok (find_block c.blkno b xs) c
unfolding search_from find_block read_blkno read_fp
search_from-find zero c b h p xs k n o f = absurd (omega arith)
search_from-find (suc fuel) c b h p [] k n o f = ground arith
search_from-find (suc fuel) c b h p (x ∷ xs) k n o f =
    ground (arith, search_from-find fuel c b h x xs k.2)

pub find-mem :
    (blkno : Ptr → ℕ) (b : ℕ) (xs : List Ptr)
    → find_block blkno b xs ≢ null
    → (find_block blkno b xs ∈ xs) × (blkno (find_block blkno b xs) ≡ b)
unfolding find_block
find-mem blkno b [] h = absurd (h refl)
find-mem blkno b (x ∷ xs) h = ground (arith, find-mem blkno b xs)

pub find_null :
    (blkno : Ptr → ℕ) (b : ℕ) (xs : List Ptr) (p : Ptr)
    → find_block blkno b xs ≡ null
    → null ∉ xs
    → p ∈ xs
    → blkno p ≢ b
unfolding find_block
find_null blkno b [] p h n m = cc
find_null blkno b (x ∷ xs) p h n m = ground (arith, find_null blkno b xs p)

abbrev pub NoBuffer : Cache → ℕ → Type 0
NoBuffer c b = (r : Ptr) → IsBuffer r → c.blkno r ≢ b

head_not_null : (i : ℕ) → (hash_head i == null) ≡ false
head_not_null i = ground arith

module _ (c : Cache) (q : ℕ → List Ptr) (w : IsIndexed c.hash c.blkno q) where
  pub queue_length : (i : ℕ) → i < hash_size → length (q i) ≤ buf_size
  queue_length i lt =
      let d = (w.queues.ring i lt).nodup in
      length-le_range buf_size 6 (q i) d.1.1 (λ a m. w.queues.range i a lt m)

  pub search_hash-find : (b : ℕ) → search_hash b c ≡ ok (find_block c.blkno b (q (hash b))) c
  unfolding search_hash read_fp
  search_hash-find b =
      let r = w.queues.ring (hash b) (hash-lt b) in
      rw (head_not_null (hash b)) (
        search_from-find search_fuel c b (hash_head (hash b)) (hash_head (hash b)) (q (hash b))
          r.link (ground (arith, r.nodup)) (r.nodup.1.0)
          (omega (arith, queue_length (hash b) (hash-lt b))))

  pub search_hash_cases :
      (b : ℕ)
      → (p : Ptr) × (search_hash b c ≡ ok p c)
        × ((p ≢ null → IsBuffer p × (c.blkno p ≡ b)) × (p ≡ null → NoBuffer c b))
  search_hash_cases b =
      let p = find_block c.blkno b (q (hash b)) in
      let ring = w.queues.ring (hash b) (hash-lt b) in
      (
        p,
        search_hash-find b,
        (
          (λ n.
              let (m, e) = find-mem c.blkno b (q (hash b)) n in
              (w.queues.range (hash b) p (hash-lt b) m, e)),
          (λ n r i e.
              find_null c.blkno b (q (hash b)) r n (ground (arith, ring.nodup))
                (rw e at (w.placed r i)) e),
        ),
      )

  pub search_hash_missing : (b : ℕ) → NoBuffer c b → search_hash b c ≡ ok null c
  search_hash_missing b none_holds =
      let (p, run, (found, _)) = search_hash_cases b in
      elim (Bool-cases (p == null)) [
        | inl e ↦ ground (arith, run)
        | inr n ↦ let (i, e) = found (ground arith) in absurd (none_holds p i e)
      ]

  pub search_hash_found : (b p : ℕ) → IsBuffer p → c.blkno p ≡ b → search_hash b c ≡ ok p c
  search_hash_found b p i e =
      let (r, run, (found, missing)) = search_hash_cases b in
      elim (Bool-cases (r == null)) [
        | inl n ↦ absurd (missing (eq_of_== r null n) p i e)
        | inr n ↦
            let (j, e') = found (ground arith) in
            let same : r ≡ p = w.unique r p j i (ground arith) in ground (arith, run)
      ]

  -- `search_hash` changes nothing, and returns the buffer of the block, or null when no buffer
  -- holds the block.
  pub search_hash_lem :
      (b : ℕ)
      → (p : Ptr) × (search_hash b c ≡ ok p c)
        × ((IsBuffer p × (c.blkno p ≡ b)) ⊎ ((p ≡ null) × NoBuffer c b))
  search_hash_lem b =
      let (p, run, (found, missing)) = search_hash_cases b in
      elim (Bool-cases (p == null)) [
        | inl e ↦ let n : p ≡ null = eq_of_== p null e in (p, run, inr (n, missing n))
        | inr n ↦ (p, run, inl (found (ground arith)))
      ]
