-- ===== src/Buffer/Listing.antt =====
-- What the functions of Buffer.Show print of a cache.
use unix_sys_prog.Base.{
  ℕ, zero, suc, ◌<◌, ◌≡◌, refl, true, false, List, [], ◌∷◌, arith, ◌==◌, ltb, ◌∈◌, ◌∉◌, ok, length,
  length-le_range, ap, ◌∙◌, map,
}
use unix_sys_prog.Ring.{Ptr, null, Links, Link, read_fp}
use unix_sys_prog.Buffer.Status.{
  test_bit, stat_locked, stat_valid, stat_dwr, stat_krdwr, stat_waited, stat_old,
}
use unix_sys_prog.Buffer.Store.{
  Cache, C, hash_size, buf_size, freelist, hash_head, buffer, IsBuffer, on_hash, on_free,
  read_blkno, read_buf_number, is_locked, is_valid, is_dwr, is_krdwr, is_waited, is_old, read_bit,
}
use unix_sys_prog.Buffer.Invariant.{IsCache}
use unix_sys_prog.Buffer.Search.{queue_length}
use unix_sys_prog.Buffer.Show.{
  letter, buf_stat, Shown, show_buffer, show_from, show_fuel, show_hash, show_free,
}

-- The letters of a status byte.
abbrev pub letters : ℕ → List ℕ
letters st =
    letter (test_bit st stat_old) b'O'
    ∷ letter (test_bit st stat_waited) b'W'
    ∷ letter (test_bit st stat_krdwr) b'K'
    ∷ letter (test_bit st stat_dwr) b'D'
    ∷ letter (test_bit st stat_valid) b'V'
    ∷ letter (test_bit st stat_locked) b'L'
    ∷ []

-- The line of the buffer at `p`, which stands at `p - 6` in the array.
abbrev pub line_of : Cache → Ptr → Shown
line_of c p = record { number = c.buf_number p; block = c.blkno p; status = letters (c.stat p) }

show_buffer-line_of :
    (c : Cache) (n : ℕ) → n < buf_size → show_buffer n c ≡ ok (line_of c (buffer n)) c
unfolding show_buffer buf_stat read_blkno read_buf_number is_locked is_valid is_dwr is_krdwr
    is_waited is_old read_bit
show_buffer-line_of c n lt =
    let here : ltb n buf_size ≡ true = ground (arith, lt) in
    let there : (buffer n == null) ≡ false = ground arith in simp (here, there)

module _ (c : Cache) (q : ℕ → List Ptr) (free : List Ptr) (w : IsCache c q free) where
  -- A buffer is shown by the number that it holds.
  show_self : (p : Ptr) → IsBuffer p → show_buffer (c.buf_number p) c ≡ ok (line_of c p) c
  show_self p i =
      let at = w.numbered p i in
      show_buffer-line_of c (c.buf_number p) (omega (arith, at, i.1))
      ∙ ap (λ r. ok (line_of c r) c) at

  show_from-map :
      (next : Ptr → C Ptr) (l : Links)
      → ((r : Ptr) → (r == null) ≡ false → next r c ≡ ok (l.fp r) c)
      → (fuel : ℕ) (h p : Ptr) (xs : List Ptr) → Link l p xs h
      → null ∉ xs
      → h ∉ xs
      → ((r : Ptr) → r ∈ xs → IsBuffer r)
      → length xs < fuel
      → show_from next fuel h (l.fp p) c ≡ ok (map (line_of c) xs) c
  unfolding show_from read_buf_number
  show_from-map next l reads zero h p xs k n o range f = absurd (omega arith)
  show_from-map next l reads (suc fuel) h p [] k n o range f =
      let done : (l.fp p == h) ≡ true = ground (arith, k.0) in rw done refl
  show_from-map next l reads (suc fuel) h p (x ∷ xs) k n o range f =
      let on : (x == h) ≡ false = ground arith in
      let used : (x == null) ≡ false = ground arith in
      rw k.0 (
        rw on (
          rw used (
            rw (show_self x (range x (ground arith))) (
              rw (reads x used) (
                rw
                  (show_from-map next l reads fuel h x xs k.2 (ground arith) (ground arith)
                    (λ r m. range r (ground (arith, m))) (omega (arith, f)))
                  refl)))))

  show_hash-map : (i : ℕ) → i < hash_size → show_hash i c ≡ ok (map (line_of c) (q i)) c
  unfolding show_hash read_fp
  show_hash-map i lt =
      let r = w.queues.ring i lt in
      let here : ltb i hash_size ≡ true = ground (arith, lt) in
      let head : (hash_head i == null) ≡ false = ground arith in
      rw here (
        rw head (
          show_from-map (λ r. on_hash (read_fp r)) c.hash (λ r m. rw m refl) show_fuel (hash_head i)
            (hash_head i) (q i) r.link (ground (arith, r.nodup)) r.nodup.1.0
            (λ a m. w.queues.range i a lt m) (omega (arith, queue_length c q w.index i lt))))

  show_free-map : show_free c ≡ ok (map (line_of c) free) c
  unfolding show_free read_fp
  show_free-map =
      let r = w.free_ring in
      show_from-map (λ r. on_free (read_fp r)) c.free (λ r m. rw m refl) show_fuel freelist freelist
        free r.link (ground (arith, r.nodup)) r.nodup.1.0 w.free_range
        (omega (arith, length-le_range buf_size 6 free r.nodup.1.1 w.free_range))

  -- On a cache that satisfies the invariant the listings end, change nothing, and print the lists
  -- that the links stand for: show_free the buffers of the free list in order, show_hash those of a
  -- queue in order, and show_buffer the buffer of a number, each with its number, its block and the
  -- letters of its status; and the number of the buffer at index n is n.
  pub listings-map :
      (show_free c ≡ ok (map (line_of c) free) c)
      × ((i : ℕ) → i < hash_size → show_hash i c ≡ ok (map (line_of c) (q i)) c)
      × ((n : ℕ)
          → n < buf_size
          → (show_buffer n c ≡ ok (line_of c (buffer n)) c) × (c.buf_number (buffer n) ≡ n))
  listings-map = (
    show_free-map,
    show_hash-map,
    λ n lt. (
      show_buffer-line_of c n lt,
      omega (arith, w.numbered (buffer n) (omega arith, omega (arith, lt))),
    ),
  )
