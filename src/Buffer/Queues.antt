-- ===== src/Buffer/Queues.antt =====
-- The hash queues as lists of buffers: they share no buffer, and taking a buffer out of one or
-- putting it at the end of one leaves the others as they are.
use unix_sys_prog.Base.{
  ℕ, ◌<◌, ◌≡◌, false, List, [], ◌∷◌, ◌++◌, arith, ◌==◌, has, ◌∈◌, ◌∉◌, erase, update, ok,
  Bool-cases, inl, inr, has-append, eq_of_==, mem-erase,
}
use unix_sys_prog.Ring.{Ptr, Links, IsRing}
use unix_sys_prog.Ring.Insert.{IsRing-frame}
use unix_sys_prog.Buffer.Store.{hash_size, hash_head, IsBuffer}
use unix_sys_prog.Buffer.Lists.{insert_tail, unlink}
use unix_sys_prog.Buffer.Relink.{insert_tail-IsRing, unlink-IsRing}

pub record Queues (l : Links) (q : ℕ → List Ptr) : Type 0 where
  pub ring : (i : ℕ) → i < hash_size → IsRing l (hash_head i) (q i)
  pub range : (i p : ℕ) → i < hash_size → p ∈ q i → IsBuffer p
  pub apart : (i j p : ℕ) → i < hash_size → j < hash_size → p ∈ q i → p ∈ q j → i ≡ j

module _ (l : Links) (q : ℕ → List Ptr) (w : Queues l q) (i p : ℕ) (small : i < hash_size) where
  -- The other queues lie off the nodes that a change of queue `i` touches.
  others :
      (j a : ℕ) → j < hash_size → (j == i) ≡ false → a ∈ hash_head j ∷ q j → a ∉ hash_head i ∷ q i
  others j a lt ne m = elim (Bool-cases (has a (hash_head i ∷ q i))) [
    | inr out ↦ out
    | inl on ↦ ground (arith, w.range i a small, w.range j a lt, w.apart i j a small lt)
  ]

  pub Queues-unlink :
      p ∈ q i → (l' : Links) × (unlink p l ≡ ok tt l') × Queues l' (update q i (erase p (q i)))
  Queues-unlink m =
      let (l', run, ring, same) = unlink-IsRing l (hash_head i) (q i) (w.ring i small) p m in
      (
        l',
        run,
        record {
          ring = λ j lt. elim (Bool-cases (j == i)) [
            | inl e ↦ rw e (rw (eq_of_== j i e) ring)
            | inr n ↦ rw n (
                IsRing-frame l l' (hash_head j) (q j) (hash_head i ∷ q i) (w.ring j lt) same
                  (λ a on. others j a lt n on))
          ];
          range =
              λ j a lt on. ground (arith, w.range j a lt, w.range i a small, mem-erase a p (q i));
          apart = λ j k a lt lt' on on'. ground (
            arith,
            w.apart j k a lt lt',
            w.apart i k a small lt',
            w.apart j i a lt small,
            mem-erase a p (q i),
          );
        },
      )

  pub Queues-insert_tail :
      IsBuffer p
      → ((j : ℕ) → j < hash_size → p ∉ q j)
      → (l' : Links) × (insert_tail (hash_head i) p l ≡ ok tt l')
        × Queues l' (update q i (q i ++ p ∷ []))
  Queues-insert_tail b out =
      let off = out i small in
      let (l', run, ring, same) =
        insert_tail-IsRing l (hash_head i) (q i) (w.ring i small) p (ground arith) in
      (
        l',
        run,
        record {
          ring = λ j lt. elim (Bool-cases (j == i)) [
            | inl e ↦ rw e (rw (eq_of_== j i e) ring)
            | inr n ↦ rw n (
                IsRing-frame l l' (hash_head j) (q j) (p ∷ hash_head i ∷ q i) (w.ring j lt) same
                  (λ a on. ground (arith, others j a lt n on, out j lt)))
          ];
          range = λ j a lt on.
              ground (arith, w.range j a lt, w.range i a small, has-append a (q i) (p ∷ []));
          apart = λ j k a lt lt' on on'. ground (
            arith,
            w.apart j k a lt lt',
            w.apart i k a small lt',
            w.apart j i a lt small,
            has-append a (q i) (p ∷ []),
            out j lt,
            out k lt',
          );
        },
      )
