-- ===== src/Ring/Insert.antt =====
-- A node put between the sentinel of a ring and its last or its first node.
use unix_sys_prog.Base.{
  ◌≡◌, List, [], ◌∷◌, ◌++◌, arith, ◌==◌, if◌then◌else◌, ◌∈◌, ◌∉◌, Distinct-snoc, has-append,
}
use unix_sys_prog.Ring.{Ptr, null, Links, Link, IsRing}
use unix_sys_prog.Ring.Frame.{Link-frame, Link-append, mem-bp_end, mem-fp_start, Link-to_new_end}

-- The nodes outside `ys` keep their two cells.
abbrev pub SameOff : List Ptr → Links → Links → Type 0
SameOff ys l l' = (a : Ptr) → a ∉ ys → (l'.fp a ≡ l.fp a) × (l'.bp a ≡ l.bp a)

-- A ring survives a change of nodes that are not on it.
pub IsRing-frame :
    (l l' : Links) (h : Ptr) (xs ys : List Ptr)
    → IsRing l h xs
    → SameOff ys l l'
    → ((a : Ptr) → a ∈ h ∷ xs → a ∉ ys)
    → IsRing l' h xs
IsRing-frame l l' h xs ys r same apart = record {
  nodup = r.nodup;
  link =
      Link-frame l l' h xs h r.link (λ a m. (same a (apart a m)).0) (λ a m. (same a (apart a m)).1);
}

module _ (l : Links) (h : Ptr) (xs : List Ptr) (new : Ptr) (r : IsRing l h xs)
    (out : new ∉ null ∷ h ∷ xs) where
  -- A ring whose last node is led to `new`, and `new` back to the sentinel.
  pub IsRing-insert_tail :
      (l' : Links)
      → ((a : Ptr) → l'.fp a ≡ (if a == l.bp h then new else if a == new then h else l.fp a))
      → ((a : Ptr) → l'.bp a ≡ (if a == h then new else if a == new then l.bp h else l.bp a))
      → IsRing l' h (xs ++ new ∷ [])
  IsRing-insert_tail l' f b =
      let last = mem-bp_end l h xs h r.link in
      let (not_null, (not_mem, distinct)) = r.nodup in
      record {
        nodup = (
          ground (arith, has-append null xs (new ∷ [])),
          (
            ground (arith, has-append h xs (new ∷ [])),
            Distinct-snoc new xs distinct (ground arith),
          ),
        );
        link =
            Link-append l' h xs new [] h
              (Link-to_new_end l l' h xs h new r.link (not_mem, distinct) (ground arith) not_mem
                (λ a m. ground (arith, f a)) (λ a m. ground (arith, b a)))
              (ground (arith, f new), ground (arith, b h));
      }

  pub SameOff-insert_tail :
      (l' : Links)
      → ((a : Ptr) → l'.fp a ≡ (if a == l.bp h then new else if a == new then h else l.fp a))
      → ((a : Ptr) → l'.bp a ≡ (if a == h then new else if a == new then l.bp h else l.bp a))
      → SameOff (new ∷ h ∷ xs) l l'
  SameOff-insert_tail l' f b a m =
      (ground (arith, f a, mem-bp_end l h xs h r.link), ground (arith, b a))

  -- A ring whose sentinel is led to `new`, and `new` on to the old first node.
  pub IsRing-insert_head :
      (l' : Links)
      → ((a : Ptr) → l'.fp a ≡ (if a == h then new else if a == new then l.fp h else l.fp a))
      → ((a : Ptr) → l'.bp a ≡ (if a == l.fp h then new else if a == new then h else l.bp a))
      → IsRing l' h (new ∷ xs)
  IsRing-insert_head l' f b =
      let (not_null, (not_mem, distinct)) = r.nodup in
      record {
        nodup = (ground arith, (ground arith, (ground arith, distinct)));
        link =
            (ground (arith, f h), ground (arith, b new, mem-fp_start l h xs h r.link), go xs r out);
      }
    where
      go : (ys : List Ptr) → IsRing l h ys → new ∉ null ∷ h ∷ ys → Link l' new ys h
      go [] s o = let k = s.link in (ground (arith, f new), ground (arith, b h))
      go (y ∷ ys) s o =
          let k = s.link in
          let d = s.nodup in
          (
            ground (arith, f new),
            ground (arith, b y),
            Link-frame l l' y ys h k.2 (λ a m. ground (arith, f a)) (λ a m. ground (arith, b a)),
          )

  pub SameOff-insert_head :
      (l' : Links)
      → ((a : Ptr) → l'.fp a ≡ (if a == h then new else if a == new then l.fp h else l.fp a))
      → ((a : Ptr) → l'.bp a ≡ (if a == l.fp h then new else if a == new then h else l.bp a))
      → SameOff (new ∷ h ∷ xs) l l'
  SameOff-insert_head l' f b a m =
      (ground (arith, f a), ground (arith, b a, mem-fp_start l h xs h r.link))
