-- ===== src/Ring/Remove.antt =====
-- A node taken out of a ring: its neighbours are led to one another.
use unix_sys_prog.Base.{
  ◌≡◌, true, false, List, [], ◌∷◌, arith, ◌==◌, Bool-cases, inl, inr, if◌then◌else◌, ◌∈◌, ◌∉◌,
  Distinct, erase, Distinct-erase, not-mem-erase,
}
use unix_sys_prog.Ring.{Ptr, null, Links, Link, IsRing}
use unix_sys_prog.Ring.Frame.{Link-frame, mem-bp, mem-fp}
use unix_sys_prog.Ring.Insert.{SameOff}

module _ (l l' : Links) (x : Ptr)
    (f : (a : Ptr) → (a == x) ≡ false → l'.fp a ≡ (if a == l.bp x then l.fp x else l.fp a))
    (b : (a : Ptr) → (a == x) ≡ false → l'.bp a ≡ (if a == l.fp x then l.bp x else l.bp a)) where
  Link-erase :
      (p : Ptr) (xs : List Ptr) (e : Ptr)
      → Link l p xs e
      → Distinct (p ∷ xs)
      → e ∉ xs
      → x ∈ xs
      → Link l' p (erase x xs) e
  Link-erase p [] e k d o m = cc
  Link-erase p (y ∷ ys) e k d o m = elim (Bool-cases (x == y)) [
    | inl same ↦ rw same (at_node ys k d o same)
    | inr other ↦
        let m' : x ∈ ys = ground arith in
        rw other (
          ground (arith, f p, mem-bp l y ys e x k.2 m'),
          ground (arith, b y, mem-fp l y ys e x k.2 m'),
          Link-erase y ys e k.2 d.1 (ground arith) m',
        )
  ]
    where
      at_node :
          (zs : List Ptr)
          → Link l p (y ∷ zs) e
          → Distinct (p ∷ y ∷ zs)
          → e ∉ y ∷ zs
          → (x == y) ≡ true
          → Link l' p zs e
      at_node [] j c n same = (ground (arith, f p), ground (arith, b e))
      at_node (z ∷ zs) j c n same = (
        ground (arith, f p),
        ground (arith, b z),
        Link-frame l l' z zs e j.2.2 (λ a i. ground (arith, f a)) (λ a i. ground (arith, b a)),
      )

  pub IsRing-erase : (h : Ptr) (xs : List Ptr) → IsRing l h xs → x ∈ xs → IsRing l' h (erase x xs)
  IsRing-erase h xs r m =
      let (not_null, (not_mem, distinct)) = r.nodup in
      record {
        nodup = (
          ground (arith, not-mem-erase null x xs),
          (not-mem-erase h x xs not_mem, Distinct-erase x xs distinct),
        );
        link = Link-erase h xs h r.link (not_mem, distinct) not_mem m;
      }

  pub SameOff-erase : (h : Ptr) (xs : List Ptr) → IsRing l h xs → x ∈ xs → SameOff (h ∷ xs) l l'
  SameOff-erase h xs r m a out =
      let (not_null, (not_mem, distinct)) = r.nodup in
      (
        ground (arith, f a, mem-bp l h xs h x r.link m),
        ground (arith, b a, mem-fp l h xs h x r.link m),
      )
