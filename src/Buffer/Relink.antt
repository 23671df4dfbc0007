-- ===== src/Buffer/Relink.antt =====
-- What the list functions of buffer/buffer.c do to a ring: they succeed, the ring holds what it
-- should, and every other node keeps its links.
use unix_sys_prog.Base.{◌≡◌, refl, List, [], ◌∷◌, ◌++◌, arith, ◌∈◌, ◌∉◌, erase, update, ok}
use unix_sys_prog.Ring.{Ptr, null, Links, IsRing, read_fp, read_bp, write_fp, write_bp}
use unix_sys_prog.Ring.Frame.{mem-bp_end, mem-fp_start, mem-bp, mem-fp}
use unix_sys_prog.Ring.Insert.{
  SameOff, IsRing-insert_tail, SameOff-insert_tail, IsRing-insert_head, SameOff-insert_head,
}
use unix_sys_prog.Ring.Remove.{IsRing-erase, SameOff-erase}
use unix_sys_prog.Buffer.Lists.{insert_head, insert_tail, unlink}

module _ (l : Links) (h : Ptr) (xs : List Ptr) (r : IsRing l h xs) where
  module _ (new : Ptr) (out : new ∉ null ∷ h ∷ xs) where
    pub insert_tail-IsRing :
        (l' : Links) × (insert_tail h new l ≡ ok tt l')
        × IsRing l' h (xs ++ new ∷ [])
        × SameOff (new ∷ h ∷ xs) l l'
    unfolding insert_tail read_fp read_bp write_fp write_bp
    insert_tail-IsRing =
        let last = mem-bp_end l h xs h r.link in
        let d = r.nodup in
        let l' : Links = record {
          fp = update (update l.fp new h) (l.bp h) new;
          bp = update (update l.bp new (l.bp h)) h new;
        } in
        (
          l',
          ground arith,
          IsRing-insert_tail l h xs new r out l' (λ a. refl) (λ a. refl),
          SameOff-insert_tail l h xs new r out l' (λ a. refl) (λ a. refl),
        )

    pub insert_head-IsRing :
        (l' : Links) × (insert_head h new l ≡ ok tt l')
        × IsRing l' h (new ∷ xs)
        × SameOff (new ∷ h ∷ xs) l l'
    unfolding insert_head read_fp read_bp write_fp write_bp
    insert_head-IsRing =
        let first = mem-fp_start l h xs h r.link in
        let d = r.nodup in
        let l' : Links = record {
          fp = update (update l.fp new (l.fp h)) h new;
          bp = update (update l.bp new h) (l.fp h) new;
        } in
        (
          l',
          ground arith,
          IsRing-insert_head l h xs new r out l' (λ a. refl) (λ a. refl),
          SameOff-insert_head l h xs new r out l' (λ a. refl) (λ a. refl),
        )

  pub unlink-IsRing :
      (x : Ptr)
      → x ∈ xs
      → (l' : Links) × (unlink x l ≡ ok tt l') × IsRing l' h (erase x xs) × SameOff (h ∷ xs) l l'
  unfolding unlink read_fp read_bp write_fp write_bp
  unlink-IsRing x m =
      let before = mem-bp l h xs h x r.link m in
      let after = mem-fp l h xs h x r.link m in
      let d = r.nodup in
      let l' : Links = record {
        fp = update (update l.fp (l.bp x) (l.fp x)) x null;
        bp = update (update l.bp (l.fp x) (l.bp x)) x null;
      } in
      (
        l',
        ground arith,
        IsRing-erase l l' x (λ a n. ground arith) (λ a n. ground arith) h xs r m,
        SameOff-erase l l' x (λ a n. ground arith) (λ a n. ground arith) h xs r m,
      )
