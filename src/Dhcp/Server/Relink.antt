-- ===== src/Dhcp/Server/Relink.antt =====
-- What the list functions of mydhcpserver.c do to a ring.
use unix_sys_prog.Base.{
  ℕ, zero, suc, ◌+◌, ◌<◌, ◌≡◌, refl, true, List, [], ◌∷◌, ◌++◌, arith, has, ◌∈◌, ◌∉◌, erase, update,
  ok, length,
}
use unix_sys_prog.Ring.{Ptr, null, Links, Link, IsRing, read_fp, read_bp, write_fp, write_bp}
use unix_sys_prog.Ring.Frame.{mem-bp_end, mem-fp_start, mem-bp, mem-fp}
use unix_sys_prog.Ring.Insert.{IsRing-insert_tail, IsRing-insert_head}
use unix_sys_prog.Ring.Remove.{IsRing-erase}
use unix_sys_prog.Dhcp.Server.Store.{addr_pool_h, client_h}
use unix_sys_prog.Dhcp.Server.Lists.{
  insert_addr_pool, fetch_addr_pool, insert_client, unlink_client, count_pool, is_addr_pool_empty,
}

module _ (l : Links) (xs : List Ptr) where
  -- An address goes back to the end of the pool.
  pub insert_addr_pool-IsRing :
      (new : Ptr)
      → IsRing l addr_pool_h xs
      → new ∉ null ∷ addr_pool_h ∷ xs
      → (l' : Links) × (insert_addr_pool new l ≡ ok tt l') × IsRing l' addr_pool_h (xs ++ new ∷ [])
  unfolding insert_addr_pool read_fp read_bp write_fp write_bp
  insert_addr_pool-IsRing new r out =
      let last = mem-bp_end l addr_pool_h xs addr_pool_h r.link in
      let d = r.nodup in
      let l' : Links = record {
        fp = update (update l.fp (l.bp addr_pool_h) new) new addr_pool_h;
        bp = update (update l.bp new (l.bp addr_pool_h)) addr_pool_h new;
      } in
      (
        l',
        ground arith,
        IsRing-insert_tail l addr_pool_h xs new r out l' (λ a. ground arith) (λ a. refl),
      )

  -- A new client stands at the head of the list.
  pub insert_client-IsRing :
      (new : Ptr)
      → IsRing l client_h xs
      → new ∉ null ∷ client_h ∷ xs
      → (l' : Links) × (insert_client new l ≡ ok tt l') × IsRing l' client_h (new ∷ xs)
  unfolding insert_client read_fp read_bp write_fp write_bp
  insert_client-IsRing new r out =
      let first = mem-fp_start l client_h xs client_h r.link in
      let d = r.nodup in
      let l' : Links = record {
        fp = update (update l.fp new (l.fp client_h)) client_h new;
        bp = update (update l.bp new client_h) (l.fp client_h) new;
      } in
      (l', ground arith, IsRing-insert_head l client_h xs new r out l' (λ a. refl) (λ a. refl))

  pub unlink_client-IsRing :
      (x : Ptr)
      → IsRing l client_h xs
      → x ∈ xs
      → (l' : Links) × (unlink_client x l ≡ ok tt l') × IsRing l' client_h (erase x xs)
  unfolding unlink_client read_fp read_bp write_fp write_bp
  unlink_client-IsRing x r m =
      let before = mem-bp l client_h xs client_h x r.link m in
      let after = mem-fp l client_h xs client_h x r.link m in
      let d = r.nodup in
      let l' : Links = record {
        fp = update l.fp (l.bp x) (l.fp x);
        bp = update l.bp (l.fp x) (l.bp x);
      } in
      (l', ground arith, IsRing-erase l l' x (λ a n. refl) (λ a n. refl) client_h xs r m)

-- The first address of the pool is taken out of it.
pub fetch_addr_pool-IsRing :
    (l : Links) (x : Ptr) (xs : List Ptr)
    → IsRing l addr_pool_h (x ∷ xs)
    → (l' : Links) × (fetch_addr_pool l ≡ ok x l') × IsRing l' addr_pool_h (erase x (x ∷ xs))
unfolding fetch_addr_pool read_fp read_bp write_fp write_bp
fetch_addr_pool-IsRing l x xs r =
    let self : has x (x ∷ xs) ≡ true = ground arith in
    let after = mem-fp l addr_pool_h (x ∷ xs) addr_pool_h x r.link self in
    let k = r.link in
    let d = r.nodup in
    let l' : Links = record {
      fp = update l.fp addr_pool_h (l.fp x);
      bp = update l.bp (l.fp x) addr_pool_h;
    } in
    (
      l',
      ground arith,
      IsRing-erase l l' x (λ a n. ground arith) (λ a n. ground arith) addr_pool_h (x ∷ xs) r self,
    )

count_pool-length :
    (fuel : ℕ) (l : Links) (p num : ℕ) (xs : List Ptr)
    → Link l p xs addr_pool_h
    → null ∉ xs
    → addr_pool_h ∉ xs
    → length xs < fuel
    → count_pool fuel (l.fp p) num l ≡ ok (num + length xs) l
unfolding count_pool read_fp
count_pool-length zero l p num xs k n o f = absurd (omega arith)
count_pool-length (suc fuel) l p num [] k n o f = ground arith
count_pool-length (suc fuel) l p num (x ∷ xs) k n o f =
    ground (arith, count_pool-length fuel l x (num + 1) xs k.2)

-- `is_addr_pool_empty` returns the number of the addresses that are left.
pub is_addr_pool_empty-length :
    (fuel : ℕ) (l : Links) (xs : List Ptr)
    → IsRing l addr_pool_h xs
    → length xs < fuel
    → is_addr_pool_empty fuel l ≡ ok (length xs) l
unfolding is_addr_pool_empty read_fp
is_addr_pool_empty-length fuel l xs r f =
    ground (arith, r.nodup, count_pool-length fuel l addr_pool_h 0 xs r.link)
