-- ===== src/Ring.antt =====
-- Circular doubly linked lists with a sentinel node, as the buffer cache (buffer/buffer.c) and the
-- DHCP server (mydhcp/mydhcpserver.c) build them: forward and backward pointers as memory cells.
pub mod Frame
pub mod Insert
pub mod Remove
use unix_sys_prog.Base.{
  ℕ, ◌≡◌, List, [], ◌∷◌, ◌==◌, if◌then◌else◌, Distinct, update, Cmd, ok, fault,
}

abbrev pub Ptr : Type 0
Ptr = ℕ

abbrev pub null : Ptr
null = 0

-- The cells `fp` and `bp` of every node.
pub record Links : Type 0 where
  pub fp : Ptr → Ptr
  pub bp : Ptr → Ptr

-- `p->fp` and `p->bp`, read and written; an access through a null pointer is a fault.
unfoldable pub read_fp : Ptr → Cmd Links Ptr
read_fp p l = if p == null then fault else ok (l.fp p) l

unfoldable pub read_bp : Ptr → Cmd Links Ptr
read_bp p l = if p == null then fault else ok (l.bp p) l

unfoldable pub write_fp : Ptr → Ptr → Cmd Links (Unit {0})
write_fp p v l = if p == null then fault else ok tt (record l { fp = update l.fp p v })

unfoldable pub write_bp : Ptr → Ptr → Cmd Links (Unit {0})
write_bp p v l = if p == null then fault else ok tt (record l { bp = update l.bp p v })

-- From `p` the forward pointers lead through `xs` to `e`, and the backward pointers lead back.
abbrev pub Link : Links → Ptr → List Ptr → Ptr → Type 0
Link l p [] e = (l.fp p ≡ e) × (l.bp e ≡ p)
Link l p (x ∷ xs) e = (l.fp p ≡ x) × (l.bp x ≡ p) × Link l x xs e

-- The list of the sentinel `h` holds the distinct nodes `xs`, in order.
pub record IsRing (l : Links) (h : Ptr) (xs : List Ptr) : Type 0 where
  pub nodup : Distinct (null ∷ h ∷ xs)
  pub link : Link l h xs h
