-- ===== src/Dhcp/Server/Lease.antt =====
-- Who holds which address: every pool entry is in the pool or with one client, never both and never
-- with two.
use unix_sys_prog.Base.{
  ◌≡◌, refl, sym, ap, true, false, Bool, ◌||◌, List, [], ◌∷◌, ◌++◌, arith, ◌==◌, if◌then◌else◌, has,
  ◌∈◌, ◌∉◌, erase, update, Distinct, Bool-cases, inl, inr, has-append, has-erase_ne,
  not-mem-erase_self, mem-erase, eq_of_==, update_self, update_other,
}
use mathlib.Core.Path.{subst}
use unix_sys_prog.Ring.{Ptr, null, Links, IsRing}
use unix_sys_prog.Dhcp.Server.Store.{Server, client_h, addr_pool_h}

-- The addresses of the clients of a list.
abbrev pub leases : (Ptr → Ptr) → List Ptr → List Ptr
leases addr [] = []
leases addr (p ∷ ps) = addr p ∷ leases addr ps

-- The clients `cs` and the free addresses `ps` are lists in memory; the records that are allocated
-- are those of the clients; an address that is leased is not free; no two clients have the same;
-- and the addresses are `all`, leased or free.
pub record IsLeased (clients pool : Links) (allocated : Ptr → Bool) (addr : Ptr → Ptr)
    (all cs ps : List Ptr) : Type 0 where
  pub client_ring : IsRing clients client_h cs
  pub pool_ring : IsRing pool addr_pool_h ps
  pub live : (p : Ptr) → allocated p ≡ has p cs
  pub leased : (p : Ptr) → p ∈ cs → addr p ∉ null ∷ addr_pool_h ∷ ps
  pub alone : (p r : Ptr) → p ∈ cs → r ∈ cs → addr p ≡ addr r → p ≡ r
  pub owned : (a : Ptr) → has a all ≡ (has a ps || has a (leases addr cs))

abbrev pub IsServer : Server → List Ptr → List Ptr → List Ptr → Type 0
IsServer s all cs ps = IsLeased s.clients s.pool s.allocated s.addr all cs ps

mem-leases : (addr : Ptr → Ptr) (p : Ptr) (cs : List Ptr) → p ∈ cs → addr p ∈ leases addr cs
mem-leases addr p [] m = cc
mem-leases addr p (x ∷ xs) m = elim (Bool-cases (p == x)) [
  | inl e ↦ ground (arith, ap addr (eq_of_== p x e))
  | inr n ↦ ground (arith, mem-leases addr p xs)
]

pub not-mem-leases :
    (addr : Ptr → Ptr) (p : Ptr) (cs : List Ptr)
    → p ∉ cs
    → ((r : Ptr) → r ∈ cs → addr r ≡ addr p → r ≡ p)
    → addr p ∉ leases addr cs
not-mem-leases addr p [] o u = refl
not-mem-leases addr p (x ∷ xs) o u =
    ground (arith, u x, not-mem-leases addr p xs (ground arith) (λ r m. u r (ground arith)))

-- Without the client `p` its address is not leased, and the others are.
pub has-leases-erase :
    (addr : Ptr → Ptr) (p a : Ptr) (cs : List Ptr)
    → Distinct cs
    → ((r : Ptr) → r ∈ cs → addr r ≡ addr p → r ≡ p)
    → p ∈ cs
    → has a (leases addr (erase p cs)) ≡ (if a == addr p then false else has a (leases addr cs))
has-leases-erase addr p a [] d u m = cc
has-leases-erase addr p a (x ∷ xs) d u m = elim (Bool-cases (p == x)) [
  | inl e ↦
      let same : p ≡ x = eq_of_== p x e in
      let none_left = not-mem-leases addr p xs (rw same d.0) (λ r i. u r (ground arith)) in
      rw e (ground (arith, ap addr same, none_left))
  | inr n ↦
      let rest = has-leases-erase addr p a xs d.1 (λ r i. u r (ground arith)) (ground arith) in
      rw n (ground (arith, rest, u x))
]

-- A client that is not in the list has no part in its leases.
pub leases-update :
    (addr : Ptr → Ptr) (new entry : Ptr) (cs : List Ptr)
    → new ∉ cs
    → leases (update addr new entry) cs ≡ leases addr cs
leases-update addr new entry [] o = refl
leases-update addr new entry (x ∷ xs) o = ground (arith, leases-update addr new entry xs)

module _ (clients pool : Links) (allocated : Ptr → Bool) (addr : Ptr → Ptr) (all cs ps : List Ptr)
    (w : IsLeased clients pool allocated addr all cs ps) where
  -- The client `p` leaves, and its address goes to the end of the pool.
  pub IsLeased-release :
      (p : Ptr) (l1 l2 : Links)
      → p ∈ cs
      → IsRing l1 client_h (erase p cs)
      → IsRing l2 addr_pool_h (ps ++ addr p ∷ [])
      → IsLeased l1 l2 (update allocated p false) addr all (erase p cs) (ps ++ addr p ∷ [])
  IsLeased-release p l1 l2 m ring1 ring2 =
      let distinct = w.client_ring.nodup.1.1 in
      record {
        client_ring = ring1;
        pool_ring = ring2;
        live = λ r. ground (arith, w.live r, has-erase_ne r p cs, not-mem-erase_self p cs distinct);
        leased = λ r i. ground (
          arith,
          w.leased r (mem-erase r p cs i),
          has-append (addr r) ps (addr p ∷ []),
          w.alone r p (mem-erase r p cs i) m,
          not-mem-erase_self p cs distinct,
        );
        alone = λ r s i j. w.alone r s (mem-erase r p cs i) (mem-erase s p cs j);
        owned = λ a. ground (
          arith,
          w.owned a,
          has-append a ps (addr p ∷ []),
          has-leases-erase addr p a cs distinct (λ r i e. w.alone r p i m e) m,
          mem-leases addr p cs m,
        );
      }

module _ (clients pool : Links) (allocated : Ptr → Bool) (addr : Ptr → Ptr) (all cs : List Ptr)
    (x : Ptr) (rest : List Ptr) (w : IsLeased clients pool allocated addr all cs (x ∷ rest))
    (new : Ptr) (out : new ∉ cs) where
  leased_after : (r : Ptr) → r ∈ new ∷ cs → update addr new x r ∉ null ∷ addr_pool_h ∷ rest
  leased_after r i = elim (Bool-cases (r == new)) [
    | inl e ↦
        let got : update addr new x r ≡ x = rw e in
        let off : x ∉ null ∷ addr_pool_h ∷ rest = ground (arith, w.pool_ring.nodup) in
        subst (λ a. a ∉ null ∷ addr_pool_h ∷ rest) (sym got) off
    | inr n ↦
        let kept : update addr new x r ≡ addr r = update_other addr new x r n in
        let off : addr r ∉ null ∷ addr_pool_h ∷ rest = ground (arith, w.leased r) in
        subst (λ a. a ∉ null ∷ addr_pool_h ∷ rest) (sym kept) off
  ]

  alone_after :
      (r s : Ptr) → r ∈ new ∷ cs → s ∈ new ∷ cs → update addr new x r ≡ update addr new x s → r ≡ s
  alone_after r s i j e = elim (Bool-cases (r == new)) [
    | inl a ↦ elim (Bool-cases (s == new)) [
      | inl b ↦ ground arith
      | inr b ↦ absurd (ground (arith, w.leased s))
    ]
    | inr a ↦ elim (Bool-cases (s == new)) [
      | inl b ↦ absurd (ground (arith, w.leased r))
      | inr b ↦ w.alone r s (ground arith) (ground arith) (ground arith)
    ]
  ]

  -- The first free address goes to a new client at the head of the list.
  pub IsLeased-create :
      (l1 l2 : Links)
      → IsRing l1 client_h (new ∷ cs)
      → IsRing l2 addr_pool_h rest
      → IsLeased l1 l2 (update allocated new true) (update addr new x) all (new ∷ cs) rest
  IsLeased-create l1 l2 ring1 ring2 = record {
    client_ring = ring1;
    pool_ring = ring2;
    live = λ r. ground (arith, w.live r);
    leased = leased_after;
    alone = alone_after;
    owned = λ a.
        rw (update_self addr new x)
          (rw (leases-update addr new x cs out) (ground (arith, w.owned a)));
  }
