-- ===== src/Dhcp/Server/Admission.antt =====
-- How the server comes to a client: the search of the list, the making of a new one, and what
-- becomes of a message from somebody that it does not know.
use unix_sys_prog.Base.{
  ℕ, zero, suc, ◌<◌, ◌≡◌, ◌≢◌, ◌⊎◌, refl, true, false, Bool, ◌&&◌, List, [], ◌∷◌, arith, ◌==◌,
  if◌then◌else◌, ◌∈◌, ◌∉◌, erase_head, ok, fault, length, inl, inr, update, update_self,
  update_other, ◌∙◌, ap, put_back,
}
use mathlib.Core.Path.{subst}
use unix_sys_prog.Ring.{Ptr, null, Link, Links, IsRing, read_fp}
use unix_sys_prog.Dhcp.Message.{Message, type_request, code_req_alloc, code_req_ext}
use unix_sys_prog.Dhcp.Server.Store.{
  Server, State, init, client_h, addr_pool_h, on_clients, on_pool, write_ttlcounter, read_ip,
}
use unix_sys_prog.Dhcp.Server.Lists.{is_addr_pool_empty, create_client, new_record}
use unix_sys_prog.Dhcp.Server.Machine.{get_event, recv_request, check_request}
use unix_sys_prog.Dhcp.Server.Loop.{find_client, handle, Input}
use unix_sys_prog.Dhcp.Server.Relink.{
  is_addr_pool_empty-length, fetch_addr_pool-IsRing, insert_client-IsRing,
}
use unix_sys_prog.Dhcp.Server.Lease.{IsServer, IsLeased-create}
use unix_sys_prog.Dhcp.Server.Change.{Held, moved, change_state_stay, OthersKeep}

-- Client `p` is the one behind this address and port.
abbrev pub is_from : Server → ℕ → ℕ → Ptr → Bool
is_from s from from_port p = (s.id p == from) && (s.port p == from_port)

-- The first of the clients that the datagram can be from, or the sentinel.
unfoldable pub first_from : Server → ℕ → ℕ → List Ptr → Ptr
first_from s from from_port [] = client_h
first_from s from from_port (p ∷ ps) =
    if is_from s from from_port p then p else first_from s from from_port ps

module _ (s : Server) (from from_port : ℕ) where
  find_client_from :
      (fuel p : ℕ) (xs : List Ptr)
      → Link s.clients p xs client_h
      → null ∉ xs
      → client_h ∉ xs
      → ((r : Ptr) → r ∈ xs → s.allocated r ≡ true)
      → length xs < fuel
      → find_client fuel from from_port (s.clients.fp p) s ≡ ok (first_from s from from_port xs) s
  unfolding find_client first_from read_fp
  find_client_from zero p xs k n o v f = absurd (omega arith)
  find_client_from (suc fuel) p [] k n o v f = ground arith
  find_client_from (suc fuel) p (x ∷ xs) k n o v f = ground (
    arith,
    v x,
    find_client_from fuel x xs k.2 (ground arith) (ground arith) (λ r m. v r (ground arith)),
  )

  pub first_from_none :
      (xs : List Ptr)
      → ((p : Ptr) → p ∈ xs → is_from s from from_port p ≡ false)
      → first_from s from from_port xs ≡ client_h
  unfolding first_from
  first_from_none [] h = refl
  first_from_none (x ∷ xs) h =
      rw (h x (ground arith)) (first_from_none xs (λ p m. h p (ground arith)))

pub read_head : (s : Server) → on_clients (read_fp client_h) s ≡ ok (s.clients.fp client_h) s
unfolding read_fp
read_head s = refl

count_free :
    (s : Server) (fuel : ℕ) (ps : List Ptr)
    → IsRing s.pool addr_pool_h ps
    → length ps < fuel
    → on_pool (is_addr_pool_empty fuel) s ≡ ok (length ps) s
count_free s fuel ps r f =
    ap (put_back (λ l. record s { pool = l })) (is_addr_pool_empty-length fuel s.pool ps r f)

module _ (s : Server) (all cs ps : List Ptr) (w : IsServer s all cs ps) where
  -- The search ends, changes nothing, and gives the first client of the list with this address and
  -- port, or the sentinel.
  pub find_client-first_from :
      (fuel from from_port : ℕ)
      → length cs < fuel
      → find_client fuel from from_port (s.clients.fp client_h) s
        ≡ ok (first_from s from from_port cs) s
  find_client-first_from fuel from from_port f =
      let ring = w.client_ring in
      find_client_from s from from_port fuel client_h cs ring.link (ground (arith, ring.nodup))
        ring.nodup.1.0 (λ r m. ground (arith, w.live r)) f

  -- A request from somebody who is no client is handled with the sentinel for its client, and the
  -- server goes through the sentinel's null address.
  pub unknown_request_faults :
      (fuel : ℕ) (i : Input) (m : Message)
      → length cs < fuel
      → ((p : Ptr) → p ∈ cs → is_from s i.from i.from_port p ≡ false)
      → s.addr client_h ≡ null
      → m.type ≡ type_request
      → (m.code ≡ code_req_alloc) ⊎ (m.code ≡ code_req_ext)
      → handle fuel i m s ≡ fault
  unfolding handle get_event recv_request check_request write_ttlcounter read_ip
  unknown_request_faults fuel i m f stranger no_addr t c =
      let head = read_head s in
      let find = find_client-first_from fuel i.from i.from_port f in
      let missing = first_from_none s i.from i.from_port cs stranger in
      elim c [
        | inl alloc ↦ simp (head, find, missing, t, alloc, no_addr)
        | inr more ↦ simp (head, find, missing, t, more, no_addr)
      ]

  -- With an empty pool no client is made, and nothing changes.
  pub create_client_empty :
      (fuel new from from_port : ℕ)
      → ps ≡ []
      → 0 < fuel
      → create_client fuel new from from_port s ≡ ok null s
  unfolding create_client
  create_client_empty fuel new from from_port e f =
      let ring : IsRing s.pool addr_pool_h [] = rw e at w.pool_ring in
      simp (count_free s fuel [] ring f)

-- The server after a client was made: the record `new`, with the pool entry `x`.
abbrev pub created : Server → Links → Links → Ptr → ℕ → ℕ → Ptr → Server
created s clients pool new from from_port x =
    record (moved (new_record new from from_port x (record s { pool = pool })) new init) {
      clients = clients;
    }

pub create_client-created :
    (s : Server) (all cs : List Ptr) (x : Ptr) (rest : List Ptr)
    → IsServer s all cs (x ∷ rest)
    → (fuel new from from_port : ℕ) → length (x ∷ rest) < fuel
    → new ∉ null ∷ client_h ∷ cs
    → (l1 : Links) × (l2 : Links) × (create_client fuel new from from_port s
        ≡ ok new (created s l2 l1 new from from_port x))
      × IsServer (created s l2 l1 new from from_port x) all (new ∷ cs) rest
unfolding create_client
create_client-created s all cs x rest w fuel new from from_port f out =
    let count = count_free s fuel (x ∷ rest) w.pool_ring f in
    let some_left : (length (x ∷ rest) == 0) ≡ false = ground arith in
    let (l1, run1, ring1) = fetch_addr_pool-IsRing s.pool x rest w.pool_ring in
    let (l2, run2, ring2) = insert_client-IsRing s.clients cs new w.client_ring out in
    let made = new_record new from from_port x (record s { pool = l1 }) in
    let filled : x ≢ null = ground (arith, w.pool_ring.nodup) in
    let got : made.addr new ≡ x = update_self s.addr new x in
    let held : Held made new =
      (update_self s.allocated new true, λ e. filled (ground (arith, got, e))) in
    let stay = change_state_stay made new held init (λ e. cc) in
    (
      l1,
      l2,
      simp (count, some_left, run1, stay, run2),
      IsLeased-create s.clients s.pool s.allocated s.addr all cs x rest w new (ground arith) l2 l1
          ring2 (subst (λ ys. IsRing l1 addr_pool_h ys) (erase_head x rest) ring1),
    )

-- With a free address a client is made for the sender, with the first address of the pool, and put
-- at the head of the list; it is in the state `init`; every other lease stays, and no other record
-- changes its state.
pub create_client_lem :
    (s : Server) (all cs : List Ptr) (x : Ptr) (rest : List Ptr)
    → IsServer s all cs (x ∷ rest)
    → (fuel new from from_port : ℕ) → length (x ∷ rest) < fuel
    → new ∉ null ∷ client_h ∷ cs
    → (s' : Server) × (create_client fuel new from from_port s ≡ ok new s')
      × IsServer s' all (new ∷ cs) rest
      × (s'.stat new ≡ init)
      × (s'.addr new ≡ x)
      × (s'.id new ≡ from)
      × (s'.port new ≡ from_port)
      × OthersKeep s new s'
create_client_lem s all cs x rest w fuel new from from_port f out =
    let (l1, l2, run, inv) =
      create_client-created s all cs x rest w fuel new from from_port f out in
    (
      created s l2 l1 new from from_port x,
      run,
      inv,
      update_self (update s.stat new State.unset) new init,
      update_self s.addr new x,
      update_self s.id new from,
      update_self s.port new from_port,
      λ r n.
          update_other (update s.stat new State.unset) new init r n
          ∙ update_other s.stat new State.unset r n,
    )
