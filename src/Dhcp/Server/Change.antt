-- ===== src/Dhcp/Server/Change.antt =====
-- What a client's record goes through when its state changes, and when a message is sent to it.
use unix_sys_prog.Base.{
  update_other, ℕ, ◌≡◌, ◌≢◌, refl, true, false, ◌||◌, List, [], ◌∷◌, ◌++◌, arith, ◌==◌, ◌∈◌, erase,
  update, ok, length, ==_of_ne,
}
use unix_sys_prog.Ring.{Ptr, null}
use unix_sys_prog.Dhcp.Message.{message_timeout, code_ok}
use unix_sys_prog.Dhcp.Counter.{pos}
use unix_sys_prog.Dhcp.Server.Store.{
  Server, Sent, State, unset, term, client_h, write_stat, write_tout, read_ip, read_netmask,
}
use unix_sys_prog.Dhcp.Server.Lists.{remove_client, free, change_state}
use unix_sys_prog.Dhcp.Server.Machine.{send_dhcp, send_address}
use unix_sys_prog.Dhcp.Server.Relink.{insert_addr_pool-IsRing, unlink_client-IsRing}
use unix_sys_prog.Dhcp.Server.Lease.{IsServer, IsLeased-release}

-- The record is allocated and has an address.
abbrev pub Held : Server → Ptr → Type 0
Held s p = (s.allocated p ≡ true) × (s.addr p ≢ null)

pub record_open : (s : Server) (p : Ptr) → Held s p → ((p == client_h) || s.allocated p) ≡ true
record_open s p h = ground arith

abbrev pub moved : Server → Ptr → State → Server
moved s p st = record s { stat = update s.stat p st; tout = update s.tout p (pos message_timeout) }

abbrev pub address_message : Server → Ptr → ℕ → ℕ → Sent
address_message s p t ttl = record {
  to = s.id p;
  port = s.port p;
  msg = record {
    type = t;
    code = code_ok;
    ttl = ttl;
    ipaddr = s.ip (s.addr p);
    netmask = s.netmask (s.addr p);
  };
}

module _ (s : Server) (p : Ptr) (h : Held s p) where
  -- A change to any state but the last writes the state and starts the message clock again.
  pub change_state_stay : (st : State) → st ≢ term → change_state p st s ≡ ok tt (moved s p st)
  unfolding change_state write_stat write_tout read_ip
  change_state_stay term n = absurd (n refl)
  change_state_stay unset n = simp (record_open s p h, ==_of_ne (s.addr p) null h.1)
  change_state_stay _ n = simp (record_open s p h, ==_of_ne (s.addr p) null h.1)

  pub send_address_lem :
      (t ttl : ℕ)
      → send_address t ttl p s
        ≡ ok (s.send_ok (length s.sent)) (record s { sent = address_message s p t ttl ∷ s.sent })
  unfolding send_address send_dhcp read_ip read_netmask
  send_address_lem t ttl = simp (record_open s p h, ==_of_ne (s.addr p) null h.1)

-- The other records keep their state.
abbrev pub OthersKeep : Server → Ptr → Server → Type 0
OthersKeep s p s' = (r : Ptr) → (r == p) ≡ false → s'.stat r ≡ s.stat r

module _ (s : Server) (all cs ps : List Ptr) (w : IsServer s all cs ps) (p : Ptr) (m : p ∈ cs) where
  pub client-Held : Held s p
  client-Held = (ground (arith, w.live p), ground (arith, w.leased p m))

  -- `change_state` to the last state, for a client of the list: it leaves the list, its record is freed,
  -- its address goes to the end of the pool, the addresses are still partitioned between the pool
  -- and the clients, and no other record's state changes.
  pub change_state_term :
      (s' : Server) × (change_state p term s ≡ ok tt s')
      × IsServer s' all (erase p cs) (ps ++ s.addr p ∷ [])
      × OthersKeep s p s'
  unfolding change_state write_stat write_tout read_ip remove_client free
  change_state_term =
      let (l1, run1, ring1) = unlink_client-IsRing s.clients cs p w.client_ring m in
      let (l2, run2, ring2) =
        insert_addr_pool-IsRing s.pool ps (s.addr p) w.pool_ring (w.leased p m) in
      let s' = record (moved s p term) {
        clients = l1;
        pool = l2;
        allocated = update s.allocated p false;
      } in
      (
        s',
        simp (record_open s p client-Held, ==_of_ne (s.addr p) null client-Held.1, run1, run2)
            (rw (client-Held.0)),
        IsLeased-release s.clients s.pool s.allocated s.addr all cs ps w p l1 l2 m ring1 ring2,
        λ r n. update_other s.stat p term r n,
      )
