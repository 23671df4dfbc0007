-- ===== src/Dhcp/Server/BadRelease.antt =====
-- A RELEASE with a wrong field, from the datagram to the null function in `pstab`.
use unix_sys_prog.Base.{
  ℕ, ◌<◌, ◌≡◌, ◌≢◌, inl, inr, refl, true, false, not, ◌||◌, List, ◌==◌, ◌∈◌, arith, length, fault,
  ok, ◌∙◌, ==_of_ne,
}
use unix_sys_prog.Ring.{Ptr, null}
use unix_sys_prog.Dhcp.Message.{Message, type_release, get_msg, arrived}
use unix_sys_prog.Dhcp.Server.Store.{Server, in_use, client_h, release_ng, read_ip}
use unix_sys_prog.Dhcp.Server.Machine.{get_event, recv_release, fsm_func, dispatch}
use unix_sys_prog.Dhcp.Server.Loop.{Input, handle, round, run_event}
use unix_sys_prog.Dhcp.Server.Lease.{IsServer}
use unix_sys_prog.Dhcp.Server.Change.{Held, record_open, client-Held}
use unix_sys_prog.Dhcp.Server.Admission.{is_from, first_from, find_client-first_from, read_head}
use unix_sys_prog.Dhcp.Server.Sender.{first_from-Whose}
use unix_sys_prog.Dhcp.Server.Tick.{after_tick, round-TicksThen}

-- Not all fields of the message are those of a release of the client's address.
abbrev pub IsWrong : Server → Ptr → Message → Type 0
IsWrong s p m = m.code ≡ 0 → m.ttl ≡ 0 → m.netmask ≡ 0 → m.ipaddr ≢ s.ip (s.addr p)

module _ (s : Server) (p : Ptr) (h : Held s p) where
  get_event-release_ng :
      (m : Message) → m.type ≡ type_release → IsWrong s p m → get_event m p s ≡ ok release_ng s
  unfolding get_event recv_release read_ip
  get_event-release_ng m t wrong =
      let refused : (not (m.code == 0)
            || not (m.ttl == 0)
            || not (m.netmask == 0)
            || not (m.ipaddr == s.ip (s.addr p)))
          ≡ true =
        ground (arith, wrong) in
      rw t (rw (record_open s p h) (rw (==_of_ne (s.addr p) null h.1) (rw refused refl)))

  run_event-release_ng :
      s.stat p ≡ in_use → run_event release_ng (record s { client_ptr = p }) ≡ fault
  unfolding run_event fsm_func dispatch
  run_event-release_ng e = simp (record_open s p h, e)

-- `p` is the only client of the list with the sender's address and port.
abbrev pub IsOnly : Server → List Ptr → Input → Ptr → Type 0
IsOnly s cs i p =
    (p ∈ cs)
    × (is_from s i.from i.from_port p ≡ true)
    × ((r : Ptr) → r ∈ cs → is_from s i.from i.from_port r ≡ true → r ≡ p)

first_from-only :
    (s : Server) (cs : List Ptr) (i : Input) (p : Ptr)
    → IsOnly s cs i p
    → first_from s i.from i.from_port cs ≡ p
first_from-only s cs i p (mem, mine, only) = elim (first_from-Whose s i.from i.from_port cs) [
  | inl (m, from) ↦ only _ m from
  | inr (none_here, nobody) ↦ absurd (ground (arith, mine, nobody p mem))
]

module _ (s : Server) (all cs ps : List Ptr) (w : IsServer s all cs ps) (i : Input) (p : Ptr)
    (sender : IsOnly s cs i p) where
  -- A RELEASE of the only client with its sender's address and port, while the client's address is in
  -- use, makes the server call a null function, if a field of it is wrong: its code, lease time or
  -- netmask is not zero, or it names another address. The fuel is above the number of clients.
  pub bad_release_faults :
      (fuel : ℕ) (m : Message)
      → length cs < fuel
      → get_msg i.datagram ≡ arrived m
      → m.type ≡ type_release
      → s.stat p ≡ in_use
      → IsWrong s p m
      → round fuel i s ≡ fault
  unfolding handle
  bad_release_faults fuel m few came t used wrong =
      let (tout, ttl, ticked, run) = round-TicksThen fuel i s all cs ps w few in
      let now : Server = after_tick s i tout ttl in
      let held : Held now p = client-Held now all cs ps w p sender.0 in
      let at : (p == client_h) ≡ false = ground (arith, w.client_ring.nodup, sender.0) in
      run
      ∙ rw came (
          rw (read_head now) (
            rw (find_client-first_from now all cs ps w fuel i.from i.from_port few) (
              rw (first_from-only now cs i p sender) (
                rw at (
                  rw (get_event-release_ng (record now { client_ptr = p }) p held m t wrong)
                    (run_event-release_ng now p held used))))))
