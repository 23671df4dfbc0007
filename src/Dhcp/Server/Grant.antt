-- ===== src/Dhcp/Server/Grant.antt =====
-- What the server answers to a sender who gets an address: the offer, then the acknowledgement.
use unix_sys_prog.Base.{
  ℕ, ◌≡◌, refl, true, false, ◌∷◌, ◌==◌, update, ok, arith, ◌>>=◌, ==_of_ne, update_self, ltb,
}
use unix_sys_prog.Ring.{Ptr, null}
use unix_sys_prog.Dhcp.Counter.{pos}
use unix_sys_prog.Dhcp.Message.{
  Message, message, type_discover, type_offer, type_request, type_ack, code_req_alloc,
}
use unix_sys_prog.Dhcp.Server.Store.{
  Server, init, wait_req1, in_use, request_alloc_ok, write_ttl, write_ttlcounter, read_ip,
  read_netmask,
}
use unix_sys_prog.Dhcp.Server.Machine.{
  get_event, recv_discover, recv_request, check_request, fsm_func, dispatch, send_offer_ok,
  send_ack_ok,
}
use unix_sys_prog.Dhcp.Server.Loop.{run_event}
use unix_sys_prog.Dhcp.Server.Change.{
  Held, record_open, moved, change_state_stay, send_address_lem, address_message,
}

-- The server after a message with the address of `p` was sent to it, and the client's state set.
abbrev pub answered : Server → Ptr → ℕ → ℕ → Server
answered s p t ttl = record s { sent = address_message s p t ttl ∷ s.sent }

-- A request for the address of the client `p`, for as long as the server gives.
abbrev pub address_request : Server → Ptr → Message
address_request s p = record {
  type = type_request;
  code = code_req_alloc;
  ttl = s.ttl_max;
  ipaddr = s.ip (s.addr p);
  netmask = s.netmask (s.addr p);
}

module _ (s : Server) (p : Ptr) (h : Held s p) where
  -- A DISCOVER of a client that was just made.
  pub discover-answered :
      s.stat p ≡ init
      → (get_event (message type_discover 0) p >>= run_event) (record s { client_ptr = p })
        ≡ ok tt (moved (answered (record s { client_ptr = p }) p type_offer s.ttl_max) p wait_req1)
  unfolding get_event recv_discover run_event fsm_func dispatch send_offer_ok
  discover-answered now =
      let t : Server = record s { client_ptr = p } in
      rw (record_open s p h) (
        rw now (
          simp
            (
              send_address_lem t p h type_offer s.ttl_max,
              change_state_stay (answered t p type_offer s.ttl_max) p h wait_req1 (λ e. cc),
            )
            refl))

  -- A request of a client that has an offer.
  abbrev asked : Server
  asked = record s { client_ptr = p; ttlcounter = update s.ttlcounter p s.ttl_max }

  request-accepted :
      s.stat p ≡ wait_req1
      → get_event (address_request s p) p (record s { client_ptr = p }) ≡ ok request_alloc_ok asked
  unfolding get_event recv_request check_request write_ttlcounter read_ip read_netmask
  request-accepted now =
      let good : ltb s.ttl_max s.ttl_max ≡ false = ground arith in
      let ip : (s.ip (s.addr p) == s.ip (s.addr p)) ≡ true = ground arith in
      let mask : (s.netmask (s.addr p) == s.netmask (s.addr p)) ≡ true = ground arith in
      simp (record_open s p h, ==_of_ne (s.addr p) null h.1, good, ip, mask) refl

  pub request-answered :
      s.stat p ≡ wait_req1
      → (get_event (address_request s p) p >>= run_event) (record s { client_ptr = p })
        ≡ ok tt (
            moved
              (answered
                (record s {
                  client_ptr = p;
                  ttlcounter = update s.ttlcounter p s.ttl_max;
                  ttl = update s.ttl p (pos s.ttl_max);
                })
                p
                type_ack
                s.ttl_max)
              p
              in_use)
  unfolding run_event fsm_func dispatch send_ack_ok write_ttl
  request-answered now =
      let t : Server = record asked { ttl = update s.ttl p (pos s.ttl_max) } in
      let count : asked.ttlcounter p ≡ s.ttl_max = update_self s.ttlcounter p s.ttl_max in
      rw (request-accepted now) (
        rw (record_open s p h) (
          rw now (
            simp
              (
                record_open s p h,
                count,
                send_address_lem t p h type_ack s.ttl_max,
                change_state_stay (answered t p type_ack s.ttl_max) p h in_use (λ e. cc),
              )
              refl)))
