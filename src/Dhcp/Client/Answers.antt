-- ===== src/Dhcp/Client/Answers.antt =====
-- The two rounds in which the client gets its address.
use unix_sys_prog.Base.{◌≡◌, refl, ◌∷◌, some, arith}
use unix_sys_prog.Dhcp.Counter.{pos}
use unix_sys_prog.Dhcp.Message.{
  Message, arrived, type_offer, type_request, type_ack, code_ok, code_req_alloc,
}
use unix_sys_prog.Dhcp.Client.Machine.{
  Client, wait_offer1, wait_ack1, in_use, get_event, recv_offer, recv_ack, fsm_func,
}
use unix_sys_prog.Dhcp.Client.Loop.{round, tick, choose}

-- The request of what an offer names.
abbrev pub request_for : Message → Message
request_for m = record {
  type = type_request;
  code = code_req_alloc;
  ttl = m.ttl;
  ipaddr = m.ipaddr;
  netmask = m.netmask;
}

after : Message → Client → Client
after m c = let e = choose (arrived m) (tick c) in fsm_func e.0 e.1

module _ (m : Message) (c : Client) where
  pub round-offered :
      m.type ≡ type_offer
      → m.code ≡ code_ok
      → c.stat ≡ wait_offer1
      → (d : Client) × (round (arrived m) c ≡ some d)
        × (d.stat ≡ wait_ack1)
        × (d.sent ≡ request_for m ∷ c.sent)
  unfolding round after choose tick get_event recv_offer fsm_func
  round-offered t k st = (after m c, refl, ground arith, ground arith)

  pub round-granted :
      m.type ≡ type_ack
      → m.code ≡ code_ok
      → c.stat ≡ wait_ack1
      → (d : Client) × (round (arrived m) c ≡ some d)
        × (d.stat ≡ in_use)
        × (d.addr ≡ m.ipaddr)
        × (d.netmask ≡ m.netmask)
        × (d.ttl ≡ pos m.ttl)
  unfolding round after choose tick get_event recv_ack fsm_func
  round-granted t k st = (after m c, refl, ground arith, ground arith, ground arith, ground arith)
