-- ===== src/Dhcp/Server/Machine.antt =====
-- The functions that send, that make an event of a message, and the table `pstab` of
-- mydhcpserver.h.
use unix_sys_prog.Base.{
  ℕ, Bool, true, false, ◌||◌, not, ◌∷◌, ◌==◌, ltb, if◌then◌else◌, ok, crash, pure, get, ◌>>=◌, ◌>>◌,
  length,
}
use unix_sys_prog.Ring.{Ptr}
use unix_sys_prog.Dhcp.Message.{
  Message, message, type_discover, type_offer, type_request, type_ack, type_release, code_ok,
  code_err_noip, code_req_alloc, code_req_ext, code_err_req,
}
use unix_sys_prog.Dhcp.Counter.{pos}
use unix_sys_prog.Dhcp.Server.Store.{
  S, State, init, wait_req1, wait_req2, in_use, term, Event, no_event, discover, request_alloc_ok,
  request_alloc_ng, request_ext_ok, request_ext_ng, release_ok, release_ng, req_timeout,
  ttl_timeout, unknown_msg, field, write_ttl, write_ttlcounter, read_ip, read_netmask,
}
use unix_sys_prog.Dhcp.Server.Lists.{change_state}

-- `send_dhcp`; the result says whether the call of `sendto` succeeded.
unfoldable pub send_dhcp : Message → ℕ → ℕ → S Bool
send_dhcp m to port s =
    ok (s.send_ok (length s.sent))
      (record s { sent = record { to = to; port = port; msg = m } ∷ s.sent })

-- A message of this type and code to the client, with the address it was given.
unfoldable pub send_address : ℕ → ℕ → Ptr → S Bool
send_address t ttl client = do
  ip ← read_ip client
  mask ← read_netmask client
  to ← field (λ s. s.id) client
  port ← field (λ s. s.port) client
  send_dhcp (record { type = t; code = code_ok; ttl = ttl; ipaddr = ip; netmask = mask }) to port

unfoldable pub send_offer_ok : Ptr → S Bool
send_offer_ok client = do
  s ← get
  ret ← send_address type_offer s.ttl_max client
  change_state client wait_req1
  pure ret

unfoldable pub resend_offer : Ptr → S Bool
resend_offer client = do
  s ← get
  ret ← send_address type_offer s.ttl_max client
  change_state client wait_req2
  pure ret

unfoldable pub send_offer_ng : ℕ → ℕ → S Bool
send_offer_ng from from_port = send_dhcp (message type_offer code_err_noip) from from_port

unfoldable pub send_ack_ok : Ptr → S Bool
send_ack_ok client = do
  ttl ← field (λ s. s.ttlcounter) client
  write_ttl client (pos ttl)
  ret ← send_address type_ack ttl client
  change_state client in_use
  pure ret

unfoldable pub send_ack_ng : Ptr → S Bool
send_ack_ng client = do
  to ← field (λ s. s.id) client
  port ← field (λ s. s.port) client
  ret ← send_dhcp (message type_ack code_err_req) to port
  change_state client term
  pure ret

unfoldable pub reset_ttl : Ptr → S Bool
reset_ttl client = do
  ttl ← field (λ s. s.ttlcounter) client
  write_ttl client (pos ttl)
  _ ← read_ip client
  send_ack_ok client

unfoldable pub release_client : Ptr → S Bool
release_client client = do _ ← read_ip client; change_state client term; pure true

unfoldable pub recv_discover : Message → S Event
recv_discover m =
    if not (m.type == type_discover)
      || not (m.code == 0)
      || not (m.ttl == 0)
      || not (m.ipaddr == 0)
      || not (m.netmask == 0)
    then pure unknown_msg
    else pure discover

-- `recv_request` for a code that asks for an address or for more time: `good` or `bad`.
unfoldable pub check_request : Event → Event → Message → Ptr → S Event
check_request good bad m client = do
  s ← get
  write_ttlcounter client m.ttl
  ip ← read_ip client
  mask ← read_netmask client
  if ltb s.ttl_max m.ttl || not (m.ipaddr == ip) || not (m.netmask == mask)
      then pure bad
      else pure good

unfoldable pub recv_request : Message → Ptr → S Event
recv_request m client =
    if m.code == code_req_alloc
    then check_request request_alloc_ok request_alloc_ng m client
    else if m.code == code_req_ext
    then check_request request_ext_ok request_ext_ng m client
    else pure unknown_msg

unfoldable pub recv_release : Message → Ptr → S Event
recv_release m client = do
  ip ← read_ip client
  if not (m.code == 0) || not (m.ttl == 0) || not (m.netmask == 0) || not (m.ipaddr == ip)
      then pure release_ng
      else pure release_ok

-- `get_event`, by the rows of `pmsgtab`.
unfoldable pub get_event : Message → Ptr → S Event
get_event m client =
    if m.type == type_discover
    then recv_discover m
    else if m.type == type_request
    then recv_request m client
    else if m.type == type_release
    then recv_release m client
    else pure no_event

-- The rows of `pstab`; the row of `in_use` and `release_ng` holds a null function. A pair
-- without a row makes `FSM_func` return -1.
unfoldable pub dispatch : State → Event → Ptr → S Bool
dispatch init discover = send_offer_ok
dispatch wait_req1 request_alloc_ok = send_ack_ok
dispatch wait_req1 request_alloc_ng = send_ack_ng
dispatch wait_req1 req_timeout = resend_offer
dispatch wait_req1 unknown_msg = release_client
dispatch in_use request_ext_ok = reset_ttl
dispatch in_use release_ok = release_client
dispatch in_use ttl_timeout = release_client
dispatch in_use release_ng = λ _. crash
dispatch in_use request_ext_ng = send_ack_ng
dispatch in_use unknown_msg = release_client
dispatch wait_req2 request_alloc_ok = send_ack_ok
dispatch wait_req2 request_alloc_ng = send_ack_ng
dispatch wait_req2 unknown_msg = release_client
dispatch wait_req2 req_timeout = release_client
dispatch _ _ = λ _. pure false

unfoldable pub fsm_func : Ptr → Event → S Bool
fsm_func client event = do stat ← field (λ s. s.stat) client; dispatch stat event client
