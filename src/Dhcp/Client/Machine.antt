-- ===== src/Dhcp/Client/Machine.antt =====
-- The client's globals, what it sends, what it makes of a message, and the table `pstab` of
-- mydhcpclient.h.
use unix_sys_prog.Base.{◌+◌, ℕ, Bool, true, false, List, ◌∷◌, ◌==◌, if◌then◌else◌}
use unix_sys_prog.Dhcp.Counter.{Counter, pos}
use unix_sys_prog.Dhcp.Message.{
  Message, message, message_timeout, type_discover, type_offer, type_request, type_ack,
  type_release, code_err_noip, code_req_alloc, code_req_ext, code_err_req,
}

-- `state_t`; `unset` is the 0 of static storage.
pub data State : Type 0 where
  unset init wait_offer1 wait_offer2 wait_ack1 wait_ack2 in_use wait_ext_ack term : State

-- `event_t`; `no_event` is -1.
pub data Event : Type 0 where
  no_event offer_ok offer_ng ack_ok ack_ng half_ttl sighup timeout ttl_timeout unknown_msg : Event

pub record Client : Type 0 where
  pub stat : State
  pub ttlcounter : ℕ
  pub ttl : Counter
  pub tout : Counter
  pub addr : ℕ
  pub netmask : ℕ
  pub stop_flag : Bool
  pub sighup_flag : Bool
  pub sigint_flag : Bool
  pub alarm_flag : ℕ
  -- what was given to `sendto`, latest first
  pub sent : List Message

abbrev is_term : State → Bool
is_term term = true
is_term _ = false

unfoldable pub change_state : State → Client → Client
change_state st c = record c {
  stat = st;
  tout = pos message_timeout;
  stop_flag = if is_term st then true else c.stop_flag;
}

abbrev pub send_dhcp : Message → Client → Client
send_dhcp m c = record c { sent = m ∷ c.sent }

unfoldable pub send_discover : Client → Client
send_discover c = change_state wait_offer1 (send_dhcp (message type_discover 0) c)

unfoldable pub resend_discover : Client → Client
resend_discover c = change_state wait_offer2 (send_dhcp (message type_discover 0) c)

-- A request for the address that was offered or is in use.
abbrev pub request : ℕ → Client → Message
request code c = record {
  type = type_request;
  code = code;
  ttl = c.ttlcounter;
  ipaddr = c.addr;
  netmask = c.netmask;
}

unfoldable pub send_request_alloc : Client → Client
send_request_alloc c = change_state wait_ack1 (send_dhcp (request code_req_alloc c) c)

unfoldable pub resend_request_alloc : Client → Client
resend_request_alloc c = change_state wait_ack2 (send_dhcp (request code_req_alloc c) c)

unfoldable pub send_request_ext : Client → Client
send_request_ext c = change_state wait_ext_ack (send_dhcp (request code_req_ext c) c)

unfoldable pub send_release : Client → Client
send_release c =
    change_state term (
      send_dhcp (record { type = type_release; code = 0; ttl = 0; ipaddr = c.addr; netmask = 0 }) c)

unfoldable pub start_using : Client → Client
start_using c = change_state in_use (record c { ttl = pos c.ttlcounter })

unfoldable pub terminate : Client → Client
terminate c = change_state term c

-- The address and the lease time of a message are taken over.
abbrev pub take_lease : Message → Client → Client
take_lease m c = record c { ttlcounter = m.ttl; addr = m.ipaddr; netmask = m.netmask }

unfoldable pub recv_offer : Message → Client → Event × Client
recv_offer m c =
    if m.code == code_err_noip
    then (offer_ng, record c { stop_flag = true })
    else (offer_ok, take_lease m c)

unfoldable pub recv_ack : Message → Client → Event × Client
recv_ack m c = if m.code == code_err_req then (ack_ng, c) else (ack_ok, take_lease m c)

-- `get_event`, by the rows of `pmsgtab`.
unfoldable pub get_event : Message → Client → Event × Client
unfolding recv_offer recv_ack
get_event m c =
    if m.type == type_offer
    then recv_offer m c
    else if m.type == type_ack
    then recv_ack m c
    else (no_event, c)

-- The rows of `pstab`; nothing happens for a pair without one.
unfoldable pub dispatch : State → Event → Client → Client
dispatch wait_offer1 offer_ok = send_request_alloc
dispatch wait_offer1 offer_ng = terminate
dispatch wait_offer1 timeout = resend_discover
dispatch wait_offer1 unknown_msg = terminate
dispatch wait_offer2 offer_ok = send_request_alloc
dispatch wait_offer2 offer_ng = terminate
dispatch wait_offer2 timeout = terminate
dispatch wait_offer2 unknown_msg = terminate
dispatch wait_ack1 ack_ok = start_using
dispatch wait_ack1 ack_ng = terminate
dispatch wait_ack1 timeout = resend_request_alloc
dispatch wait_ack1 unknown_msg = terminate
dispatch wait_ack2 ack_ok = start_using
dispatch wait_ack2 ack_ng = terminate
dispatch wait_ack2 timeout = terminate
dispatch wait_ack2 unknown_msg = terminate
dispatch in_use half_ttl = send_request_ext
dispatch in_use sighup = send_release
dispatch in_use ttl_timeout = terminate
dispatch wait_ext_ack ack_ok = start_using
dispatch wait_ext_ack sighup = send_release
dispatch wait_ext_ack ttl_timeout = terminate
dispatch wait_ext_ack ack_ng = terminate
dispatch wait_ext_ack unknown_msg = terminate
dispatch _ _ = λ c. c

unfoldable pub fsm_func : Event → Client → Client
unfolding dispatch change_state send_request_alloc resend_request_alloc send_request_ext
    send_release start_using terminate resend_discover
fsm_func event c = dispatch c.stat event c

-- The signal handlers.
abbrev pub sighup_handler : Client → Client
sighup_handler c = record c { sighup_flag = true }

abbrev pub sigalrm_handler : Client → Client
sigalrm_handler c = record c { alarm_flag = c.alarm_flag + 1 }

abbrev pub sigint_handler : Client → Client
sigint_handler c = record c { sigint_flag = true }
