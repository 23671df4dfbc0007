-- ===== src/Dhcp/Examples.antt =====
-- Runs of the address server and its client, and the theorems at states of a server with one client.
use unix_sys_prog.Base.{
  ◌+◌, ◌≡◌, ◌≢◌, ◌⊎◌, refl, true, false, [], ◌∷◌, arith, ◌==◌, if◌then◌else◌, ok, fault, inl, none,
  some,
}
use unix_sys_prog.Ring.{Ptr, null, Links}
use unix_sys_prog.Dhcp.Counter.{pos}
use unix_sys_prog.Dhcp.Message.{
  Message, message, IsMessage, encode, decode, decode-encode, type_offer, type_request, type_ack,
  code_ok, code_req_alloc, code_err_req, message_timeout, arrived, nothing,
}
use unix_sys_prog.Dhcp.Server.Store.{Server, State, init, wait_req1, in_use, term, client_h}
use unix_sys_prog.Dhcp.Server.Lists.{create_client, change_state}
use unix_sys_prog.Dhcp.Server.Loop.{find_client, handle, Input}
use unix_sys_prog.Dhcp.Server.Lease.{IsServer}
use unix_sys_prog.Dhcp.Server.Change.{change_state_term, OthersKeep}
use unix_sys_prog.Dhcp.Server.Actions
use unix_sys_prog.Dhcp.Server.Admission
use unix_sys_prog.Dhcp.Server.Admission.{
  find_client-first_from, unknown_request_faults, create_client_empty, create_client_lem,
}
use unix_sys_prog.Dhcp.Client.Machine.{Client}
use unix_sys_prog.Dhcp.Client.Machine
use unix_sys_prog.Dhcp.Client.Loop.{round, quiet_for}
use unix_sys_prog.Dhcp.Client.Diagram.{
  ◌⟶◌, IsLeasing, round-⟶, round-in_use, quiet_for-stop, round-signals,
}

abbrev offer : Message
offer = record {
  type = type_offer;
  code = code_ok;
  ttl = 300;
  ipaddr = 3232235777;
  netmask = 4294967040;
}

offer-IsMessage : IsMessage offer
offer-IsMessage = record {
  type_byte = omega arith;
  code_byte = omega arith;
  ttl_short = omega arith;
  ipaddr_word = omega arith;
  netmask_word = omega arith;
}

offer_bytes_test : encode offer ≡ 2 ∷ 0 ∷ 1 ∷ 44 ∷ 192 ∷ 168 ∷ 1 ∷ 1 ∷ 255 ∷ 255 ∷ 255 ∷ 0 ∷ []
unfolding encode
offer_bytes_test = refl

decode-encode_example : decode (encode offer) ≡ some offer
decode-encode_example = decode-encode offer offer-IsMessage

-- The links of a list with one node.
abbrev one_node : Ptr → Links
one_node x = record { fp = λ p. if p == 1 then x else 1; bp = λ p. if p == 1 then x else 1 }

-- Client 2 has the pool entry 2, and the entry 3 is free.
abbrev pub serving : State → Server
serving st = record {
  clients = one_node 2;
  pool = one_node 3;
  allocated = λ p. p == 2;
  stat = λ _. st;
  tout = λ _. pos message_timeout;
  id = λ _. 3232235786;
  addr = λ p. if p == 2 then 2 else null;
  port = λ _. 51230;
  ttlcounter = λ _. 300;
  ttl = λ _. pos 300;
  ip = λ a. 3232235776 + a;
  netmask = λ _. 4294967040;
  ttl_max = 300;
  alarm_flag = 0;
  client_ptr = client_h;
  sent = [];
  send_ok = λ _. true;
}

pub serving-IsServer : (st : State) → IsServer (serving st) (2 ∷ 3 ∷ []) (2 ∷ []) (3 ∷ [])
serving-IsServer st = record {
  client_ring = record { nodup = (refl, (refl, (refl, tt))); link = (refl, refl, (refl, refl)) };
  pool_ring = record { nodup = (refl, (refl, (refl, tt))); link = (refl, refl, (refl, refl)) };
  live = λ p. ground arith;
  leased = λ p m. ground arith;
  alone = λ p r m n e. ground arith;
  owned = λ a. ground arith;
}

change_state_term_example :
    (s' : Server) × (change_state 2 term (serving wait_req1) ≡ ok tt s')
    × IsServer s' (2 ∷ 3 ∷ []) [] (3 ∷ 2 ∷ [])
    × OthersKeep (serving wait_req1) 2 s'
change_state_term_example =
    change_state_term (serving wait_req1) (2 ∷ 3 ∷ []) (2 ∷ []) (3 ∷ [])
      (serving-IsServer wait_req1) 2 refl

find_client-first_from_example :
    find_client 2 3232235786 51230 2 (serving in_use) ≡ ok 2 (serving in_use)
unfolding Admission.first_from
find_client-first_from_example =
    find_client-first_from (serving in_use) (2 ∷ 3 ∷ []) (2 ∷ []) (3 ∷ []) (serving-IsServer in_use)
      2 3232235786 51230 (omega arith)

-- A datagram from somebody who is no client.
abbrev stranger : Input
stranger = record { alarms = 0; datagram = none; from = 167772161; from_port = 4000; new = 5 }

unknown_request_faults_example :
    handle 2 stranger (message type_request code_req_alloc) (serving in_use) ≡ fault
unknown_request_faults_example =
    unknown_request_faults (serving in_use) (2 ∷ 3 ∷ []) (2 ∷ []) (3 ∷ []) (serving-IsServer in_use)
      2 stranger (message type_request code_req_alloc) (omega arith) (λ p m. ground arith) refl refl
      (inl refl)

create_client_lem_example :
    (s' : Server) × (create_client 2 5 167772161 4000 (serving in_use) ≡ ok 5 s')
    × IsServer s' (2 ∷ 3 ∷ []) (5 ∷ 2 ∷ []) []
    × (s'.stat 5 ≡ init)
    × (s'.addr 5 ≡ 3)
    × (s'.id 5 ≡ 167772161)
    × (s'.port 5 ≡ 4000)
    × OthersKeep (serving in_use) 5 s'
create_client_lem_example =
    create_client_lem (serving in_use) (2 ∷ 3 ∷ []) (2 ∷ []) 3 [] (serving-IsServer in_use) 2 5
      167772161 4000 (omega arith) refl

-- The client waits for the answer to its request.
abbrev asking : Client
asking = record {
  stat = Machine.wait_ack1;
  ttlcounter = 300;
  ttl = pos 0;
  tout = pos 4;
  addr = 3232235777;
  netmask = 4294967040;
  stop_flag = false;
  sighup_flag = false;
  sigint_flag = false;
  alarm_flag = 0;
  sent = [];
}

abbrev ack : Message
ack = record offer { type = type_ack; ttl = 2 }

-- It has its address for two seconds.
abbrev using : Client
using = record asking {
  stat = Machine.in_use;
  ttlcounter = 2;
  ttl = pos 2;
  tout = pos message_timeout;
}

ack_test : round (arrived ack) asking ≡ some using
unfolding round
ack_test = refl

round-⟶_example : (using.stat ≡ asking.stat) ⊎ (asking.stat ⟶ using.stat)
round-⟶_example = round-⟶ (arrived ack) asking ack_test

round-in_use_example :
    (m : Message) × (arrived ack ≡ arrived m)
    × (m.type ≡ type_ack)
    × (m.code ≢ code_err_req)
    × (using.addr ≡ m.ipaddr)
    × (using.netmask ≡ m.netmask)
    × (using.ttl ≡ pos m.ttl)
round-in_use_example = round-in_use (arrived ack) asking ack_test (λ e. cc) refl

using-IsLeasing : IsLeasing 2 using
using-IsLeasing = record {
  held = inl refl;
  left = refl;
  clock = refl;
  no_hangup = refl;
  no_interrupt = refl;
  no_alarm = refl;
  goes_on = refl;
}

quiet_for-stop_example :
    (d : Client) × (quiet_for 2 using ≡ some d) × (d.stat ≡ Machine.term) × (d.stop_flag ≡ true)
quiet_for-stop_example = quiet_for-stop 1 using using-IsLeasing

round-signals_example :
    ((d : Client) × (round nothing (Machine.sighup_handler using) ≡ some d)
      × (d.stat ≡ Machine.term)
      × (d.stop_flag ≡ true)
      × (d.sent ≡ record { type = 5; code = 0; ttl = 0; ipaddr = 3232235777; netmask = 0 } ∷ []))
    × ((d : Client) × (round nothing (Machine.sigint_handler using) ≡ some d)
        × (d.stop_flag ≡ true)
        × (d.sent ≡ []))
round-signals_example = round-signals 2 using using-IsLeasing
