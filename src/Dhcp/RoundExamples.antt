-- ===== src/Dhcp/RoundExamples.antt =====
-- A round of the address server's event loop at a concrete server.
use unix_sys_prog.Base.{refl, [], ◌∷◌, ◌≡◌, arith, some, inl, inr, fault}
use unix_sys_prog.Dhcp.Counter.{pos}
use unix_sys_prog.Dhcp.Message.{message, type_discover, type_release, get_msg, decode}
use unix_sys_prog.Dhcp.Server.Store.{Server, wait_req1, in_use}
use unix_sys_prog.Dhcp.Server.Loop.{round, Input}
use unix_sys_prog.Dhcp.Server.Timeouts.{InOrder}
use unix_sys_prog.Dhcp.Server.Handle.{StaysInOrder}
use unix_sys_prog.Dhcp.Server.Tick.{TicksThen}
use unix_sys_prog.Dhcp.Server.BadRelease.{bad_release_faults}
use unix_sys_prog.Dhcp.Server.Rounds.{IsInput, round-InOrder}
use unix_sys_prog.Dhcp.Examples.{serving, serving-IsServer}

-- Client 2 got an offer, a tick is due, and the address 3 is free.
abbrev offered : Server
offered = record (serving wait_req1) { tout = λ _. pos 1; alarm_flag = 1 }

offered-InOrder : InOrder offered (2 ∷ 3 ∷ []) (2 ∷ []) (3 ∷ [])
offered-InOrder = (serving-IsServer wait_req1, λ p m e. cc)

-- A DISCOVER from a new address.
abbrev newcomer : Input
newcomer = record {
  alarms = 1;
  datagram = some (1 ∷ 0 ∷ 0 ∷ 0 ∷ 0 ∷ 0 ∷ 0 ∷ 0 ∷ 0 ∷ 0 ∷ 0 ∷ 0 ∷ []);
  from = 167772161;
  from_port = 4000;
  new = 5;
}

newcomer-IsInput : IsInput offered (2 ∷ []) newcomer
unfolding get_msg decode
newcomer-IsInput =
    inr (inl (message type_discover 0, refl, (λ p m known. absurd (ground arith), λ out. refl)))

round-InOrder_example :
    TicksThen 6 newcomer offered (2 ∷ []) × StaysInOrder (2 ∷ 3 ∷ []) 2 (round 6 newcomer offered)
round-InOrder_example =
    round-InOrder 6 newcomer offered (2 ∷ 3 ∷ []) (2 ∷ []) (3 ∷ []) offered-InOrder newcomer-IsInput
      (omega arith) (omega arith) refl

-- A RELEASE of client 2 that names the address 0.0.0.0.
abbrev bad_release : Input
bad_release = record {
  alarms = 2;
  datagram = some (5 ∷ 0 ∷ 0 ∷ 0 ∷ 0 ∷ 0 ∷ 0 ∷ 0 ∷ 0 ∷ 0 ∷ 0 ∷ 0 ∷ []);
  from = 3232235786;
  from_port = 51230;
  new = 5;
}

bad_release_faults_example : round 2 bad_release (serving in_use) ≡ fault
unfolding get_msg decode
bad_release_faults_example =
    bad_release_faults (serving in_use) (2 ∷ 3 ∷ []) (2 ∷ []) (3 ∷ []) (serving-IsServer in_use)
      bad_release 2 (refl, refl, λ r m f. ground (arith, m)) 2 (message type_release 0)
      (omega arith) refl refl refl (λ code ttl netmask ip. absurd (omega (arith, ip)))
