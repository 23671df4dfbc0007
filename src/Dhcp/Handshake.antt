-- ===== src/Dhcp/Handshake.antt =====
-- The address server and a client together: a new client's DISCOVER, the offer, the request and the
-- acknowledgement, each through `encode` and `get_msg`.
use unix_sys_prog.Base.{
  ℕ, Bool, ◌&&◌, List, [], ◌∷◌, ◌==◌, ok, length, Option, none, some, if◌then◌else◌,
}
use unix_sys_prog.Ring.{Ptr}
use unix_sys_prog.Dhcp.Message.{Message, encode, get_msg}
use unix_sys_prog.Dhcp.Server.Store
use unix_sys_prog.Dhcp.Server.Store.{Server, Sent}
use unix_sys_prog.Dhcp.Server.Loop as ServerLoop
use unix_sys_prog.Dhcp.Server.Loop.{Input}
use unix_sys_prog.Dhcp.Client.Machine.{Client}
use unix_sys_prog.Dhcp.Client.Loop as ClientLoop

-- What the client's latest call of `sendto` put on the network.
abbrev pub latest_of_client : List Message → Option (List ℕ)
latest_of_client [] = none
latest_of_client (m ∷ ms) = some (encode m)

-- What the server's did, at this address and port, if the call succeeded.
abbrev pub latest_of_server : (ℕ → Bool) → ℕ → ℕ → List Sent → Option (List ℕ)
latest_of_server works host port [] = none
latest_of_server works host port (d ∷ ds) =
    if (d.to == host) && (d.port == port) && works (length ds) then some (encode d.msg) else none

abbrev input : ℕ → List Message → ℕ → ℕ → Ptr → Input
input alarms sent host port new = record {
  alarms = alarms;
  datagram = latest_of_client sent;
  from = host;
  from_port = port;
  new = new;
}

-- A round of the client, with what came from the server `t`.
abbrev pub answered_by : Client → Server → Option (List ℕ) → Option (Server × Client)
answered_by c t datagram = elim (ClientLoop.round (get_msg datagram) c) [
  | none ↦ none
  | some d ↦ some (t, d)
]

-- The client's latest message reaches the server, after some alarms there, and what the server answers reaches the client.
-- `none` if one of the two programs faults or runs out of fuel.
abbrev pub exchange : ℕ → ℕ → Ptr → ℕ → ℕ → Server → Client → Option (Server × Client)
exchange alarms fuel new host port s c =
    elim (ServerLoop.round fuel (input alarms c.sent host port new) s) [
      | ok _ t ↦ answered_by c t (latest_of_server t.send_ok host port t.sent)
      | _ ↦ none
    ]
