-- ===== src/Dhcp/Server/Welcome.antt =====
-- The two rounds of `main` in which a new client gets its address.
use unix_sys_prog.Base.{
  ℕ, ◌+◌, ◌-◌, ◌∙◌, ◌<◌, ◌≡◌, refl, true, false, List, ◌∷◌, ◌==◌, ◌∈◌, ◌∉◌, update, ok, arith,
  length, update_self,
}
use unix_sys_prog.Ring.{Ptr, null}
use unix_sys_prog.Dhcp.Counter.{Counter, pos}
use unix_sys_prog.Dhcp.Message.{
  Message, message, type_discover, type_offer, type_ack, code_ok, get_msg, arrived,
}
use unix_sys_prog.Dhcp.Server.Store.{Server, Sent, State, init, wait_req1, in_use, client_h}
use unix_sys_prog.Dhcp.Server.Loop.{handle, round, Input}
use unix_sys_prog.Dhcp.Server.Lease.{IsServer}
use unix_sys_prog.Dhcp.Server.Change.{moved, client-Held}
use unix_sys_prog.Dhcp.Server.Admission.{
  is_from, first_from_none, find_client-first_from, read_head, created, create_client-created,
}
use unix_sys_prog.Dhcp.Server.Tick.{with_counters, round-TicksThen}
use unix_sys_prog.Dhcp.Server.Sender.{first_here}
use unix_sys_prog.Dhcp.Server.Grant.{answered, address_request, discover-answered, request-answered}

-- A message of the server `s` that names the pool entry `x`.
abbrev pub lease_message : Server → ℕ → Ptr → Message
lease_message s t x = record {
  type = t;
  code = code_ok;
  ttl = s.ttl_max;
  ipaddr = s.ip x;
  netmask = s.netmask x;
}

-- From `s` to `s'`, the client `new` behind this address and port came to the state `st`, holding the
-- entry `x`, and was sent a message of type `t` that names it.
pub record IsAnswered (all cs rest : List Ptr) (new from from_port x t : ℕ) (st : State)
    (s s' : Server) : Type 0 where
  pub leases : IsServer s' all (new ∷ cs) rest
  pub state : s'.stat new ≡ st
  pub host : s'.id new ≡ from
  pub port : s'.port new ≡ from_port
  pub entry : s'.addr new ≡ x
  pub ip : s'.ip ≡ s.ip
  pub netmask : s'.netmask ≡ s.netmask
  pub ttl_max : s'.ttl_max ≡ s.ttl_max
  pub send_ok : s'.send_ok ≡ s.send_ok
  pub sent : s'.sent ≡ record { to = from; port = from_port; msg = lease_message s t x } ∷ s.sent

sent_to :
    (s : Server) (t : ℕ) (l : List Sent) {a b c d x y : ℕ}
    → a ≡ b
    → c ≡ d
    → x ≡ y
    → record { to = a; port = c; msg = lease_message s t x } ∷ l
      ≡ record { to = b; port = d; msg = lease_message s t y } ∷ l
sent_to s t l e f g = rw (e, f, g) refl

module _ (s : Server) (all cs : List Ptr) (x : Ptr) (rest : List Ptr)
    (w : IsServer s all cs (x ∷ rest)) (fuel : ℕ) (i : Input) (few : length cs < fuel)
    (free : length (x ∷ rest) < fuel) (out : i.new ∉ null ∷ client_h ∷ cs)
    (stranger : (p : Ptr) → p ∈ cs → is_from s i.from i.from_port p ≡ false) where
  handle-offer :
      (s' : Server) × (handle fuel i (message type_discover 0) s ≡ ok tt s')
      × IsAnswered all cs rest i.new i.from i.from_port x type_offer wait_req1 s s'
  unfolding handle
  handle-offer =
      let (l1, l2, made, inv) =
        create_client-created s all cs x rest w fuel i.new i.from i.from_port free out in
      let new = i.new in
      let c = created s l2 l1 new i.from i.from_port x in
      let self : new ∈ new ∷ cs = ground arith in
      let some_new : (new == null) ≡ false = ground arith in
      let held = client-Held c all (new ∷ cs) rest inv new self in
      let now = update_self (update s.stat new State.unset) new init in
      let step = discover-answered c new held now in
      (
        moved (answered (record c { client_ptr = new }) new type_offer s.ttl_max) new wait_req1,
        rw (read_head s) (
            rw (find_client-first_from s all cs (x ∷ rest) w fuel i.from i.from_port few)
              (rw (first_from_none s i.from i.from_port cs stranger) (rw made (rw some_new step)))),
        record {
          leases = inv;
          state = update_self c.stat new wait_req1;
          host = update_self s.id new i.from;
          port = update_self s.port new i.from_port;
          entry = update_self s.addr new x;
          ip = refl;
          netmask = refl;
          ttl_max = refl;
          send_ok = refl;
          sent =
              sent_to s type_offer s.sent (update_self s.id new i.from)
                (update_self s.port new i.from_port) (update_self s.addr new x);
        },
      )

module _ (s : Server) (all cs : List Ptr) (p x : Ptr) (rest : List Ptr)
    (w : IsServer s all (p ∷ cs) rest) (fuel : ℕ) (i : Input) (few : length (p ∷ cs) < fuel)
    (now : s.stat p ≡ wait_req1) (host : s.id p ≡ i.from) (port : s.port p ≡ i.from_port)
    (entry : s.addr p ≡ x) where
  handle-request :
      (s' : Server) × (handle fuel i (address_request s p) s ≡ ok tt s')
      × IsAnswered all cs rest p i.from i.from_port x type_ack in_use s s'
      × (s'.ttl p ≡ pos s.ttl_max)
  unfolding handle
  handle-request =
      let self : p ∈ p ∷ cs = ground arith in
      let at : (p == client_h) ≡ false = ground (arith, w.client_ring.nodup) in
      let mine : is_from s i.from i.from_port p ≡ true = ground (arith, host, port) in
      let held = client-Held s all (p ∷ cs) rest w p self in
      let t : Server = record s {
        client_ptr = p;
        ttlcounter = update s.ttlcounter p s.ttl_max;
        ttl = update s.ttl p (pos s.ttl_max);
      } in
      (
        moved (answered t p type_ack s.ttl_max) p in_use,
        rw (read_head s) (
            rw (find_client-first_from s all (p ∷ cs) rest w fuel i.from i.from_port few) (
              rw (first_here s i.from i.from_port p cs mine)
                (rw at (request-answered s p held now)))),
        record {
          leases = w;
          state = update_self s.stat p in_use;
          host = host;
          port = port;
          entry = entry;
          ip = refl;
          netmask = refl;
          ttl_max = refl;
          send_ok = refl;
          sent = sent_to s type_ack s.sent host port entry;
        },
        update_self s.ttl p (pos s.ttl_max),
      )

ticked : Server → (Ptr → Counter) → (Ptr → Counter) → ℕ → Server
ticked s t u a = record (with_counters s t u) { alarm_flag = a }

-- The tick before the message changes nothing that counts here.
before_tick :
    {all cs rest : List Ptr} {new from port x k : ℕ} {st : State} {s' : Server}
    → (s : Server) (t u : Ptr → Counter) (a : ℕ)
    → IsAnswered all cs rest new from port x k st (ticked s t u a) s'
    → IsAnswered all cs rest new from port x k st s s'
unfolding ticked
before_tick s t u a f = record {
  leases = f.leases;
  state = f.state;
  host = f.host;
  port = f.port;
  entry = f.entry;
  ip = f.ip;
  netmask = f.netmask;
  ttl_max = f.ttl_max;
  send_ok = f.send_ok;
  sent = f.sent;
}

module _ (s : Server) (all cs : List Ptr) (x : Ptr) (rest : List Ptr)
    (w : IsServer s all cs (x ∷ rest)) (fuel : ℕ) (i : Input) (few : length cs < fuel)
    (free : length (x ∷ rest) < fuel) (out : i.new ∉ null ∷ client_h ∷ cs)
    (stranger : (p : Ptr) → p ∈ cs → is_from s i.from i.from_port p ≡ false) where
  -- A DISCOVER of a stranger is answered with an offer of the first free address.
  pub round-offer :
      get_msg i.datagram ≡ arrived (message type_discover 0)
      → (s' : Server) × (round fuel i s ≡ ok tt s')
        × IsAnswered all cs rest i.new i.from i.from_port x type_offer wait_req1 s s'
  unfolding ticked
  round-offer came =
      let (t, u, counted, run) = round-TicksThen fuel i s all cs (x ∷ rest) w few in
      let a = s.alarm_flag + i.alarms - 1 in
      let (s', step, facts) =
        handle-offer (ticked s t u a) all cs x rest w fuel i few free out stranger in
      (s', run ∙ rw came step, before_tick s t u a facts)

module _ (s : Server) (all cs : List Ptr) (p x : Ptr) (rest : List Ptr)
    (w : IsServer s all (p ∷ cs) rest) (fuel : ℕ) (i : Input) (few : length (p ∷ cs) < fuel)
    (now : s.stat p ≡ wait_req1) (host : s.id p ≡ i.from) (port : s.port p ≡ i.from_port)
    (entry : s.addr p ≡ x) where
  -- The request that follows is answered with an acknowledgement.
  pub round-acknowledged :
      get_msg i.datagram ≡ arrived (address_request s p)
      → (s' : Server) × (round fuel i s ≡ ok tt s')
        × IsAnswered all cs rest p i.from i.from_port x type_ack in_use s s'
        × (s'.ttl p ≡ pos s.ttl_max)
  unfolding ticked
  round-acknowledged came =
      let (t, u, counted, run) = round-TicksThen fuel i s all (p ∷ cs) rest w few in
      let a = s.alarm_flag + i.alarms - 1 in
      let (s', step, facts, left) =
        handle-request (ticked s t u a) all cs p x rest w fuel i few now host port entry in
      (s', run ∙ rw came step, before_tick s t u a facts, left)
