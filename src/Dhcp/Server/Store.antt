-- ===== src/Dhcp/Server/Store.antt =====
-- The server's memory: the client records, the address pool and the globals of mydhcpserver.h.
use unix_sys_prog.Base.{
  ℕ, Bool, ◌||◌, List, ◌==◌, if◌then◌else◌, update, Cmd, ok, fault, ◌>>=◌, within,
}
use unix_sys_prog.Ring.{Ptr, null, Links}
use unix_sys_prog.Dhcp.Counter.{Counter}
use unix_sys_prog.Dhcp.Message.{Message}

-- `state_t`; a zeroed record has no state.
pub data State : Type 0 where
  unset init wait_req1 wait_req2 in_use term : State

-- `event_t`; `no_event` is the -1 of the loop and of `get_event`.
pub data Event : Type 0 where
  no_event discover request_alloc_ok request_alloc_ng request_ext_ok request_ext_ng : Event
  release_ok release_ng req_timeout ttl_timeout unknown_msg : Event

-- A datagram that was sent, with the address and the port that it went to.
pub record Sent : Type 0 where
  pub to : ℕ
  pub port : ℕ
  pub msg : Message

-- Clients and pool entries have addresses of their own kind; 1 is the sentinel of each list.
abbrev pub client_h : Ptr
client_h = 1

abbrev pub addr_pool_h : Ptr
addr_pool_h = 1

pub record Server : Type 0 where
  pub clients : Links
  pub pool : Links
  -- which client records `malloc` has given out and `free` has not taken back
  pub allocated : Ptr → Bool
  pub stat : Ptr → State
  pub tout : Ptr → Counter
  pub id : Ptr → ℕ
  pub addr : Ptr → Ptr
  pub port : Ptr → ℕ
  pub ttlcounter : Ptr → ℕ
  pub ttl : Ptr → Counter
  -- the fields of the pool entries
  pub ip : Ptr → ℕ
  pub netmask : Ptr → ℕ
  pub ttl_max : ℕ
  pub alarm_flag : ℕ
  -- `client_ptr` of `main`, which outlives a round of the loop
  pub client_ptr : Ptr
  -- the calls of `sendto`, latest first, and which of them succeed
  pub sent : List Sent
  pub send_ok : ℕ → Bool

abbrev pub S : Type 0 → Type 0
S A = Cmd Server A

abbrev pub on_clients : {A : Type 0} → Cmd Links A → S A
on_clients = within (λ s. s.clients) (λ s l. record s { clients = l })

abbrev pub on_pool : {A : Type 0} → Cmd Links A → S A
on_pool = within (λ s. s.pool) (λ s l. record s { pool = l })

-- A client record may be read and written: the sentinel, or one that is allocated.
abbrev pub is_record : Server → Ptr → Bool
is_record s p = (p == client_h) || s.allocated p

-- A field of the client record `p`, read and written; any other address is a fault.
abbrev pub field : {A : Type 0} → (Server → Ptr → A) → Ptr → S A
field f p s = if is_record s p then ok (f s p) s else fault

abbrev pub store : (Server → Server) → Ptr → S (Unit {0})
store f p s = if is_record s p then ok tt (f s) else fault

unfoldable pub write_stat : Ptr → State → S (Unit {0})
write_stat p v = store (λ s. record s { stat = update s.stat p v }) p

unfoldable pub write_tout : Ptr → Counter → S (Unit {0})
write_tout p v = store (λ s. record s { tout = update s.tout p v }) p

unfoldable pub write_ttl : Ptr → Counter → S (Unit {0})
write_ttl p v = store (λ s. record s { ttl = update s.ttl p v }) p

unfoldable pub write_ttlcounter : Ptr → ℕ → S (Unit {0})
write_ttlcounter p v = store (λ s. record s { ttlcounter = update s.ttlcounter p v }) p

-- `client->addr->addr.s_addr` and `client->addr->netmask.s_addr`: two pointers to go through.
unfoldable pub read_ip : Ptr → S ℕ
read_ip p = do a ← field (λ s. s.addr) p; λ s. if a == null then fault else ok (s.ip a) s

unfoldable pub read_netmask : Ptr → S ℕ
read_netmask p = do a ← field (λ s. s.addr) p; λ s. if a == null then fault else ok (s.netmask a) s
