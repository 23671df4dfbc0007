-- ===== src/Dhcp/Server/Lists.antt =====
-- The address pool and the client list of mydhcpserver.c, statement by statement.
use unix_sys_prog.Base.{
  ℕ, zero, suc, ◌+◌, true, false, ◌==◌, if◌then◌else◌, update, Cmd, ok, fault, out_of_fuel, pure,
  modify, ◌>>=◌, ◌>>◌,
}
use unix_sys_prog.Ring.{Ptr, null, Links, read_fp, read_bp, write_fp, write_bp}
use unix_sys_prog.Dhcp.Message.{message_timeout}
use unix_sys_prog.Dhcp.Counter.{pos}
use unix_sys_prog.Dhcp.Server.Store.{
  Server, S, State, init, term, client_h, addr_pool_h, on_clients, on_pool, field, write_stat,
  write_tout, read_ip,
}

-- `initialize_addr_pool` and `initialize_client_buffer`, on their sentinel.
unfoldable pub initialize : Ptr → Cmd Links (Unit {0})
initialize h = do write_fp h h; write_bp h h

unfoldable pub initialize_addr_pool : S (Unit {0})
initialize_addr_pool = on_pool (initialize addr_pool_h)

unfoldable pub initialize_client_buffer : S (Unit {0})
initialize_client_buffer = on_clients (initialize client_h)

unfoldable pub insert_addr_pool : Ptr → Cmd Links (Unit {0})
insert_addr_pool new = do
  write_fp (← read_bp addr_pool_h) new
  write_bp new (← read_bp addr_pool_h)
  write_bp addr_pool_h new
  write_fp new addr_pool_h

unfoldable pub fetch_addr_pool : Cmd Links Ptr
fetch_addr_pool = do
  ret ← read_fp addr_pool_h
  first ← read_fp addr_pool_h
  write_bp (← read_fp first) addr_pool_h
  first ← read_fp addr_pool_h
  write_fp addr_pool_h (← read_fp first)
  pure ret

-- `is_addr_pool_empty` returns the number of the entries.
unfoldable pub count_pool : ℕ → Ptr → ℕ → Cmd Links ℕ
count_pool zero p num = λ _. out_of_fuel
count_pool (suc fuel) p num =
    if p == addr_pool_h then pure num else do q ← read_fp p; count_pool fuel q (num + 1)

unfoldable pub is_addr_pool_empty : ℕ → Cmd Links ℕ
is_addr_pool_empty fuel = do p ← read_fp addr_pool_h; count_pool fuel p 0

unfoldable pub insert_client : Ptr → Cmd Links (Unit {0})
insert_client new = do
  write_bp new client_h
  write_fp new (← read_fp client_h)
  write_bp (← read_fp client_h) new
  write_fp client_h new

unfoldable pub unlink_client : Ptr → Cmd Links (Unit {0})
unlink_client ptr = do
  before ← read_bp ptr
  after ← read_fp ptr
  write_fp before after
  after ← read_fp ptr
  before ← read_bp ptr
  write_bp after before

-- `free`: the record is not to be used again until `malloc` gives it out.
unfoldable pub free : Ptr → S (Unit {0})
free p s =
    if s.allocated p then ok tt (record s { allocated = update s.allocated p false }) else fault

unfoldable pub remove_client : Ptr → S (Unit {0})
remove_client ptr = do on_clients (unlink_client ptr); free ptr

unfoldable pub change_state : Ptr → State → S (Unit {0})
change_state client stat = do
  write_stat client stat
  write_tout client (pos message_timeout)
  _ ← read_ip client
  elim stat [
    | term ↦ do a ← field (λ s. s.addr) client; on_pool (insert_addr_pool a); remove_client client
    | _ ↦ pure tt
  ]

-- `malloc` and `memset`: the record `new` is given out, with all its fields zero.
abbrev pub new_record : Ptr → ℕ → ℕ → Ptr → Server → Server
new_record new from from_port entry s = record s {
  allocated = update s.allocated new true;
  stat = update s.stat new State.unset;
  tout = update s.tout new (pos message_timeout);
  id = update s.id new from;
  addr = update s.addr new entry;
  port = update s.port new from_port;
  ttlcounter = update s.ttlcounter new 0;
  ttl = update s.ttl new (pos 0);
}

-- `create_client`: `new` is what `malloc` returns, `fuel` the rounds of the count.
unfoldable pub create_client : ℕ → Ptr → ℕ → ℕ → S Ptr
create_client fuel new from from_port = do
  num ← on_pool (is_addr_pool_empty fuel)
  if num == 0 then pure null else do
    entry ← on_pool fetch_addr_pool
    modify (new_record new from from_port entry)
    change_state new init
    on_clients (insert_client new)
    pure new
