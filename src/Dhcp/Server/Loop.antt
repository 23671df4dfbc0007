-- ===== src/Dhcp/Server/Loop.antt =====
-- The event loop of the server's `main`: one round for each return of `get_msg`.
use unix_sys_prog.Base.{
  ℕ, zero, suc, ◌+◌, ◌-◌, Bool, true, false, ◌&&◌, List, ◌==◌, if◌then◌else◌, crash, out_of_fuel,
  pure, get, modify, ◌>>=◌, ◌>>◌, Option,
}
use unix_sys_prog.Ring.{Ptr, null, read_fp}
use unix_sys_prog.Dhcp.Message.{
  Message, type_discover, nothing, unknown, bad_index, arrived, get_msg,
}
use unix_sys_prog.Dhcp.Counter.{decrement, expired}
use unix_sys_prog.Dhcp.Server.Store.{
  S, wait_req1, wait_req2, in_use, Event, req_timeout, ttl_timeout, unknown_msg, client_h,
  on_clients, field, write_ttl, write_tout, read_ip,
}
use unix_sys_prog.Dhcp.Server.Lists.{create_client}
use unix_sys_prog.Dhcp.Server.Machine.{send_offer_ng, get_event, release_client, fsm_func}

unfoldable pub decrement_ttl : Ptr → S (Unit {0})
decrement_ttl client = do
  t ← field (λ s. s.ttl) client
  write_ttl client (decrement t)
  _ ← read_ip client
  pure tt

unfoldable pub decrement_tout : Ptr → S (Unit {0})
decrement_tout client = do
  t ← field (λ s. s.tout) client
  write_tout client (decrement t)
  _ ← read_ip client
  pure tt

-- What a tick of the clock does to one client.
unfoldable pub tick_client : Ptr → S (Unit {0})
tick_client p = do
  stat ← field (λ s. s.stat) p
  elim stat [
    | in_use ↦ decrement_ttl p
    | wait_req1 ↦ decrement_tout p
    | wait_req2 ↦ decrement_tout p
    | _ ↦ pure tt
  ]

-- The loop over the client list, from the record `p`.
unfoldable pub tick_from : ℕ → Ptr → S (Unit {0})
tick_from zero p = λ _. out_of_fuel
tick_from (suc fuel) p =
    if p == client_h
    then pure tt
    else do tick_client p; q ← on_clients (read_fp p); tick_from fuel q

unfoldable pub tick : ℕ → S (Unit {0})
tick fuel = do
  s ← get
  if s.alarm_flag == 0 then pure tt else do
    p ← on_clients (read_fp client_h)
    tick_from fuel p
    modify (λ s. record s { alarm_flag = s.alarm_flag - 1 })

-- The search for the client that a datagram came from; the sentinel if there is none.
unfoldable pub find_client : ℕ → ℕ → ℕ → Ptr → S Ptr
find_client zero from from_port p = λ _. out_of_fuel
find_client (suc fuel) from from_port p = if p == client_h then pure p else do
  id ← field (λ s. s.id) p
  port ← field (λ s. s.port) p
  if id == from && port == from_port
      then pure p
      else do q ← on_clients (read_fp p); find_client fuel from from_port q

-- The two loops that look for expired counters, from the record `p`. An event that was handled
-- starts the loop again at the head of the list.
unfoldable pub expire_from : (Ptr → S Bool) → Event → ℕ → Ptr → S (Unit {0})
expire_from due event zero p = λ _. out_of_fuel
expire_from due event (suc fuel) p = if p == client_h then pure tt else do
  late ← due p
  again ← if late then fsm_func p event else pure false
  q ← on_clients (read_fp (if again then client_h else p))
  expire_from due event fuel q

unfoldable pub ttl_due : Ptr → S Bool
ttl_due p = do t ← field (λ s. s.ttl) p; pure (expired t)

-- The second loop also prints the address of a client whose time has run out.
unfoldable pub tout_due : Ptr → S Bool
tout_due p = do
  t ← field (λ s. s.tout) p
  if expired t then (do _ ← read_ip p; pure true) else pure false

unfoldable pub expire : ℕ → S (Unit {0})
expire fuel = do
  p ← on_clients (read_fp client_h)
  expire_from ttl_due ttl_timeout fuel p
  p ← on_clients (read_fp client_h)
  expire_from tout_due req_timeout fuel p

unfoldable pub sigalrm_handler : S (Unit {0})
sigalrm_handler = modify (λ s. record s { alarm_flag = s.alarm_flag + 1 })

-- The handler runs this many times.
unfoldable pub alarms_arrive : ℕ → S (Unit {0})
alarms_arrive zero = pure tt
alarms_arrive (suc n) = do sigalrm_handler; alarms_arrive n

-- What a round is given: how many SIGALRM arrive before it reads `alarm_flag` (since the round
-- before read it), the bytes and the sender of a datagram, or that there is none, and the record
-- that `malloc` would return.
pub record Input : Type 0 where
  pub alarms : ℕ
  pub datagram : Option (List ℕ)
  pub from : ℕ
  pub from_port : ℕ
  pub new : Ptr

-- `FSM_func(&sfd, client_ptr, event)` at the end of a round.
unfoldable pub run_event : Event → S (Unit {0})
run_event event = do s ← get; _ ← fsm_func s.client_ptr event; pure tt

-- A message came from a client that is known, from one that is made for it, or from nobody: then
-- `client_ptr` is the sentinel.
unfoldable pub handle : ℕ → Input → Message → S (Unit {0})
handle fuel i m = do
  head ← on_clients (read_fp client_h)
  p ← find_client fuel i.from i.from_port head
  if p == client_h && m.type == type_discover
      then (do
        new ← create_client fuel i.new i.from i.from_port
        modify (λ s. record s { client_ptr = new })
        if new == null
            then (do _ ← send_offer_ng i.from i.from_port; pure tt)
            else (do event ← get_event m new; run_event event))
      else do modify (λ s. record s { client_ptr = p }); event ← get_event m p; run_event event

-- One round of `while (!stop_flag)`.
unfoldable pub round : ℕ → Input → S (Unit {0})
round fuel i = do
  alarms_arrive i.alarms
  elim (get_msg i.datagram) [
    | bad_index ↦ crash
    | nothing ↦ do tick fuel; expire fuel
    | unknown ↦ do tick fuel; run_event unknown_msg
    | arrived m ↦ do tick fuel; handle fuel i m
  ]

-- The loop after the last round: every client is released.
unfoldable pub release_all : ℕ → Ptr → S (Unit {0})
release_all zero p = λ _. out_of_fuel
release_all (suc fuel) p = if p == client_h then pure tt else do
  _ ← read_ip p
  done ← release_client p
  q ← on_clients (read_fp (if done then client_h else p))
  release_all fuel q
