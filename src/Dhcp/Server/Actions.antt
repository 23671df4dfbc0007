-- ===== src/Dhcp/Server/Actions.antt =====
-- `FSM_func` on a client of the list: the table of mydhcpserver.h refines a diagram of states, and
-- no action loses an address.
use unix_sys_prog.Base.{
  update_other, ℕ, ◌≡◌, ◌≢◌, ◌⊎◌, refl, true, false, Bool, List, [], ◌∷◌, ◌++◌, ◌∈◌, erase, update,
  ok, length, inl, inr, ◌>>=◌, ◌>>◌, Run, ==_of_ne, update_self, pure,
}
use unix_sys_prog.Ring.{Ptr, null}
use unix_sys_prog.Dhcp.Message.{type_offer, type_ack, message, code_err_req}
use unix_sys_prog.Dhcp.Counter.{pos}
use unix_sys_prog.Dhcp.Server.Store.{
  Server, State, init, wait_req1, wait_req2, in_use, term, Event, discover, request_alloc_ok,
  request_alloc_ng, request_ext_ok, request_ext_ng, release_ok, release_ng, req_timeout,
  ttl_timeout, unknown_msg, write_ttl, read_ip,
}
use unix_sys_prog.Dhcp.Server.Lists.{change_state}
use unix_sys_prog.Dhcp.Server.Machine.{
  send_dhcp, send_address, send_offer_ok, resend_offer, send_ack_ok, send_ack_ng, reset_ttl,
  release_client, dispatch, fsm_func,
}
use unix_sys_prog.Dhcp.Server.Lease.{IsServer}
use unix_sys_prog.Dhcp.Server.Change.{
  record_open, moved, change_state_stay, send_address_lem, address_message, client-Held,
  change_state_term, OthersKeep,
}

-- The diagram: the state that an event leads to, `term` for a client that is dropped.
unfoldable pub next : State → Event → State
next init discover = wait_req1
next wait_req1 request_alloc_ok = in_use
next wait_req1 request_alloc_ng = term
next wait_req1 req_timeout = wait_req2
next wait_req1 unknown_msg = term
next wait_req2 request_alloc_ok = in_use
next wait_req2 request_alloc_ng = term
next wait_req2 req_timeout = term
next wait_req2 unknown_msg = term
next in_use request_ext_ok = in_use
next in_use request_ext_ng = term
next in_use release_ok = term
next in_use ttl_timeout = term
next in_use unknown_msg = term
next st _ = st

module _ (s : Server) (all cs ps : List Ptr) (w : IsServer s all cs ps) (p : Ptr) (m : p ∈ cs) where
  -- The client stays, in the state `st`, and nobody's address changes.
  abbrev pub Stays : State → Server → Type 0
  Stays st s' = (s'.stat p ≡ st) × IsServer s' all cs ps

  -- The client is gone, and its address is at the end of the pool.
  abbrev pub Leaves : Server → Type 0
  Leaves s' = IsServer s' all (erase p cs) (ps ++ s.addr p ∷ [])

  abbrev pub Outcome : State → Run Server Bool → Type 0
  Outcome st run =
      (b : Bool) × (s' : Server) × (run ≡ ok b s')
      × ((st ≢ term) × Stays st s' ⊎ (st ≡ term) × Leaves s')
      × OthersKeep s p s'

  -- An address is sent, and the client's state changes to one of those that keep it.
  sent_then_moved :
      (t ttl : ℕ) (st : State)
      → st ≢ term
      → Outcome st ((do ret ← send_address t ttl p; change_state p st; pure ret) s)
  sent_then_moved t ttl st n =
      let held = client-Held s all cs ps w p m in
      let sent = record s { sent = address_message s p t ttl ∷ s.sent } in
      (
        s.send_ok (length s.sent),
        moved sent p st,
        simp (send_address_lem s p held t ttl, change_state_stay sent p held st n),
        inl (n, (update_self s.stat p st, w)),
        λ r i. update_other s.stat p st r i,
      )

  send_offer_ok-Outcome : Outcome wait_req1 (send_offer_ok p s)
  unfolding send_offer_ok
  send_offer_ok-Outcome = sent_then_moved type_offer s.ttl_max wait_req1 (λ e. cc)

  pub resend_offer-Outcome : Outcome wait_req2 (resend_offer p s)
  unfolding resend_offer
  resend_offer-Outcome = sent_then_moved type_offer s.ttl_max wait_req2 (λ e. cc)

  -- A client that is released.
  pub release_client_lem :
      (s' : Server) × (release_client p s ≡ ok true s') × Leaves s' × OthersKeep s p s'
  unfolding release_client read_ip
  release_client_lem =
      let held = client-Held s all cs ps w p m in
      let (s', run, inv, others) = change_state_term s all cs ps w p m in
      (s', simp (record_open s p held, ==_of_ne (s.addr p) null held.1, run), inv, others)

  release_client-Outcome : Outcome term (release_client p s)
  release_client-Outcome =
      let (s', run, inv, others) = release_client_lem in (true, s', run, inr (refl, inv), others)

-- What starts with a change of memory that touches neither list nor lease.
module _ (s : Server) (all cs ps : List Ptr) (w : IsServer s all cs ps) (p : Ptr) (m : p ∈ cs) where
  send_ack_ok-Outcome : Outcome s all cs ps w p m in_use (send_ack_ok p s)
  unfolding send_ack_ok write_ttl
  send_ack_ok-Outcome =
      let held = client-Held s all cs ps w p m in
      let started = record s { ttl = update s.ttl p (pos (s.ttlcounter p)) } in
      let (b, s', run, rest, others) =
        sent_then_moved started all cs ps w p m type_ack (s.ttlcounter p) in_use (λ e. cc) in
      (b, s', simp (record_open s p held) run, rest, others)

  send_ack_ng-Outcome : Outcome s all cs ps w p m term (send_ack_ng p s)
  unfolding send_ack_ng send_dhcp
  send_ack_ng-Outcome =
      let held = client-Held s all cs ps w p m in
      let sent = record s {
        sent =
            record { to = s.id p; port = s.port p; msg = message type_ack code_err_req } ∷ s.sent;
      } in
      let (s', run, inv, others) = change_state_term sent all cs ps w p m in
      (s.send_ok (length s.sent), s', simp (record_open s p held, run), inr (refl, inv), others)

module _ (s : Server) (all cs ps : List Ptr) (w : IsServer s all cs ps) (p : Ptr) (m : p ∈ cs) where
  reset_ttl-Outcome : Outcome s all cs ps w p m in_use (reset_ttl p s)
  unfolding reset_ttl write_ttl read_ip
  reset_ttl-Outcome =
      let held = client-Held s all cs ps w p m in
      let started = record s { ttl = update s.ttl p (pos (s.ttlcounter p)) } in
      let (b, s', run, rest, others) = send_ack_ok-Outcome started all cs ps w p m in
      (b, s', simp (record_open s p held, ==_of_ne (s.addr p) null held.1) run, rest, others)

  idle : (st : State) → s.stat p ≡ st → st ≢ term → Outcome s all cs ps w p m st (ok false s)
  idle st e n = (false, s, refl, inl (n, (e, w)), λ r i. refl)

  -- The row of the table for the client's state and the event leads where the diagram says.
  dispatch-next :
      (st : State) (e : Event)
      → s.stat p ≡ st
      → st ≢ term
      → (st ≡ in_use → e ≢ release_ng)
      → Outcome s all cs ps w p m (next st e) (dispatch st e p s)
  unfolding dispatch next
  dispatch-next init discover h n o = send_offer_ok-Outcome s all cs ps w p m
  dispatch-next wait_req1 request_alloc_ok h n o = send_ack_ok-Outcome s all cs ps w p m
  dispatch-next wait_req1 request_alloc_ng h n o = send_ack_ng-Outcome s all cs ps w p m
  dispatch-next wait_req1 req_timeout h n o = resend_offer-Outcome s all cs ps w p m
  dispatch-next wait_req1 unknown_msg h n o = release_client-Outcome s all cs ps w p m
  dispatch-next in_use request_ext_ok h n o = reset_ttl-Outcome
  dispatch-next in_use release_ok h n o = release_client-Outcome s all cs ps w p m
  dispatch-next in_use ttl_timeout h n o = release_client-Outcome s all cs ps w p m
  dispatch-next in_use release_ng h n o = absurd (o refl refl)
  dispatch-next in_use request_ext_ng h n o = send_ack_ng-Outcome s all cs ps w p m
  dispatch-next in_use unknown_msg h n o = release_client-Outcome s all cs ps w p m
  dispatch-next wait_req2 request_alloc_ok h n o = send_ack_ok-Outcome s all cs ps w p m
  dispatch-next wait_req2 request_alloc_ng h n o = send_ack_ng-Outcome s all cs ps w p m
  dispatch-next wait_req2 unknown_msg h n o = release_client-Outcome s all cs ps w p m
  dispatch-next wait_req2 req_timeout h n o = release_client-Outcome s all cs ps w p m
  dispatch-next st _ h n o = idle st h n

  pub fsm_func-next :
      (e : Event)
      → s.stat p ≢ term
      → (s.stat p ≡ in_use → e ≢ release_ng)
      → Outcome s all cs ps w p m (next (s.stat p) e) (fsm_func p e s)
  unfolding fsm_func
  fsm_func-next e n o =
      rw (record_open s p (client-Held s all cs ps w p m)) (dispatch-next (s.stat p) e refl n o)
