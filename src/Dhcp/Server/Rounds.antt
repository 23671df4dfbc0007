-- ===== src/Dhcp/Server/Rounds.antt =====
-- A round of `main`, whether a message came or not.
use unix_sys_prog.Base.{
  ℕ, suc, ◌≤◌, ◌<◌, ◌≡◌, ◌⊎◌, inl, inr, refl, true, false, List, [], ◌∷◌, ◌==◌, if◌then◌else◌, ◌∈◌,
  ◌∉◌, arith, length, Bool-cases, eq_of_==, pure, ap, sym, ◌∙◌, Run, ◌>>=◌, ◌>>◌, modify,
}
use unix_sys_prog.Ring.{Ptr, null}
use unix_sys_prog.Dhcp.Message.{
  Message, message, type_offer, code_err_noip, type_discover, get_msg, arrived, nothing, unknown,
}
use unix_sys_prog.Dhcp.Server.Store.{Server, init, client_h, unknown_msg}
use unix_sys_prog.Dhcp.Server.Lists.{create_client}
use unix_sys_prog.Dhcp.Server.Machine.{get_event, send_dhcp, send_offer_ng}
use unix_sys_prog.Dhcp.Server.Loop.{handle, round, Input, run_event}
use unix_sys_prog.Dhcp.Server.Lease.{IsServer}
use unix_sys_prog.Dhcp.Server.Change.{OthersKeep, client-Held}
use unix_sys_prog.Dhcp.Server.Admission.{
  is_from, first_from, find_client-first_from, create_client_empty, create_client_lem, read_head,
}
use unix_sys_prog.Dhcp.Server.Timeouts.{Alive, InOrder}
use unix_sys_prog.Dhcp.Server.Quiet.{enough, expire-Ends}
use unix_sys_prog.Dhcp.Server.Tick.{TicksThen, after_tick, round-TicksThen}
use unix_sys_prog.Dhcp.Server.Handle.{StaysInOrder, run_event-InOrder, IsPolite, get_event-Noted}
use unix_sys_prog.Dhcp.Server.Sender.{first_from-Whose}

-- A message of a client is polite, and anybody else asks for an address.
abbrev pub IsProper : Server → List Ptr → Input → Message → Type 0
IsProper s cs i m =
    ((p : Ptr) → p ∈ cs → is_from s i.from i.from_port p ≡ true → IsPolite s p m)
    × (((p : Ptr) → p ∈ cs → is_from s i.from i.from_port p ≡ false) → m.type ≡ type_discover)

module _ (s : Server) (all cs ps : List Ptr) (w : IsServer s all cs ps) (live : Alive s cs) where
  -- A message of the client `p`.
  message-InOrder :
      (p : Ptr) (m : Message)
      → p ∈ cs
      → IsPolite s p m
      → StaysInOrder all (length cs) ((get_event m p >>= run_event) (record s { client_ptr = p }))
  message-InOrder p m i polite =
      let t : Server = record s { client_ptr = p } in
      let (e, c, run, fine) = get_event-Noted t p (client-Held t all cs ps w p i) m polite in
      rw run (run_event-InOrder (record s { ttlcounter = c }) all cs ps w live p i e (λ st. fine))

  -- A client that was just made is in no last state, and neither are the others.
  Alive-create :
      (new : Ptr) (s' : Server) → s'.stat new ≡ init → OthersKeep s new s' → Alive s' (new ∷ cs)
  Alive-create new s' now others r i e = elim (Bool-cases (r == new)) [
    | inl same ↦ absurd (ground (arith, now, e, ap s'.stat (eq_of_== r new same)))
    | inr n ↦ live r (ground arith) (sym (others r n) ∙ e)
  ]

-- Somebody who is no client asks for an address.
abbrev welcome : ℕ → Input → Message → Server → Run Server (Unit {0})
welcome fuel i m = create_client fuel i.new i.from i.from_port >>= λ new.
    modify (λ s. record s { client_ptr = new })
    >> (if new == null
        then send_offer_ng i.from i.from_port >> pure tt
        else get_event m new >>= run_event)

welcome-InOrder :
    (s : Server) (all cs ps : List Ptr) (fuel : ℕ) (i : Input) (m : Message)
    → InOrder s all cs ps
    → length ps < fuel
    → i.new ∉ null ∷ client_h ∷ cs
    → m.type ≡ type_discover
    → StaysInOrder all (suc (length cs)) (welcome fuel i m s)
unfolding send_offer_ng send_dhcp
welcome-InOrder s all cs [] fuel i m (w, live) f out d =
    let none_left =
      create_client_empty s all cs [] w fuel i.new i.from i.from_port refl (omega arith) in
    let told : Server = record s {
      client_ptr = null;
      sent =
          record { to = i.from; port = i.from_port; msg = message type_offer code_err_noip }
          ∷ s.sent;
    } in
    (told, cs, [], rw none_left refl, (w, live), omega arith)
welcome-InOrder s all cs (x ∷ rest) fuel i m (w, live) f out d =
    let (s1, made, w1, now, addr, id, port, others) =
      create_client_lem s all cs x rest w fuel i.new i.from i.from_port f out in
    let self : i.new ∈ i.new ∷ cs = ground arith in
    let some_new : (i.new == null) ≡ false = ground arith in
    let live1 = Alive-create s all cs (x ∷ rest) w live i.new s1 now others in
    rw made (
      rw some_new (
        message-InOrder s1 all (i.new ∷ cs) rest w1 live1 i.new m self
          (λ r. absurd (omega (arith, d, r)))))

weaker :
    (all : List Ptr) (n k : ℕ) (run : Run Server (Unit {0}))
    → n ≤ k
    → StaysInOrder all n run
    → StaysInOrder all k run
weaker all n k run le (s', cs', ps', r, o, len) = (s', cs', ps', r, o, omega (arith, le, len))

module _ (s : Server) (all cs ps : List Ptr) (w : IsServer s all cs ps) (live : Alive s cs)
    (fuel : ℕ) (i : Input) (m : Message) (few : length cs < fuel) (free : length ps < fuel)
    (out : i.new ∉ null ∷ client_h ∷ cs) where
  handle-InOrder : IsProper s cs i m → StaysInOrder all (suc (length cs)) (handle fuel i m s)
  unfolding handle
  handle-InOrder (polite, asks) =
      let p = first_from s i.from i.from_port cs in
      rw (read_head s) (
        rw (find_client-first_from s all cs ps w fuel i.from i.from_port few)
          (elim (first_from-Whose s i.from i.from_port cs) [
            | inl (mem, mine) ↦
                let at : (p == client_h) ≡ false = ground (arith, w.client_ring.nodup) in
                rw at (
                  weaker all (length cs) (suc (length cs)) _ (omega arith)
                    (message-InOrder s all cs ps w live p m mem (polite p mem mine)))
            | inr (sentinel, nobody) ↦
                let d : (m.type == type_discover) ≡ true = ground (arith, asks nobody) in
                rw sentinel
                  (rw d (welcome-InOrder s all cs ps fuel i m (w, live) free out (asks nobody)))
          ]))

-- What a round is given is in order: no datagram came, one with a proper message, or one of another
-- length, while `client_ptr` still points to a client.
abbrev pub IsInput : Server → List Ptr → Input → Type 0
IsInput s cs i =
    (get_msg i.datagram ≡ nothing)
    ⊎ ((m : Message) × (get_msg i.datagram ≡ arrived m) × IsProper s cs i m)
    ⊎ ((get_msg i.datagram ≡ unknown) × (s.client_ptr ∈ cs))

-- A round of the event loop in order. The clock ticks first, if a tick is due with the alarms that
-- arrived before: of every client in use the lease counts down one second, of every client that
-- waits for a request the time to wait, no other counter changes, and one tick less is due. From
-- there the round is the two loops that look for expired counters, if no datagram came; the
-- handling of the message, if one of 12 bytes with a known type and code came; and the event
-- unknown_msg of the client that client_ptr points to, if one of another length came. It ends
-- without a fault, with the server in order: the addresses are partitioned between the pool and the
-- clients, no two clients have the same, no client is in the last state, and there is one client
-- more at most. The server was in order; a release of a client names its address and nothing else;
-- a message of anybody else is a DISCOVER; client_ptr points to a client if a datagram of another
-- length came; the record that malloc would return is not in use; and the fuel is above the number
-- of free addresses and above what `enough` asks for.
pub round-InOrder :
    (fuel : ℕ) (i : Input) (s : Server) (all cs ps : List Ptr)
    → InOrder s all cs ps
    → IsInput s cs i
    → enough (length cs) < fuel
    → length ps < fuel
    → i.new ∉ null ∷ client_h ∷ cs
    → TicksThen fuel i s cs × StaysInOrder all (suc (length cs)) (round fuel i s)
round-InOrder fuel i s all cs ps (w, live) given f free out =
    let (t, u, ticked, run) = round-TicksThen fuel i s all cs ps w (omega (arith, f)) in
    let now : Server = after_tick s i t u in
    (
      (t, u, ticked, run),
      rw run (elim given [
        | inl quiet ↦ rw quiet (
            weaker all (length cs) (suc (length cs)) _ (omega arith)
              (expire-Ends fuel now all cs ps (w, live) f))
        | inr (inl (m, came, proper)) ↦
            rw came
              (handle-InOrder now all cs ps w live fuel i m (omega (arith, f)) free out proper)
        | inr (inr (other, known)) ↦ rw other (
            weaker all (length cs) (suc (length cs)) _ (omega arith)
              (run_event-InOrder now all cs ps w live s.client_ptr known unknown_msg (λ st e. cc)))
      ]),
    )
