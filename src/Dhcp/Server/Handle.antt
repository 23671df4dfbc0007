-- ===== src/Dhcp/Server/Handle.antt =====
-- What a message from a client, or from somebody who asks for an address, does to the server.
use unix_sys_prog.Base.{
  ℕ, ◌≤◌, ◌≡◌, ◌≢◌, inl, inr, refl, Bool, true, false, List, ◌==◌, if◌then◌else◌, ◌∈◌, erase,
  update, arith, length, Bool-cases, eq_of_==, ==_of_ne, ok, pure, sym, ◌∙◌, length-erase, Run,
}
use unix_sys_prog.Ring.{Ptr, null}
use unix_sys_prog.Dhcp.Message.{
  Message, code_req_alloc, code_req_ext, type_discover, type_request, type_release,
}
use unix_sys_prog.Dhcp.Server.Store.{
  Server, in_use, Event, release_ng, release_ok, no_event, write_ttlcounter, read_ip, read_netmask,
}
use unix_sys_prog.Dhcp.Server.Machine.{
  get_event, recv_discover, recv_request, check_request, recv_release,
}
use unix_sys_prog.Dhcp.Server.Loop.{run_event}
use unix_sys_prog.Dhcp.Server.Lease.{IsServer}
use unix_sys_prog.Dhcp.Server.Change.{Held, record_open}
use unix_sys_prog.Dhcp.Server.Actions.{fsm_func-next}
use unix_sys_prog.Dhcp.Server.Timeouts.{Alive, InOrder, Alive-erase, Alive-change}

-- The run ended without a fault with the server in order, with at most `n` clients.
abbrev pub StaysInOrder : List Ptr → ℕ → Run Server (Unit {0}) → Type 0
StaysInOrder all n run =
    (s' : Server) × (cs' : List Ptr) × (ps' : List Ptr) × (run ≡ ok tt s')
    × InOrder s' all cs' ps'
    × (length cs' ≤ n)

module _ (s : Server) (all cs ps : List Ptr) (w : IsServer s all cs ps) (live : Alive s cs)
    (p : Ptr) (m : p ∈ cs) where
  -- An event of a client that `client_ptr` points to.
  pub run_event-InOrder :
      (e : Event)
      → (s.stat p ≡ in_use → e ≢ release_ng)
      → StaysInOrder all (length cs) (run_event e (record s { client_ptr = p }))
  unfolding run_event
  run_event-InOrder e polite =
      let t : Server = record s { client_ptr = p } in
      let (b, s', run, how, others) = fsm_func-next t all cs ps w p m e (live p m) polite in
      elim how [
        | inl (stays, (now, inv)) ↦ (
          s',
          cs,
          ps,
          rw run refl,
          (inv, Alive-change s all cs ps w live p m s' others (λ gone. stays (sym now ∙ gone))),
          omega arith,
        )
        | inr (leaves, inv) ↦ (
          s',
          erase p cs,
          _,
          rw run refl,
          (inv, Alive-erase s all cs ps w live p m s' others),
          omega (arith, length-erase p cs m),
        )
      ]

-- A release names the client's address, and nothing else.
abbrev pub IsPolite : Server → Ptr → Message → Type 0
IsPolite s p m =
    m.type ≡ type_release
    → (m.code ≡ 0) × (m.ttl ≡ 0) × (m.netmask ≡ 0) × (m.ipaddr ≡ s.ip (s.addr p))

-- The event of a message that a client sends: only the lease time that it asks for is noted.
abbrev pub Noted : Server → Run Server Event → Type 0
Noted s run =
    (e : Event) × (t : Ptr → ℕ) × (run ≡ ok e (record s { ttlcounter = t })) × (e ≢ release_ng)

-- One of two events, behind a lease time that was noted.
either-Noted :
    (s : Server) (t : Ptr → ℕ) (bad good : Event) (b : Bool)
    → bad ≢ release_ng
    → good ≢ release_ng
    → Noted s ((if b then pure bad else pure good) (record s { ttlcounter = t }))
either-Noted s t bad good true m n = (bad, t, refl, m)
either-Noted s t bad good false m n = (good, t, refl, n)

module _ (s : Server) (p : Ptr) (h : Held s p) (m : Message) where
  recv_discover-Noted : Noted s (recv_discover m s)
  unfolding recv_discover
  recv_discover-Noted = either-Noted s s.ttlcounter _ _ _ (λ e. cc) (λ e. cc)

  check_request-Noted :
      (good bad : Event)
      → good ≢ release_ng
      → bad ≢ release_ng
      → Noted s (check_request good bad m p s)
  unfolding check_request write_ttlcounter read_ip read_netmask
  check_request-Noted good bad g b =
      let open_p = record_open s p h in
      let filled = ==_of_ne (s.addr p) null h.1 in
      rw open_p (
        rw open_p (
          rw filled
            (rw open_p (rw filled (either-Noted s (update s.ttlcounter p m.ttl) bad good _ b g)))))

  recv_request-Noted : Noted s (recv_request m p s)
  unfolding recv_request
  recv_request-Noted = elim (Bool-cases (m.code == code_req_alloc)) [
    | inl alloc ↦ rw alloc (check_request-Noted _ _ (λ e. cc) (λ e. cc))
    | inr n ↦ elim (Bool-cases (m.code == code_req_ext)) [
      | inl more ↦ rw n (rw more (check_request-Noted _ _ (λ e. cc) (λ e. cc)))
      | inr n' ↦ rw n (rw n' (_, s.ttlcounter, refl, λ e. cc))
    ]
  ]

  recv_release-Noted :
      (m.code ≡ 0) × (m.ttl ≡ 0) × (m.netmask ≡ 0) × (m.ipaddr ≡ s.ip (s.addr p))
      → Noted s (recv_release m p s)
  unfolding recv_release read_ip
  recv_release-Noted (code, ttl, netmask, ipaddr) =
      let no_code : (m.code == 0) ≡ true = ground arith in
      let no_ttl : (m.ttl == 0) ≡ true = ground arith in
      let no_mask : (m.netmask == 0) ≡ true = ground arith in
      let same : (m.ipaddr == s.ip (s.addr p)) ≡ true = ground arith in
      rw (record_open s p h) (
        rw (==_of_ne (s.addr p) null h.1)
          (rw no_code (rw no_ttl (rw no_mask (rw same (release_ok, s.ttlcounter, refl, λ e. cc))))))

  pub get_event-Noted : IsPolite s p m → Noted s (get_event m p s)
  unfolding get_event
  get_event-Noted polite = elim (Bool-cases (m.type == type_discover)) [
    | inl d ↦ rw d recv_discover-Noted
    | inr n ↦ elim (Bool-cases (m.type == type_request)) [
      | inl r ↦ rw n (rw r recv_request-Noted)
      | inr n' ↦ elim (Bool-cases (m.type == type_release)) [
        | inl r ↦ rw n (rw n' (rw r (recv_release-Noted (polite (eq_of_== m.type type_release r)))))
        | inr n'' ↦ rw n (rw n' (rw n'' (no_event, s.ttlcounter, refl, λ e. cc)))
      ]
    ]
  ]
