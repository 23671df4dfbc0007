-- ===== src/Dhcp/Server/Tick.antt =====
-- A tick of the clock: every client counts down its seconds.
use unix_sys_prog.Base.{
  ℕ, zero, suc, ◌+◌, crash, update, ◌-◌, ◌<◌, ◌≡◌, refl, false, List, [], ◌∷◌, ◌++◌, ◌∈◌, ◌==◌,
  arith, length, Bool-cases, inl, inr, ok, pure, ◌∙◌, Run, ==_of_ne, has-append, has, ◌∉◌,
  if◌then◌else◌, ap, sym, eq_of_==, Distinct,
}
use mathlib.Core.Path.{subst}
use unix_sys_prog.Ring.{Ptr, null, Link, read_fp}
use unix_sys_prog.Dhcp.Message.{Received, bad_index, nothing, unknown, arrived, get_msg}
use unix_sys_prog.Dhcp.Counter.{Counter, decrement}
use unix_sys_prog.Dhcp.Server.Store.{
  Server, S, State, unset, init, wait_req1, wait_req2, in_use, term, client_h, unknown_msg, read_ip,
  write_ttl, write_tout,
}
use unix_sys_prog.Dhcp.Server.Loop.{
  alarms_arrive, sigalrm_handler, Input, round, expire, handle, run_event, tick_client, tick_from,
  tick, decrement_ttl, decrement_tout,
}
use unix_sys_prog.Dhcp.Server.Change.{Held, record_open, client-Held}
use unix_sys_prog.Dhcp.Server.Lease.{IsServer}
use unix_sys_prog.Dhcp.Server.Expire.{first, first-Link, next-Link, append_one}

-- The server with other counters.
abbrev pub with_counters : Server → (Ptr → Counter) → (Ptr → Counter) → Server
with_counters s t u = record s { tout = t; ttl = u }

-- The lease of a client in use counts down, and the time to wait for a request of one that waits.
abbrev pub ttl_after : State → Counter → Counter
ttl_after in_use c = decrement c
ttl_after _ c = c

abbrev pub tout_after : State → Counter → Counter
tout_after wait_req1 c = decrement c
tout_after wait_req2 c = decrement c
tout_after _ c = c

-- The counters `t` and `u` are those of the server `s`, with the clients `cs` one second later.
pub record IsTicked (s : Server) (cs : List Ptr) (t u : Ptr → Counter) : Type 0 where
  pub tout : (p : Ptr) → t p ≡ (if has p cs then tout_after (s.stat p) (s.tout p) else s.tout p)
  pub ttl : (p : Ptr) → u p ≡ (if has p cs then ttl_after (s.stat p) (s.ttl p) else s.ttl p)

-- The run ended, and changed only the counters, as a second does to the clients `cs`.
abbrev Ticks : Server → List Ptr → Run Server (Unit {0}) → Type 0
Ticks s cs run =
    (t : Ptr → Counter) × (u : Ptr → Counter) × (run ≡ ok tt (with_counters s t u))
    × IsTicked s cs t u

-- The new value at one place, that is the old one, changes nothing.
one_place : (f : Ptr → Counter) (p q : Ptr) → f q ≡ (if has q (p ∷ []) then f q else f q)
one_place f p q = elim (Bool-cases (q == p)) [ inl y ↦ rw y refl | inr n ↦ rw n refl ]

at_place :
    (f : Ptr → Counter) (p q : Ptr) (c : Counter → Counter)
    → update f p (c (f p)) q ≡ (if has q (p ∷ []) then c (f q) else f q)
at_place f p q c = elim (Bool-cases (q == p)) [
  | inl y ↦ rw y (ap (λ r. c (f r)) (sym (eq_of_== q p y)))
  | inr n ↦ rw n refl
]

decrement_ttl-Ticks :
    (s : Server) (p : Ptr)
    → Held s p
    → decrement_ttl p s ≡ ok tt (record s { ttl = update s.ttl p (decrement (s.ttl p)) })
unfolding decrement_ttl write_ttl read_ip
decrement_ttl-Ticks s p h = simp (record_open s p h, ==_of_ne (s.addr p) null h.1)

decrement_tout-Ticks :
    (s : Server) (p : Ptr)
    → Held s p
    → decrement_tout p s ≡ ok tt (record s { tout = update s.tout p (decrement (s.tout p)) })
unfolding decrement_tout write_tout read_ip
decrement_tout-Ticks s p h = simp (record_open s p h, ==_of_ne (s.addr p) null h.1)

-- What a tick does to a client, by its state.
abbrev tick_state : Ptr → State → S (Unit {0})
tick_state p st = elim st [
  | in_use ↦ decrement_ttl p
  | wait_req1 ↦ decrement_tout p
  | wait_req2 ↦ decrement_tout p
  | _ ↦ pure tt
]

-- As `Ticks`, for one client in the state `st`.
abbrev TicksOne : Server → Ptr → State → Run Server (Unit {0}) → Type 0
TicksOne s p st run =
    (t : Ptr → Counter) × (u : Ptr → Counter) × (run ≡ ok tt (with_counters s t u))
    × ((q : Ptr) → t q ≡ (if has q (p ∷ []) then tout_after st (s.tout q) else s.tout q))
    × ((q : Ptr) → u q ≡ (if has q (p ∷ []) then ttl_after st (s.ttl q) else s.ttl q))

tick_state-Ticks :
    (s : Server) (p : Ptr) (st : State) → Held s p → TicksOne s p st (tick_state p st s)
tick_state-Ticks s p in_use h =
    (_, _, decrement_ttl-Ticks s p h, one_place s.tout p, λ q. at_place s.ttl p q decrement)
tick_state-Ticks s p wait_req1 h =
    (_, _, decrement_tout-Ticks s p h, (λ q. at_place s.tout p q decrement), one_place s.ttl p)
tick_state-Ticks s p wait_req2 h =
    (_, _, decrement_tout-Ticks s p h, (λ q. at_place s.tout p q decrement), one_place s.ttl p)
tick_state-Ticks s p unset h = (s.tout, s.ttl, refl, one_place s.tout p, one_place s.ttl p)
tick_state-Ticks s p init h = (s.tout, s.ttl, refl, one_place s.tout p, one_place s.ttl p)
tick_state-Ticks s p term h = (s.tout, s.ttl, refl, one_place s.tout p, one_place s.ttl p)

tick_client-Ticks : (s : Server) (p : Ptr) → Held s p → TicksOne s p (s.stat p) (tick_client p s)
unfolding tick_client
tick_client-Ticks s p h = rw (record_open s p h) (tick_state-Ticks s p (s.stat p) h)

-- One client, and then the others, are all of them.
one_more :
    (f f1 f2 : Ptr → Counter) (after : State → Counter → Counter) (stat : Ptr → State) (x : Ptr)
    (rest : List Ptr)
    → x ∉ rest
    → ((q : Ptr) → f1 q ≡ (if has q (x ∷ []) then after (stat x) (f q) else f q))
    → ((q : Ptr) → f2 q ≡ (if has q rest then after (stat q) (f1 q) else f1 q))
    → (q : Ptr) → f2 q ≡ (if has q (x ∷ rest) then after (stat q) (f q) else f q)
one_more f f1 f2 after stat x rest out first_step later q = elim (Bool-cases (q == x)) [
  | inl y ↦
      let e : q ≡ x = eq_of_== q x y in
      let no_more : has q rest ≡ false = rw e out in
      later q ∙ rw no_more (first_step q ∙ rw y (ap (λ r. after (stat r) (f q)) (sym e)))
  | inr n ↦ let same : f1 q ≡ f q = first_step q ∙ rw n refl in later q ∙ rw same (rw n refl)
]

tick_from-Ticks :
    (fuel : ℕ) (all : List Ptr) (rest done : List Ptr) (s : Server) (cs ps : List Ptr)
    → IsServer s all cs ps
    → cs ≡ done ++ rest
    → Distinct rest
    → length rest < fuel
    → Ticks s rest (tick_from fuel (first rest) s)
unfolding tick_from read_fp
tick_from-Ticks zero all rest done s cs ps w c d f = absurd (omega arith)
tick_from-Ticks (suc fuel) all [] done s cs ps w c d f =
    (s.tout, s.ttl, refl, record { tout = λ p. refl; ttl = λ p. refl })
tick_from-Ticks (suc fuel) all (x ∷ rest) done s cs ps w c d f =
    let m : x ∈ cs = rw c (ground (arith, has-append x done (x ∷ rest))) in
    let at : (x == client_h) ≡ false = ground (arith, w.client_ring.nodup) in
    let ok_x : (x == null) ≡ false = ground (arith, w.client_ring.nodup) in
    let (t, u, step, tout1, ttl1) = tick_client-Ticks s x (client-Held s all cs ps w x m) in
    let on : s.clients.fp x ≡ first rest =
      next-Link s.clients client_h x done rest
        (subst (λ l. Link s.clients client_h l client_h) c w.client_ring.link) in
    let (t', u', run', later) =
      tick_from-Ticks fuel all rest (done ++ x ∷ []) (with_counters s t u) cs ps w
        (c ∙ append_one done rest x) d.1 (omega (arith, f)) in
    (
      t',
      u',
      rw at (rw step rw ok_x (rw on run')),
      record {
        tout = one_more s.tout t t' tout_after s.stat x rest d.0 tout1 later.tout;
        ttl = one_more s.ttl u u' ttl_after s.stat x rest d.0 ttl1 later.ttl;
      },
    )

-- Nothing was due, or one second passed for the clients, and one tick less is due.
pub tick-Ticks :
    (fuel : ℕ) (s : Server) (all cs ps : List Ptr)
    → IsServer s all cs ps
    → length cs < fuel
    → (t : Ptr → Counter) × (u : Ptr → Counter) × (tick fuel s
        ≡ ok tt (record (with_counters s t u) { alarm_flag = s.alarm_flag - 1 }))
      × IsTicked s (if s.alarm_flag == 0 then [] else cs) t u
unfolding tick read_fp
tick-Ticks fuel s all cs ps w f = elim (Bool-cases (s.alarm_flag == 0)) [
  | inl none_left ↦ (
    s.tout,
    s.ttl,
    rw none_left (
        ap (λ a. ok tt (record s { alarm_flag = a }))
          (omega (arith, eq_of_== s.alarm_flag 0 none_left))),
    rw none_left (record { tout = λ p. refl; ttl = λ p. refl }),
  )
  | inr late ↦
      let (t, u, run, ticked) =
        tick_from-Ticks fuel all cs [] s cs ps w refl w.client_ring.nodup.1.1 f in
      (
        t,
        u,
        rw late (rw (first-Link s.clients client_h cs w.client_ring.link) (rw run refl)),
        rw late ticked,
      )
]

alarms_arrive-count :
    (n : ℕ) (s : Server) → alarms_arrive n s ≡ ok tt (record s { alarm_flag = s.alarm_flag + n })
unfolding alarms_arrive sigalrm_handler
alarms_arrive-count zero s = ap (λ a. ok tt (record s { alarm_flag = a })) (omega arith)
alarms_arrive-count (suc n) s =
    alarms_arrive-count n (record s { alarm_flag = s.alarm_flag + 1 })
    ∙ ap (λ a. ok tt (record s { alarm_flag = a })) (omega arith)

-- What a round does with the datagram, after the clock.
abbrev pub react : ℕ → Input → Received → S (Unit {0})
react fuel i bad_index = crash
react fuel i nothing = expire fuel
react fuel i unknown = run_event unknown_msg
react fuel i (arrived m) = handle fuel i m

abbrev pub after_tick : Server → Input → (Ptr → Counter) → (Ptr → Counter) → Server
after_tick s i t u = record (with_counters s t u) { alarm_flag = s.alarm_flag + i.alarms - 1 }

-- A round is what it does with the datagram, on a server whose clock ticked if a tick is due.
abbrev pub TicksThen : ℕ → Input → Server → List Ptr → Type 0
TicksThen fuel i s cs =
    (t : Ptr → Counter) × (u : Ptr → Counter) × IsTicked s
      (if s.alarm_flag + i.alarms == 0 then [] else cs) t u
    × (round fuel i s ≡ react fuel i (get_msg i.datagram) (after_tick s i t u))

-- The cases of `get_msg`, behind the alarms and the tick.
round-react :
    (fuel : ℕ) (i : Input) (s late s' : Server)
    → alarms_arrive i.alarms s ≡ ok tt late
    → tick fuel late ≡ ok tt s'
    → (r : Received) → get_msg i.datagram ≡ r
    → round fuel i s ≡ react fuel i (get_msg i.datagram) s'
unfolding round
round-react fuel i s late s' a run bad_index e = rw (a, round) (rw e refl)
round-react fuel i s late s' a run nothing e = rw (a, round) (rw e (rw run refl))
round-react fuel i s late s' a run unknown e = rw (a, round) (rw e (rw run refl))
round-react fuel i s late s' a run (arrived m) e = rw (a, round) (rw e (rw run refl))

pub round-TicksThen :
    (fuel : ℕ) (i : Input) (s : Server) (all cs ps : List Ptr)
    → IsServer s all cs ps
    → length cs < fuel
    → TicksThen fuel i s cs
round-TicksThen fuel i s all cs ps w f =
    let late : Server = record s { alarm_flag = s.alarm_flag + i.alarms } in
    let (t, u, run, ticked) = tick-Ticks fuel late all cs ps w f in
    (
      t,
      u,
      record { tout = ticked.tout; ttl = ticked.ttl },
      round-react fuel i s late (after_tick s i t u) (alarms_arrive-count i.alarms s) run
          (get_msg i.datagram) refl,
    )
