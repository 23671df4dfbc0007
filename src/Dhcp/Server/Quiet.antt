-- ===== src/Dhcp/Server/Quiet.antt =====
-- The two loops over the client list that `main` runs when no message came, one after the other.
use unix_sys_prog.Base.{
  ℕ, ◌+◌, ◌*◌, ◌≤◌, ◌<◌, ◌≡◌, refl, Bool, List, [], ◌∷◌, arith, length, Bool-cases, inl, inr, ok,
  fault, out_of_fuel, Cmd, and_then, ap, ◌∙◌, Run, ◌>>=◌, ==_of_ne,
}
use unix_sys_prog.Ring.{Ptr, null, read_fp}
use unix_sys_prog.Dhcp.Counter.{expired}
use unix_sys_prog.Dhcp.Server.Store.{
  Server, S, State, unset, init, wait_req1, wait_req2, in_use, term, Event, req_timeout,
  ttl_timeout, client_h, on_clients, read_ip,
}
use unix_sys_prog.Dhcp.Server.Loop.{expire_from, expire, ttl_due, tout_due}
use unix_sys_prog.Dhcp.Server.Change.{record_open}
use unix_sys_prog.Dhcp.Server.Weight.{weight, total, IsTimeout}
use unix_sys_prog.Dhcp.Server.Timeouts.{InOrder}
use unix_sys_prog.Dhcp.Server.Expire.{first-Link, Reads, Ends, expire_from-Ends}

ttl_due-Reads : Reads ttl_due
unfolding ttl_due
ttl_due-Reads s p h = (expired (s.ttl p), rw (record_open s p h) refl)

tout_due-Reads : Reads tout_due
unfolding tout_due read_ip
tout_due-Reads s p h = (
  expired (s.tout p),
  elim (Bool-cases (expired (s.tout p))) [
    | inl y ↦ simp (record_open s p h, y, ==_of_ne (s.addr p) null h.1)
    | inr n ↦ simp (record_open s p h, n)
  ],
)

weight_le : (st : State) → weight st ≤ 2
weight_le unset = omega arith
weight_le init = omega arith
weight_le wait_req1 = omega arith
weight_le wait_req2 = omega arith
weight_le in_use = omega arith
weight_le term = omega arith

total_le : (stat : Ptr → State) (cs : List Ptr) → total stat cs ≤ 2 * length cs
total_le stat [] = omega arith
total_le stat (p ∷ ps) = omega (arith, weight_le (stat p), total_le stat ps)

-- Fuel that is enough for a loop over `n` clients, each with two timeouts before it.
abbrev pub enough : ℕ → ℕ
enough n = 2 * n * (n + 1) + n

pub mul_le : (a b c : ℕ) → a ≤ b → a * c ≤ b * c
mul_le a b c le = grind arith

enough_fuel : (v n k fuel : ℕ) → v ≤ 2 * k → k ≤ n → enough n < fuel → v * (n + 1) + k < fuel
enough_fuel v n k fuel a b f =
    let scaled : v * (n + 1) ≤ 2 * n * (n + 1) = mul_le v (2 * n) (n + 1) (omega arith) in
    omega (arith, scaled)

module _ (due : Ptr → S Bool) (reads : Reads due) (e : Event) (t : IsTimeout e) where
  loop-Ends :
      (n fuel : ℕ) (s : Server) (all cs ps : List Ptr)
      → InOrder s all cs ps
      → length cs ≤ n
      → enough n < fuel
      → Ends all cs ((on_clients (read_fp client_h) >>= expire_from due e fuel) s)
  unfolding read_fp
  loop-Ends n fuel s all cs ps (w, live) le f =
      rw (first-Link s.clients client_h cs w.client_ring.link) (
        expire_from-Ends due reads e t all n fuel cs [] s cs ps (w, live) refl le
          (enough_fuel (total s.stat cs) n (length cs) fuel (total_le s.stat cs) le f))

module _ {S A B C : Type 0} where
  bind_assoc :
      (r : Run S A) (f : A → Cmd S B) (g : B → Cmd S C)
      → and_then r (λ a. f a >>= g) ≡ and_then (and_then r f) g
  bind_assoc (ok a s) f g = refl
  bind_assoc fault f g = refl
  bind_assoc out_of_fuel f g = refl

-- The two loops, one after the other.
pub expire-Ends :
    (fuel : ℕ) (s : Server) (all cs ps : List Ptr)
    → InOrder s all cs ps
    → enough (length cs) < fuel
    → Ends all cs (expire fuel s)
unfolding expire
expire-Ends fuel s all cs ps o f =
    let (s1, cs1, ps1, run1, o1, len1) =
      loop-Ends ttl_due ttl_due-Reads ttl_timeout (inl refl) (length cs) fuel s all cs ps o
        (omega arith) f in
    let (s2, cs2, ps2, run2, o2, len2) =
      loop-Ends tout_due tout_due-Reads req_timeout (inr refl) (length cs) fuel s1 all cs1 ps1 o1
        len1 f in
    (
      s2,
      cs2,
      ps2,
      bind_assoc (on_clients (read_fp client_h) s) (expire_from ttl_due ttl_timeout fuel)
            (λ _. on_clients (read_fp client_h) >>= expire_from tout_due req_timeout fuel)
          ∙ ap
              (λ r.
                and_then r
                  (λ _. on_clients (read_fp client_h) >>= expire_from tout_due req_timeout fuel))
              run1
          ∙ run2,
      o2,
      omega (arith, len1, len2),
    )
