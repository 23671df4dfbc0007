-- ===== src/Dhcp/Server/Finish.antt =====
-- The end of the server: the loop of `main` that releases every client.
use unix_sys_prog.Base.{
  ℕ, zero, suc, ◌<◌, ◌≡◌, refl, true, false, ◌==◌, List, [], ◌∷◌, ◌++◌, ◌∈◌, erase_head, ok, arith,
  length, Run, ap, ◌∙◌, ==_of_ne,
}
use mathlib.Core.Path.{subst}
use unix_sys_prog.Ring.{Ptr, null, read_fp}
use unix_sys_prog.Dhcp.Server.Store.{Server, client_h, read_ip}
use unix_sys_prog.Dhcp.Server.Machine.{release_client}
use unix_sys_prog.Dhcp.Server.Loop.{release_all}
use unix_sys_prog.Dhcp.Server.Lease.{IsServer}
use unix_sys_prog.Dhcp.Server.Change.{Held, client-Held, record_open}
use unix_sys_prog.Dhcp.Server.Actions.{release_client_lem}

-- No client is left, and every address is free.
abbrev pub Released : List Ptr → Run Server (Unit {0}) → Type 0
Released all run = (s' : Server) × (ps' : List Ptr) × (run ≡ ok tt s') × IsServer s' all [] ps'

-- A round of the loop, which starts again at the head of the list.
release_round :
    (fuel p : ℕ) (s s1 : Server)
    → (p == client_h) ≡ false
    → Held s p
    → release_client p s ≡ ok true s1
    → release_all (suc fuel) p s ≡ release_all fuel (s1.clients.fp client_h) s1
unfolding release_all read_ip read_fp
release_round fuel p s s1 other held run =
    rw other (rw (record_open s p held) (rw (==_of_ne (s.addr p) null held.1) (rw run refl)))

-- The loop ends, without a fault, with no client left and every address free. The fuel is above the
-- number of clients.
pub release_all-Released :
    (fuel : ℕ) (s : Server) (all cs ps : List Ptr)
    → IsServer s all cs ps
    → length cs < fuel
    → Released all (release_all fuel (s.clients.fp client_h) s)
unfolding release_all
release_all-Released zero s all cs ps w f = absurd (omega arith)
release_all-Released (suc fuel) s all [] ps w f =
    let none_left = ap (λ p. release_all (suc fuel) p s) (w.client_ring.link.0) in
    (s, ps, none_left ∙ refl, w)
release_all-Released (suc fuel) s all (x ∷ rest) ps w f =
    let m : x ∈ x ∷ rest = ground arith in
    let other : (x == client_h) ≡ false = ground (arith, w.client_ring.nodup) in
    let (s1, run, inv, others) = release_client_lem s all (x ∷ rest) ps w x m in
    let inv1 : IsServer s1 all rest (ps ++ s.addr x ∷ []) =
      subst (λ ys. IsServer s1 all ys (ps ++ s.addr x ∷ [])) (erase_head x rest) inv in
    let (s2, ps2, run2, inv2) =
      release_all-Released fuel s1 all rest (ps ++ s.addr x ∷ []) inv1 (omega (arith, f)) in
    let head = ap (λ p. release_all (suc fuel) p s) (w.client_ring.link.0) in
    let held = client-Held s all (x ∷ rest) ps w x m in
    (s2, ps2, head ∙ release_round fuel x s s1 other held run ∙ run2, inv2)
