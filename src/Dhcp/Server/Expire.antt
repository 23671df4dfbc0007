-- ===== src/Dhcp/Server/Expire.antt =====
-- The loops of `main` over the client list, for a timeout.
use unix_sys_prog.Base.{
  ℕ, zero, suc, ◌+◌, ◌*◌, ◌≤◌, ◌<◌, ◌≡◌, inl, inr, refl, Bool, true, false, List, [], ◌∷◌, ◌++◌,
  ◌==◌, if◌then◌else◌, ◌∈◌, arith, length, Bool-cases, ok, ap, ◌∙◌, Run, has-append,
}
use mathlib.Core.Path.{subst}
use unix_sys_prog.Ring.{Ptr, null, Links, Link, read_fp}
use unix_sys_prog.Dhcp.Server.Store.{Server, S, Event, client_h}
use unix_sys_prog.Dhcp.Server.Machine.{fsm_func}
use unix_sys_prog.Dhcp.Server.Loop.{expire_from}
use unix_sys_prog.Dhcp.Server.Change.{Held, client-Held}
use unix_sys_prog.Dhcp.Server.Weight.{total, IsTimeout}
use unix_sys_prog.Dhcp.Server.Timeouts.{InOrder, timeout-Fired}

-- The first record of a list, or the sentinel.
abbrev pub first : List Ptr → Ptr
first [] = client_h
first (x ∷ xs) = x

pub first-Link : (l : Links) (a : Ptr) (xs : List Ptr) → Link l a xs client_h → l.fp a ≡ first xs
first-Link l a [] k = k.0
first-Link l a (x ∷ xs) k = k.0

pub next-Link :
    (l : Links) (a x : Ptr) (done rest : List Ptr)
    → Link l a (done ++ x ∷ rest) client_h
    → l.fp x ≡ first rest
next-Link l a x [] rest k = first-Link l x rest k.2
next-Link l a x (y ∷ done) rest k = next-Link l y x done rest k.2

pub append_one : (done rest : List Ptr) (x : Ptr) → done ++ x ∷ rest ≡ (done ++ x ∷ []) ++ rest
append_one [] rest x = refl
append_one (y ∷ done) rest x = ap (◌∷◌ y) (append_one done rest x)

module _ (due : Ptr → S Bool) (e : Event) (fuel : ℕ) (x : Ptr) (s : Server)
    (at : (x == client_h) ≡ false) (ok_x : (x == null) ≡ false) where
  expire_skip :
      due x s ≡ ok false s
      → expire_from due e (suc fuel) x s ≡ expire_from due e fuel (s.clients.fp x) s
  unfolding expire_from read_fp
  expire_skip d = rw at (rw d (rw ok_x refl))

  expire_fire :
      (again : Bool) (s1 : Server)
      → due x s ≡ ok true s
      → fsm_func x e s ≡ ok again s1
      → expire_from due e (suc fuel) x s
        ≡ expire_from due e fuel (s1.clients.fp (if again then client_h else x)) s1
  unfolding expire_from read_fp
  expire_fire true s1 d f = rw at (rw d (rw f refl))
  expire_fire false s1 d f = rw at (rw d (rw f (rw ok_x refl)))

less_weight :
    (v v' b n k fuel : ℕ) → v' < v → n ≤ b → v * (b + 1) + k < suc fuel → v' * (b + 1) + n < fuel
less_weight v v' b n k fuel lt le f = grind arith

-- A test of a record that reads it and changes nothing.
abbrev pub Reads : (Ptr → S Bool) → Type 0
Reads due = (s : Server) (p : Ptr) → Held s p → (b : Bool) × (due p s ≡ ok b s)

-- The loop ran to its end, with no more clients than before.
abbrev pub Ends : List Ptr → List Ptr → Run Server (Unit {0}) → Type 0
Ends all cs run =
    (s' : Server) × (cs' : List Ptr) × (ps' : List Ptr) × (run ≡ ok tt s')
    × InOrder s' all cs' ps'
    × (length cs' ≤ length cs)

pub Ends-shorter :
    (all cs' cs : List Ptr) (run : Run Server (Unit {0}))
    → length cs' ≤ length cs
    → Ends all cs' run
    → Ends all cs run
Ends-shorter all cs' cs run le (s', cs'', ps', r, o, len) =
    (s', cs'', ps', r, o, omega (arith, len))

same_or_lighter :
    (v v' b k fuel : ℕ) → v' ≤ v → v * (b + 1) + suc k < suc fuel → v' * (b + 1) + k < fuel
same_or_lighter v v' b k fuel le f = grind arith

module _ (due : Ptr → S Bool) (reads : Reads due) (e : Event) (t : IsTimeout e) (all : List Ptr)
    (bound : ℕ) where
  pub expire_from-Ends :
      (fuel : ℕ) (rest done : List Ptr) (s : Server) (cs ps : List Ptr)
      → InOrder s all cs ps
      → cs ≡ done ++ rest
      → length cs ≤ bound
      → total s.stat cs * (bound + 1) + length rest < fuel
      → Ends all cs (expire_from due e fuel (first rest) s)
  unfolding expire_from
  expire_from-Ends zero rest done s cs ps o c le f = absurd (omega arith)
  expire_from-Ends (suc fuel) [] done s cs ps o c le f = (s, cs, ps, refl, o, omega arith)
  expire_from-Ends (suc fuel) (x ∷ rest) done s cs ps (w, live) c le f =
      let m : x ∈ cs = rw c (ground (arith, has-append x done (x ∷ rest))) in
      let at : (x == client_h) ≡ false = ground (arith, w.client_ring.nodup) in
      let ok_x : (x == null) ≡ false = ground (arith, w.client_ring.nodup) in
      let after = c ∙ append_one done rest x in
      let (late, read) = reads s x (client-Held s all cs ps w x m) in
      elim (Bool-cases late) [
        | inl y ↦
            let now = read ∙ ap (λ b. ok b s) y in
            let (again, s1, cs1, ps1, run, (w1, live1), len, how) =
              timeout-Fired s all cs ps w live x m e t in
            elim how [
              | inl (handled, lt) ↦
                  let fired =
                    expire_fire due e fuel x s at ok_x true s1 now
                      (run ∙ ap (λ b. ok b s1) handled) in
                  rw fired (
                    rw (first-Link s1.clients client_h cs1 w1.client_ring.link) (
                      Ends-shorter all cs1 cs _ len (
                        expire_from-Ends fuel cs1 [] s1 cs1 ps1 (w1, live1) refl
                          (omega (arith, len))
                          (less_weight (total s.stat cs) (total s1.stat cs1) bound (length cs1)
                            (suc (length rest)) fuel lt (omega (arith, len)) f))))
              | inr (unhandled, same, lt) ↦
                  let fired =
                    expire_fire due e fuel x s at ok_x false s1 now
                      (run ∙ ap (λ b. ok b s1) unhandled) in
                  let on : s1.clients.fp x ≡ first rest =
                    next-Link s1.clients client_h x done rest (
                      subst (λ l. Link s1.clients client_h l client_h) (same ∙ c)
                        w1.client_ring.link) in
                  rw fired (
                    rw on (
                      Ends-shorter all cs1 cs _ len (
                        expire_from-Ends fuel rest (done ++ x ∷ []) s1 cs1 ps1 (w1, live1)
                          (same ∙ after) (omega (arith, len))
                          (same_or_lighter (total s.stat cs) (total s1.stat cs1) bound (length rest)
                            fuel lt f))))
            ]
        | inr n ↦
            let on : s.clients.fp x ≡ first rest =
              next-Link s.clients client_h x done rest
                (subst (λ l. Link s.clients client_h l client_h) c w.client_ring.link) in
            rw (expire_skip due e fuel x s at ok_x (read ∙ ap (λ b. ok b s) n)) (
              rw on (
                expire_from-Ends fuel rest (done ++ x ∷ []) s cs ps (w, live) after le
                  (omega (arith, f))))
      ]
