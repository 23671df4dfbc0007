-- ===== src/Dhcp/Server/Timeouts.antt =====
-- One timeout of a client, and the clients that it leaves.
use unix_sys_prog.Base.{
  ◌≤◌, ◌<◌, ◌≡◌, ◌≢◌, ◌⊎◌, inl, inr, refl, Bool, true, false, List, [], ◌∷◌, ◌++◌, ◌==◌, ◌∈◌, erase,
  Distinct, arith, length, Bool-cases, eq_of_==, ok, ap, sym, ◌∙◌, mem-erase, not-mem-erase_self,
  length-erase, Run,
}
use mathlib.Core.Path.{subst}
use unix_sys_prog.Ring.{Ptr}
use unix_sys_prog.Dhcp.Server.Store.{Server, wait_req1, term, Event}
use unix_sys_prog.Dhcp.Server.Machine.{fsm_func, resend_offer, release_client}
use unix_sys_prog.Dhcp.Server.Lease.{IsServer}
use unix_sys_prog.Dhcp.Server.Change.{OthersKeep, client-Held, record_open}
use unix_sys_prog.Dhcp.Server.Actions.{release_client_lem, resend_offer-Outcome}
use unix_sys_prog.Dhcp.Server.Weight.{
  weight, total, IsTimeout, timeout_cases, total-change, total-erase,
}

-- No client of the list is in the last state.
abbrev pub Alive : Server → List Ptr → Type 0
Alive s cs = (p : Ptr) → p ∈ cs → s.stat p ≢ term

-- The server in order, with the clients `cs` and the free addresses `ps`.
abbrev pub InOrder : Server → List Ptr → List Ptr → List Ptr → Type 0
InOrder s all cs ps = IsServer s all cs ps × Alive s cs

module _ (s : Server) (all cs ps : List Ptr) (w : IsServer s all cs ps) (live : Alive s cs)
    (p : Ptr) (m : p ∈ cs) where
  -- A timeout that was handled makes the clients lighter, one by one or all together; one that was not
  -- leaves the list as it is.
  abbrev pub Fired : Run Server Bool → Type 0
  Fired run =
      (b : Bool) × (s' : Server) × (cs' : List Ptr) × (ps' : List Ptr) × (run ≡ ok b s')
      × InOrder s' all cs' ps'
      × (length cs' ≤ length cs)
      × ((b ≡ true) × (total s'.stat cs' < total s.stat cs)
          ⊎ (b ≡ false) × (cs' ≡ cs) × (total s'.stat cs' ≤ total s.stat cs))

  distinct : Distinct cs
  distinct = w.client_ring.nodup.1.1

  pub Alive-erase : (s' : Server) → OthersKeep s p s' → Alive s' (erase p cs)
  Alive-erase s' others r i e = elim (Bool-cases (r == p)) [
    | inl same ↦ absurd (ground (arith, not-mem-erase_self p cs distinct, eq_of_== r p same))
    | inr n ↦ live r (mem-erase r p cs i) (sym (others r n) ∙ e)
  ]

  release-Fired : 0 < weight (s.stat p) → Fired (release_client p s)
  release-Fired heavy =
      let (s', run, inv, others) = release_client_lem s all cs ps w p m in
      (
        true,
        s',
        erase p cs,
        ps ++ s.addr p ∷ [],
        run,
        (inv, Alive-erase s' others),
        omega (arith, length-erase p cs m),
        inl (refl, omega (arith, total-erase s.stat s'.stat p cs distinct m others, heavy)),
      )

  pub Alive-change : (s' : Server) → OthersKeep s p s' → s'.stat p ≢ term → Alive s' cs
  Alive-change s' others n r i e = elim (Bool-cases (r == p)) [
    | inl same ↦ n (subst (λ a. s'.stat a ≡ term) (eq_of_== r p same) e)
    | inr other ↦ live r i (sym (others r other) ∙ e)
  ]

  lighter :
      (b : Bool) (s' : Server)
      → total s'.stat cs < total s.stat cs
      → (b ≡ true) × (total s'.stat cs < total s.stat cs)
        ⊎ (b ≡ false) × (cs ≡ cs) × (total s'.stat cs ≤ total s.stat cs)
  lighter true s' lt = inl (refl, lt)
  lighter false s' lt = inr (refl, refl, omega (arith, lt))

  resend-Fired : s.stat p ≡ wait_req1 → Fired (resend_offer p s)
  resend-Fired here =
      let (b, s', run, outcome, others) = resend_offer-Outcome s all cs ps w p m in
      elim outcome [
        | inl (n, (now, inv)) ↦
            let sum = total-change s.stat s'.stat p cs distinct m others in
            let less : total s'.stat cs < total s.stat cs =
              omega (arith, sum, ap weight here, ap weight now) in
            (
              b,
              s',
              cs,
              ps,
              run,
              (inv, Alive-change s' others (λ e. n (sym now ∙ e))),
              omega arith,
              lighter b s' less,
            )
        | inr (e, gone) ↦ absurd (cc)
      ]

  -- `FSM_func` on a client of the list, for a timeout.
  pub timeout-Fired : (e : Event) → IsTimeout e → Fired (fsm_func p e s)
  unfolding fsm_func
  timeout-Fired e t =
      rw (record_open s p (client-Held s all cs ps w p m)) (elim (timeout_cases (s.stat p) e t) [
        | inl idle ↦
            rw idle (false, s, cs, ps, refl, (w, live), omega arith, inr (refl, refl, omega arith))
        | inr (inl (again, here)) ↦ rw again (resend-Fired here)
        | inr (inr (drop, heavy)) ↦ rw drop (release-Fired heavy)
      ])
