-- ===== src/Dhcp/Server/Weight.antt =====
-- A measure of the clients, for the loops that look for timeouts.
use unix_sys_prog.Base.{
  ℕ, ◌+◌, ◌<◌, ◌≡◌, ◌⊎◌, inl, inr, refl, false, List, [], ◌∷◌, ◌==◌, ◌∈◌, ◌∉◌, erase, Distinct,
  arith, Bool-cases, eq_of_==, pure, ap,
}
use unix_sys_prog.Ring.{Ptr}
use unix_sys_prog.Dhcp.Server.Store.{
  State, wait_req1, wait_req2, in_use, term, Event, req_timeout, ttl_timeout,
}
use unix_sys_prog.Dhcp.Server.Machine.{dispatch, resend_offer, release_client}

-- How many timeouts a client can still have.
abbrev pub weight : State → ℕ
weight term = 0
weight wait_req1 = 2
weight _ = 1

abbrev pub total : (Ptr → State) → List Ptr → ℕ
total stat [] = 0
total stat (p ∷ ps) = weight (stat p) + total stat ps

abbrev pub IsTimeout : Event → Type 0
IsTimeout e = (e ≡ ttl_timeout) ⊎ (e ≡ req_timeout)

-- A timeout does nothing, or the offer is sent again, or the client is dropped.
pub timeout_cases :
    (st : State) (e : Event)
    → IsTimeout e
    → (dispatch st e ≡ (λ p s. pure false s))
      ⊎ (dispatch st e ≡ resend_offer) × (st ≡ wait_req1)
      ⊎ (dispatch st e ≡ release_client) × (0 < weight st)
unfolding dispatch
timeout_cases in_use ttl_timeout t = inr (inr (refl, omega arith))
timeout_cases wait_req1 req_timeout t = inr (inl (refl, refl))
timeout_cases wait_req2 req_timeout t = inr (inr (refl, omega arith))
timeout_cases st ttl_timeout t = inl refl
timeout_cases st req_timeout t = inl refl
timeout_cases st e (inl t) = cc
timeout_cases st e (inr t) = cc

total_same :
    (st st' : Ptr → State) (p : Ptr) (cs : List Ptr)
    → p ∉ cs
    → ((r : Ptr) → (r == p) ≡ false → st' r ≡ st r)
    → total st' cs ≡ total st cs
total_same st st' p [] o k = refl
total_same st st' p (x ∷ xs) o k =
    omega (arith, total_same st st' p xs (ground arith) k, ap weight (k x (ground arith)))

-- One client changes its state.
pub total-change :
    (st st' : Ptr → State) (p : Ptr) (cs : List Ptr)
    → Distinct cs
    → p ∈ cs
    → ((r : Ptr) → (r == p) ≡ false → st' r ≡ st r)
    → total st' cs + weight (st p) ≡ total st cs + weight (st' p)
total-change st st' p [] d m k = cc
total-change st st' p (x ∷ xs) d m k = elim (Bool-cases (p == x)) [
  | inl e ↦
      let same : p ≡ x = eq_of_== p x e in
      omega (
        arith,
        ap (λ a. weight (st a)) same,
        ap (λ a. weight (st' a)) same,
        total_same st st' p xs (rw same d.0) k,
      )
  | inr n ↦
      let rest = total-change st st' p xs d.1 (ground arith) k in
      omega (arith, rest, ap weight (k x (ground arith)))
]

-- One client goes.
pub total-erase :
    (st st' : Ptr → State) (p : Ptr) (cs : List Ptr)
    → Distinct cs
    → p ∈ cs
    → ((r : Ptr) → (r == p) ≡ false → st' r ≡ st r)
    → total st' (erase p cs) + weight (st p) ≡ total st cs
total-erase st st' p [] d m k = cc
total-erase st st' p (x ∷ xs) d m k = elim (Bool-cases (p == x)) [
  | inl e ↦
      let same : p ≡ x = eq_of_== p x e in
      rw e (omega (arith, ap (λ a. weight (st a)) same, total_same st st' p xs (rw same d.0) k))
  | inr n ↦
      let rest = total-erase st st' p xs d.1 (ground arith) k in
      rw n (omega (arith, rest, ap weight (k x (ground arith))))
]
