-- ===== src/Dhcp/Server/Sender.antt =====
-- Whom the search for the sender of a message gives.
use unix_sys_prog.Base.{
  ℕ, ◌≡◌, ◌⊎◌, inl, inr, refl, true, false, List, [], ◌∷◌, ◌==◌, ◌∈◌, arith, Bool-cases, eq_of_==,
  sym,
}
use mathlib.Core.Path.{subst}
use unix_sys_prog.Ring.{Ptr}
use unix_sys_prog.Dhcp.Server.Store.{Server, client_h}
use unix_sys_prog.Dhcp.Server.Admission.{is_from, first_from}

-- Client `r` of the list, or the sentinel if there is none.
abbrev pub Whose : Server → ℕ → ℕ → List Ptr → Ptr → Type 0
Whose s from from_port cs r =
    (r ∈ cs) × (is_from s from from_port r ≡ true)
    ⊎ (r ≡ client_h) × ((p : Ptr) → p ∈ cs → is_from s from from_port p ≡ false)

module _ (s : Server) (from from_port : ℕ) where
  pub first_here :
      (x : Ptr) (xs : List Ptr)
      → is_from s from from_port x ≡ true
      → first_from s from from_port (x ∷ xs) ≡ x
  unfolding first_from
  first_here x xs here = rw here refl

  first_later :
      (x : Ptr) (xs : List Ptr)
      → is_from s from from_port x ≡ false
      → first_from s from from_port (x ∷ xs) ≡ first_from s from from_port xs
  unfolding first_from
  first_later x xs n = rw n refl

  missing_more :
      (x : Ptr) (xs : List Ptr)
      → is_from s from from_port x ≡ false
      → ((p : Ptr) → p ∈ xs → is_from s from from_port p ≡ false)
      → (p : Ptr) → p ∈ x ∷ xs
      → is_from s from from_port p ≡ false
  missing_more x xs n out p m = elim (Bool-cases (p == x)) [
    | inl same ↦ subst (λ a. is_from s from from_port a ≡ false) (sym (eq_of_== p x same)) n
    | inr other ↦ out p (ground arith)
  ]

  pub first_from-Whose :
      (cs : List Ptr) → Whose s from from_port cs (first_from s from from_port cs)
  unfolding first_from
  first_from-Whose [] = inr (refl, λ p m. cc)
  first_from-Whose (x ∷ xs) = elim (Bool-cases (is_from s from from_port x)) [
    | inl here ↦
        let self : x ∈ x ∷ xs = ground arith in
        subst (Whose s from from_port (x ∷ xs)) (sym (first_here x xs here)) (inl (self, here))
    | inr n ↦
        subst (Whose s from from_port (x ∷ xs)) (sym (first_later x xs n))
          (elim (first_from-Whose xs) [
            | inl (m, h) ↦ inl (ground arith, h)
            | inr (e, out) ↦ inr (e, missing_more x xs n out)
          ])
  ]
