-- ===== src/Base/Pigeonhole.antt =====
-- A list of distinct numbers from a range is no longer than the range.
use Prim.Native.Nat.{ℕ, zero, suc, ◌+◌, ◌≤◌, ◌<◌}
use mathlib.Core.Path.{◌≡◌}
use mathlib.Core.Logic.{inl, inr}
use mathlib.Core.List.{List, [], ◌∷◌}
use native.Mathlib.Omega.{arith}
use unix_sys_prog.Base.Tests.{Bool-cases}
use unix_sys_prog.Base.Lists.{length, has, ◌∈◌, Distinct, erase, Distinct-erase, not-mem-erase_self}

pub mem-erase : (a p : ℕ) (xs : List ℕ) → a ∈ erase p xs → a ∈ xs
mem-erase a p [] m = m
mem-erase a p (x ∷ xs) m = ground (arith, mem-erase a p xs)

pub length-erase : (p : ℕ) (xs : List ℕ) → p ∈ xs → length xs ≡ suc (length (erase p xs))
length-erase p [] m = cc
length-erase p (x ∷ xs) m = ground (arith, length-erase p xs)

pub length-le_range :
    (n lo : ℕ) (xs : List ℕ)
    → Distinct xs
    → ((a : ℕ) → a ∈ xs → (lo ≤ a) × (a < lo + n))
    → length xs ≤ n
length-le_range zero lo [] d r = omega arith
length-le_range zero lo (x ∷ xs) d r = absurd (ground (arith, r x))
length-le_range (suc n) lo xs d r = elim (Bool-cases (has (lo + n) xs)) [
  | inl m ↦
      let shorter =
        length-le_range n lo (erase (lo + n) xs) (Distinct-erase (lo + n) xs d)
          (λ a i. ground (arith, r a, mem-erase a (lo + n) xs, not-mem-erase_self (lo + n) xs d)) in
      omega (arith, length-erase (lo + n) xs m, shorter)
  | inr o ↦
      let shorter = length-le_range n lo xs d (λ a i. ground (arith, r a)) in omega (arith, shorter)
]
