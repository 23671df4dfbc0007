-- ===== src/Buffer/Bits.antt =====
-- The laws of the status bits, by evaluation over every byte and every pair of masks.
use unix_sys_prog.Base.{
  ℕ, zero, suc, ◌<◌, ◌≤◌, ◌+◌, List, [], ◌∷◌, ◌≡◌, refl, Bool, true, false, not, ◌&&◌, arith, ◌==◌,
  ltb, if◌then◌else◌, ◌∈◌, every, every_sound,
}
use unix_sys_prog.Buffer.Status.{masks, test_bit, assign_bit}

-- The numbers from `k` on, `n` of them.
upward : ℕ → ℕ → List ℕ
upward zero k = []
upward (suc n) k = k ∷ upward n (suc k)

mem-upward : (n k x : ℕ) → k ≤ x → x < k + n → x ∈ upward n k
unfolding upward
mem-upward zero k x low high = absurd (omega arith)
mem-upward (suc n) k x low high = ground (arith, mem-upward n (suc k) x)

abbrev every_byte : (ℕ → Bool) → Bool
every_byte = every (upward 256 0)

agree : Bool → Bool → Bool
agree true b = b
agree false b = not b

agree_sound : (a b : Bool) → agree a b ≡ true → a ≡ b
unfolding agree
agree_sound a b h = ground arith

-- What setting the bit `m` of `s` to `v` shows under the mask `n`, and that it stays a byte.
law : ℕ → ℕ → Bool → ℕ → Bool
unfolding agree test_bit assign_bit
law m n v s =
    agree (test_bit (assign_bit s m v) n) (if m == n then v else test_bit s n)
    && ltb (assign_bit s m v) 256

table :
    every masks (λ m. every masks (λ n. every_byte (law m n true) && every_byte (law m n false)))
    ≡ true
unfolding every upward law
table = refl

law_table : (m n : ℕ) (v : Bool) → m ∈ masks → n ∈ masks → every_byte (law m n v) ≡ true
law_table m n true hm hn = ground (arith, every_sound masks _ n (every_sound masks _ m table hm) hn)
law_table m n false hm hn =
    ground (arith, every_sound masks _ n (every_sound masks _ m table hm) hn)

law_holds : (m n s : ℕ) (v : Bool) → m ∈ masks → n ∈ masks → s < 256 → law m n v s ≡ true
law_holds m n s v hm hn hs =
    let listed = mem-upward 256 0 s (omega arith) (omega arith) in
    every_sound (upward 256 0) (law m n v) s (law_table m n v hm hn) listed

pub test-assign :
    (m n s : ℕ) (v : Bool)
    → m ∈ masks
    → n ∈ masks
    → s < 256
    → test_bit (assign_bit s m v) n ≡ (if m == n then v else test_bit s n)
unfolding law
test-assign m n s v hm hn hs =
    agree_sound (test_bit (assign_bit s m v) n) (if m == n then v else test_bit s n)
      (ground (arith, law_holds m n s v hm hn hs))

pub assign_byte : (m s : ℕ) (v : Bool) → m ∈ masks → s < 256 → assign_bit s m v < 256
unfolding law
assign_byte m s v hm hs = ground (arith, law_holds m m s v hm hm hs)
