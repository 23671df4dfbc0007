-- ===== src/Dhcp/Counter.antt =====
-- The counters of seconds in both programs of mydhcp/.
use unix_sys_prog.Base.{ℕ, zero, suc, leb, Bool, true, false}

-- A counter of seconds, an `int` that is only set, decremented and compared with 0.
pub data Counter : Type 0 where
  pos : ℕ → Counter
  negsuc : ℕ → Counter

unfoldable pub decrement : Counter → Counter
decrement (pos zero) = negsuc 0
decrement (pos (suc n)) = pos n
decrement (negsuc n) = negsuc (suc n)

-- `counter <= 0`
unfoldable pub expired : Counter → Bool
expired (pos zero) = true
expired (pos (suc n)) = false
expired (negsuc n) = true

-- `counter <= n` and `0 < counter`, for a number n that is not negative.
unfoldable pub at_most : Counter → ℕ → Bool
at_most (pos k) n = leb k n
at_most (negsuc k) n = true

unfoldable pub running : Counter → Bool
running (pos zero) = false
running (pos (suc n)) = true
running (negsuc n) = false
