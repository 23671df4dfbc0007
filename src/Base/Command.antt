-- ===== src/Base/Command.antt =====
-- Commands over a state: C code that reads and writes memory through pointers.
-- `fault` is undefined behaviour that the code runs into, such as an access through a null pointer;
-- `out_of_fuel` is a loop that was given too few rounds.
pub data Run (S A : Type 0) : Type 0 where
  ok : A → S → Run S A
  fault : Run S A
  out_of_fuel : Run S A

abbrev pub Cmd : Type 0 → Type 0 → Type 0
Cmd S A = S → Run S A

abbrev pub pure : {S A : Type 0} → A → Cmd S A
pure a s = ok a s

abbrev pub get : {S : Type 0} → Cmd S S
get s = ok s s

abbrev pub put : {S : Type 0} → S → Cmd S (Unit {0})
put s _ = ok tt s

abbrev pub modify : {S : Type 0} → (S → S) → Cmd S (Unit {0})
modify f s = ok tt (f s)

abbrev pub crash : {S A : Type 0} → Cmd S A
crash s = fault

module _ {S A B : Type 0} where
  abbrev pub and_then : Run S A → (A → Cmd S B) → Run S B
  and_then (ok a s) k = k a s
  and_then fault k = fault
  and_then out_of_fuel k = out_of_fuel

  infixl 5 ◌>>=◌ ◌>>◌
  abbrev pub ◌>>=◌ : Cmd S A → (A → Cmd S B) → Cmd S B
  m >>= k = λ s. and_then (m s) k

  abbrev pub ◌>>◌ : Cmd S A → Cmd S B → Cmd S B
  m >> n = m >>= λ _. n

module _ {S T A : Type 0} where
  abbrev pub put_back : (S → T) → Run S A → Run T A
  put_back back (ok a s) = ok a (back s)
  put_back back fault = fault
  put_back back out_of_fuel = out_of_fuel

  -- A command on one part of a larger state: how to read the part, and how to put it back.
  abbrev pub within : (T → S) → (T → S → T) → Cmd S A → Cmd T A
  within part back m t = put_back (back t) (m (part t))
