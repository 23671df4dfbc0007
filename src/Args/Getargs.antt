-- ===== src/Args/Getargs.antt =====
-- `getargs`, on a memory of characters. The result is the list of the pointers that it stores; argc
-- is its length. The stores of a null pointer into the first entry, and behind the last, are left out.
use unix_sys_prog.Base.{
  ℕ, zero, suc, ◌+◌, Bool, not, ◌&&◌, ◌||◌, ◌==◌, if◌then◌else◌, List, [], ◌∷◌, update, Cmd, ok,
  out_of_fuel, crash, pure, get, modify, ◌>>=◌, ◌>>◌,
}

-- The characters at the addresses.
abbrev pub Text : Type 0
Text = ℕ → ℕ

-- `isblank`: a space or a tab.
unfoldable pub is_blank : ℕ → Bool
is_blank c = (c == 32) || (c == 9)

-- `while (isblank(*lbuf)) lbuf++`
unfoldable pub skip_blanks : ℕ → ℕ → Cmd Text ℕ
skip_blanks zero lbuf t = out_of_fuel
skip_blanks (suc fuel) lbuf t =
    let rest = skip_blanks fuel (lbuf + 1) t in if is_blank (t lbuf) then rest else ok lbuf t

-- `while (*lbuf && !isblank(*lbuf)) lbuf++`
unfoldable pub skip_word : ℕ → ℕ → Cmd Text ℕ
skip_word zero lbuf t = out_of_fuel
skip_word (suc fuel) lbuf t =
    let rest = skip_word fuel (lbuf + 1) t in
    if not (t lbuf == 0) && not (is_blank (t lbuf)) then rest else ok lbuf t

-- `while (1)`, with `room` entries of `argv` left; a store behind the last is a fault.
unfoldable pub getargs : ℕ → ℕ → ℕ → Cmd Text (List ℕ)
getargs zero room lbuf = λ _. out_of_fuel
getargs (suc fuel) room lbuf = do
  lbuf ← skip_blanks (suc fuel) lbuf
  t ← get
  if t lbuf == 0 then pure [] else elim room [
    | zero ↦ crash
    | suc left ↦ do
      after ← skip_word (suc fuel) lbuf
      t ← get
      if t after == 0 then pure (lbuf ∷ []) else do
        modify (λ t. update t after 0)
        argv ← getargs fuel left (after + 1)
        pure (lbuf ∷ argv)
  ]
