-- ===== src/Ftp/Command.antt =====
-- The client's command line: `exec_command` of myftp/myftpc.c with the table of myftpc.h.
use unix_sys_prog.Base.{
  ℕ, zero, suc, ◌+◌, ◌==◌, get, modify, update, ◌>>=◌, ◌>>◌, if◌then◌else◌, List, [], ◌∷◌, Option,
  none, some, Cmd, ok, fault, out_of_fuel, crash, pure,
}
use unix_sys_prog.Args.Getargs
use unix_sys_prog.Args.Getargs.{skip_blanks, skip_word}
use unix_sys_prog.Args.Strings.{same, text_of, read_strings, drop_last}
use unix_sys_prog.Ftp.System.{Text, System, Peer}
use unix_sys_prog.Ftp.Client.{quit, pwd, cd, dir, lcd, ldir, ftpget, ftpput}

abbrev pub buf_len : ℕ
buf_len = 256

abbrev pub nargs : ℕ
nargs = 64

-- `getargs` of myftpc.c, with `room` entries of `argv` left. A pointer is stored before `*argc` is
-- compared with NARGS, and a null pointer behind a word that ends the line; a store behind the last
-- entry is a fault.
unfoldable pub getargs : ℕ → ℕ → ℕ → Cmd Getargs.Text (List ℕ)
getargs zero room lbuf = λ _. out_of_fuel
getargs (suc fuel) room lbuf = do
  lbuf ← skip_blanks (suc fuel) lbuf
  t ← get
  if t lbuf == 0 then pure [] else elim room [
    | zero ↦ crash
    | suc left ↦ do
      after ← skip_word (suc fuel) lbuf
      t ← get
      if t after == 0 then (if left == 0 then crash else pure (lbuf ∷ [])) else do
        modify (λ t. update t after 0)
        argv ← getargs fuel left (after + 1)
        pure (lbuf ∷ argv)
  ]

module _ {W : Type 0} (sys : System W) (rounds : ℕ) where
  abbrev pub Run : Type 0
  Run = List Text → Cmd (Peer W) (Unit {0})

  -- `cmd_tbl`; `lpwd` and `help` only print.
  unfoldable pub cmd_tbl : Text → Option Run
  unfolding same
  cmd_tbl w =
      if same w (b'q' ∷ b'u' ∷ b'i' ∷ b't' ∷ [])
      then some (λ args. quit)
      else if same w (b'e' ∷ b'x' ∷ b'i' ∷ b't' ∷ [])
      then some (λ args. quit)
      else if same w (b'p' ∷ b'w' ∷ b'd' ∷ [])
      then some (λ args. pwd)
      else if same w (b'c' ∷ b'd' ∷ [])
      then some cd
      else if same w (b'd' ∷ b'i' ∷ b'r' ∷ [])
      then some (dir rounds)
      else if same w (b'l' ∷ b'p' ∷ b'w' ∷ b'd' ∷ [])
      then some (λ args. pure tt)
      else if same w (b'l' ∷ b'c' ∷ b'd' ∷ [])
      then some (lcd sys)
      else if same w (b'l' ∷ b'd' ∷ b'i' ∷ b'r' ∷ [])
      then some (ldir sys)
      else if same w (b'g' ∷ b'e' ∷ b't' ∷ [])
      then some (ftpget sys rounds)
      else if same w (b'p' ∷ b'u' ∷ b't' ∷ [])
      then some (ftpput sys rounds)
      else if same w (b'h' ∷ b'e' ∷ b'l' ∷ b'p' ∷ [])
      then some (λ args. pure tt)
      else none

  -- The loop over the table, on the words of a line.
  unfoldable pub run_words : Run
  run_words [] = pure tt
  run_words (w ∷ args) = elim (cmd_tbl w) [ none ↦ pure tt | some f ↦ f (w ∷ args) ]

  -- `exec_command`, on what `fgets` gives: nothing at the end of the input, or a line.
  unfoldable pub exec_command : Option (List ℕ) → Cmd (Peer W) (Unit {0})
  exec_command none = pure tt
  exec_command (some []) = crash
  exec_command (some (c ∷ cs)) = λ s.
      elim (getargs buf_len nargs 0 (text_of (drop_last (c ∷ cs)))) [
        | ok argv t ↦ run_words (read_strings buf_len t argv) s
        | fault ↦ fault
        | out_of_fuel ↦ out_of_fuel
      ]
