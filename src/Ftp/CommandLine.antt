-- ===== src/Ftp/CommandLine.antt =====
-- What a line that is typed at the file transfer client does.
use unix_sys_prog.Base.{ℕ, ◌<◌, ◌≡◌, ◌≢◌, List, [], ◌∷◌, some, arith, length, All, ap}
use unix_sys_prog.Args.Words.{words, count}
use unix_sys_prog.Args.Strings.{drop_last, length-drop_last}
use unix_sys_prog.Ftp.System.{System, Peer}
use unix_sys_prog.Ftp.Command.{buf_len, nargs, run_words, exec_command}
use unix_sys_prog.Ftp.CommandArgs.{getargs-read_strings}

-- A line that `fgets` gives and that `getargs` can take apart.
pub record IsTyped (line : List ℕ) : Type 0 where
  pub filled : 0 < length line
  pub fits : length line < buf_len
  pub no_zero : All (λ c. c ≢ 0) (drop_last line)
  pub room : count (words (drop_last line)) < nargs

-- On a line that fits the buffer, with fewer words than `av` has entries and no zero character,
-- `exec_command` does what the table has for the first of the line's words, on the words; it does
-- nothing on a line without words or with a first word that the table does not have.
pub exec_command-run_words :
    {W : Type 0}
    → (sys : System W) (rounds : ℕ) (line : List ℕ) (s : Peer W) → IsTyped line
    → exec_command sys rounds (some line) s ≡ run_words sys rounds (words (drop_last line)) s
unfolding exec_command
exec_command-run_words sys rounds [] s v = absurd (omega (arith, v.filled))
exec_command-run_words sys rounds (x ∷ xs) s v =
    let short : length (drop_last (x ∷ xs)) < buf_len =
      omega (arith, length-drop_last (x ∷ xs), v.fits) in
    let (argv, t, run, got) = getargs-read_strings (drop_last (x ∷ xs)) short v.no_zero v.room in
    rw (run, exec_command) (ap (λ ws. run_words sys rounds ws s) got)
