-- ===== src/Buffer/Lines.antt =====
-- Lines of commands: what `parse_command` does with the words of a line, and what a session of lines
-- leaves of the cache.
use unix_sys_prog.Base.{
  ℕ, ◌≤◌, ◌<◌, ◌≡◌, ◌≢◌, List, [], ◌∷◌, Option, some, arith, length, All, ℤ, ap,
}
use unix_sys_prog.Args.Words.{words, count}
use unix_sys_prog.Args.Strings.{drop_last, length-drop_last}
use unix_sys_prog.Args.Lines.{getargs-read_strings}
use unix_sys_prog.Buffer.Store.{Cache}
use unix_sys_prog.Buffer.Command.{Word, dispatch, buf_len, nargs, parse_command}

-- A line that `fgets` gives and that `getargs` can take apart: it is not empty, no character is
-- zero, and there are at most as many words as `argv` has entries.
pub record IsLine (line : List ℕ) : Type 0 where
  pub filled : 0 < length line
  pub fits : length line < buf_len
  pub no_zero : All (λ c. c ≢ 0) (drop_last line)
  pub room : count (words (drop_last line)) ≤ nargs

-- On such a line `parse_command` runs the command that the first of its words names, on the others.
pub parse_command-dispatch :
    (strtol : Word → Option ℤ) (line : List ℕ) (c : Cache)
    → IsLine line
    → parse_command strtol (some line) c ≡ dispatch strtol (words (drop_last line)) c
unfolding parse_command
parse_command-dispatch strtol [] c v = absurd (omega (arith, v.filled))
parse_command-dispatch strtol (x ∷ xs) c v =
    let short : length (drop_last (x ∷ xs)) < buf_len =
      omega (arith, length-drop_last (x ∷ xs), v.fits) in
    let (argv, t, run, got) =
      getargs-read_strings buf_len nargs (drop_last (x ∷ xs)) short v.no_zero v.room in
    rw (run, parse_command) (ap (λ ws. dispatch strtol ws c) got)
