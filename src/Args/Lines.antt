-- ===== src/Args/Lines.antt =====
-- The words that a program reads through the pointers of `getargs`.
use unix_sys_prog.Base.{ℕ, ◌≤◌, ◌<◌, ◌≡◌, ◌≢◌, List, ok, arith, length, All, ap}
use unix_sys_prog.Args.Getargs.{Text, getargs}
use unix_sys_prog.Args.Words.{words, count}
use unix_sys_prog.Args.Split.{getargs-words}
use unix_sys_prog.Args.Strings.{
  text_of, read_strings, text_of-Holds, read_strings_lem, Short-below, words-Short,
}

-- `getargs` of a line in a buffer gives pointers to its words.
pub getargs-read_strings :
    (size room : ℕ) (cs : List ℕ)
    → length cs < size
    → All (λ c. c ≢ 0) cs
    → count (words cs) ≤ room
    → (argv : List ℕ) × (t : Text) × (getargs size room 0 (text_of cs) ≡ ok argv t)
      × (read_strings size t argv ≡ words cs)
getargs-read_strings size room cs short no_zero few =
    let (argv, t, run, each, same) =
      getargs-words size room 0 cs (text_of cs)
        (text_of-Holds cs 0 (text_of cs) (λ a. ap (text_of cs) (omega arith)) no_zero) short few in
    (
      argv,
      t,
      run,
      read_strings_lem size t argv (words cs) each
          (Short-below (length cs) size (words cs) short (words-Short cs)),
    )
