-- ===== src/Ftp/CommandExamples.antt =====
-- A line that is typed at the file transfer client.
use unix_sys_prog.Base.{ℕ, ◌≡◌, List, [], ◌∷◌, some, arith}
use unix_sys_prog.Args.Getargs.{is_blank}
use unix_sys_prog.Args.Words.{words, in_front, count}
use unix_sys_prog.Args.Strings.{drop_last}
use unix_sys_prog.Ftp.Command.{exec_command, run_words}
use unix_sys_prog.Ftp.CommandLine.{IsTyped, exec_command-run_words}
use unix_sys_prog.Ftp.Examples.{disk, side}

-- `get a b` and a newline.
abbrev typed : List ℕ
typed = b'g' ∷ b'e' ∷ b't' ∷ b' ' ∷ b'a' ∷ b' ' ∷ b'b' ∷ 10 ∷ []

typed-IsTyped : IsTyped typed
unfolding drop_last words in_front is_blank count
typed-IsTyped = record {
  filled = omega arith;
  fits = omega arith;
  no_zero = (
    ground arith,
    (
      ground arith,
      (ground arith, (ground arith, (ground arith, (ground arith, (ground arith, tt))))),
    ),
  );
  room = omega arith;
}

exec_command-run_words_example :
    exec_command disk 9 (some typed) side ≡ run_words disk 9 (words (drop_last typed)) side
exec_command-run_words_example = exec_command-run_words disk 9 typed side typed-IsTyped
