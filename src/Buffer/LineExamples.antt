-- ===== src/Buffer/LineExamples.antt =====
-- A session of five lines.
use unix_sys_prog.Base.{
  ℕ, ◌+◌, ◌-◌, ◌*◌, ◌≡◌, false, Bool, ◌&&◌, ltb, if◌then◌else◌, arith, List, [], ◌∷◌, Option, none,
  some, ℤ, pos,
}
use unix_sys_prog.Args.Getargs.{is_blank}
use unix_sys_prog.Args.Words.{words, in_front, count}
use unix_sys_prog.Args.Strings.{drop_last}
use unix_sys_prog.Buffer.Store.{Cache}
use unix_sys_prog.Buffer.Command.{
  Word, Command, getblk, set, free_func, hash, cmd_tbl, stat_tbl, main,
}
use unix_sys_prog.Buffer.CommandSafety.{SoundNext}
use unix_sys_prog.Buffer.Prompt.{GoodArgs, GoodLine, main-SoundNext}

-- Numbers of one or two digits.
read_digits : Word → Option ℤ
read_digits [] = none
read_digits (a ∷ []) = if ltb 47 a && ltb a 58 then some (pos (a - 48)) else none
read_digits (a ∷ b ∷ w) = some (pos ((a - 48) * 10 + (b - 48)))

-- getblk 3
abbrev getblk_line : List ℕ
getblk_line = b'g' ∷ b'e' ∷ b't' ∷ b'b' ∷ b'l' ∷ b'k' ∷ b' ' ∷ b'3' ∷ b'\n' ∷ []

-- set 3 D
abbrev set_line : List ℕ
set_line = b's' ∷ b'e' ∷ b't' ∷ b' ' ∷ b'3' ∷ b' ' ∷ b'D' ∷ b'\n' ∷ []

-- free
abbrev free_line : List ℕ
free_line = b'f' ∷ b'r' ∷ b'e' ∷ b'e' ∷ b'\n' ∷ []

-- hash
abbrev hash_line : List ℕ
hash_line = b'h' ∷ b'a' ∷ b's' ∷ b'h' ∷ b'\n' ∷ []

free_good : (d : Command) → some free_func ≡ some d → GoodArgs read_digits d []
free_good free_func e = tt
free_good _ e = absurd (ground arith)

hash_good : (d : Command) → some hash ≡ some d → GoodArgs read_digits d []
hash_good hash e = tt
hash_good _ e = absurd (ground arith)

free_line_good : GoodLine read_digits (some free_line)
unfolding words in_front is_blank drop_last count cmd_tbl
free_line_good = (
  record {
    filled = omega arith;
    fits = omega arith;
    no_zero = (omega arith, (omega arith, (omega arith, (omega arith, tt))));
    room = omega arith;
  },
  free_good,
)

hash_line_good : GoodLine read_digits (some hash_line)
unfolding words in_front is_blank drop_last count cmd_tbl
hash_line_good = (
  record {
    filled = omega arith;
    fits = omega arith;
    no_zero = (omega arith, (omega arith, (omega arith, (omega arith, tt))));
    room = omega arith;
  },
  hash_good,
)

getblk_good : (d : Command) → some getblk ≡ some d → GoodArgs read_digits d ((b'3' ∷ []) ∷ [])
getblk_good getblk e = tt
getblk_good _ e = absurd (ground arith)

set_good :
    (d : Command) → some set ≡ some d → GoodArgs read_digits d ((b'3' ∷ []) ∷ (b'D' ∷ []) ∷ [])
unfolding stat_tbl
set_good set e = (λ l. cc, (λ l. cc, tt))
set_good _ e = absurd (ground arith)

getblk_line_good : GoodLine read_digits (some getblk_line)
unfolding words in_front is_blank drop_last count cmd_tbl
getblk_line_good = (
  record {
    filled = omega arith;
    fits = omega arith;
    no_zero = (
      omega arith,
      (
        omega arith,
        (
          omega arith,
          (omega arith, (omega arith, (omega arith, (omega arith, (omega arith, tt))))),
        ),
      ),
    );
    room = omega arith;
  },
  getblk_good,
)

set_line_good : GoodLine read_digits (some set_line)
unfolding words in_front is_blank drop_last count cmd_tbl
set_line_good = (
  record {
    filled = omega arith;
    fits = omega arith;
    no_zero = (
      omega arith,
      (omega arith, (omega arith, (omega arith, (omega arith, (omega arith, (omega arith, tt)))))),
    );
    room = omega arith;
  },
  set_good,
)

-- Static storage, with the flag that `init` sets.
abbrev with_flag : Bool → Cache
with_flag b = record {
  initialized = b;
  hash = record { fp = λ _. 0; bp = λ _. 0 };
  free = record { fp = λ _. 0; bp = λ _. 0 };
  blkno = λ _. 0;
  stat = λ _. 0;
  buf_number = λ _. 0;
}

main-SoundNext_example : SoundNext (
    main read_digits
      (some getblk_line ∷ some set_line ∷ some free_line ∷ some hash_line ∷ none ∷ [])
      (with_flag false))
main-SoundNext_example =
    main-SoundNext read_digits
      (some getblk_line ∷ some set_line ∷ some free_line ∷ some hash_line ∷ none ∷ [])
      (with_flag false)
      (getblk_line_good, (set_line_good, (free_line_good, (hash_line_good, (tt, tt)))))
