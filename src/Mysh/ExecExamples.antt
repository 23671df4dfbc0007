-- ===== src/Mysh/ExecExamples.antt =====
-- Lines of commands that are run.
use unix_sys_prog.Base.{
  ℕ, zero, suc, ◌≡◌, refl, true, false, List, [], ◌∷◌, ◌++◌, none, some, ok, arith,
}
use unix_sys_prog.Mysh.Line.{
  Line, Token, tkn_normal, tkn_pipe, tkn_redir_in, tkn_redir_out, tkn_dir, tkn_eol,
}
use unix_sys_prog.Mysh.Exec.{
  Started, Process, Calls, mysh_ok, inherited, reads_file, writes_file, exec_recursive,
}
use unix_sys_prog.Mysh.Redirect.{source, target}
use unix_sys_prog.Mysh.Pipeline.{Command, Connected, blocks, exec_recursive-Connected}
use unix_sys_prog.Mysh.Shell.{Shell, Host, newborn, main_loop}
use unix_sys_prog.Mysh.Session.{AllReaped, main_loop-AllReaped}

-- `a > f > g | b < h`, with the files at the addresses 7, 8 and 9.
abbrev entry : {A : Type 0} → A → List A → ℕ → A
entry d [] i = d
entry d (x ∷ xs) zero = x
entry d (x ∷ xs) (suc i) = entry d xs i

abbrev types : List Token
types =
    tkn_normal ∷ tkn_redir_out ∷ tkn_dir ∷ tkn_redir_out ∷ tkn_dir ∷ tkn_pipe ∷ tkn_normal
    ∷ tkn_redir_in ∷ tkn_dir ∷ []

abbrev line : Line
line = record {
  nblock = 10;
  bg = false;
  type = entry tkn_eol types;
  argc = λ i. 1;
  dir = entry 0 (0 ∷ 7 ∷ 0 ∷ 8 ∷ 0 ∷ 0 ∷ 0 ∷ 9 ∷ []);
  arg = λ i. i;
}

abbrev working : Calls
working = record { pipe = λ n. true; open_file = λ f. true; fork = λ n. true }

abbrev commands : List Command
commands =
    record { block = 6; behind = (tkn_redir_in, 9) ∷ (tkn_dir, 0) ∷ (tkn_eol, 0) ∷ [] }
    ∷ record {
      block = 0;
      behind =
          (tkn_redir_out, 7)
          ∷ (tkn_dir, 0)
          ∷ (tkn_redir_out, 8)
          ∷ (tkn_dir, 0)
          ∷ (tkn_pipe, 0)
          ∷ [];
    }
    ∷ []

exec_recursive-Connected_example :
    (s : Process) × (ps : List Started) × (exec_recursive working 3 line 10 newborn ≡ ok mysh_ok s)
    × (s.started ≡ ps)
    × Connected inherited inherited 0 commands ps
    × (s.waited ≡ blocks ps ++ [])
exec_recursive-Connected_example =
    exec_recursive-Connected working (λ n. refl) (λ f. refl) (λ n. refl) commands 3 line 10 newborn
      (
        refl,
        (refl, refl, refl, (refl, refl, refl, (refl, refl, refl, tt))),
        refl,
        (
          refl,
          (
            refl,
            refl,
            refl,
            (refl, refl, refl, (refl, refl, refl, (refl, refl, refl, (refl, refl, refl, tt)))),
          ),
          refl,
          refl,
        ),
      )
      (omega arith)

-- The first command reads `h` and writes `f`; the second reads the pipe, in which nothing comes.
started_test :
    (source inherited ((tkn_redir_in, 9) ∷ []) ≡ reads_file 9)
    × (target inherited ((tkn_redir_out, 7) ∷ (tkn_dir, 0) ∷ (tkn_redir_out, 8) ∷ [])
        ≡ writes_file 7)
unfolding source target
started_test = (refl, refl)

abbrev shell : Shell
shell = record { cwd = b'/' ∷ []; ended = false; forks = 0; fpid = 0; lines = [] }

abbrev system : Host
system = record {
  home = none;
  realpath = λ p. some p;
  chdir = λ p. true;
  fork = λ n. true;
  calls = record { pipe = λ n. true; open_file = λ f. false; fork = λ n. true };
}

main_loop-AllReaped_example :
    (s : Shell) × (main_loop system (none ∷ some (line, (b'a' ∷ []) ∷ []) ∷ []) shell ≡ ok tt s)
    × AllReaped s.lines
main_loop-AllReaped_example =
    main_loop-AllReaped system (none ∷ some (line, (b'a' ∷ []) ∷ []) ∷ []) shell
      ((refl, λ e. cc), tt) tt
