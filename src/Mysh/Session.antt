-- ===== src/Mysh/Session.antt =====
-- A session of the shell: every line ends, and leaves no process behind.
use unix_sys_prog.Base.{
  suc, ◌+◌, ◌≡◌, ◌≢◌, inl, inr, refl, Bool, true, false, List, [], ◌∷◌, Option, none, some, pos, ok,
  arith, ap, sym, ◌∙◌, Bool-cases, Run, append_nil,
}
use unix_sys_prog.Mysh.Line.{Line, is_normal}
use unix_sys_prog.Mysh.Exec.{Process, Result, exits}
use unix_sys_prog.Mysh.Pipeline.{blocks}
use unix_sys_prog.Mysh.Reaped.{exec_recursive-Reaped}
use unix_sys_prog.Mysh.Search.{Text, normalize_path-Returns}
use unix_sys_prog.Mysh.Shell.{
  Builtin, exit_mysh, cd, pwd, pid, Shell, Host, mysh_exec_err_code, newborn, builtin_of,
  change_dir, run_builtin, wait_line, wait_status, exec_extra, execute, main_loop,
}

-- Every child of these lines was waited for, except where `pipe` failed.
abbrev pub AllReaped : List (Result × Process) → Type 0
AllReaped [] = Unit
AllReaped ((ret, t) ∷ lines) = (ret ≢ exits → t.waited ≡ blocks t.started) × AllReaped lines

-- A line that begins with a command, and the command's arguments, its name first.
abbrev pub IsCommandLine : Line → List Text → Type 0
IsCommandLine line args = (is_normal (line.type 0) ≡ true) × (args ≢ [])

abbrev pub AllCommandLines : List (Option (Line × List Text)) → Type 0
AllCommandLines [] = Unit
AllCommandLines (none ∷ lines) = AllCommandLines lines
AllCommandLines (some (line, args) ∷ lines) = IsCommandLine line args × AllCommandLines lines

abbrev Goes : {A : Type 0} → Shell → Run Shell A → Type 0
Goes {A} s run = (a : A) × (s' : Shell) × (run ≡ ok a s') × (AllReaped s.lines → AllReaped s'.lines)

module _ (h : Host) where
  change_dir-Goes : (args : List Text) (s : Shell) → Goes s (change_dir h args s)
  unfolding change_dir
  change_dir-Goes [] s = (tt, s, refl, λ r. r)
  change_dir-Goes (a ∷ []) s = (tt, s, refl, λ r. r)
  change_dir-Goes (a ∷ b ∷ c ∷ d) s = (tt, s, refl, λ r. r)
  change_dir-Goes (a ∷ dir ∷ []) s = elim (normalize_path-Returns h.home h.realpath dir) [
    | inl none_there ↦ (tt, s, rw (none_there, change_dir) refl, λ r. r)
    | inr (full, there) ↦ elim (Bool-cases (h.chdir full)) [
      | inl good ↦ (tt, record s { cwd = full }, rw (there, change_dir) (rw good refl), λ r. r)
      | inr bad ↦ (tt, s, rw (there, change_dir) (rw bad refl), λ r. r)
    ]
  ]

  run_builtin-Goes : (b : Builtin) (args : List Text) (s : Shell) → Goes s (run_builtin h b args s)
  unfolding run_builtin
  run_builtin-Goes exit_mysh args s = (tt, record s { ended = true }, refl, λ r. r)
  run_builtin-Goes cd args s = change_dir-Goes args s
  run_builtin-Goes pwd args s = (tt, s, refl, λ r. r)
  run_builtin-Goes pid args s = (tt, s, refl, λ r. r)

  wait_line-Goes :
      (bg : Bool) (s : Shell) (run : Run Process Result) (r : Result) (t : Process)
      → run ≡ ok r t
      → (r ≢ exits → t.waited ≡ blocks t.started)
      → Goes s (wait_line h bg run s)
  unfolding wait_line
  wait_line-Goes true s run r t e reaped =
      (pos 0, record s { fpid = s.forks; forks = s.forks + 1 }, refl, λ r. r)
  wait_line-Goes false s run r t e reaped = (
    pos (wait_status r),
    record s { forks = s.forks + 1; lines = (r, t) ∷ s.lines },
    rw e refl,
    λ rest. (reaped, rest),
  )

  exec_extra-Goes :
      (line : Line) (s : Shell) → is_normal (line.type 0) ≡ true → Goes s (exec_extra h line s)
  unfolding exec_extra
  exec_extra-Goes line s first = elim (Bool-cases (h.fork s.forks)) [
    | inr bad ↦ (mysh_exec_err_code, s, rw bad refl, λ r. r)
    | inl good ↦
        let (r, t, ps, run, started, waited) =
          exec_recursive-Reaped h.calls (suc line.nblock) line line.nblock newborn first
            (omega arith) in
        rw good (
          wait_line-Goes line.bg s _ r t run
            (λ n. waited n ∙ append_nil (blocks ps) ∙ ap blocks (sym started)))
  ]

  chosen-Goes :
      (line : Line) (cmd : Text) (args : List Text) (s : Shell) (found : Option Builtin)
      → is_normal (line.type 0) ≡ true
      → builtin_of cmd ≡ found
      → Goes s (execute h line (cmd ∷ args) s)
  unfolding execute
  chosen-Goes line cmd args s none first e =
      let (n, t, run, keeps) = exec_extra-Goes line s first in (n, t, rw (e, execute) run, keeps)
  chosen-Goes line cmd args s (some b) first e =
      let (u, t, run, keeps) = run_builtin-Goes b (cmd ∷ args) s in
      (pos 0, t, rw (e, execute) (rw run refl), keeps)

  execute-Goes :
      (line : Line) (args : List Text) (s : Shell)
      → IsCommandLine line args
      → Goes s (execute h line args s)
  unfolding execute
  execute-Goes line [] s (first, some_args) = absurd (some_args refl)
  execute-Goes line (cmd ∷ args) s (first, some_args) =
      chosen-Goes line cmd args s (builtin_of cmd) first refl

  -- A session of any lines that begin with a command, up to `exit` or to the last of them, runs to its
  -- end, whatever calls of `pipe`, `open`, `fork` and `chdir` fail; of every line that the shell
  -- waited for all children were waited for, unless `pipe` failed in it.
  pub main_loop-AllReaped :
      (lines : List (Option (Line × List Text))) (s : Shell)
      → AllCommandLines lines
      → AllReaped s.lines
      → (s' : Shell) × (main_loop h lines s ≡ ok tt s') × AllReaped s'.lines
  unfolding main_loop
  main_loop-AllReaped [] s v r = (s, refl, r)
  main_loop-AllReaped (none ∷ lines) s v r = main_loop-AllReaped lines s v r
  main_loop-AllReaped (some (line, args) ∷ lines) s (v, vs) r =
      let (n, s1, run, keeps) = execute-Goes line args s v in
      elim (Bool-cases s1.ended) [
        | inl ended ↦ (s1, rw run (rw ended refl), keeps r)
        | inr on ↦
            let (s2, rest, r2) = main_loop-AllReaped lines s1 vs (keeps r) in
            (s2, rw run (rw on rest), r2)
      ]
