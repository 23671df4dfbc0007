-- ===== src/Mysh/Shell.antt =====
-- `execute`, its built-in commands, `exec_extra` and `child_proc` of mysh/execline.c, and the loop of
-- mysh/main.c. Whether the shell's own `fork` succeeds and whether `chdir` does are parameters; the
-- calls that set signals and the terminal's group succeed. What is printed is left out.
use unix_sys_prog.Base.{
  ℕ, zero, suc, ◌+◌, ◌-◌, ◌*◌, Bool, true, false, not, ◌&&◌, ◌==◌, ltb, if◌then◌else◌, List, [],
  ◌∷◌, ◌++◌, Option, none, some, ℤ, pos, negsuc, Cmd, Run, ok, crash, pure, get, modify, ◌>>=◌,
  ◌>>◌, length, drop,
}
use unix_sys_prog.Base
use unix_sys_prog.Args.Strings.{same}
use unix_sys_prog.Mysh.Line.{Line}
use unix_sys_prog.Mysh.Exec.{
  inherited, Process, Result, mysh_ok, mysh_exec_err, mysh_file_err, exits, Calls, exec_recursive,
}
use unix_sys_prog.Mysh.Search.{
  Text, Lookup, found, null, fault, out_of_fuel, path_max, normalize_path,
}

-- `enum MYSH_ERR_T`
abbrev pub mysh_exec_err_code : ℤ
mysh_exec_err_code = negsuc 1

pub data Builtin : Type 0 where
  exit_mysh cd pwd pid : Builtin

-- `cmd_tbl`
unfoldable pub builtin_of : Text → Option Builtin
unfolding same
builtin_of w =
    if same w (b'e' ∷ b'x' ∷ b'i' ∷ b't' ∷ [])
    then some exit_mysh
    else if same w (b'c' ∷ b'd' ∷ [])
    then some cd
    else if same w (b'p' ∷ b'w' ∷ b'd' ∷ [])
    then some pwd
    else if same w (b'p' ∷ b'i' ∷ b'd' ∷ [])
    then some pid
    else none

pub record Shell : Type 0 where
  pub cwd : Text
  -- the shell has called `exit`
  pub ended : Bool
  -- the number of processes that it started, and `fpid`, the last that it did not wait for
  pub forks : ℕ
  pub fpid : ℕ
  -- the lines that it waited for, with the process of each and what `exec_recursive` gave it, latest
  -- first
  pub lines : List (Result × Process)

abbrev pub S : Type 0 → Type 0
S A = Cmd Shell A

-- The library and the system: `fork` by the number of the process, which is its id.
pub record Host : Type 0 where
  pub home : Option Text
  pub realpath : Text → Option Text
  pub chdir : Text → Bool
  pub fork : ℕ → Bool
  pub calls : Calls

-- The bytes of an array up to its zero.
unfoldable pub c_string : Text → Text
c_string [] = []
c_string (c ∷ cs) = let rest = c_string cs in if c == 0 then [] else c ∷ rest

-- How `child_proc` ends: with `exit(MYSH_EXEC_ERR)`, or with `execve` of a path.
pub data Child : Type 0 where
  gives_up : Child
  executes : Text → Child
  crashes : Child

-- `child_proc`, on what `search_path` gives; `memcpy` takes no zero over into `fullpath`.
unfoldable pub child_proc : Lookup → Text → Child
child_proc null fullpath = gives_up
child_proc (found p) fullpath =
    if ltb (path_max - 1) (length p)
    then gives_up
    else executes (c_string (p ++ drop (length p) fullpath))
child_proc _ fullpath = crashes

-- `exit(ret)` of a process, as `waitpid` stores it.
unfoldable pub wait_status : Result → ℕ
wait_status mysh_ok = 0
wait_status mysh_exec_err = 254 * 256
wait_status mysh_file_err = 252 * 256
wait_status exits = 254 * 256

-- The process that runs a line, when it begins.
abbrev pub newborn : Process
newborn = record {
  stdin = inherited;
  stdout = inherited;
  pipes = 0;
  opened = [];
  started = [];
  waited = [];
}

module _ (h : Host) where
  unfoldable pub change_dir : List Text → S (Unit {0})
  change_dir (cmd ∷ dir ∷ []) = elim (normalize_path h.home h.realpath dir) [
    | found full ↦ if h.chdir full then modify (λ s. record s { cwd = full }) else pure tt
    | null ↦ pure tt
    | fault ↦ crash
    | out_of_fuel ↦ λ _. Base.out_of_fuel
  ]
  change_dir argv = pure tt

  unfoldable pub run_builtin : Builtin → List Text → S (Unit {0})
  run_builtin exit_mysh argv = modify (λ s. record s { ended = true })
  run_builtin cd argv = change_dir argv
  run_builtin pwd argv = pure tt
  run_builtin pid argv = pure tt

  -- The parent's part of `exec_extra`, with what the process of the line does.
  unfoldable pub wait_line : Bool → Run Process Result → S ℤ
  wait_line true run s = ok (pos 0) (record s { fpid = s.forks; forks = s.forks + 1 })
  wait_line false (ok ret t) s =
      ok (pos (wait_status ret)) (record s { forks = s.forks + 1; lines = (ret, t) ∷ s.lines })
  wait_line false Base.fault s = Base.fault
  wait_line false Base.out_of_fuel s = Base.out_of_fuel

  -- `fork` fails, or a process runs the line.
  unfoldable pub exec_extra : Line → S ℤ
  exec_extra line = do
    s ← get
    if h.fork s.forks
        then wait_line line.bg (exec_recursive h.calls (suc line.nblock) line line.nblock newborn)
        else pure mysh_exec_err_code

  -- `execute`, for a line whose first block has these arguments.
  unfoldable pub execute : Line → List Text → S ℤ
  execute line [] = crash
  execute line (cmd ∷ args) = elim (builtin_of cmd) [
    | some b ↦ do run_builtin b (cmd ∷ args); pure (pos 0)
    | none ↦ exec_extra line
  ]

  -- The loop of `main_loop`, up to `exit` or to the last of these lines; `none` is a line that
  -- `read_command` refuses.
  unfoldable pub main_loop : List (Option (Line × List Text)) → S (Unit {0})
  main_loop [] = pure tt
  main_loop (none ∷ lines) = main_loop lines
  main_loop (some (line, args) ∷ lines) = do
    _ ← execute line args
    s ← get
    if s.ended then pure tt else main_loop lines
