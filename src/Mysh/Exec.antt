-- ===== src/Mysh/Exec.antt =====
-- `exec_recursive` of mysh/execline.c: the processes of a line of commands, their streams and files. It
-- runs in a process of its own, whose descriptors 0 and 1 it changes before each `fork`. Which
-- calls of `pipe`, `open` and `fork` succeed are parameters; `dup2` and `close` succeed.
use unix_sys_prog.Base.{
  ℕ, zero, suc, ◌+◌, Bool, true, false, ◌==◌, if◌then◌else◌, List, [], ◌∷◌, ◌++◌, Option, none,
  some, Cmd, out_of_fuel, crash, pure, get, modify, ◌>>=◌, ◌>>◌, length,
}
use unix_sys_prog.Mysh.Line.{Token, tkn_redir_in, tkn_redir_out, tkn_redir_append, Line, is_normal}

-- What a descriptor leads to: what the process began with, a file by its name's address, an end of the
-- pipe of this number.
pub data Stream : Type 0 where
  inherited : Stream
  reads_file : ℕ → Stream
  writes_file : ℕ → Stream
  appends_file : ℕ → Stream
  reads_pipe : ℕ → Stream
  writes_pipe : ℕ → Stream

-- A child process: the block of its command, and its descriptors 0 and 1 when it calls `child_proc`.
pub record Started : Type 0 where
  pub block : ℕ
  pub stdin : Stream
  pub stdout : Stream

pub record Process : Type 0 where
  pub stdin : Stream
  pub stdout : Stream
  -- the number of pipes made
  pub pipes : ℕ
  -- the files that were opened and the children that were started, in this order
  pub opened : List Stream
  pub started : List Started
  -- the blocks of the children that were waited for, latest first
  pub waited : List ℕ

-- What `exec_recursive` returns; `exits` is a call of `exit`.
pub data Result : Type 0 where
  mysh_ok mysh_exec_err mysh_file_err exits : Result

abbrev pub P : Type 0 → Type 0
P A = Cmd Process A

-- Which calls succeed: `pipe` by the number of the pipe, `open` by the stream, and `fork` by the
-- number of the children.
pub record Calls : Type 0 where
  pub pipe : ℕ → Bool
  pub open_file : Stream → Bool
  pub fork : ℕ → Bool

module _ (calls : Calls) where
  abbrev pub open_then : Stream → (Process → Process) → P Bool
  open_then f dup s =
      if calls.open_file f
      then pure true (dup (record s { opened = s.opened ++ f ∷ [] }))
      else pure false s

  -- The `switch`: `open` and `dup2` for a redirection.
  unfoldable pub redirect_to : Token → ℕ → P Bool
  redirect_to tkn_redir_in dir =
      open_then (reads_file dir) (λ s. record s { stdin = reads_file dir })
  redirect_to tkn_redir_out dir =
      open_then (writes_file dir) (λ s. record s { stdout = writes_file dir })
  redirect_to tkn_redir_append dir =
      open_then (appends_file dir) (λ s. record s { stdout = appends_file dir })
  redirect_to _ dir = pure true

  -- The loop over the blocks behind a command, from the block `left - 1` down; the command's block.
  -- Before the first block it reads `blocks[-1]`.
  unfoldable pub redirections : Line → ℕ → P (Option ℕ)
  redirections l zero = crash
  redirections l (suc pos) = if is_normal (l.type pos) then pure (some pos) else do
    good ← redirect_to (l.type pos) (l.dir pos)
    if good then redirections l pos else pure none

  -- `fork` for the command at `pos`: the child's descriptors, and those of the parent.
  unfoldable pub start_command : ℕ → ℕ → P Bool
  start_command pos pipe = do
    s ← get
    if calls.fork (length s.started)
        then (do
          modify (λ s. record s {
            started =
                s.started
                ++ record {
                  block = pos;
                  stdin = if pos == 0 then s.stdin else reads_pipe pipe;
                  stdout = s.stdout;
                }
                  ∷ [];
            stdout = writes_pipe pipe;
          })
          pure true)
        else pure false

  abbrev pub wait_for : ℕ → Result → P Result
  wait_for pos exits = pure exits
  wait_for pos ret = do modify (λ s. record s { waited = pos ∷ s.waited }); pure ret

  -- `exec_recursive(line, left - 1)`.
  unfoldable pub exec_recursive : ℕ → Line → ℕ → P Result
  exec_recursive zero l left = λ _. out_of_fuel
  exec_recursive (suc fuel) l zero = pure mysh_ok
  exec_recursive (suc fuel) l (suc last) = do
    s ← get
    if calls.pipe s.pipes
        then (do
          modify (λ t. record t { pipes = t.pipes + 1 })
          found ← redirections l (suc last)
          elim found [
            | none ↦ pure mysh_file_err
            | some pos ↦ do
              born ← start_command pos s.pipes
              if born
                  then (do ret ← exec_recursive fuel l pos; wait_for pos ret)
                  else pure mysh_exec_err
          ])
        else pure exits
