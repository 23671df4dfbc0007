-- ===== src/Mysh/Pipeline.antt =====
-- A line of commands, each with the blocks behind it, and how its processes are connected.
use unix_sys_prog.Base.{
  ℕ, zero, suc, ◌+◌, ◌<◌, ◌≡◌, refl, true, false, ◌==◌, if◌then◌else◌, List, [], ◌∷◌, ◌++◌, some,
  ok, arith, length, ap, sym, ◌∙◌, append_nil, append_later,
}
use unix_sys_prog.Mysh.Line.{Line, is_normal}
use unix_sys_prog.Mysh.Exec.{
  Stream, reads_pipe, writes_pipe, Started, Process, mysh_ok, Calls, redirections, start_command,
  exec_recursive,
}
use unix_sys_prog.Mysh.Redirect.{Block, Behind, source, target, redirected, redirections-redirected}

-- A command: the index of its block, and the blocks behind it.
pub record Command : Type 0 where
  pub block : ℕ
  pub behind : List Block

-- The first `left` blocks are these commands, the last one first.
abbrev pub IsLaidOut : Line → ℕ → List Command → Type 0
IsLaidOut l left [] = left ≡ 0
IsLaidOut l left (c ∷ cs) =
    (is_normal (l.type c.block) ≡ true)
    × Behind l (c.block + 1) c.behind
    × (left ≡ c.block + 1 + length c.behind)
    × IsLaidOut l c.block cs

-- The processes of the commands, the last one first, between the input `i` and the output `o`; the pipes
-- have the numbers from `k` on. A command writes to `o`, unless its output is redirected, and reads
-- the pipe that the command before it writes to; the first command reads `i`, or the file of an
-- input redirection of any command.
abbrev pub Connected : Stream → Stream → ℕ → List Command → List Started → Type 0
Connected i o k [] [] = Unit
Connected i o k (c ∷ []) (p ∷ []) =
    (p.block ≡ c.block) × (p.stdout ≡ target o c.behind) × (p.stdin ≡ source i c.behind)
Connected i o k (c ∷ d ∷ cs) (p ∷ ps) =
    (p.block ≡ c.block)
    × (p.stdout ≡ target o c.behind)
    × (p.stdin ≡ reads_pipe k)
    × Connected (source i c.behind) (writes_pipe k) (k + 1) (d ∷ cs) ps
Connected i o k _ _ = false ≡ true

abbrev pub blocks : List Started → List ℕ
blocks [] = []
blocks (p ∷ ps) = p.block ∷ blocks ps

-- The process that is started for a command, and what it leaves of the parent.
-- The process that is started for the command at `pos`, and the parent behind it.
abbrev pub child : ℕ → ℕ → Process → Started
child pos pipe s = record {
  block = pos;
  stdin = if pos == 0 then s.stdin else reads_pipe pipe;
  stdout = s.stdout;
}

abbrev pub parent : ℕ → ℕ → Process → Process
parent pos pipe s = record s {
  started = s.started ++ child pos pipe s ∷ [];
  stdout = writes_pipe pipe;
}

abbrev pub with_pipe : Process → Process
with_pipe s = record s { pipes = s.pipes + 1 }

module _ (calls : Calls) (pipes : (n : ℕ) → calls.pipe n ≡ true)
    (opens : (f : Stream) → calls.open_file f ≡ true) (forks : (n : ℕ) → calls.fork n ≡ true) where
  start_command-parent :
      (pos pipe : ℕ) (s : Process) → start_command calls pos pipe s ≡ ok true (parent pos pipe s)
  unfolding start_command
  start_command-parent pos pipe s = rw (forks (length s.started)) refl

  one_round :
      (fuel : ℕ) (l : Line) (last pos : ℕ) (s u t : Process)
      → redirections calls l (suc last) (with_pipe s) ≡ ok (some pos) u
      → exec_recursive calls fuel l pos (parent pos s.pipes u) ≡ ok mysh_ok t
      → exec_recursive calls (suc fuel) l (suc last) s
        ≡ ok mysh_ok (record t { waited = pos ∷ t.waited })
  unfolding exec_recursive
  one_round fuel l last pos s u t found run =
      rw (pipes s.pipes) (rw found (rw (start_command-parent pos s.pipes u) (rw run refl)))

  one_command :
      (fuel : ℕ) (l : Line) (left : ℕ) (c : Command) (s t : Process)
      → is_normal (l.type c.block) ≡ true
      → Behind l (c.block + 1) c.behind
      → left ≡ c.block + 1 + length c.behind
      → exec_recursive calls fuel l c.block
          (parent c.block s.pipes (redirected (with_pipe s) c.behind))
        ≡ ok mysh_ok t
      → exec_recursive calls (suc fuel) l left s
        ≡ ok mysh_ok (record t { waited = c.block ∷ t.waited })
  one_command fuel l left c s t normal behind e run =
      let last : left ≡ suc (c.block + length c.behind) = omega (arith, e) in
      ap (λ k. exec_recursive calls (suc fuel) l k s) last
      ∙ one_round fuel l (c.block + length c.behind) c.block s _ t
          (ap (λ k. redirections calls l k (with_pipe s)) (omega arith)
            ∙ redirections-redirected calls opens l c.block c.behind (with_pipe s) normal behind)
          run

  -- The commands of a line, if every call succeeds, are all started, from the last to the first, each
  -- connected to the one before it by a pipe of its own, and waited for; a redirection takes
  -- the place of a pipe, and the first of several counts. An input redirection is followed by the
  -- first command of the line, whichever command it stands behind. The fuel is above the number of
  -- the commands.
  pub exec_recursive-Connected :
      (cs : List Command) (fuel : ℕ) (l : Line) (left : ℕ) (s : Process)
      → IsLaidOut l left cs
      → length cs < fuel
      → (s' : Process) × (ps : List Started) × (exec_recursive calls fuel l left s ≡ ok mysh_ok s')
        × (s'.started ≡ s.started ++ ps)
        × Connected s.stdin s.stdout s.pipes cs ps
        × (s'.waited ≡ blocks ps ++ s.waited)
  unfolding exec_recursive
  exec_recursive-Connected cs zero l left s w f = absurd (omega arith)
  exec_recursive-Connected [] (suc fuel) l left s w f =
      (s, [], rw w refl, sym (append_nil s.started), tt, refl)
  exec_recursive-Connected (c ∷ []) (suc zero) l left s w f = absurd (omega (arith, f))
  exec_recursive-Connected (c ∷ []) (suc (suc fuel)) l left s (normal, behind, e, w) f =
      let p = child c.block s.pipes (redirected (with_pipe s) c.behind) in
      let u = parent c.block s.pipes (redirected (with_pipe s) c.behind) in
      (
        record u { waited = c.block ∷ s.waited },
        p ∷ [],
        one_command (suc fuel) l left c s u normal behind e
            (ap (λ k. exec_recursive calls (suc fuel) l k u) w ∙ refl),
        refl,
        (refl, refl, rw w refl),
        refl,
      )
  exec_recursive-Connected (c ∷ d ∷ cs) (suc fuel) l left s (normal, behind, e, w) f =
      let u = parent c.block s.pipes (redirected (with_pipe s) c.behind) in
      let (s', ps, run, started, connected, waited) =
        exec_recursive-Connected (d ∷ cs) fuel l c.block u w (omega (arith, f)) in
      (
        record s' { waited = c.block ∷ s'.waited },
        child c.block s.pipes (redirected (with_pipe s) c.behind) ∷ ps,
        one_command fuel l left c s s' normal behind e run,
        started
            ∙ append_later s.started (child c.block s.pipes (redirected (with_pipe s) c.behind)) ps,
        (refl, refl, ground (arith, w.2), connected),
        ap (◌∷◌ c.block) waited,
      )
