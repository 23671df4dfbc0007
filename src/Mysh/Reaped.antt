-- ===== src/Mysh/Reaped.antt =====
-- `exec_recursive` whatever calls fail: it returns, and no child is left behind.
use unix_sys_prog.Base.{
  ℕ, zero, suc, ◌<◌, ◌≡◌, ◌≢◌, ◌⊎◌, inl, inr, refl, Bool, true, false, List, [], ◌∷◌, ◌++◌, Option,
  some, none, ok, arith, length, ap, sym, ◌∙◌, append_nil, append_later, Bool-cases, Run,
}
use mathlib.Core.Path.{subst}
use unix_sys_prog.Mysh.Line.{
  Token, tkn_redir_in, tkn_redir_out, tkn_redir_append, tkn_err, tkn_normal, tkn_dir, tkn_pipe,
  tkn_bg, tkn_eol, tkn_eof, Line, is_normal,
}
use unix_sys_prog.Mysh.Exec.{
  Stream, reads_file, writes_file, appends_file, Started, Process, Result, mysh_ok, mysh_exec_err,
  mysh_file_err, exits, Calls, redirect_to, redirections, start_command, wait_for, exec_recursive,
  open_then,
}
use unix_sys_prog.Mysh.Pipeline.{blocks, parent, child, with_pipe}

-- No child is started and none is waited for.
abbrev Quiet : Process → Process → Type 0
Quiet s t = (t.started ≡ s.started) × (t.waited ≡ s.waited)

-- Every child that is started is waited for, unless the process exits.
abbrev pub Reaped : Process → Run Process Result → Type 0
Reaped s run =
    (r : Result) × (t : Process) × (ps : List Started) × (run ≡ ok r t)
    × (t.started ≡ s.started ++ ps)
    × (r ≢ exits → t.waited ≡ blocks ps ++ s.waited)

module _ (calls : Calls) where
  open_then-Quiet :
      (f : Stream) (dup : Process → Process) (s : Process)
      → ((t : Process) → Quiet t (dup t))
      → (b : Bool) × (t : Process) × (open_then calls f dup s ≡ ok b t) × Quiet s t
  open_then-Quiet f dup s q = elim (Bool-cases (calls.open_file f)) [
    | inl good ↦
        let opened : Process = record s { opened = s.opened ++ f ∷ [] } in
        (true, dup opened, rw good refl, q opened)
    | inr bad ↦ (false, s, rw bad refl, (refl, refl))
  ]

  redirect_to-Quiet :
      (t : Token) (d : ℕ) (s : Process)
      → (b : Bool) × (s' : Process) × (redirect_to calls t d s ≡ ok b s') × Quiet s s'
  unfolding redirect_to
  redirect_to-Quiet tkn_redir_in d s =
      open_then-Quiet (reads_file d) (λ s. record s { stdin = reads_file d }) s (λ t. (refl, refl))
  redirect_to-Quiet tkn_redir_out d s =
      open_then-Quiet (writes_file d) (λ s. record s { stdout = writes_file d }) s
        (λ t. (refl, refl))
  redirect_to-Quiet tkn_redir_append d s =
      open_then-Quiet (appends_file d) (λ s. record s { stdout = appends_file d }) s
        (λ t. (refl, refl))
  redirect_to-Quiet tkn_normal d s = (true, s, refl, (refl, refl))
  redirect_to-Quiet tkn_err d s = (true, s, refl, (refl, refl))
  redirect_to-Quiet tkn_dir d s = (true, s, refl, (refl, refl))
  redirect_to-Quiet tkn_pipe d s = (true, s, refl, (refl, refl))
  redirect_to-Quiet tkn_bg d s = (true, s, refl, (refl, refl))
  redirect_to-Quiet tkn_eol d s = (true, s, refl, (refl, refl))
  redirect_to-Quiet tkn_eof d s = (true, s, refl, (refl, refl))

  -- The loop over the blocks behind a command finds one, or ends at a file that does not open.
  abbrev Finds : ℕ → Process → Run Process (Option ℕ) → Type 0
  Finds left s run =
      (found : Option ℕ) × (t : Process) × (run ≡ ok found t)
      × Quiet s t
      × ((found ≡ none) ⊎ (pos : ℕ) × (found ≡ some pos) × (pos < left))

  Finds-more :
      (left : ℕ) (s t : Process) (run : Run Process (Option ℕ))
      → Quiet s t
      → Finds left t run
      → Finds (suc left) s run
  Finds-more left s t run q (found, u, r, k, how) = (
    found,
    u,
    r,
    (k.0 ∙ q.0, k.1 ∙ q.1),
    elim how [ inl e ↦ inl e | inr (pos, e, lt) ↦ inr (pos, e, omega (arith, lt)) ],
  )

  block_step :
      (l : Line) (pos : ℕ) (s t : Process)
      → is_normal (l.type pos) ≡ false
      → redirect_to calls (l.type pos) (l.dir pos) s ≡ ok true t
      → redirections calls l (suc pos) s ≡ redirections calls l pos t
  unfolding redirections
  block_step l pos s t n run = rw n (rw run refl)

  not_opened :
      (l : Line) (pos : ℕ) (s t : Process)
      → is_normal (l.type pos) ≡ false
      → redirect_to calls (l.type pos) (l.dir pos) s ≡ ok false t
      → redirections calls l (suc pos) s ≡ ok none t
  unfolding redirections
  not_opened l pos s t n run = rw n (rw run refl)

  after_block :
      (l : Line) (pos : ℕ) (s t : Process) (b : Bool)
      → is_normal (l.type pos) ≡ false
      → redirect_to calls (l.type pos) (l.dir pos) s ≡ ok b t
      → Quiet s t
      → Finds pos t (redirections calls l pos t)
      → Finds (suc pos) s (redirections calls l (suc pos) s)
  after_block l pos s t true n run q later =
      subst (Finds (suc pos) s) (sym (block_step l pos s t n run))
        (Finds-more pos s t (redirections calls l pos t) q later)
  after_block l pos s t false n run q later = (none, t, not_opened l pos s t n run, q, inl refl)

  not_first :
      (l : Line) (pos : ℕ) → is_normal (l.type 0) ≡ true → is_normal (l.type pos) ≡ false → 0 < pos
  not_first l zero first n = cc
  not_first l (suc pos) first n = omega arith

  redirections-Finds :
      (l : Line) (left : ℕ) (s : Process)
      → is_normal (l.type 0) ≡ true
      → 0 < left
      → Finds left s (redirections calls l left s)
  unfolding redirections
  redirections-Finds l zero s first some_left = absurd (omega arith)
  redirections-Finds l (suc pos) s first some_left = elim (Bool-cases (is_normal (l.type pos))) [
    | inl here ↦ (some pos, s, rw here refl, (refl, refl), inr (pos, refl, omega arith))
    | inr n ↦
        let (b, t, run, q) = redirect_to-Quiet (l.type pos) (l.dir pos) s in
        after_block l pos s t b n run q (redirections-Finds l pos t first (not_first l pos first n))
  ]

  -- A round that starts no command.
  stops :
      (fuel : ℕ) (l : Line) (last pos : ℕ) (s u : Process)
      → calls.pipe s.pipes ≡ true
      → redirections calls l (suc last) (with_pipe s) ≡ ok (some pos) u
      → calls.fork (length u.started) ≡ false
      → exec_recursive calls (suc fuel) l (suc last) s ≡ ok mysh_exec_err u
  unfolding exec_recursive start_command
  stops fuel l last pos s u pipe found bad = rw pipe (rw found (rw bad refl))

  goes_on :
      (fuel : ℕ) (l : Line) (last pos : ℕ) (s u t : Process) (r : Result)
      → calls.pipe s.pipes ≡ true
      → redirections calls l (suc last) (with_pipe s) ≡ ok (some pos) u
      → calls.fork (length u.started) ≡ true
      → exec_recursive calls fuel l pos (parent pos s.pipes u) ≡ ok r t
      → exec_recursive calls (suc fuel) l (suc last) s ≡ wait_for calls pos r t
  unfolding exec_recursive start_command
  goes_on fuel l last pos s u t r pipe found good run = rw pipe (rw found (rw good (rw run refl)))

  one_more_child :
      (pos pipe : ℕ) (s u t : Process) (ps : List Started)
      → Quiet s u
      → t.started ≡ (parent pos pipe u).started ++ ps
      → t.started ≡ s.started ++ child pos pipe u ∷ ps
  one_more_child pos pipe s u t ps q started =
      started
      ∙ append_later u.started (child pos pipe u) ps
      ∙ ap (λ xs. xs ++ child pos pipe u ∷ ps) q.0

  Reaped-wait_for :
      (pos pipe : ℕ) (s u t : Process) (ps : List Started) (r : Result)
      → Quiet s u
      → t.started ≡ (parent pos pipe u).started ++ ps
      → (r ≢ exits → t.waited ≡ blocks ps ++ u.waited)
      → Reaped s (wait_for calls pos r t)
  Reaped-wait_for pos pipe s u t ps exits q started waited = (
    exits,
    t,
    child pos pipe u ∷ ps,
    refl,
    one_more_child pos pipe s u t ps q started,
    λ n. absurd (n refl),
  )
  Reaped-wait_for pos pipe s u t ps r q started waited = (
    r,
    record t { waited = pos ∷ t.waited },
    child pos pipe u ∷ ps,
    refl,
    one_more_child pos pipe s u t ps q started,
    λ n. ap (◌∷◌ pos) (waited n ∙ ap (λ ws. blocks ps ++ ws) q.1),
  )

  -- A round that returns without a child of its own.
  Reaped-none :
      (s u : Process) (r : Result) (run : Run Process Result)
      → Quiet s u
      → run ≡ ok r u
      → Reaped s run
  Reaped-none s u r run q e = (r, u, [], e, q.0 ∙ sym (append_nil s.started), λ n. q.1)

  no_pipe :
      (fuel : ℕ) (l : Line) (last : ℕ) (s : Process)
      → calls.pipe s.pipes ≡ false
      → exec_recursive calls (suc fuel) l (suc last) s ≡ ok exits s
  unfolding exec_recursive
  no_pipe fuel l last s bad = rw bad refl

  no_file :
      (fuel : ℕ) (l : Line) (last : ℕ) (s u : Process)
      → calls.pipe s.pipes ≡ true
      → redirections calls l (suc last) (with_pipe s) ≡ ok none u
      → exec_recursive calls (suc fuel) l (suc last) s ≡ ok mysh_file_err u
  unfolding exec_recursive
  no_file fuel l last s u pipe found = rw pipe (rw found refl)

  -- Whatever calls fail, `exec_recursive` of a line that begins with a command returns or exits, without
  -- a read in front of the blocks; unless it exits, which it does when `pipe` fails, every child that it
  -- started was waited for. The fuel is above the number of the blocks.
  pub exec_recursive-Reaped :
      (fuel : ℕ) (l : Line) (left : ℕ) (s : Process)
      → is_normal (l.type 0) ≡ true
      → left < fuel
      → Reaped s (exec_recursive calls fuel l left s)
  unfolding exec_recursive
  exec_recursive-Reaped zero l left s first f = absurd (omega (arith, f))
  exec_recursive-Reaped (suc fuel) l zero s first f =
      Reaped-none s s mysh_ok (ok mysh_ok s) (refl, refl) refl
  exec_recursive-Reaped (suc fuel) l (suc last) s first f = elim (Bool-cases (calls.pipe s.pipes)) [
    | inr bad ↦ Reaped-none s s exits _ (refl, refl) (no_pipe fuel l last s bad)
    | inl pipe ↦
        let (found, u, run, q, how) =
          redirections-Finds l (suc last) (with_pipe s) first (omega arith) in
        elim how [
          | inl e ↦
              Reaped-none s u mysh_file_err _ q
                (no_file fuel l last s u pipe (run ∙ ap (λ x. ok x u) e))
          | inr (pos, e, lt) ↦
              let here = run ∙ ap (λ x. ok x u) e in
              elim (Bool-cases (calls.fork (length u.started))) [
                | inr bad ↦
                    Reaped-none s u mysh_exec_err _ q (stops fuel l last pos s u pipe here bad)
                | inl good ↦
                    let (r, t, ps, rest, started, waited) =
                      exec_recursive-Reaped fuel l pos (parent pos s.pipes u) first
                        (omega (arith, lt, f)) in
                    subst (Reaped s) (sym (goes_on fuel l last pos s u t r pipe here good rest))
                      (Reaped-wait_for pos s.pipes s u t ps r q started waited)
              ]
        ]
  ]
