-- ===== src/Mysh/Redirect.antt =====
-- What the blocks behind a command do to the descriptors.
use unix_sys_prog.Base.{
  ℕ, suc, ◌+◌, ◌≡◌, refl, true, false, List, [], ◌∷◌, ◌++◌, some, ok, arith, length, ap, sym, ◌∙◌,
  Run, Bool, append_nil, append_assoc,
}
use unix_sys_prog.Mysh.Line.{
  Token, tkn_redir_in, tkn_redir_out, tkn_redir_append, tkn_err, tkn_normal, tkn_dir, tkn_pipe,
  tkn_bg, tkn_eol, tkn_eof, Line, is_normal,
}
use unix_sys_prog.Mysh.Exec.{
  Stream, reads_file, writes_file, appends_file, Process, Calls, redirect_to, redirections,
}

-- A block behind a command: its type, and the file that it names.
abbrev pub Block : Type 0
Block = Token × ℕ

-- These blocks stand from the index `lo` on, and none is a command.
abbrev pub Behind : Line → ℕ → List Block → Type 0
Behind l lo [] = Unit
Behind l lo ((t, d) ∷ bs) =
    (l.type lo ≡ t) × (l.dir lo ≡ d) × (is_normal t ≡ false) × Behind l (lo + 1) bs

-- The descriptors 0 and 1 behind the blocks: the first redirection of each kind counts.
unfoldable pub source : Stream → List Block → Stream
source i [] = i
source i ((tkn_redir_in, d) ∷ bs) = reads_file d
source i (_ ∷ bs) = source i bs

unfoldable pub target : Stream → List Block → Stream
target o [] = o
target o ((tkn_redir_out, d) ∷ bs) = writes_file d
target o ((tkn_redir_append, d) ∷ bs) = appends_file d
target o (_ ∷ bs) = target o bs

-- The files that are opened, from the last block to the first.
unfoldable pub files : List Block → List Stream
files [] = []
files ((tkn_redir_in, d) ∷ bs) = files bs ++ reads_file d ∷ []
files ((tkn_redir_out, d) ∷ bs) = files bs ++ writes_file d ∷ []
files ((tkn_redir_append, d) ∷ bs) = files bs ++ appends_file d ∷ []
files (_ ∷ bs) = files bs

abbrev pub redirected : Process → List Block → Process
redirected s bs = record s {
  stdin = source s.stdin bs;
  stdout = target s.stdout bs;
  opened = s.opened ++ files bs;
}

module _ (calls : Calls) (opens : (f : Stream) → calls.open_file f ≡ true) where
  abbrev done : Process → Stream → Stream → List Stream → Run Process Bool
  done s i o fs = ok true (record s { stdin = i; stdout = o; opened = fs })

  -- What a block does, the blocks behind it being done.
  redirect_to-redirected :
      (t : Token) (d : ℕ) (bs : List Block) (s : Process)
      → is_normal t ≡ false
      → redirect_to calls t d (redirected s bs) ≡ ok true (redirected s ((t, d) ∷ bs))
  unfolding redirect_to source target files
  redirect_to-redirected tkn_normal d bs s n = cc
  redirect_to-redirected tkn_redir_in d bs s n = rw (opens (reads_file d)) (
      ap (done s (reads_file d) (target s.stdout bs))
        (append_assoc s.opened (files bs) (reads_file d ∷ [])))
  redirect_to-redirected tkn_redir_out d bs s n = rw (opens (writes_file d)) (
      ap (done s (source s.stdin bs) (writes_file d))
        (append_assoc s.opened (files bs) (writes_file d ∷ [])))
  redirect_to-redirected tkn_redir_append d bs s n = rw (opens (appends_file d)) (
      ap (done s (source s.stdin bs) (appends_file d))
        (append_assoc s.opened (files bs) (appends_file d ∷ [])))
  redirect_to-redirected tkn_err d bs s n = refl
  redirect_to-redirected tkn_dir d bs s n = refl
  redirect_to-redirected tkn_pipe d bs s n = refl
  redirect_to-redirected tkn_bg d bs s n = refl
  redirect_to-redirected tkn_eol d bs s n = refl
  redirect_to-redirected tkn_eof d bs s n = refl

  one_block :
      (l : Line) (lo : ℕ) (s t : Process)
      → is_normal (l.type lo) ≡ false
      → redirect_to calls (l.type lo) (l.dir lo) s ≡ ok true t
      → redirections calls l (suc lo) s ≡ redirections calls l lo t
  unfolding redirections
  one_block l lo s t n run = rw n (rw run refl)

  over :
      (l : Line) (lo : ℕ) (bs : List Block) (s : Process)
      → Behind l lo bs
      → redirections calls l (lo + length bs) s ≡ redirections calls l lo (redirected s bs)
  unfolding source target files
  over l lo [] s b =
      ap (λ k. redirections calls l k s) (omega arith)
      ∙ ap (λ fs. redirections calls l lo (record s { opened = fs })) (sym (append_nil s.opened))
  over l lo ((t, d) ∷ bs) s (type, dir, n, b) =
      ap (λ k. redirections calls l k s) (omega arith)
      ∙ over l (lo + 1) bs s b
      ∙ ap (λ k. redirections calls l k (redirected s bs)) (omega arith)
      ∙ one_block l lo _ _ (ap is_normal type ∙ n) (
          ap (λ t. redirect_to calls t (l.dir lo) (redirected s bs)) type
          ∙ ap (λ d. redirect_to calls t d (redirected s bs)) dir
          ∙ redirect_to-redirected t d bs s n)

  found_command :
      (l : Line) (pos : ℕ) (s : Process)
      → is_normal (l.type pos) ≡ true
      → redirections calls l (suc pos) s ≡ ok (some pos) s
  unfolding redirections
  found_command l pos s command = rw command refl

  -- The loop over the blocks behind a command ends at the command, and every redirection was followed.
  pub redirections-redirected :
      (l : Line) (pos : ℕ) (bs : List Block) (s : Process)
      → is_normal (l.type pos) ≡ true
      → Behind l (pos + 1) bs
      → redirections calls l (pos + 1 + length bs) s ≡ ok (some pos) (redirected s bs)
  redirections-redirected l pos bs s command behind =
      over l (pos + 1) bs s behind
      ∙ ap (λ k. redirections calls l k (redirected s bs)) (omega arith)
      ∙ found_command l pos (redirected s bs) command
