-- ===== src/Buffer/Prompt.antt =====
-- What a session of command lines leaves of the cache.
use unix_sys_prog.Base.{
  ℕ, arith, ◌>>◌, ◌≡◌, ◌≢◌, inl, inr, refl, List, [], ◌∷◌, Option, none, some, All, ok, pure, ℤ,
  ◌∙◌,
}
use unix_sys_prog.Ring.{Ptr}
use unix_sys_prog.Args.Words.{words}
use unix_sys_prog.Args.Strings.{drop_last}
use unix_sys_prog.Buffer.Store.{Cache, C, hash_size, buf_size}
use unix_sys_prog.Buffer.Invariant.{IsCache}
use unix_sys_prog.Buffer.Init.{init_queues, init_free_buffers, init_buf-IsCache}
use unix_sys_prog.Buffer.Session.{exec, exec-Sound, release}
use unix_sys_prog.Buffer.Show.{show_buffer, show_hash, show_free}
use unix_sys_prog.Buffer.Listing.{listings-map}
use unix_sys_prog.Buffer.Lines.{IsLine, parse_command-dispatch}
use unix_sys_prog.Buffer.Command.{
  Word, Command, help, init, quit, buf, hash, free_func, getblk, brelse, set, reset, cmd_tbl,
  number, Next, goes_on, exits, after_line, int_of, show_numbers, show_entries, on_block, on_stats,
  run_command, dispatch, parse_command, main_loop, main,
}
use unix_sys_prog.Buffer.CommandSafety.{
  KnownHelp, LeavesLocks, Sound-goes_on, SoundNext, each_stat-SoundNext, getblk-SoundNext,
  guarded-SoundNext, init-SoundNext, on_number-SoundNext, reset_stat-Keeps, run_help-SoundNext,
  set_stat-Keeps, Shows, show_number-later, show_all-goes_on, table_cases, unchanged,
}

module _ (strtol : Word → Option ℤ) where
  abbrev pub InTable : ℕ → List Word → Type 0
  InTable size = All (λ w. int_of strtol w ≢ number size)

  abbrev pub GoodArgs : Command → List Word → Type 0
  GoodArgs help args = KnownHelp args
  GoodArgs buf args = InTable buf_size args
  GoodArgs hash args = InTable hash_size args
  GoodArgs set args = LeavesLocks args
  GoodArgs reset args = LeavesLocks args
  GoodArgs _ args = Unit

  abbrev pub GoodWords : List Word → Type 0
  GoodWords [] = Unit
  GoodWords (w ∷ args) = (d : Command) → cmd_tbl w ≡ some d → GoodArgs d args

  -- A line that is good in form and content; the end of the input is one too.
  abbrev pub GoodLine : Option (List ℕ) → Type 0
  GoodLine none = Unit
  GoodLine (some line) = IsLine line × GoodWords (words (drop_last line))

  show_numbers-goes_on :
      {A : Type 0} (show : ℕ → C A) (size : ℕ) (args : List Word) (c : Cache)
      → Shows show size c
      → InTable size args
      → show_numbers strtol show size args c ≡ ok goes_on c
  unfolding show_numbers
  show_numbers-goes_on show size [] c s h = refl
  show_numbers-goes_on show size (w ∷ ws) c s h =
      show_number-later show size (int_of strtol w) (show_numbers strtol show size ws) c s h.0
      ∙ show_numbers-goes_on show size ws c s h.1

  show_entries-goes_on :
      {A : Type 0} (show : ℕ → C A) (size : ℕ) (args : List Word) (c : Cache)
      → Shows show size c
      → InTable size args
      → show_entries strtol show size args c ≡ ok goes_on c
  unfolding show_entries
  show_entries-goes_on show size [] c s h = show_all-goes_on show size c s size 0 (omega arith)
  show_entries-goes_on show size (w ∷ ws) c s h = show_numbers-goes_on show size (w ∷ ws) c s h

  run_command-SoundNext :
      (d : Command) (args : List Word)
      → GoodArgs d args
      → (c : Cache) (q : ℕ → List Ptr) (free : List Ptr) → IsCache c q free
      → SoundNext (run_command strtol d args c)
  unfolding run_command on_block on_stats exec
  run_command-SoundNext help args h c q free w = run_help-SoundNext c q free w args h
  run_command-SoundNext init args h c q free w = init-SoundNext c q free w
  run_command-SoundNext quit args h c q free w = unchanged c q free w exits
  run_command-SoundNext buf args h c q free w =
      guarded-SoundNext c q free w c.initialized (show_entries strtol show_buffer buf_size args) (
        rw
          (show_entries-goes_on show_buffer buf_size args c
            (λ n lt. (_, ((listings-map c q free w).2 n lt).0)) h)
          (unchanged c q free w goes_on))
  run_command-SoundNext hash args h c q free w =
      guarded-SoundNext c q free w c.initialized (show_entries strtol show_hash hash_size args) (
        rw
          (show_entries-goes_on show_hash hash_size args c
            (λ n lt. (_, (listings-map c q free w).1 n lt)) h)
          (unchanged c q free w goes_on))
  run_command-SoundNext free_func args h c q free w =
      guarded-SoundNext c q free w c.initialized (show_free >> pure goes_on)
        (rw ((listings-map c q free w).0) (unchanged c q free w goes_on))
  run_command-SoundNext getblk (x ∷ []) h c q free w =
      guarded-SoundNext c q free w c.initialized _
        (on_number-SoundNext c q free w _ (int_of strtol x) (λ n. getblk-SoundNext c q free w n))
  run_command-SoundNext brelse (x ∷ []) h c q free w =
      guarded-SoundNext c q free w c.initialized _ (
        on_number-SoundNext c q free w _ (int_of strtol x)
          (λ n. Sound-goes_on c q free w (exec (release n)) (exec-Sound c q free w (release n) tt)))
  run_command-SoundNext set (x ∷ y ∷ ws) h c q free w =
      guarded-SoundNext c q free w c.initialized _ (
        on_number-SoundNext c q free w _ (int_of strtol x)
          (λ n. each_stat-SoundNext _ (y ∷ ws) (set_stat-Keeps n) h.1 c q free w))
  run_command-SoundNext reset (x ∷ y ∷ ws) h c q free w =
      guarded-SoundNext c q free w c.initialized _ (
        on_number-SoundNext c q free w _ (int_of strtol x)
          (λ n. each_stat-SoundNext _ (y ∷ ws) (reset_stat-Keeps n) h.1 c q free w))
  run_command-SoundNext _ args h c q free w =
      guarded-SoundNext c q free w c.initialized (pure goes_on) (unchanged c q free w goes_on)

  dispatch-SoundNext :
      (ws : List Word) (c : Cache) (q : ℕ → List Ptr) (free : List Ptr)
      → GoodWords ws
      → IsCache c q free
      → SoundNext (dispatch strtol ws c)
  unfolding dispatch
  dispatch-SoundNext [] c q free h w = unchanged c q free w goes_on
  dispatch-SoundNext (x ∷ args) c q free h w = elim (table_cases (cmd_tbl x)) [
    | inl e ↦ rw (e, dispatch) (unchanged c q free w goes_on)
    | inr (d, e) ↦ rw (e, dispatch) (run_command-SoundNext d args (h d e) c q free w)
  ]

  parse_command-SoundNext :
      (line : Option (List ℕ)) (c : Cache) (q : ℕ → List Ptr) (free : List Ptr)
      → GoodLine line
      → IsCache c q free
      → SoundNext (parse_command strtol line c)
  unfolding parse_command
  parse_command-SoundNext none c q free h w = unchanged c q free w goes_on
  parse_command-SoundNext (some line) c q free h w =
      rw (parse_command-dispatch strtol line c h.0)
        (dispatch-SoundNext (words (drop_last line)) c q free h.1 w)

  main_loop-SoundNext :
      (lines : List (Option (List ℕ))) (c : Cache) (q : ℕ → List Ptr) (free : List Ptr)
      → All GoodLine lines
      → IsCache c q free
      → SoundNext (main_loop strtol lines c)
  unfolding main_loop
  main_loop-SoundNext [] c q free h w = unchanged c q free w goes_on
  main_loop-SoundNext (line ∷ lines) c q free h w =
      let (next, c1, q1, free1, run, w1) = parse_command-SoundNext line c q free h.0 w in
      rw run (after_line-SoundNext lines next c1 q1 free1 h.1 w1 (main_loop-SoundNext lines))
    where
      after_line-SoundNext :
          (lines : List (Option (List ℕ))) (n : Next) (c : Cache) (q : ℕ → List Ptr)
          (free : List Ptr)
          → All GoodLine lines
          → IsCache c q free
          → ((c : Cache) (q : ℕ → List Ptr) (free : List Ptr)
              → All GoodLine lines
              → IsCache c q free
              → SoundNext (main_loop strtol lines c))
          → SoundNext (after_line n (main_loop strtol lines) c)
      after_line-SoundNext lines goes_on c q free h w later = later c q free h w
      after_line-SoundNext lines exits c q free h w later = unchanged c q free w exits

  -- From any contents of the memory, the program keeps the invariant of the cache over any lines, up to
  -- `quit` or the last of them. The lines are shorter than the buffer, with at most 16 words and no zero
  -- character; they set no lock by hand, do not ask for help on an unknown command, and do not list an
  -- entry by the number of entries. Whatever numbers `strtol` reads, there is no access through a null
  -- pointer, none behind a table and no endless loop inside a command.
  pub main-SoundNext :
      (lines : List (Option (List ℕ))) (c : Cache)
      → All GoodLine lines
      → SoundNext (main strtol lines c)
  unfolding main
  main-SoundNext lines c h =
      let (c', run, w) = init_buf-IsCache c in
      rw run (main_loop-SoundNext lines c' init_queues init_free_buffers h w)
