-- ===== src/Mysh/Grammar.antt =====
-- Which lines `parseline` accepts: a description that looks at the tokens as they were read, where
-- the code looks at tokens that it changes on the way.
use unix_sys_prog.Base.{
  ℕ, zero, suc, ◌+◌, ◌-◌, ◌<◌, ◌≡◌, ◌≢◌, ◌⊎◌, inl, inr, refl, Bool, true, false, ◌&&◌, ◌||◌, ◌==◌,
  if◌then◌else◌, update, arith, Bool-cases, sym, ◌∙◌, ap, update_other, eq_of_==,
}
use mathlib.Core.Path.{subst}
use unix_sys_prog.Mysh.Line.{
  Token, tkn_normal, tkn_dir, tkn_redir_in, tkn_redir_out, tkn_redir_append, tkn_bg, Status,
  mysh_ok, mysh_parse_err, Line, is_normal, is_dir, redirect, background, parse_block, parse_blocks,
  parseline,
}

-- The block `i` may stand where it does: a redirection between two words, `&` at the end.
unfoldable pub fits : Line → ℕ → Token → Bool
fits l i tkn_redir_in = is_normal (l.type (i - 1)) && is_normal (l.type (i + 1))
fits l i tkn_redir_out = is_normal (l.type (i - 1)) && is_normal (l.type (i + 1))
fits l i tkn_redir_append = is_normal (l.type (i - 1)) && is_normal (l.type (i + 1))
fits l i tkn_bg = i == l.nblock - 2
fits l i _ = true

unfoldable pub all_fit : ℕ → ℕ → Line → Bool
all_fit zero i l = true
all_fit (suc n) i l = fits l i (l.type i) && all_fit n (i + 1) l

abbrev pub status_of : Bool → Status
status_of true = mysh_ok
status_of false = mysh_parse_err

-- The line `l` on the way, before the block `i`; `b` is the line as it was read.
pub record IsPassed (b l : Line) (i : ℕ) : Type 0 where
  pub blocks : l.nblock ≡ b.nblock
  pub ahead : (j : ℕ) → i < j → l.type j ≡ b.type j
  pub seen : (j : ℕ) → (l.type j ≡ b.type j) ⊎ (l.type j ≡ tkn_dir) × (b.type j ≡ tkn_normal)
  pub fresh : (j : ℕ) → b.type j ≢ tkn_dir

word_behind :
    (b l : Line) (i : ℕ)
    → IsPassed b l i
    → (j : ℕ) → (is_normal (l.type j) || is_dir (l.type j)) ≡ is_normal (b.type j)
word_behind b l i w j = elim (w.seen j) [
  | inl e ↦ rw e (tokens (b.type j) (w.fresh j))
  | inr (e, f) ↦ rw e (rw f refl)
]
  where
    tokens : (k : Token) → k ≢ tkn_dir → (is_normal k || is_dir k) ≡ is_normal k
    tokens tkn_dir n = absurd (n refl)
    tokens tkn_normal n = refl
    tokens _ n = refl

next-IsPassed : (b l : Line) (i : ℕ) → IsPassed b l i → IsPassed b l (i + 1)
next-IsPassed b l i w = record {
  blocks = w.blocks;
  ahead = λ j lt. w.ahead j (omega (arith, lt));
  seen = w.seen;
  fresh = w.fresh;
}

is_normal_token : (k : Token) → is_normal k ≡ true → k ≡ tkn_normal
is_normal_token tkn_normal h = refl
is_normal_token _ h = cc

-- The word behind a redirection is marked as the file that it names.
marked : ℕ → Line → Line
marked i l = record l { type = update l.type (i + 1) tkn_dir; dir = update l.dir i (l.arg (i + 1)) }

marked-IsPassed :
    (b l : Line) (i : ℕ)
    → IsPassed b l i
    → is_normal (b.type (i + 1)) ≡ true
    → IsPassed b (marked i l) (i + 1)
unfolding marked
marked-IsPassed b l i w n = record {
  blocks = w.blocks;
  ahead =
      λ j lt. update_other l.type (i + 1) tkn_dir j (ground arith) ∙ w.ahead j (omega (arith, lt));
  seen = λ j. elim (Bool-cases (j == i + 1)) [
    | inl e ↦
        let same : j ≡ i + 1 = eq_of_== j (i + 1) e in
        inr (
          rw e refl,
          subst (λ k. b.type k ≡ tkn_normal) (sym same) (is_normal_token (b.type (i + 1)) n),
        )
    | inr m ↦ rw m (w.seen j)
  ];
  fresh = w.fresh;
}

redirect-fits :
    (b l : Line) (i : ℕ)
    → IsPassed b l i
    → ((redirect i l).0 ≡ status_of (is_normal (b.type (i - 1)) && is_normal (b.type (i + 1))))
      × IsPassed b (redirect i l).1 (i + 1)
unfolding redirect marked
redirect-fits b l i w =
    let behind = word_behind b l i w (i - 1) in
    let next : l.type (i + 1) ≡ b.type (i + 1) = w.ahead (i + 1) (omega arith) in
    elim (Bool-cases (is_normal (b.type (i - 1)) && is_normal (b.type (i + 1)))) [
      | inl y ↦
          let test : ((is_normal (l.type (i - 1)) || is_dir (l.type (i - 1)))
                && is_normal (l.type (i + 1)))
              ≡ true =
            rw behind (rw next y) in
          (rw y (rw test refl), rw test (marked-IsPassed b l i w (ground arith)))
      | inr n ↦
          let test : ((is_normal (l.type (i - 1)) || is_dir (l.type (i - 1)))
                && is_normal (l.type (i + 1)))
              ≡ false =
            rw behind (rw next n) in
          (rw n (rw test refl), rw test (next-IsPassed b l i w))
    ]

background-fits :
    (b l : Line) (i : ℕ)
    → IsPassed b l i
    → ((background i l).0 ≡ status_of (i == b.nblock - 2)) × IsPassed b (background i l).1 (i + 1)
unfolding background
background-fits b l i w = elim (Bool-cases (i == b.nblock - 2)) [
  | inl y ↦
      let test : (i == l.nblock - 2) ≡ true = rw (w.blocks) y in
      let on : IsPassed b (record l { bg = true }) (i + 1) = record {
        blocks = w.blocks;
        ahead = λ j lt. w.ahead j (omega (arith, lt));
        seen = w.seen;
        fresh = w.fresh;
      } in
      (rw y (rw test refl), rw test on)
  | inr n ↦
      let test : (i == l.nblock - 2) ≡ false = rw (w.blocks) n in
      (rw n (rw test refl), rw test (next-IsPassed b l i w))
]

-- What a step says: its status is that of the test, and the line is passed up to the next block.
abbrev Step : Line → ℕ → Bool → Status × Line → Type 0
Step b i test result = (result.0 ≡ status_of test) × IsPassed b result.1 (i + 1)

parse_block-fits :
    (b l : Line) (i : ℕ) (k : Token) → IsPassed b l i → Step b i (fits b i k) (parse_block k i l)
unfolding parse_block fits
parse_block-fits b l i tkn_redir_in w = redirect-fits b l i w
parse_block-fits b l i tkn_redir_out w = redirect-fits b l i w
parse_block-fits b l i tkn_redir_append w = redirect-fits b l i w
parse_block-fits b l i tkn_bg w = background-fits b l i w
parse_block-fits b l i _ w = (refl, next-IsPassed b l i w)

parse_here :
    (b l : Line) (i : ℕ)
    → IsPassed b l i
    → Step b i (fits b i (b.type i)) (parse_block (l.type i) i l)
unfolding parse_block fits
parse_here b l i w = elim (w.seen i) [
  | inl e ↦ rw e (parse_block-fits b l i (b.type i) w)
  | inr (e, f) ↦ rw e (rw f (refl, next-IsPassed b l i w))
]

parse_blocks-all_fit :
    (n : ℕ) (b l : Line) (i : ℕ)
    → IsPassed b l i
    → (parse_blocks n i l).0 ≡ status_of (all_fit n i b)
unfolding parse_blocks all_fit
parse_blocks-all_fit zero b l i w = refl
parse_blocks-all_fit (suc n) b l i w =
    let (status, passed) = parse_here b l i w in
    elim (Bool-cases (fits b i (b.type i))) [
      | inl y ↦
          let ok_here : (parse_block (l.type i) i l).0 ≡ mysh_ok = status ∙ ap status_of y in
          rw y (
            rw (ok_here, parse_blocks)
              (parse_blocks-all_fit n b (parse_block (l.type i) i l).1 (i + 1) passed))
      | inr x ↦
          let err_here : (parse_block (l.type i) i l).0 ≡ mysh_parse_err =
            status ∙ ap status_of x in
          rw x (rw (err_here, parse_blocks) refl)
    ]

-- For a line whose tokens are as `gettoken` gives them, none of them marked, `parseline` returns
-- MYSH_OK exactly if the first block is not empty and every block between the first and the last
-- fits: a redirection stands between two words, `&` before the last block.
pub parseline-all_fit :
    (l : Line)
    → ((j : ℕ) → l.type j ≢ tkn_dir)
    → (parseline l).0
      ≡ (if l.argc 0 == 0 then mysh_parse_err else status_of (all_fit (l.nblock - 2) 1 l))
unfolding parseline
parseline-all_fit l fresh =
    let start : IsPassed l (record l { bg = false }) 1 = record {
      blocks = refl;
      ahead = λ j lt. refl;
      seen = λ j. inl refl;
      fresh = fresh;
    } in
    elim (Bool-cases (l.argc 0 == 0)) [
      | inl e ↦ rw e refl
      | inr n ↦ rw n (parse_blocks-all_fit (l.nblock - 2) l (record l { bg = false }) 1 start)
    ]
