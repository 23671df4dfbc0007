-- ===== src/Mysh/Examples.antt =====
-- Lines that are read and checked.
use unix_sys_prog.Base.{[], ◌∷◌, arith, ℕ, ◌+◌, ◌≡◌, ◌≢◌, refl, true, false, ◌==◌, if◌then◌else◌}
use unix_sys_prog.Mysh.Line.{
  Token, tkn_err, tkn_normal, tkn_dir, tkn_redir_in, tkn_redir_out, tkn_eol, mysh_ok, Line,
  redirect, background, parse_block, parse_blocks, parseline,
}
use unix_sys_prog.Args.Getargs.{is_blank}
use unix_sys_prog.Mysh.Token.{tkn_tbl, gettoken, is_plain, word, gettoken-Written, gettoken_unended}
use unix_sys_prog.Mysh.Grammar.{fits, all_fit, parseline-all_fit}

-- Two blanks and `ls`, before a redirection; the same without an end.
gettoken-Written_example :
    gettoken 256 (32 ∷ 32 ∷ 108 ∷ 115 ∷ 62 ∷ 10 ∷ []) ≡ (tkn_normal, 108 ∷ 115 ∷ [], 62 ∷ 10 ∷ [])
unfolding is_blank is_plain tkn_tbl
gettoken-Written_example =
    gettoken-Written 256 2 tkn_normal (108 ∷ 115 ∷ []) (62 ∷ 10 ∷ []) (108 ∷ 115 ∷ 62 ∷ 10 ∷ [])
      (omega arith) (word refl refl refl)

gettoken_unended_example : (gettoken 256 (108 ∷ 115 ∷ [])).0 ≡ tkn_err
unfolding is_blank is_plain tkn_tbl
gettoken_unended_example = gettoken_unended 256 108 (115 ∷ []) refl refl

-- The line `a < b > c`.
abbrev tokens : ℕ → Token
tokens i =
    if i == 1
    then tkn_redir_in
    else if i == 3
    then tkn_redir_out
    else if i == 5
    then tkn_eol
    else tkn_normal

-- The arguments of the words are at the addresses 100 and on.
abbrev command : Line
command = record {
  nblock = 6;
  bg = true;
  type = tokens;
  argc = λ _. 1;
  dir = λ _. 0;
  arg = λ i. 100 + i;
}

tokens_fresh : (j : ℕ) → tokens j ≢ tkn_dir
tokens_fresh j = ground arith

-- The words behind the redirections are the files that they name.
parseline_test :
    ((parseline command).0 ≡ mysh_ok)
    × ((parseline command).1.dir 1 ≡ 102)
    × ((parseline command).1.dir 3 ≡ 104)
    × ((parseline command).1.type 4 ≡ tkn_dir)
    × ((parseline command).1.bg ≡ false)
unfolding parseline parse_blocks parse_block redirect background
parseline_test = (refl, refl, refl, refl, refl)

parseline-all_fit_example : (parseline command).0 ≡ mysh_ok
unfolding all_fit fits
parseline-all_fit_example = parseline-all_fit command tokens_fresh
