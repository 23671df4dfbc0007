-- ===== src/Mysh/Token.antt =====
-- `gettoken` of mysh/parseline.c. The standard input is the list of the characters to come.
use unix_sys_prog.Base.{
  ℕ, zero, suc, ◌<◌, ◌≡◌, ◌≢◌, refl, Bool, true, false, ◌||◌, ◌==◌, if◌then◌else◌, List, [], ◌∷◌,
  ◌++◌, Option, none, some, arith, length, ◌⊎◌, inl, inr, ap, ==_of_ne,
}
use unix_sys_prog.Args.Getargs.{is_blank}
use unix_sys_prog.Mysh.Line.{
  Token, tkn_err, tkn_normal, tkn_redir_in, tkn_redir_out, tkn_redir_append, tkn_pipe, tkn_bg,
  tkn_eol, tkn_eof,
}

-- `tkn_tbl`, for a character; the end of the input is in it too, as TKN_EOF.
unfoldable pub tkn_tbl : ℕ → Option Token
tkn_tbl c =
    if c == 60
    then some tkn_redir_in
    else if c == 62
    then some tkn_redir_out
    else if c == 124
    then some tkn_pipe
    else if c == 38
    then some tkn_bg
    else if (c == 10) || (c == 13)
    then some tkn_eol
    else none

-- What a call returns, the characters that it stores in `tkn`, and the input that it leaves.
abbrev pub Read : Type 0
Read = Token × List ℕ × List ℕ

abbrev stored : ℕ → Read → Read
stored c (t, tkn, rest) = (t, c ∷ tkn, rest)

-- The last loop, with `room` characters left in `tkn`. At the end of the input `ungetc(EOF)` fails.
unfoldable pub get_word : ℕ → List ℕ → Read
get_word zero input = (tkn_err, [], input)
get_word (suc room) [] = (tkn_err, [], [])
get_word (suc room) (c ∷ cs) =
    let later = get_word room cs in
    elim (tkn_tbl c) [ none ↦ stored c later | some t ↦ (tkn_normal, [], c ∷ cs) ]

-- Behind a `>`.
unfoldable pub get_redirect : List ℕ → Read
get_redirect [] = (tkn_err, [], [])
get_redirect (c ∷ cs) = if c == 62 then (tkn_redir_append, [], cs) else (tkn_redir_out, [], c ∷ cs)

unfoldable pub gettoken : ℕ → List ℕ → Read
gettoken max [] = (tkn_eof, [], [])
gettoken max (c ∷ cs) =
    let behind_blank = gettoken max cs in
    if is_blank c
    then behind_blank
    else if c == 62
    then get_redirect cs
    else elim (tkn_tbl c) [ none ↦ get_word max (c ∷ cs) | some t ↦ (t, [], cs) ]

-- A line is written as blanks, the token's characters, and the rest.
abbrev pub blanks : ℕ → List ℕ → List ℕ
blanks zero rest = rest
blanks (suc n) rest = 32 ∷ blanks n rest

-- No character of the word is an operator.
unfoldable pub is_plain : List ℕ → Bool
is_plain [] = true
is_plain (c ∷ cs) = elim (tkn_tbl c) [ none ↦ is_plain cs | some t ↦ false ]

-- How a token is written, before `rest`.
pub data Written : Token → List ℕ → List ℕ → List ℕ → Type 0 where
  word :
      {c d : ℕ} {w rest : List ℕ} {t : Token}
      → is_blank c ≡ false
      → is_plain (c ∷ w) ≡ true
      → tkn_tbl d ≡ some t
      → Written tkn_normal (c ∷ w) (d ∷ rest) ((c ∷ w) ++ d ∷ rest)
  redir_append : {rest : List ℕ} → Written tkn_redir_append [] rest (62 ∷ 62 ∷ rest)
  redir_out : {c : ℕ} {rest : List ℕ} → c ≢ 62 → Written tkn_redir_out [] (c ∷ rest) (62 ∷ c ∷ rest)
  redir_in : {rest : List ℕ} → Written tkn_redir_in [] rest (60 ∷ rest)
  pipe : {rest : List ℕ} → Written tkn_pipe [] rest (124 ∷ rest)
  bg : {rest : List ℕ} → Written tkn_bg [] rest (38 ∷ rest)
  eol : {rest : List ℕ} → Written tkn_eol [] rest (10 ∷ rest)

option_cases : (o : Option Token) → (o ≡ none) ⊎ (t : Token) × (o ≡ some t)
option_cases none = inl refl
option_cases (some t) = inr (t, refl)

plain_head :
    (c : ℕ) (w : List ℕ) → is_plain (c ∷ w) ≡ true → (tkn_tbl c ≡ none) × (is_plain w ≡ true)
unfolding is_plain
plain_head c w p = elim (option_cases (tkn_tbl c)) [
  | inl e ↦ (e, rw (e, is_plain) at p)
  | inr (t, e) ↦ absurd (false_not_true (rw (e, is_plain) at p))
]
  where
    false_not_true : false ≢ true
    false_not_true h = cc

not_redirect : (c : ℕ) → tkn_tbl c ≡ none → (c == 62) ≡ false
unfolding tkn_tbl
not_redirect c e = ground arith

get_word_plain :
    (room : ℕ) (w : List ℕ) (d : ℕ) (rest : List ℕ) (t : Token)
    → length w < room
    → is_plain w ≡ true
    → tkn_tbl d ≡ some t
    → get_word room (w ++ d ∷ rest) ≡ (tkn_normal, w, d ∷ rest)
unfolding get_word
get_word_plain zero w d rest t f p e = absurd (omega arith)
get_word_plain (suc room) [] d rest t f p e = rw (e, get_word) refl
get_word_plain (suc room) (c ∷ w) d rest t f p e =
    let (free, plain) = plain_head c w p in
    let later = get_word_plain room w d rest t (omega (arith, f)) plain e in
    rw (free, get_word) (ap (stored c) later)

get_word_unended : (room : ℕ) (w : List ℕ) → is_plain w ≡ true → (get_word room w).0 ≡ tkn_err
unfolding get_word
get_word_unended zero w p = refl
get_word_unended (suc room) [] p = refl
get_word_unended (suc room) (c ∷ w) p =
    let (free, plain) = plain_head c w p in rw (free, get_word) (get_word_unended room w plain)

gettoken_word :
    (max c : ℕ) (w : List ℕ) (d : ℕ) (rest : List ℕ) (t : Token)
    → length (c ∷ w) < max
    → is_blank c ≡ false
    → is_plain (c ∷ w) ≡ true
    → tkn_tbl d ≡ some t
    → gettoken max ((c ∷ w) ++ d ∷ rest) ≡ (tkn_normal, c ∷ w, d ∷ rest)
unfolding gettoken
gettoken_word max c w d rest t f b p e =
    let (free, plain) = plain_head c w p in
    simp (b, not_redirect c free, free, get_word_plain max (c ∷ w) d rest t f p e)

gettoken_here :
    (max : ℕ) (t : Token) (tkn rest line : List ℕ)
    → length tkn < max
    → Written t tkn rest line
    → gettoken max line ≡ (t, tkn, rest)
unfolding gettoken get_redirect is_blank tkn_tbl
gettoken_here max t tkn rest line f (word {c} {d} {w} {rest = r} {t = k} b p e) =
    gettoken_word max c w d r k f b p e
gettoken_here max t tkn rest line f redir_append = refl
gettoken_here max t tkn rest line f (redir_out {c} n) = rw (==_of_ne c 62 n) refl
gettoken_here max t tkn rest line f redir_in = refl
gettoken_here max t tkn rest line f pipe = refl
gettoken_here max t tkn rest line f bg = refl
gettoken_here max t tkn rest line f eol = refl

-- A token that is written on a line, behind any number of blanks, is read as it was, if its word is
-- shorter than the buffer; the rest of the line is left in the input.
pub gettoken-Written :
    (max n : ℕ) (t : Token) (tkn rest line : List ℕ)
    → length tkn < max
    → Written t tkn rest line
    → gettoken max (blanks n line) ≡ (t, tkn, rest)
unfolding gettoken is_blank
gettoken-Written max zero t tkn rest line f w = gettoken_here max t tkn rest line f w
gettoken-Written max (suc n) t tkn rest line f w = gettoken-Written max n t tkn rest line f w

-- A word that the end of the input follows is an error, since the end cannot be put back.
pub gettoken_unended :
    (max c : ℕ) (w : List ℕ)
    → is_blank c ≡ false
    → is_plain (c ∷ w) ≡ true
    → (gettoken max (c ∷ w)).0 ≡ tkn_err
unfolding gettoken
gettoken_unended max c w b p =
    let (free, plain) = plain_head c w p in
    rw b (rw (not_redirect c free) (rw free (get_word_unended max (c ∷ w) p)))
