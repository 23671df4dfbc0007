-- ===== src/Mysh/Line.antt =====
-- `struct line` of mysh/mysh_types.h, and `parseline` of mysh/parseline.c.
use unix_sys_prog.Base.{
  ℕ, zero, suc, ◌+◌, ◌-◌, Bool, true, false, ◌&&◌, ◌||◌, ◌==◌, if◌then◌else◌, update,
}

-- `TKN_TYPES`.
pub data Token : Type 0 where
  tkn_err tkn_normal tkn_dir tkn_redir_in tkn_redir_out tkn_redir_append tkn_pipe tkn_bg tkn_eol :
      Token
  tkn_eof : Token

-- What `parseline` returns: `MYSH_OK` or `MYSH_PARSE_ERR`.
pub data Status : Type 0 where
  mysh_ok mysh_parse_err : Status

-- `struct line`, with the fields of the blocks by their index; `arg` is `argv[0]`, a pointer.
pub record Line : Type 0 where
  pub nblock : ℕ
  pub bg : Bool
  pub type : ℕ → Token
  pub argc : ℕ → ℕ
  pub dir : ℕ → ℕ
  pub arg : ℕ → ℕ

abbrev pub is_normal : Token → Bool
is_normal tkn_normal = true
is_normal _ = false

abbrev pub is_dir : Token → Bool
is_dir tkn_dir = true
is_dir _ = false

-- A redirection, at the block `i`.
unfoldable pub redirect : ℕ → Line → Status × Line
redirect i l =
    if (is_normal (l.type (i - 1)) || is_dir (l.type (i - 1))) && is_normal (l.type (i + 1))
    then (
      mysh_ok,
      record l { type = update l.type (i + 1) tkn_dir; dir = update l.dir i (l.arg (i + 1)) },
    )
    else (mysh_parse_err, l)

-- `&`, at the block `i`.
unfoldable pub background : ℕ → Line → Status × Line
background i l =
    if i == l.nblock - 2 then (mysh_ok, record l { bg = true }) else (mysh_parse_err, l)

-- The `switch` of `parseline`.
unfoldable pub parse_block : Token → ℕ → Line → Status × Line
parse_block tkn_redir_in i l = redirect i l
parse_block tkn_redir_out i l = redirect i l
parse_block tkn_redir_append i l = redirect i l
parse_block tkn_bg i l = background i l
parse_block _ i l = (mysh_ok, l)

-- The loop, with `rounds` blocks to go.
unfoldable pub parse_blocks : ℕ → ℕ → Line → Status × Line
parse_blocks zero i l = (mysh_ok, l)
parse_blocks (suc rounds) i l =
    let (status, after) = parse_block (l.type i) i l in
    elim status [
      | mysh_ok ↦ parse_blocks rounds (i + 1) after
      | mysh_parse_err ↦ (mysh_parse_err, after)
    ]

unfoldable pub parseline : Line → Status × Line
parseline l =
    if l.argc 0 == 0
    then (mysh_parse_err, l)
    else parse_blocks (l.nblock - 2) 1 (record l { bg = false })
