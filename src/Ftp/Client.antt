-- ===== src/Ftp/Client.antt =====
-- The commands of myftp/myftpc.c that talk to the server, on the words of a line. No caller reads what
-- a command returns, so it is left out, and so is what is printed.
use unix_sys_prog.Base.{
  ℕ, zero, suc, ◌-◌, Bool, true, false, not, ◌&&◌, List, [], ◌∷◌, Option, none, some, Cmd,
  out_of_fuel, pure, modify, ◌>>=◌, ◌>>◌, ◌==◌, ltb, if◌then◌else◌, length, take,
}
use unix_sys_prog.Ftp.System.{Text, System, Peer, act}
use unix_sys_prog.Ftp.Message.{
  Header, path_max, type_quit, type_pwd, type_cwd, type_list, type_retr, type_stor, type_ok,
  type_data, cmd_ok, cmd_ok_retr, cmd_ok_stor, cmd_data_last, cmd_data, send_msg, select, recv_msg,
  recv_header,
}
use unix_sys_prog.Ftp.Common.{change_dir, list_dir, send_file, recv_file}

-- `snprintf(path, PATH_MAX, "%s", arg)` and its check.
unfoldable pub copy_path : Text → Option Text
copy_path arg = if ltb path_max (length arg) then none else some (take (path_max - 1) arg)

abbrev both : Option Text → Option Text → Option (Text × Text)
both (some src) (some dst) = some (src, dst)
both _ _ = none

-- The source and the destination of `get` and `put`: the second argument, or the first one again.
unfoldable pub two_paths : List Text → Option (Text × Text)
two_paths (command ∷ src ∷ []) = both (copy_path src) (copy_path src)
two_paths (command ∷ src ∷ dst ∷ []) = both (copy_path src) (copy_path dst)
two_paths _ = none

-- The path of `dir` and `ldir`: the argument, or the current directory.
abbrev pub list_argument : List Text → Option Text
list_argument (command ∷ []) = some (b'.' ∷ [])
list_argument (command ∷ path ∷ []) = copy_path path
list_argument _ = none

module _ {W : Type 0} where
  unfoldable pub send_data : Text → Cmd (Peer W) Bool
  send_data bytes = do
    modify (λ s. record s { first_data = false })
    send_msg type_data cmd_data bytes

  -- A request, and the header of its reply if that is the one asked for.
  unfoldable pub request : ℕ → Text → ℕ → Cmd (Peer W) (Option Header)
  request t bytes code = do
    sent ← send_msg t cmd_ok bytes
    if not sent then pure none else do
      header ← recv_header select
      pure (elim header [
        | none ↦ none
        | some reply ↦ if reply.type == type_ok && reply.code == code then some reply else none
      ])

  -- The text of a reply, into a buffer of its length; whether it came is not looked at.
  unfoldable pub recv_text : Header → Cmd (Peer W) (Unit {0})
  recv_text reply =
      if reply.len == 0 then pure tt else do _ ← recv_msg select reply.len reply.len; pure tt

  -- What `get` and `put` do first: without two paths they end.
  abbrev pub with_paths :
      Option (Text × Text) → (Text → Text → Cmd (Peer W) (Unit {0})) → Cmd (Peer W) (Unit {0})
  with_paths none run = pure tt
  with_paths (some paths) run = run paths.0 paths.1

  -- `stop` stands for the call of `exit`.
  unfoldable pub quit : Cmd (Peer W) (Unit {0})
  quit = do _ ← send_msg type_quit cmd_ok []; modify (λ s. record s { stop = true })

  unfoldable pub pwd : Cmd (Peer W) (Unit {0})
  pwd = do
    header ← request type_pwd [] cmd_ok
    elim header [ none ↦ pure tt | some reply ↦ recv_text reply ]

  unfoldable pub cd : List Text → Cmd (Peer W) (Unit {0})
  cd (command ∷ path ∷ []) = do _ ← request type_cwd path cmd_ok; pure tt
  cd _ = pure tt

  -- The loop of `dir` over the lines that the server sends.
  unfoldable pub recv_lines : ℕ → Cmd (Peer W) (Unit {0})
  recv_lines zero = λ _. out_of_fuel
  recv_lines (suc fuel) = do
    header ← recv_header select
    elim header [
      | none ↦ pure tt
      | some reply ↦
          if not (reply.type == type_data)
          then pure tt
          else do recv_text reply; if reply.code == cmd_data_last then pure tt else recv_lines fuel
    ]

  unfoldable pub dir : ℕ → List Text → Cmd (Peer W) (Unit {0})
  dir rounds args = elim (list_argument args) [
    | none ↦ pure tt
    | some path ↦ do
      header ← request type_list path cmd_ok_retr
      elim header [ none ↦ pure tt | some reply ↦ do recv_text reply; recv_lines rounds ]
  ]

module _ {W : Type 0} (sys : System W) where
  abbrev close : ℕ → Cmd (Peer W) (Unit {0})
  close fd = modify (λ s. record s { world = sys.close fd s.world })

  unfoldable pub lcd : List Text → Cmd (Peer W) (Unit {0})
  lcd (command ∷ path ∷ []) = do _ ← change_dir sys path; pure tt
  lcd _ = pure tt

  -- The lines go to the terminal, not to the server, and `file_err` does nothing.
  unfoldable pub ldir : List Text → Cmd (Peer W) (Unit {0})
  ldir args = elim (list_argument args) [
    | none ↦ pure tt
    | some path ↦ do _ ← list_dir sys (λ st name. pure true) (pure tt) path; pure tt
  ]

  unfoldable pub get_file : ℕ → Text → Text → Cmd (Peer W) (Unit {0})
  get_file rounds src dst = do
    fd ← act (sys.open_write dst)
    elim fd [
      | none ↦ pure tt
      | some fd ↦ do
        header ← request type_retr src cmd_ok_retr
        elim header [
          | none ↦ close fd
          | some reply ↦ do _ ← recv_file sys select fd rounds; close fd
        ]
    ]

  unfoldable pub ftpget : ℕ → List Text → Cmd (Peer W) (Unit {0})
  ftpget rounds args = with_paths (two_paths args) (get_file rounds)

  unfoldable pub put_file : ℕ → Text → Text → Cmd (Peer W) (Unit {0})
  put_file rounds src dst = do
    fd ← act (sys.open_read src)
    elim fd [
      | none ↦ pure tt
      | some fd ↦ do
        header ← request type_stor dst cmd_ok_stor
        elim header [
          | none ↦ close fd
          | some reply ↦ do
            whole ← send_file sys send_data fd rounds
            if not whole then pure tt else do
              last ← send_msg type_data cmd_data_last []
              if last then close fd else pure tt
        ]
    ]

  unfoldable pub ftpput : ℕ → List Text → Cmd (Peer W) (Unit {0})
  ftpput rounds args = with_paths (two_paths args) (put_file rounds)
