-- ===== src/Ftp/Server.antt =====
-- The commands of myftp/myftpd.c and the loop `client_handler` of the process that serves a client. No
-- caller reads what a command returns, so it is left out. Accepting clients, forking and the
-- signals' set-up are left out.
use unix_sys_prog.Base.{
  ℕ, zero, suc, Bool, true, false, not, ◌||◌, [], ◌∷◌, Option, none, some, Cmd, crash, out_of_fuel,
  pure, get, modify, ◌>>=◌, ◌>>◌, ◌==◌, ltb, if◌then◌else◌, length, take,
}
use unix_sys_prog.Ftp.System.{Text, eacces, enoent, other, FileStat, System, Peer, ask, act}
use unix_sys_prog.Ftp.Message.{
  Header, path_max, type_quit, type_pwd, type_cwd, type_list, type_retr, type_stor, type_ok,
  type_err_cmd, type_err_file, type_err_unkwn, type_data, cmd_ok, cmd_ok_retr, cmd_ok_stor,
  cmd_err_negation, cmd_err_syntax, cmd_err_permission, cmd_err_unkwn, cmd_data_last, cmd_data,
  send_msg, at_once, recv_msg, recv_header,
}
use unix_sys_prog.Ftp.Common.{change_dir, list_dir, send_file, recv_file}

-- The bytes of a buffer up to its zero.
unfoldable pub c_string : Text → Text
c_string [] = []
c_string (c ∷ cs) = if c == 0 then [] else c ∷ c_string cs

module _ {W : Type 0} where
  -- `send_msg` where the result is not looked at afterwards.
  abbrev pub reply : ℕ → ℕ → Text → Cmd (Peer W) (Unit {0})
  reply t c bytes = do _ ← send_msg t c bytes; pure tt

  -- The reply before the first data message.
  unfoldable pub announce : Cmd (Peer W) (Unit {0})
  announce = do
    s ← get
    if not s.first_data
        then pure tt
        else do reply type_ok cmd_ok_retr []; modify (λ s. record s { first_data = false })

  unfoldable pub send_data : Text → Cmd (Peer W) Bool
  send_data bytes = do announce; send_msg type_data cmd_data bytes

  unfoldable pub file_err : Cmd (Peer W) (Unit {0})
  file_err = do
    s ← get
    elim s.errno [
      | eacces ↦ reply type_err_file cmd_err_permission []
      | enoent ↦ reply type_err_file cmd_err_negation []
      | other ↦ reply type_err_unkwn cmd_err_unkwn []
    ]

  -- `recv_msg(NULL, len)`: the system refuses the address and leaves the bytes where they are.
  unfoldable pub recv_null : Cmd (Peer W) (Unit {0})
  recv_null = modify (λ s. record s { recvs = suc s.recvs; errno = other })

  -- `recv_msg` into an array of PATH_MAX characters, and the zero behind it.
  unfoldable pub recv_path : ℕ → Cmd (Peer W) (Option Text)
  recv_path len = do
    bytes ← recv_msg at_once path_max len
    elim bytes [
      | none ↦ pure none
      | some b ↦ if ltb len path_max then pure (some (c_string b)) else crash
    ]

  -- What cd, get and put do first: a path is needed and read.
  unfoldable pub with_path : Header → (Text → Cmd (Peer W) (Unit {0})) → Cmd (Peer W) (Unit {0})
  with_path msg run =
      if msg.len == 0
      then reply type_err_cmd cmd_err_syntax []
      else do path ← recv_path msg.len; elim path [ none ↦ pure tt | some path ↦ run path ]

  unfoldable pub quit : Cmd (Peer W) (Unit {0})
  quit = modify (λ s. record s { sigterm_flag = true })

module _ {W : Type 0} (sys : System W) where
  -- `snprintf` into BUF_LEN characters.
  unfoldable pub print_dir : FileStat → Text → Cmd (Peer W) Bool
  print_dir st name =
      let line = sys.show_stat st name in
      if ltb 256 (length line) then pure false else send_data (take 255 line)

  unfoldable pub pwd : Header → Cmd (Peer W) (Unit {0})
  pwd msg = if not (msg.len == 0) then recv_null else do
    path ← ask sys.getcwd
    elim path [ none ↦ pure tt | some path ↦ reply type_ok cmd_ok path ]

  unfoldable pub cd : Header → Cmd (Peer W) (Unit {0})
  cd msg =
      with_path msg
        (λ path. do done ← change_dir sys path; if done then reply type_ok cmd_ok [] else file_err)

  abbrev pub list_to : Text → Cmd (Peer W) (Unit {0})
  list_to path = do _ ← list_dir sys print_dir file_err path; reply type_data cmd_data_last []

  unfoldable pub dir : Header → Cmd (Peer W) (Unit {0})
  dir msg =
      if msg.len == 0
      then list_to (b'.' ∷ [])
      else do path ← recv_path msg.len; elim path [ none ↦ pure tt | some path ↦ list_to path ]

  unfoldable pub get_from : ℕ → Text → Cmd (Peer W) (Unit {0})
  get_from rounds src = do
    fd ← act (sys.open_read src)
    elim fd [
      | none ↦ file_err
      | some fd ↦ do
        whole ← send_file sys send_data fd rounds
        if not whole then file_err else do
          last ← send_msg type_data cmd_data_last []
          if last then modify (λ s. record s { world = sys.close fd s.world }) else pure tt
    ]

  unfoldable pub ftpget : ℕ → Header → Cmd (Peer W) (Unit {0})
  ftpget rounds msg = with_path msg (get_from rounds)

  unfoldable pub put_to : ℕ → Text → Cmd (Peer W) (Unit {0})
  put_to rounds dst = do
    fd ← act (sys.open_write dst)
    elim fd [
      | none ↦ file_err
      | some fd ↦ do
        accepted ← send_msg type_ok cmd_ok_stor []
        if not accepted then pure tt else do
          _ ← recv_file sys at_once fd rounds
          modify (λ s. record s { world = sys.close fd s.world })
    ]

  unfoldable pub ftpput : ℕ → Header → Cmd (Peer W) (Unit {0})
  ftpput rounds msg = with_path msg (put_to rounds)

  -- The rows of `valid_commands`; other messages are ignored.
  unfoldable pub run_message : ℕ → Header → Cmd (Peer W) (Unit {0})
  run_message rounds msg =
      if not (msg.code == cmd_ok)
      then pure tt
      else if msg.type == type_quit
      then quit
      else if msg.type == type_pwd
      then pwd msg
      else if msg.type == type_cwd
      then cd msg
      else if msg.type == type_list
      then dir msg
      else if msg.type == type_retr
      then ftpget rounds msg
      else if msg.type == type_stor
      then ftpput rounds msg
      else pure tt

  -- `rounds` bounds the loops over the messages of a file, the other number the commands.
  unfoldable pub client_handler : ℕ → ℕ → Cmd (Peer W) (Unit {0})
  client_handler rounds zero = λ _. out_of_fuel
  client_handler rounds (suc fuel) = do
    s ← get
    if s.stop || s.sigterm_flag then pure tt else do
      header ← recv_header at_once
      elim header [
        | none ↦ modify (λ s. record s { stop = true })
        | some msg ↦ run_message rounds msg
      ]
      client_handler rounds fuel
