-- ===== src/Ftp/Common.antt =====
-- The functions of myftp/common.c that both sides call. What a side links them with is a parameter: its
-- `send_data`, `recv_msg`, `print_dir` and `file_err`. What they print is left out.
use unix_sys_prog.Base.{
  ℕ, zero, suc, ◌+◌, ◌-◌, Bool, true, false, not, List, [], ◌∷◌, ◌++◌, Option, none, some, Cmd,
  crash, out_of_fuel, pure, get, modify, ◌>>=◌, ◌>>◌, ◌==◌, ltb, leb, int_limit, if◌then◌else◌,
  length,
}
use unix_sys_prog.Ftp.System.{Text, other, FileStat, System, Peer, ask, act, alter}
use unix_sys_prog.Ftp.Message.{
  Header, readblk, path_max, type_data, cmd_data_last, recv_msg, recv_header,
}

module _ {W : Type 0} (sys : System W) where
  -- The `~` of a path, replaced by the home directory; nothing without one, or if that is too long.
  unfoldable pub expand_home : Text → Cmd (Peer W) (Option Text)
  expand_home [] = pure (some [])
  expand_home (c ∷ rest) = if not (c == b'~') then pure (some (c ∷ rest)) else do
    s ← get
    elim (sys.home s.world) [
      | none ↦ pure none
      | some home ↦
          if ltb (path_max - 1) (length home + length (c ∷ rest))
          then (do modify (λ s. record s { errno = other }); pure none)
          else pure (some (home ++ rest))
    ]

  unfoldable pub normalize_path : Text → Cmd (Peer W) (Option Text)
  normalize_path arg = do
    relpath ← expand_home arg
    elim relpath [ none ↦ pure none | some path ↦ ask (sys.realpath path) ]

  unfoldable pub change_dir : Text → Cmd (Peer W) Bool
  change_dir path = do
    fullpath ← normalize_path path
    elim fullpath [ none ↦ pure false | some full ↦ alter (sys.chdir full) ]

  module _ (print_dir : FileStat → Text → Cmd (Peer W) Bool)
      (file_err : Cmd (Peer W) (Unit {0})) where
    abbrev fail : Cmd (Peer W) Bool
    fail = do file_err; pure false

    -- The loop over the names that `readdir` gives. `name_full` has room for PATH_MAX bytes.
    unfoldable pub list_entries : Text → List Text → Cmd (Peer W) Bool
    list_entries full [] = pure true
    list_entries full (name ∷ names) =
        if ltb (path_max - 1) (length full + 1 + length name) then crash else do
          st ← ask (sys.stat (full ++ b'/' ∷ name))
          elim st [
            | none ↦ fail
            | some st ↦ do
              printed ← print_dir st name
              if printed then list_entries full names else pure false
          ]

    unfoldable pub list_path : Text → FileStat → Cmd (Peer W) Bool
    list_path full st = if not st.is_dir then print_dir st full else do
      names ← ask (sys.opendir full)
      elim names [ none ↦ fail | some names ↦ list_entries full names ]

    unfoldable pub list_dir : Text → Cmd (Peer W) Bool
    list_dir search_path = do
      fullpath ← normalize_path search_path
      elim fullpath [
        | none ↦ fail
        | some full ↦ do
          st ← ask (sys.stat full)
          elim st [ none ↦ fail | some st ↦ list_path full st ]
      ]

  module _ (send_data : Text → Cmd (Peer W) Bool) (fd : ℕ) where
    -- The loop of `send_file`, from the offset `pos`, an `int`.
    unfoldable pub send_blocks : ℕ → ℕ → ℕ → Cmd (Peer W) Bool
    send_blocks zero size pos = λ _. out_of_fuel
    send_blocks (suc fuel) size pos = if not (ltb pos size) then pure true else do
      block ← act (sys.read fd readblk)
      elim block [
        | none ↦ pure false
        | some buf ↦ do
          sent ← send_data buf
          if not sent
              then pure false
              else if leb int_limit (pos + length buf)
              then crash
              else send_blocks fuel size (pos + length buf)
      ]

    unfoldable pub send_file : ℕ → Cmd (Peer W) Bool
    send_file fuel = do
      size ← ask (sys.fstat fd)
      elim size [ none ↦ pure false | some size ↦ send_blocks fuel size 0 ]

  module _ (wait : Cmd (Peer W) Bool) (fd : ℕ) where
    -- The loop that reads the `remain` bytes of one message, in blocks.
    unfoldable pub write_blocks : ℕ → ℕ → Cmd (Peer W) Bool
    write_blocks zero remain = λ _. out_of_fuel
    write_blocks (suc fuel) remain = if remain == 0 then pure true else do
      block ← recv_msg wait readblk (if ltb readblk remain then readblk else remain)
      elim block [
        | none ↦ pure false
        | some buf ↦ do
          written ← alter (sys.write fd buf)
          if written then write_blocks fuel (remain - length buf) else pure false
      ]

    -- What `recv_file` does with a header; `again` is the next round of its loop.
    abbrev pub take_message : Cmd (Peer W) Bool → Header → Cmd (Peer W) Bool
    take_message again reply = if not (reply.type == type_data) then pure false else do
      stored ← write_blocks (suc reply.len) reply.len
      if not stored then pure false else if reply.code == cmd_data_last then pure true else again

    unfoldable pub recv_file : ℕ → Cmd (Peer W) Bool
    recv_file zero = λ _. out_of_fuel
    recv_file (suc fuel) = do
      header ← recv_header wait
      elim header [ none ↦ pure false | some reply ↦ take_message (recv_file fuel) reply ]
