-- ===== src/Ftp/Message.antt =====
-- The messages of myftp/common.h, `send_msg` of common.c, and the two functions `recv_msg`.
use unix_sys_prog.Base.{
  ℕ, zero, suc, ◌+◌, ◌-◌, ◌*◌, ◌/◌, ◌%◌, ◌^◌, Bool, true, false, not, ◌||◌, ◌&&◌, [], ◌∷◌, ◌++◌,
  Option, none, some, Cmd, ok, crash, out_of_fuel, pure, modify, ◌>>=◌, ◌>>◌, ◌==◌, ltb,
  if◌then◌else◌, length, take,
}
use unix_sys_prog.Ftp.System.{Text, Peer, recv, send}

abbrev pub header_size : ℕ
header_size = 4

abbrev pub readblk : ℕ
readblk = 1024

abbrev pub path_max : ℕ
path_max = 4096

abbrev pub type_quit : ℕ
type_quit = 1

abbrev pub type_pwd : ℕ
type_pwd = 2

abbrev pub type_cwd : ℕ
type_cwd = 3

abbrev pub type_list : ℕ
type_list = 4

abbrev pub type_retr : ℕ
type_retr = 5

abbrev pub type_stor : ℕ
type_stor = 6

abbrev pub type_ok : ℕ
type_ok = 16

abbrev pub type_err_cmd : ℕ
type_err_cmd = 17

abbrev pub type_err_file : ℕ
type_err_file = 18

abbrev pub type_err_unkwn : ℕ
type_err_unkwn = 19

abbrev pub type_data : ℕ
type_data = 32

abbrev pub cmd_ok : ℕ
cmd_ok = 0

abbrev pub cmd_ok_retr : ℕ
cmd_ok_retr = 1

abbrev pub cmd_ok_stor : ℕ
cmd_ok_stor = 2

abbrev pub cmd_err_negation : ℕ
cmd_err_negation = 0

abbrev pub cmd_err_syntax : ℕ
cmd_err_syntax = 1

abbrev pub cmd_err_permission : ℕ
cmd_err_permission = 1

abbrev pub cmd_err_unkwn : ℕ
cmd_err_unkwn = 5

abbrev pub cmd_data_last : ℕ
cmd_data_last = 0

abbrev pub cmd_data : ℕ
cmd_data = 1

-- The header of `ftp_message_t`, its length through `ntohs`.
pub record Header : Type 0 where
  pub type : ℕ
  pub code : ℕ
  pub len : ℕ

-- The message on the wire: its length goes through a 16-bit integer and `htons`.
unfoldable pub ftp_message : ℕ → ℕ → Text → Text
ftp_message t c bytes =
    let len = length bytes % 2 ^ 16 in
    (t % 2 ^ 8) ∷ (c % 2 ^ 8) ∷ (len / 2 ^ 8) ∷ (len % 2 ^ 8) ∷ take len bytes

unfoldable pub header_of : Text → Header
header_of (t ∷ c ∷ h ∷ l ∷ []) = record { type = t; code = c; len = h * 2 ^ 8 + l }
header_of _ = record { type = 0; code = 0; len = 0 }

module _ {W : Type 0} where
  unfoldable pub send_msg : ℕ → ℕ → Text → Cmd (Peer W) Bool
  send_msg t c bytes = do
    modify (λ s. record s {
      first_data =
          if not (t == type_data) || (t == type_data && c == cmd_data_last)
          then true
          else s.first_data;
    })
    send (ftp_message t c bytes)

  -- The server's wait for bytes is `recv` itself.
  abbrev pub at_once : Cmd (Peer W) Bool
  at_once = pure true

  abbrev waited : Bool → Cmd (Peer W) Bool
  waited true s = ok true s
  waited false s = ok false (record s { recvs = suc s.recvs })

  -- The client's `select` before each `recv`.
  unfoldable pub select : Cmd (Peer W) Bool
  select s = waited (s.ready s.recvs) s

  -- The loop of `recv_msg`: `len` bytes are still to come, and the buffer has room for `room`.
  unfoldable pub recv_loop : Cmd (Peer W) Bool → ℕ → ℕ → ℕ → Cmd (Peer W) (Option Text)
  recv_loop wait zero room len = λ _. out_of_fuel
  recv_loop wait (suc fuel) room len = if len == 0 then pure (some []) else do
    in_time ← wait
    if not in_time then pure none else do
      piece ← recv len
      if length piece == 0 then pure none else if ltb room (length piece) then crash else do
        rest ← recv_loop wait fuel (room - length piece) (len - length piece)
        pure (elim rest [ none ↦ none | some more ↦ some (piece ++ more) ])

  -- `recv_msg` into a buffer of `room` bytes.
  unfoldable pub recv_msg : Cmd (Peer W) Bool → ℕ → ℕ → Cmd (Peer W) (Option Text)
  recv_msg wait room len = recv_loop wait (suc len) room len

  -- `recv_msg(&msg, HEADER_SIZE)` and `ntohs`.
  unfoldable pub recv_header : Cmd (Peer W) Bool → Cmd (Peer W) (Option Header)
  recv_header wait = do
    bytes ← recv_msg wait header_size header_size
    pure (elim bytes [ none ↦ none | some b ↦ some (header_of b) ])
