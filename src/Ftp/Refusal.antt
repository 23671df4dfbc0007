-- ===== src/Ftp/Refusal.antt =====
-- How a `dir` fails: the server sends an error, and the client gives up on its reply.
use unix_sys_prog.Base.{
  ℕ, suc, ◌^◌, ◌<◌, ◌≡◌, refl, true, false, [], ◌∷◌, ◌++◌, none, ok, ◌==◌, ltb, length, arith,
}
use unix_sys_prog.Ftp.System.{Text, Errno, eacces, enoent, other, failed, System, Peer, ask}
use unix_sys_prog.Ftp.Message.{
  path_max, type_ok, type_list, type_data, type_err_file, type_err_unkwn, cmd_ok,
  cmd_err_permission, cmd_err_negation, cmd_err_unkwn, cmd_data_last, ftp_message, at_once, select,
}
use unix_sys_prog.Ftp.Common.{expand_home, normalize_path, list_dir}
use unix_sys_prog.Ftp.Stream.{
  IsFlowing, at_once-Prompt, select-Prompt, recv_msg-Took, recv_header-Took, send_msg_lem,
}
use unix_sys_prog.Ftp.Receiving.{last_message}
use unix_sys_prog.Ftp.Server
use unix_sys_prog.Ftp.Server.{c_string, recv_path, file_err, run_message, client_handler}
use unix_sys_prog.Ftp.Client.{request}
use unix_sys_prog.Ftp.Requests.{IsPath, c_string-same, send_other}

-- What `file_err` sends.
abbrev pub err_type : Errno → ℕ
err_type eacces = type_err_file
err_type enoent = type_err_file
err_type other = type_err_unkwn

abbrev pub err_code : Errno → ℕ
err_code eacces = cmd_err_permission
err_code enoent = cmd_err_negation
err_code other = cmd_err_unkwn

abbrev pub err_message : Errno → Text
err_message e = ftp_message (err_type e) (err_code e) []

pub err_type_byte : (e : Errno) → err_type e < 2 ^ 8
err_type_byte eacces = omega arith
err_type_byte enoent = omega arith
err_type_byte other = omega arith

pub err_code_byte : (e : Errno) → err_code e < 2 ^ 8
err_code_byte eacces = omega arith
err_code_byte enoent = omega arith
err_code_byte other = omega arith

pub err_type_ok : (e : Errno) → (err_type e == type_ok) ≡ false
err_type_ok eacces = refl
err_type_ok enoent = refl
err_type_ok other = refl

module _ {W : Type 0} where
  file_err_by :
      (e : Errno) (s : Peer W)
      → IsFlowing s
      → file_err (record s { errno = e })
        ≡ ok tt (record s {
          errno = e;
          first_data = true;
          outbox = s.outbox ++ err_message e;
          sends = suc s.sends;
        })
  unfolding file_err
  file_err_by eacces s f =
      rw
        (send_other type_err_file cmd_err_permission [] (record s { errno = eacces }) f
          (omega arith))
        refl
  file_err_by enoent s f =
      rw
        (send_other type_err_file cmd_err_negation [] (record s { errno = enoent }) f (omega arith))
        refl
  file_err_by other s f =
      rw (send_other type_err_unkwn cmd_err_unkwn [] (record s { errno = other }) f (omega arith))
        refl

  -- A reply that is no consent is read up to the end of its header.
  pub request_refused :
      (t code t' code' : ℕ) (bytes more : Text) (s : Peer W)
      → IsFlowing s
      → t < type_data
      → s.inbox ≡ ftp_message t' code' [] ++ more
      → t' < 2 ^ 8
      → code' < 2 ^ 8
      → (t' == type_ok) ≡ false
      → (k : ℕ) × (request t bytes code s
          ≡ ok none (record s {
            inbox = more;
            recvs = k;
            first_data = true;
            outbox = s.outbox ++ ftp_message t cmd_ok bytes;
            sends = suc s.sends;
          }))
  unfolding request
  request_refused t code t' code' bytes more s f lt e small_t small_c n =
      let s1 : Peer W = record s {
        first_data = true;
        outbox = s.outbox ++ ftp_message t cmd_ok bytes;
        sends = suc s.sends;
      } in
      let (k, head) =
        recv_header-Took select t' code' [] more s1 select-Prompt f e small_t small_c
          (omega arith) in
      (k, rw (send_other t cmd_ok bytes s f lt) (rw head (rw n refl)))

module _ {W : Type 0} (sys : System W) where
  pub serve_failing_dir :
      (rounds : ℕ) (ch : ℕ) (name more : Text) (e : Errno) (s : Peer W)
      → IsFlowing s
      → IsPath (ch ∷ name)
      → (ch == b'~') ≡ false
      → s.inbox ≡ (ch ∷ name) ++ more
      → sys.realpath (ch ∷ name) s.world ≡ failed e
      → (k : ℕ) × (run_message sys rounds
            (record { type = type_list; code = cmd_ok; len = length (ch ∷ name) })
            s
          ≡ ok tt (record s {
            inbox = more;
            recvs = k;
            errno = e;
            first_data = true;
            outbox = (s.outbox ++ err_message e) ++ last_message;
            sends = suc (suc s.sends);
          }))
  unfolding run_message Server.dir recv_path list_dir normalize_path expand_home ask
  serve_failing_dir rounds ch name more e s f p home arrived refused =
      let path : Text = ch ∷ name in
      let (k, got_path) =
        recv_msg-Took at_once path_max path more s at_once-Prompt f arrived
          (omega (arith, p.short)) in
      let some_left : (length path == 0) ≡ false = ground arith in
      let fits : ltb (length path) path_max ≡ true = ground (arith, p.short) in
      let s1 : Peer W = record s { inbox = more; recvs = k } in
      let s2 : Peer W = record s1 {
        errno = e;
        first_data = true;
        outbox = s.outbox ++ err_message e;
        sends = suc s.sends;
      } in
      (
        k,
        rw some_left (
            rw got_path (
              rw fits (
                rw (c_string-same path p.no_zero) (
                  rw home (
                    rw refused (
                      rw (file_err_by e s1 f)
                        (rw (send_msg_lem type_data cmd_data_last [] s2 f) refl))))))),
      )
