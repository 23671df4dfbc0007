-- ===== src/Ftp/Stale.antt =====
-- A `dir` that fails: the server sends an error and, behind it, the message that ends a list.
use unix_sys_prog.Base.{
  ℕ, suc, ◌≡◌, refl, true, false, [], ◌∷◌, ◌++◌, ok, ◌==◌, append_assoc, arith,
}
use unix_sys_prog.Ftp.System.{Text, Errno, failed, System, Peer}
use unix_sys_prog.Ftp.Message.{
  type_list, type_pwd, type_data, cmd_ok, cmd_ok_retr, cmd_data_last, ftp_message, at_once,
}
use unix_sys_prog.Ftp.Stream.{IsFlowing, at_once-Prompt, recv_header-Took}
use unix_sys_prog.Ftp.Receiving.{last_message}
use unix_sys_prog.Ftp.Server.{client_handler}
use unix_sys_prog.Ftp.Client
use unix_sys_prog.Ftp.Client.{request}
use unix_sys_prog.Ftp.Requests.{IsPath, copy_path-same}
use unix_sys_prog.Ftp.GetSides.{serving, handler_step}
use unix_sys_prog.Ftp.Refusal.{
  err_type, err_code, err_message, err_type_byte, err_code_byte, err_type_ok, request_refused,
  serve_failing_dir,
}

module _ {W : Type 0} where
  give_up_dir :
      (rounds : ℕ) (command path more : Text) (e : Errno) (s : Peer W)
      → IsFlowing s
      → IsPath path
      → s.inbox ≡ err_message e ++ more
      → (k : ℕ) × (Client.dir rounds (command ∷ path ∷ []) s
          ≡ ok tt (record s {
            inbox = more;
            recvs = k;
            first_data = true;
            outbox = s.outbox ++ ftp_message type_list cmd_ok path;
            sends = suc s.sends;
          }))
  unfolding Client.dir
  give_up_dir rounds command path more e s f p arrived =
      let (k, asked) =
        request_refused type_list cmd_ok_retr (err_type e) (err_code e) path more s f (omega arith)
          arrived (err_type_byte e) (err_code_byte e) (err_type_ok e) in
      (k, rw (copy_path-same path p, Client.dir) (rw asked refl))

  miss_pwd :
      (more : Text) (s : Peer W)
      → IsFlowing s
      → s.inbox ≡ last_message ++ more
      → (s' : Peer W) × (Client.pwd s ≡ ok tt s') × (s'.inbox ≡ more)
  unfolding Client.pwd
  miss_pwd more s f arrived =
      let (k, asked) =
        request_refused type_pwd cmd_ok type_data cmd_data_last [] more s f (omega arith) arrived
          (omega arith) (omega arith) refl in
      (
        record s {
          inbox = more;
          recvs = k;
          first_data = true;
          outbox = s.outbox ++ ftp_message type_pwd cmd_ok [];
          sends = suc s.sends;
        },
        rw asked refl,
        refl,
      )

module _ {W V : Type 0} (server_sys : System W) where
  -- When the server cannot resolve the path of a `dir` request that is at the head of its stream, it
  -- sends the error and behind it the message that ends a list. The client's `dir` reads the error
  -- and leaves the other message in its stream; the client's next `pwd` then takes that message for
  -- its reply, and what the server answers to it stays unread. The path is not a `~` path and fits
  -- the arrays; bytes arrive in any pieces, but they do, and calls of `send` succeed.
  pub failed_dir_stale :
      (rounds fuel ch : ℕ) (command name in_s in_c : Text) (e : Errno) (s : Peer W) (c : Peer V)
      → IsFlowing s
      → IsFlowing c
      → IsPath (ch ∷ name)
      → (ch == b'~') ≡ false
      → server_sys.realpath (ch ∷ name) s.world ≡ failed e
      → (s' : Peer W) × (c' : Peer V) × (c'' : Peer V) × (client_handler server_sys rounds
            (suc fuel)
            (serving (record s { inbox = ftp_message type_list cmd_ok (ch ∷ name) ++ in_s }))
          ≡ client_handler server_sys rounds fuel (serving s'))
        × (s'.outbox ≡ s.outbox ++ (err_message e ++ last_message))
        × (Client.dir rounds
              (command ∷ (ch ∷ name) ∷ [])
              (record c { inbox = err_message e ++ (last_message ++ in_c) })
            ≡ ok tt c')
        × (c'.outbox ≡ c.outbox ++ ftp_message type_list cmd_ok (ch ∷ name))
        × (c'.inbox ≡ last_message ++ in_c)
        × (Client.pwd c' ≡ ok tt c'')
        × (c''.inbox ≡ in_c)
  failed_dir_stale rounds fuel ch command name in_s in_c e s c fs fc p home refused =
      let path : Text = ch ∷ name in
      let start : Peer W =
        serving (record s { inbox = ftp_message type_list cmd_ok path ++ in_s }) in
      let (k0, head) =
        recv_header-Took at_once type_list cmd_ok path in_s start at_once-Prompt fs refl
          (omega arith) (omega arith) (omega (arith, p.short)) in
      let s1 : Peer W = record start { inbox = path ++ in_s; recvs = k0 } in
      let (k, served) =
        serve_failing_dir server_sys rounds ch name in_s e s1 fs p home refl refused in
      let s' : Peer W = record s {
        inbox = in_s;
        recvs = k;
        errno = e;
        first_data = true;
        outbox = (s.outbox ++ err_message e) ++ last_message;
        sends = suc (suc s.sends);
      } in
      let after : Text = last_message ++ in_c in
      let (k', listed) =
        give_up_dir rounds command path after e (record c { inbox = err_message e ++ after }) fc p
          refl in
      let c' : Peer V = record c {
        inbox = after;
        recvs = k';
        first_data = true;
        outbox = c.outbox ++ ftp_message type_list cmd_ok path;
        sends = suc c.sends;
      } in
      let (c'', missed, left) = miss_pwd in_c c' fc refl in
      (
        s',
        c',
        c'',
        handler_step server_sys rounds fuel _ start s1 (serving s') head served,
        append_assoc s.outbox (err_message e) last_message,
        listed,
        refl,
        refl,
        missed,
        left,
      )
