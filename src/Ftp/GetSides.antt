-- ===== src/Ftp/GetSides.antt =====
-- The two sides of `get`: the server's command sends a file, and the client's fetches one.
use unix_sys_prog.Base.{
  ℕ, suc, ◌<◌, ◌≡◌, refl, true, false, List, [], ◌∷◌, ◌++◌, some, ok, length, int_limit, arith, All,
}
use unix_sys_prog.Ftp.System.{Text, got, System, Peer, act}
use unix_sys_prog.Ftp.Message.{
  Header, type_ok, type_retr, type_data, cmd_ok, cmd_ok_retr, cmd_data_last, ftp_message, at_once,
  select, recv_header,
}
use unix_sys_prog.Ftp.Stream.{IsFlowing, select-Prompt, send_msg_lem}
use unix_sys_prog.Ftp.Blocks.{IsReadable, IsWritable, joined, blocks, IsBlock}
use unix_sys_prog.Ftp.Sending.{send_file-Sent}
use unix_sys_prog.Ftp.Receiving.{last_message, recv_file-Stored}
use unix_sys_prog.Ftp.Server
use unix_sys_prog.Ftp.Server.{run_message, get_from, client_handler}
use unix_sys_prog.Ftp.Client
use unix_sys_prog.Ftp.Client.{request}
use unix_sys_prog.Ftp.Requests.{
  IsPath, two_paths-same, server_lead, server-Leads, with_path-Took, request-Took,
}

-- The process that serves a client goes on.
abbrev pub serving : {W : Type 0} → Peer W → Peer W
serving s = record s { stop = false; sigterm_flag = false }

module _ {W : Type 0} (sys : System W) where
  -- A round of `client_handler` with a command.
  pub handler_step :
      (rounds fuel : ℕ) (msg : Header) (s s1 s2 : Peer W)
      → recv_header at_once (serving s) ≡ ok (some msg) s1
      → run_message sys rounds msg s1 ≡ ok tt s2
      → client_handler sys rounds (suc fuel) (serving s) ≡ client_handler sys rounds fuel s2
  unfolding client_handler
  handler_step rounds fuel msg s s1 s2 head run = rw head (rw run refl)

  pub serve_get :
      (rounds fd : ℕ) (rest : W → Text) (src more : Text) (s : Peer W) (w0 : W)
      → IsReadable sys fd rest
      → IsFlowing s
      → IsPath src
      → s.inbox ≡ src ++ more
      → sys.open_read src s.world ≡ got (fd, w0)
      → sys.fstat fd w0 ≡ got (length (rest w0))
      → length (rest w0) < int_limit
      → length (rest w0) < rounds
      → (pieces : List Text) × (k : ℕ) × (n : ℕ) × (w : W) × (run_message sys rounds
            (record { type = type_retr; code = cmd_ok; len = length src })
            s
          ≡ ok tt (record s {
            inbox = more;
            recvs = k;
            outbox = (s.outbox ++ blocks (server_lead s.first_data) pieces) ++ last_message;
            sends = n;
            first_data = true;
            world = w;
          }))
        × (joined pieces ≡ rest w0)
        × All IsBlock pieces
  unfolding run_message Server.ftpget get_from act
  serve_get rounds fd rest src more s w0 file f p e opened size small enough =
      let (k, asked) = with_path-Took type_retr cmd_ok src more (get_from sys rounds) s f p e in
      let s1 : Peer W = record s { inbox = more; recvs = k; world = w0 } in
      let (pieces, n, w, b, sent, whole, all) =
        send_file-Sent sys fd rest file Server.send_data server_lead server-Leads refl rounds s1 f
          size small enough in
      let s2 : Peer W = record s {
        inbox = more;
        recvs = k;
        outbox = s.outbox ++ blocks (server_lead s.first_data) pieces;
        sends = n;
        first_data = b;
        world = w;
      } in
      (
        pieces,
        k,
        suc n,
        sys.close fd w,
        rw asked (rw opened (rw sent (rw (send_msg_lem type_data cmd_data_last [] s2 f) refl))),
        whole,
        all,
      )

  pub fetch :
      (rounds fd : ℕ) (content : W → Text) (command src dst more : Text) (pieces : List Text)
      (s : Peer W) (w0 : W)
      → IsWritable sys fd content
      → IsFlowing s
      → IsPath src
      → IsPath dst
      → s.inbox ≡ ftp_message type_ok cmd_ok_retr [] ++ (blocks [] pieces ++ (last_message ++ more))
      → sys.open_write dst s.world ≡ got (fd, w0)
      → All IsBlock pieces
      → length pieces < rounds
      → (k : ℕ) × (w : W) × (Client.ftpget sys rounds (command ∷ src ∷ dst ∷ []) s
          ≡ ok tt (record s {
            inbox = more;
            recvs = k;
            first_data = true;
            outbox = s.outbox ++ ftp_message type_retr cmd_ok src;
            sends = suc s.sends;
            world = sys.close fd w;
          }))
        × (content w ≡ content w0 ++ joined pieces)
  unfolding Client.ftpget Client.get_file act
  fetch rounds fd content command src dst more pieces s w0 file f p q e opened all enough =
      let s1 : Peer W = record s { world = w0 } in
      let (k1, asked) =
        request-Took type_retr cmd_ok_retr src [] (blocks [] pieces ++ (last_message ++ more)) s1 f
          (omega arith) e (omega arith) (omega arith) in
      let s2 : Peer W = record s1 {
        inbox = blocks [] pieces ++ (last_message ++ more);
        recvs = k1;
        first_data = true;
        outbox = s.outbox ++ ftp_message type_retr cmd_ok src;
        sends = suc s.sends;
      } in
      let (k, w, run, stored) =
        recv_file-Stored sys fd content file select select-Prompt rounds pieces more s2 f refl all
          enough in
      (k, w, rw (two_paths-same command src dst p q) (rw opened (rw asked (rw run refl))), stored)
