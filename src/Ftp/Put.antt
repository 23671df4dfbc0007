-- ===== src/Ftp/Put.antt =====
-- `put`: the client's command and the server's, over one connection.
use unix_sys_prog.Base.{
  ℕ, suc, ◌<◌, ◌≡◌, refl, ap, ◌∙◌, true, List, [], ◌∷◌, ◌++◌, ok, length, int_limit, append_assoc,
  arith, All,
}
use unix_sys_prog.Ftp.System.{Text, got, System, Peer, act}
use unix_sys_prog.Ftp.Message.{
  type_ok, type_stor, type_data, cmd_ok, cmd_ok_stor, cmd_data_last, ftp_message, at_once,
}
use unix_sys_prog.Ftp.Stream.{IsFlowing, at_once-Prompt, recv_header-Took, send_msg_lem}
use unix_sys_prog.Ftp.Blocks.{IsReadable, IsWritable, joined, blocks, IsBlock}
use unix_sys_prog.Ftp.Sending.{send_file-Sent}
use unix_sys_prog.Ftp.Receiving.{last_message, recv_file-Stored}
use unix_sys_prog.Ftp.Server
use unix_sys_prog.Ftp.Server.{run_message, put_to, client_handler}
use unix_sys_prog.Ftp.Client
use unix_sys_prog.Ftp.Requests.{
  IsPath, two_paths-same, client_lead, client-Leads, with_path-Took, request-Took, send_other,
}
use unix_sys_prog.Ftp.GetSides.{serving, handler_step}
use unix_sys_prog.Ftp.Get.{length-blocks}

module _ {W : Type 0} (sys : System W) where
  serve_put :
      (rounds fd : ℕ) (content : W → Text) (dst more : Text) (pieces : List Text) (s : Peer W)
      (w0 : W)
      → IsWritable sys fd content
      → IsFlowing s
      → IsPath dst
      → s.inbox ≡ dst ++ (blocks [] pieces ++ (last_message ++ more))
      → sys.open_write dst s.world ≡ got (fd, w0)
      → All IsBlock pieces
      → length pieces < rounds
      → (k : ℕ) × (w : W) × (run_message sys rounds
            (record { type = type_stor; code = cmd_ok; len = length dst })
            s
          ≡ ok tt (record s {
            inbox = more;
            recvs = k;
            outbox = s.outbox ++ ftp_message type_ok cmd_ok_stor [];
            sends = suc s.sends;
            first_data = true;
            world = sys.close fd w;
          }))
        × (content w ≡ content w0 ++ joined pieces)
  unfolding run_message Server.ftpput put_to act
  serve_put rounds fd content dst more pieces s w0 file f p e opened all enough =
      let file_bytes : Text = blocks [] pieces ++ (last_message ++ more) in
      let (k0, asked) =
        with_path-Took type_stor cmd_ok dst file_bytes (put_to sys rounds) s f p e in
      let s1 : Peer W = record s { inbox = file_bytes; recvs = k0; world = w0 } in
      let accepted = send_other type_ok cmd_ok_stor [] s1 f (omega arith) in
      let s2 : Peer W = record s1 {
        first_data = true;
        outbox = s.outbox ++ ftp_message type_ok cmd_ok_stor [];
        sends = suc s.sends;
      } in
      let (k, w, run, stored) =
        recv_file-Stored sys fd content file at_once at_once-Prompt rounds pieces more s2 f refl all
          enough in
      (k, w, rw asked (rw opened (rw accepted (rw run refl))), stored)

  deposit :
      (rounds fd : ℕ) (rest : W → Text) (command src dst more : Text) (s : Peer W) (w0 : W)
      → IsReadable sys fd rest
      → IsFlowing s
      → IsPath src
      → IsPath dst
      → s.inbox ≡ ftp_message type_ok cmd_ok_stor [] ++ more
      → sys.open_read src s.world ≡ got (fd, w0)
      → sys.fstat fd w0 ≡ got (length (rest w0))
      → length (rest w0) < int_limit
      → length (rest w0) < rounds
      → (pieces : List Text) × (k : ℕ) × (n : ℕ) × (w : W) × (Client.ftpput sys rounds
            (command ∷ src ∷ dst ∷ [])
            s
          ≡ ok tt (record s {
            inbox = more;
            recvs = k;
            outbox =
                ((s.outbox ++ ftp_message type_stor cmd_ok dst) ++ blocks [] pieces)
                ++ last_message;
            sends = n;
            first_data = true;
            world = sys.close fd w;
          }))
        × (joined pieces ≡ rest w0)
        × All IsBlock pieces
  unfolding Client.ftpput Client.put_file act
  deposit rounds fd rest command src dst more s w0 file f p q e opened size small enough =
      let s1 : Peer W = record s { world = w0 } in
      let (k, asked) =
        request-Took type_stor cmd_ok_stor dst [] more s1 f (omega arith) e (omega arith)
          (omega arith) in
      let s2 : Peer W = record s1 {
        inbox = more;
        recvs = k;
        first_data = true;
        outbox = s.outbox ++ ftp_message type_stor cmd_ok dst;
        sends = suc s.sends;
      } in
      let (pieces, n, w, b, sent, whole, all) =
        send_file-Sent sys fd rest file Client.send_data client_lead client-Leads refl rounds s2 f
          size small enough in
      let s3 : Peer W = record s2 {
        outbox = s2.outbox ++ blocks [] pieces;
        sends = n;
        world = w;
        first_data = b;
      } in
      (
        pieces,
        k,
        suc n,
        w,
        rw (two_paths-same command src dst p q) (
            rw opened
              (rw asked (rw sent (rw (send_msg_lem type_data cmd_data_last [] s3 f) refl)))),
        whole,
        all,
      )

-- All that the client sends for `put`.
abbrev file_request : Text → List Text → Text
file_request dst pieces = ftp_message type_stor cmd_ok dst ++ (blocks [] pieces ++ last_message)

request_join :
    (out dst : Text) (pieces : List Text)
    → ((out ++ ftp_message type_stor cmd_ok dst) ++ blocks [] pieces) ++ last_message
      ≡ out ++ file_request dst pieces
request_join out dst pieces =
    let asked = ftp_message type_stor cmd_ok dst in
    append_assoc (out ++ asked) (blocks [] pieces) last_message
    ∙ append_assoc out asked (blocks [] pieces ++ last_message)

request_split :
    (dst : Text) (pieces : List Text) (more : Text)
    → file_request dst pieces ++ more
      ≡ ftp_message type_stor cmd_ok dst ++ (blocks [] pieces ++ (last_message ++ more))
request_split dst pieces more =
    let asked = ftp_message type_stor cmd_ok dst in
    append_assoc asked (blocks [] pieces ++ last_message) more
    ∙ ap (λ t. asked ++ t) (append_assoc (blocks [] pieces) last_message more)

module _ {W V : Type 0} (client_sys : System W) (server_sys : System V) where
  -- `put SRC DST` copies a file, empty or not. If the server's consent is at the head of the client's
  -- stream, the client's command sends its request and the file; and if that is at the head of the
  -- server's stream, the server's loop runs the command, sends the consent and nothing else, and
  -- writes the file's bytes, all of them and in their order, into a file that was empty, and
  -- closes it. Both leave in their streams what came behind. Bytes arrive in any pieces, but they do;
  -- `read` gives any pieces; the calls on both files and of `send` succeed, paths fit their arrays,
  -- the file's length fits an int, and the number of rounds is above it.
  pub put_transfers :
      (rounds fuel fd fd' : ℕ) (rest : W → Text) (content : V → Text)
      (command src dst in_s in_c : Text) (c : Peer W) (s : Peer V) (w0 : W) (v0 : V)
      → IsReadable client_sys fd rest
      → IsWritable server_sys fd' content
      → IsFlowing c
      → IsFlowing s
      → IsPath src
      → IsPath dst
      → client_sys.open_read src c.world ≡ got (fd, w0)
      → client_sys.fstat fd w0 ≡ got (length (rest w0))
      → length (rest w0) < int_limit
      → server_sys.open_write dst s.world ≡ got (fd', v0)
      → content v0 ≡ []
      → length (rest w0) < rounds
      → (sent : Text) × (c' : Peer W) × (s' : Peer V) × (v : V) × (Client.ftpput client_sys rounds
            (command ∷ src ∷ dst ∷ [])
            (record c { inbox = ftp_message type_ok cmd_ok_stor [] ++ in_c })
          ≡ ok tt c')
        × (c'.outbox ≡ c.outbox ++ sent)
        × (c'.inbox ≡ in_c)
        × (client_handler server_sys rounds (suc fuel) (serving (record s { inbox = sent ++ in_s }))
            ≡ client_handler server_sys rounds fuel (serving s'))
        × (s'.outbox ≡ s.outbox ++ ftp_message type_ok cmd_ok_stor [])
        × (s'.inbox ≡ in_s)
        × (s'.first_data ≡ true)
        × (s'.world ≡ server_sys.close fd' v)
        × (content v ≡ rest w0)
  put_transfers rounds fuel fd fd' rest content command src dst in_s in_c c s w0 v0 readable
        writable fc fs p q opened size small created empty enough =
      let (pieces, k, n, w, run, whole, all) =
        deposit client_sys rounds fd rest command src dst in_c
          (record c { inbox = ftp_message type_ok cmd_ok_stor [] ++ in_c }) w0 readable fc p q refl
          opened size small enough in
      let sent : Text = file_request dst pieces in
      let size_same : length (joined pieces) ≡ length (rest w0) = ap length whole in
      let few : length pieces < rounds = omega (arith, length-blocks pieces all, size_same) in
      let start : Peer V = serving (record s { inbox = sent ++ in_s }) in
      let file_bytes : Text = blocks [] pieces ++ (last_message ++ in_s) in
      let (k0, head) =
        recv_header-Took at_once type_stor cmd_ok dst file_bytes start at_once-Prompt fs
          (request_split dst pieces in_s) (omega arith) (omega arith) (omega (arith, q.short)) in
      let s1 : Peer V = record start { inbox = dst ++ file_bytes; recvs = k0 } in
      let (k', v, served, stored) =
        serve_put server_sys rounds fd' content dst in_s pieces s1 v0 writable fs q refl created all
          few in
      let s' : Peer V = record s {
        inbox = in_s;
        recvs = k';
        outbox = s.outbox ++ ftp_message type_ok cmd_ok_stor [];
        sends = suc s.sends;
        first_data = true;
        world = server_sys.close fd' v;
      } in
      (
        sent,
        _,
        s',
        v,
        run,
        request_join c.outbox dst pieces,
        refl,
        handler_step server_sys rounds fuel _ start s1 (serving s') head served,
        refl,
        refl,
        refl,
        refl,
        stored ∙ ap (λ t. t ++ joined pieces) empty ∙ whole,
      )
