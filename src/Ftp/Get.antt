-- ===== src/Ftp/Get.antt =====
-- `get`: the client's command and the server's, over one connection.
use unix_sys_prog.Base.{
  ℕ, suc, ◌≤◌, ◌<◌, ◌≡◌, refl, ap, ◌∙◌, true, List, [], ◌∷◌, ◌++◌, ok, length, int_limit,
  length-append, append_assoc, arith, All,
}
use unix_sys_prog.Ftp.System.{Text, got, System, Peer}
use unix_sys_prog.Ftp.Message.{type_ok, type_retr, cmd_ok, cmd_ok_retr, ftp_message, at_once}
use unix_sys_prog.Ftp.Stream.{IsFlowing, at_once-Prompt, recv_header-Took}
use unix_sys_prog.Ftp.Blocks.{IsReadable, IsWritable, joined, blocks, IsBlock}
use unix_sys_prog.Ftp.Receiving.{last_message}
use unix_sys_prog.Ftp.Server.{client_handler}
use unix_sys_prog.Ftp.Client
use unix_sys_prog.Ftp.Client.{request}
use unix_sys_prog.Ftp.Requests.{IsPath, server_lead}
use unix_sys_prog.Ftp.GetSides.{serving, handler_step, serve_get, fetch}

-- The blocks of a file with something in it follow the lead.
pub blocks_lead :
    (lead : Text) (pieces : List Text)
    → 0 < length (joined pieces)
    → blocks lead pieces ≡ lead ++ blocks [] pieces
blocks_lead lead [] lt = absurd (omega arith)
blocks_lead lead (p ∷ ps) lt = refl

-- There are no more blocks than bytes.
pub length-blocks :
    (pieces : List Text) → All IsBlock pieces → length pieces ≤ length (joined pieces)
length-blocks [] all = omega arith
length-blocks (p ∷ ps) (b, all) =
    omega (arith, b.0, length-blocks ps all, length-append p (joined ps))

-- The whole reply to `get`.
abbrev file_reply : List Text → Text
file_reply pieces = ftp_message type_ok cmd_ok_retr [] ++ (blocks [] pieces ++ last_message)

reply_lead :
    (out : Text) (pieces : List Text)
    → 0 < length (joined pieces)
    → (out ++ blocks (server_lead true) pieces) ++ last_message ≡ out ++ file_reply pieces
reply_lead out pieces lt =
    let ready = ftp_message type_ok cmd_ok_retr [] in
    ap (λ t. (out ++ t) ++ last_message) (blocks_lead ready pieces lt)
    ∙ append_assoc out (ready ++ blocks [] pieces) last_message
    ∙ ap (λ t. out ++ t) (append_assoc ready (blocks [] pieces) last_message)

reply_split :
    (pieces : List Text) (more : Text)
    → file_reply pieces ++ more
      ≡ ftp_message type_ok cmd_ok_retr [] ++ (blocks [] pieces ++ (last_message ++ more))
reply_split pieces more =
    let ready = ftp_message type_ok cmd_ok_retr [] in
    append_assoc ready (blocks [] pieces ++ last_message) more
    ∙ ap (λ t. ready ++ t) (append_assoc (blocks [] pieces) last_message more)

module _ {W V : Type 0} (server_sys : System W) (client_sys : System V) where
  -- `get SRC DST` copies a file. The client's request is at the head of the server's stream; then the
  -- server's loop runs the command and sends some reply, and if that is at the head of the client's
  -- stream, then the client's command writes the file's bytes, all of them and in their order, into a
  -- file that was empty, and closes it. Both leave in their streams what came behind. The file is not
  -- empty; bytes arrive in any pieces, but they do; `read` gives any pieces; the calls on both files
  -- and of `send` succeed, paths fit their arrays, the file's length fits an int, and the
  -- number of rounds is above it.
  pub get_transfers :
      (rounds fuel fd fd' : ℕ) (rest : W → Text) (content : V → Text)
      (command src dst in_s in_c : Text) (s : Peer W) (c : Peer V) (w0 : W) (v0 : V)
      → IsReadable server_sys fd rest
      → IsWritable client_sys fd' content
      → IsFlowing s
      → IsFlowing c
      → IsPath src
      → IsPath dst
      → s.first_data ≡ true
      → server_sys.open_read src s.world ≡ got (fd, w0)
      → server_sys.fstat fd w0 ≡ got (length (rest w0))
      → length (rest w0) < int_limit
      → client_sys.open_write dst c.world ≡ got (fd', v0)
      → content v0 ≡ []
      → 0 < length (rest w0)
      → length (rest w0) < rounds
      → (sent : Text) × (s' : Peer W) × (c' : Peer V) × (v : V) × (client_handler server_sys rounds
            (suc fuel)
            (serving (record s { inbox = ftp_message type_retr cmd_ok src ++ in_s }))
          ≡ client_handler server_sys rounds fuel (serving s'))
        × (s'.outbox ≡ s.outbox ++ sent)
        × (s'.inbox ≡ in_s)
        × (s'.first_data ≡ true)
        × (Client.ftpget client_sys rounds
              (command ∷ src ∷ dst ∷ [])
              (record c { inbox = sent ++ in_c })
            ≡ ok tt c')
        × (c'.outbox ≡ c.outbox ++ ftp_message type_retr cmd_ok src)
        × (c'.inbox ≡ in_c)
        × (c'.world ≡ client_sys.close fd' v)
        × (content v ≡ rest w0)
  get_transfers rounds fuel fd fd' rest content command src dst in_s in_c s c w0 v0 readable
        writable fs fc p q first opened size small created empty some_bytes enough =
      let start : Peer W =
        serving (record s { inbox = ftp_message type_retr cmd_ok src ++ in_s }) in
      let (k0, head) =
        recv_header-Took at_once type_retr cmd_ok src in_s start at_once-Prompt fs refl
          (omega arith) (omega arith) (omega (arith, p.short)) in
      let s1 : Peer W = record start { inbox = src ++ in_s; recvs = k0 } in
      let (pieces, k, n, w, served, whole, all) =
        serve_get server_sys rounds fd rest src in_s s1 w0 readable fs p refl opened size small
          enough in
      let sent : Text = file_reply pieces in
      let size_same : length (joined pieces) ≡ length (rest w0) = ap length whole in
      let few : length pieces < rounds = omega (arith, length-blocks pieces all, size_same) in
      let out =
        ap (λ b. (s.outbox ++ blocks (server_lead b) pieces) ++ last_message) first
        ∙ reply_lead s.outbox pieces (omega (arith, size_same)) in
      let (k', v, run, stored) =
        fetch client_sys rounds fd' content command src dst in_c pieces
          (record c { inbox = sent ++ in_c }) v0 writable fc p q (reply_split pieces in_c) created
          all few in
      let s' : Peer W = record s {
        inbox = in_s;
        recvs = k;
        outbox = (s.outbox ++ blocks (server_lead s.first_data) pieces) ++ last_message;
        sends = n;
        first_data = true;
        world = w;
      } in
      (
        sent,
        s',
        _,
        v,
        handler_step server_sys rounds fuel _ start s1 (serving s') head served,
        out,
        refl,
        refl,
        run,
        refl,
        refl,
        refl,
        stored ∙ ap (λ t. t ++ joined pieces) empty ∙ whole,
      )
