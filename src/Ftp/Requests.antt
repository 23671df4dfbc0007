-- ===== src/Ftp/Requests.antt =====
-- How a request travels: what the client sends and awaits, and how the server reads it.
use unix_sys_prog.Base.{
  ℕ, suc, ◌-◌, ◌^◌, ◌<◌, ◌≡◌, refl, ap, ◌∙◌, Bool, true, false, [], ◌∷◌, ◌++◌, some, Cmd, ok, ◌==◌,
  ltb, if◌then◌else◌, length, take-length, append_assoc, arith, ◌∉◌,
}
use unix_sys_prog.Ftp.System.{Text, Peer}
use unix_sys_prog.Ftp.Message.{
  path_max, type_ok, type_data, cmd_ok, cmd_ok_retr, cmd_data, ftp_message, send_msg, at_once,
  select,
}
use unix_sys_prog.Ftp.Stream.{
  IsFlowing, at_once-Prompt, select-Prompt, recv_msg-Took, recv_header-Took, first_after,
  send_msg_lem,
}
use unix_sys_prog.Ftp.Blocks.{Leads}
use unix_sys_prog.Ftp.Server
use unix_sys_prog.Ftp.Server.{c_string, announce, recv_path, with_path}
use unix_sys_prog.Ftp.Client
use unix_sys_prog.Ftp.Client.{copy_path, two_paths, request}

-- A path that both sides can hold: some characters, none of them zero, and room for a zero.
pub record IsPath (path : Text) : Type 0 where
  pub some_char : 0 < length path
  pub short : length path < path_max
  pub no_zero : 0 ∉ path

pub c_string-same : (path : Text) → 0 ∉ path → c_string path ≡ path
unfolding c_string
c_string-same [] o = refl
c_string-same (c ∷ cs) o = ground (arith, c_string-same cs (ground arith))

pub copy_path-same : (path : Text) → IsPath path → copy_path path ≡ some path
unfolding copy_path
copy_path-same path p =
    let fits : ltb path_max (length path) ≡ false = ground (arith, p.short) in
    rw fits (ap some (take-length (path_max - 1) path (omega (arith, p.short))))

pub two_paths-same :
    (command src dst : Text)
    → IsPath src
    → IsPath dst
    → two_paths (command ∷ src ∷ dst ∷ []) ≡ some (src, dst)
unfolding two_paths
two_paths-same command src dst p q = rw (copy_path-same dst q) (rw (copy_path-same src p) refl)

-- What the server sends before the first block of a file.
abbrev pub server_lead : Bool → Text
server_lead b = if b then ftp_message type_ok cmd_ok_retr [] else []

abbrev pub client_lead : Bool → Text
client_lead b = []

module _ {W : Type 0} where
  -- A message that is no data message.
  pub send_other :
      (t c : ℕ) (bs : Text) (s : Peer W)
      → IsFlowing s
      → t < type_data
      → send_msg t c bs s
        ≡ ok true (record s {
          first_data = true;
          outbox = s.outbox ++ ftp_message t c bs;
          sends = suc s.sends;
        })
  send_other t c bs s f lt =
      let again : first_after t c s.first_data ≡ true = ground arith in
      send_msg_lem t c bs s f
      ∙ ap
          (λ b. ok true (record s {
            first_data = b;
            outbox = s.outbox ++ ftp_message t c bs;
            sends = suc s.sends;
          }))
          again

  server_lead_by :
      (b : Bool) (s : Peer W) (bs : Text)
      → IsFlowing s
      → (k : ℕ) × (Server.send_data bs (record s { first_data = b })
          ≡ ok true (record s {
            outbox = s.outbox ++ (server_lead b ++ ftp_message type_data cmd_data bs);
            sends = k;
            first_data = false;
          }))
  unfolding Server.send_data announce
  server_lead_by true s bs f =
      let ready = ftp_message type_ok cmd_ok_retr [] in
      let block = ftp_message type_data cmd_data bs in
      let s1 : Peer W = record s {
        outbox = s.outbox ++ ready;
        sends = suc s.sends;
        first_data = false;
      } in
      (
        suc (suc s.sends),
        rw (send_other type_ok cmd_ok_retr [] (record s { first_data = true }) f (omega arith))
              (send_msg_lem type_data cmd_data bs s1 f)
            ∙ ap
                (λ o.
                  ok true (record s { outbox = o; sends = suc (suc s.sends); first_data = false }))
                (append_assoc s.outbox ready block),
      )
  server_lead_by false s bs f =
      (suc s.sends, send_msg_lem type_data cmd_data bs (record s { first_data = false }) f)

  pub server-Leads : Leads {W = W} Server.send_data server_lead
  server-Leads s bs f = server_lead_by s.first_data s bs f

  pub client-Leads : Leads {W = W} Client.send_data client_lead
  unfolding Client.send_data
  client-Leads s bs f =
      (suc s.sends, send_msg_lem type_data cmd_data bs (record s { first_data = false }) f)

  -- A command of the server that needs a path reads it and goes on with it.
  pub with_path-Took :
      (t c : ℕ) (path more : Text) (run : Text → Cmd (Peer W) (Unit {0})) (s : Peer W)
      → IsFlowing s
      → IsPath path
      → s.inbox ≡ path ++ more
      → (k : ℕ) × (with_path (record { type = t; code = c; len = length path }) run s
          ≡ run path (record s { inbox = more; recvs = k }))
  unfolding with_path recv_path
  with_path-Took t c path more run s f p e =
      let (k, got_path) =
        recv_msg-Took at_once path_max path more s at_once-Prompt f e (omega (arith, p.short)) in
      let some_left : (length path == 0) ≡ false = ground (arith, p.some_char) in
      let fits : ltb (length path) path_max ≡ true = ground (arith, p.short) in
      (k, rw some_left (rw got_path (rw fits (rw (c_string-same path p.no_zero) refl))))

  -- The client's request is sent, and the reply that it asks for has come.
  pub request-Took :
      (t code : ℕ) (bytes text more : Text) (s : Peer W)
      → IsFlowing s
      → t < type_data
      → s.inbox ≡ ftp_message type_ok code text ++ more
      → code < 2 ^ 8
      → length text < 2 ^ 16
      → (k : ℕ) × (request t bytes code s
          ≡ ok (some (record { type = type_ok; code = code; len = length text })) (record s {
            inbox = text ++ more;
            recvs = k;
            first_data = true;
            outbox = s.outbox ++ ftp_message t cmd_ok bytes;
            sends = suc s.sends;
          }))
  unfolding request
  request-Took t code bytes text more s f lt e small short =
      let s1 : Peer W = record s {
        first_data = true;
        outbox = s.outbox ++ ftp_message t cmd_ok bytes;
        sends = suc s.sends;
      } in
      let (k, head) =
        recv_header-Took select type_ok code text more s1 select-Prompt f e (omega arith) small
          short in
      let same : (code == code) ≡ true = ground arith in
      (k, rw (send_other t cmd_ok bytes s f lt) (rw head (rw same refl)))
