-- ===== src/Ftp/Blocks.antt =====
-- A file on its way through the stream, as the blocks that `send_file` makes of it and `recv_file` puts
-- together again.
use unix_sys_prog.Base.{
  ℕ, ◌≤◌, ◌<◌, ◌≡◌, Bool, true, false, List, [], ◌∷◌, ◌++◌, Cmd, ok, length, take, drop,
}
use unix_sys_prog.Ftp.System.{Text, got, System, Peer}
use unix_sys_prog.Ftp.Message.{readblk, type_data, cmd_data, ftp_message}
use unix_sys_prog.Ftp.Stream.{IsFlowing}

module _ {W : Type 0} (sys : System W) (fd : ℕ) where
  -- The descriptor's file still holds the bytes `rest`, and a `read` of a block gives some of them.
  pub record IsReadable (rest : W → Text) : Type 0 where
    pub read_some :
        (w : W)
        → 0 < length (rest w)
        → (n : ℕ) × (w' : W) × (0 < n)
          × (n ≤ readblk)
          × (n ≤ length (rest w))
          × (sys.read fd readblk w ≡ got (take n (rest w), w'))
          × (rest w' ≡ drop n (rest w))

  -- The descriptor's file holds `content`, and a `write` puts all its bytes behind that.
  pub record IsWritable (content : W → Text) : Type 0 where
    pub write_all :
        (w : W) (bs : Text)
        → (w' : W) × (sys.write fd bs w ≡ got w') × (content w' ≡ content w ++ bs)

abbrev pub joined : List Text → Text
joined [] = []
joined (p ∷ ps) = p ++ joined ps

-- The data messages of some blocks, with `lead` before the first.
abbrev pub blocks : Text → List Text → Text
blocks lead [] = []
blocks lead (p ∷ ps) = lead ++ (ftp_message type_data cmd_data p ++ blocks [] ps)

-- A block that fits the buffer and is not empty.
abbrev pub IsBlock : Text → Type 0
IsBlock p = (0 < length p) × (length p ≤ readblk)

-- What `send_data` sends: before the first message of a file, some lead.
abbrev pub Leads : {W : Type 0} → (Text → Cmd (Peer W) Bool) → (Bool → Text) → Type 0
Leads send_data lead =
    (s : Peer _) (bs : Text)
    → IsFlowing s
    → (k : ℕ) × (send_data bs s
        ≡ ok true (record s {
          outbox = s.outbox ++ (lead s.first_data ++ ftp_message type_data cmd_data bs);
          sends = k;
          first_data = false;
        }))
