-- ===== src/Ftp/Receiving.antt =====
-- How `recv_file` takes the blocks of a file from the stream.
use unix_sys_prog.Base.{
  ℕ, zero, suc, ◌-◌, ◌<◌, ◌≡◌, refl, ap, sym, ◌∙◌, Bool, true, false, List, [], ◌∷◌, ◌++◌, some,
  Cmd, Run, ok, ◌==◌, ltb, length, append_assoc, append_nil, arith, All,
}
use unix_sys_prog.Ftp.System.{Text, System, Peer, alter}
use unix_sys_prog.Ftp.Message.{
  readblk, type_data, cmd_data, cmd_data_last, ftp_message, recv_header,
}
use unix_sys_prog.Ftp.Common.{write_blocks, recv_file}
use unix_sys_prog.Ftp.Stream.{IsFlowing, Prompt, recv_msg-Took, recv_header-Took}
use unix_sys_prog.Ftp.Blocks.{IsWritable, joined, blocks, IsBlock}

abbrev pub last_message : Text
last_message = ftp_message type_data cmd_data_last []

module _ {W : Type 0} (sys : System W) (fd : ℕ) (content : W → Text)
    (file : IsWritable sys fd content) (wait : Cmd (Peer W) Bool) (prompt : Prompt wait) where
  -- The bytes `bs` were taken from the stream and stand behind the file's content.
  abbrev pub Stored : Peer W → Text → Text → Run (Peer W) Bool → Type 0
  Stored s bs more run =
      (k : ℕ) × (w' : W) × (run ≡ ok true (record s { inbox = more; recvs = k; world = w' }))
      × (content w' ≡ content s.world ++ bs)

  write_blocks-Stored :
      (bs more : Text) (s : Peer W)
      → IsFlowing s
      → s.inbox ≡ bs ++ more
      → IsBlock bs
      → Stored s bs more (write_blocks sys wait fd (suc (length bs)) (length bs) s)
  unfolding write_blocks alter
  write_blocks-Stored [] more s f e b = absurd (omega (arith, b.0))
  write_blocks-Stored (x ∷ xs) more s f e b =
      let bs : Text = x ∷ xs in
      let (k, got_bs) = recv_msg-Took wait readblk bs more s prompt f e b.1 in
      let (w', run, stored) = file.write_all s.world bs in
      let some_left : (length bs == 0) ≡ false = ground arith in
      let whole : ltb readblk (length bs) ≡ false = ground (arith, b.1) in
      let done : ((length bs - length bs) == 0) ≡ true = ground arith in
      (k, w', rw some_left (rw whole (rw got_bs (rw run (rw done refl)))), stored)

  -- One data message that is not the last.
  recv_step :
      (fuel len : ℕ) (s s1 s2 : Peer W) (r : Run (Peer W) Bool)
      → recv_header wait s ≡ ok (some (record { type = type_data; code = cmd_data; len = len })) s1
      → write_blocks sys wait fd (suc len) len s1 ≡ ok true s2
      → recv_file sys wait fd fuel s2 ≡ r
      → recv_file sys wait fd (suc fuel) s ≡ r
  unfolding recv_file
  recv_step fuel len s s1 s2 r head written run = rw head (rw written run)

  recv_last :
      (fuel : ℕ) (s s1 : Peer W)
      → recv_header wait s
        ≡ ok (some (record { type = type_data; code = cmd_data_last; len = 0 })) s1
      → recv_file sys wait fd (suc fuel) s ≡ ok true s1
  unfolding recv_file write_blocks
  recv_last fuel s s1 head = rw head refl

  pub recv_file-Stored :
      (fuel : ℕ) (pieces : List Text) (more : Text) (s : Peer W)
      → IsFlowing s
      → s.inbox ≡ blocks [] pieces ++ (last_message ++ more)
      → All IsBlock pieces
      → length pieces < fuel
      → Stored s (joined pieces) more (recv_file sys wait fd fuel s)
  recv_file-Stored zero pieces more s f e all lt = absurd (omega arith)
  recv_file-Stored (suc fuel) [] more s f e all lt =
      let (k, head) =
        recv_header-Took wait type_data cmd_data_last [] more s prompt f e (omega arith)
          (omega arith) (omega arith) in
      (k, s.world, recv_last fuel s _ head, sym (append_nil (content s.world)))
  recv_file-Stored (suc fuel) (p ∷ ps) more s f e (b, all) lt =
      let tail : Text = blocks [] ps ++ (last_message ++ more) in
      let here =
        e ∙ append_assoc (ftp_message type_data cmd_data p) (blocks [] ps) (last_message ++ more) in
      let (k1, head) =
        recv_header-Took wait type_data cmd_data p tail s prompt f here (omega arith) (omega arith)
          (omega (arith, b.1)) in
      let s1 : Peer W = record s { inbox = p ++ tail; recvs = k1 } in
      let (k2, w2, written, stored) = write_blocks-Stored p tail s1 f refl b in
      let s2 : Peer W = record s { inbox = tail; recvs = k2; world = w2 } in
      let (k, w', run, whole) = recv_file-Stored fuel ps more s2 f refl all (omega (arith, lt)) in
      (
        k,
        w',
        recv_step fuel (length p) s s1 s2 _ head written run,
        whole ∙ ap (λ t. t ++ joined ps) stored ∙ append_assoc (content s.world) p (joined ps),
      )
