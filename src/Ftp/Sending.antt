-- ===== src/Ftp/Sending.antt =====
-- How `send_file` sends a file in blocks.
use unix_sys_prog.Base.{
  ℕ, zero, suc, ◌+◌, ◌<◌, ◌≡◌, ap, sym, ◌∙◌, Bool, true, false, List, [], ◌∷◌, ◌++◌, Cmd, Run, ok,
  ltb, leb, int_limit, length, take, take-drop, length-take, length-drop, append_assoc, append_nil,
  nil_of_length, arith, inl, inr, Bool-cases, All,
}
use unix_sys_prog.Ftp.System.{Text, got, System, Peer, ask, act}
use unix_sys_prog.Ftp.Message.{readblk, type_data, cmd_data, ftp_message}
use unix_sys_prog.Ftp.Common.{send_blocks, send_file}
use unix_sys_prog.Ftp.Stream.{IsFlowing}
use unix_sys_prog.Ftp.Blocks.{IsReadable, joined, blocks, IsBlock, Leads}

-- The blocks of a file behind what was sent before.
out_step :
    (out l p : Text) (lead : Text) (ps : List Text)
    → lead ≡ []
    → (out ++ (l ++ ftp_message type_data cmd_data p)) ++ blocks lead ps ≡ out ++ blocks l (p ∷ ps)
out_step out l p lead ps e =
    let m = ftp_message type_data cmd_data p in
    append_assoc out (l ++ m) (blocks lead ps)
    ∙ ap (λ t. out ++ t) (append_assoc l m (blocks lead ps))
    ∙ ap (λ d. out ++ (l ++ (m ++ blocks d ps))) e

module _ {W : Type 0} (sys : System W) (fd : ℕ) (rest : W → Text) (file : IsReadable sys fd rest)
    (send_data : Text → Cmd (Peer W) Bool) (lead : Bool → Text) (leads : Leads send_data lead)
    (quiet : lead false ≡ []) where
  -- All bytes that were left of the file were sent in blocks.
  abbrev pub Sent : Peer W → Run (Peer W) Bool → Type 0
  Sent s run =
      (pieces : List Text) × (k : ℕ) × (w' : W) × (b : Bool) × (run
        ≡ ok true (record s {
          outbox = s.outbox ++ blocks (lead s.first_data) pieces;
          sends = k;
          world = w';
          first_data = b;
        }))
      × (joined pieces ≡ rest s.world)
      × All IsBlock pieces

  send_step :
      (fuel size pos n : ℕ) (p : Text) (s s2 s3 : Peer W) (w' : W)
      → pos < size
      → pos + n < int_limit
      → sys.read fd readblk s.world ≡ got (p, w')
      → length p ≡ n
      → send_data p (record s { world = w' }) ≡ ok true s2
      → send_blocks sys send_data fd fuel size (pos + n) s2 ≡ ok true s3
      → send_blocks sys send_data fd (suc fuel) size pos s ≡ ok true s3
  unfolding send_blocks act
  send_step fuel size pos n p s s2 s3 w' lt small read len sent run =
      let more : ltb pos size ≡ true = ground arith in
      let no_overflow : leb int_limit (pos + n) ≡ false = ground arith in
      rw more (rw read (rw sent (rw len (rw no_overflow run))))

  send_blocks-Sent :
      (fuel size pos : ℕ) (s : Peer W)
      → IsFlowing s
      → size ≡ pos + length (rest s.world)
      → size < int_limit
      → length (rest s.world) < fuel
      → Sent s (send_blocks sys send_data fd fuel size pos s)
  unfolding send_blocks
  send_blocks-Sent zero size pos s f e small lt = absurd (omega arith)
  send_blocks-Sent (suc fuel) size pos s f e small lt = elim (Bool-cases (ltb pos size)) [
    | inr end ↦ (
      [],
      s.sends,
      s.world,
      s.first_data,
      rw end (ap (λ o. ok true (record s { outbox = o })) (sym (append_nil s.outbox))),
      sym (nil_of_length (rest s.world) (ground arith)),
      tt,
    )
    | inl more ↦
        let (n, w1, some_n, block, few, read, left) = file.read_some s.world (ground arith) in
        let p : Text = take n (rest s.world) in
        let size_p : length p ≡ n = length-take n (rest s.world) few in
        let size_left : length (rest w1) + n ≡ length (rest s.world) =
          ap (λ t. length t + n) left ∙ length-drop n (rest s.world) few in
        let (k1, sent) = leads (record s { world = w1 }) p f in
        let s2 : Peer W = record s {
          world = w1;
          outbox = s.outbox ++ (lead s.first_data ++ ftp_message type_data cmd_data p);
          sends = k1;
          first_data = false;
        } in
        let (ps, k, w', b, run, same, all) =
          send_blocks-Sent fuel size (pos + n) s2 f (omega (arith, size_left)) small
            (omega (arith, size_left)) in
        let s3 : Peer W = record s2 {
          outbox = s2.outbox ++ blocks (lead false) ps;
          sends = k;
          world = w';
          first_data = b;
        } in
        (
          p ∷ ps,
          k,
          w',
          b,
          send_step fuel size pos n p s s2 s3 w1 (ground arith) (omega (arith, few, small, e)) read
                size_p sent run
              ∙ ap (λ o. ok true (record s { outbox = o; sends = k; world = w'; first_data = b }))
                  (out_step s.outbox (lead s.first_data) p (lead false) ps quiet),
          ap (λ t. p ++ t) (same ∙ left) ∙ take-drop n (rest s.world),
          ((omega (arith, size_p), omega (arith, size_p)), all),
        )
  ]

  pub send_file-Sent :
      (fuel : ℕ) (s : Peer W)
      → IsFlowing s
      → sys.fstat fd s.world ≡ got (length (rest s.world))
      → length (rest s.world) < int_limit
      → length (rest s.world) < fuel
      → Sent s (send_file sys send_data fd fuel s)
  unfolding send_file ask
  send_file-Sent fuel s f size small lt =
      rw size (send_blocks-Sent fuel (length (rest s.world)) 0 s f (omega arith) small lt)
