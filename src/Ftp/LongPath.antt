-- ===== src/Ftp/LongPath.antt =====
-- The server's arrays for a path hold PATH_MAX characters, and the length of a message is not checked
-- against that.
use unix_sys_prog.Base.{
  ℕ, zero, suc, ◌-◌, ◌≤◌, ◌<◌, ◌≡◌, refl, ap, sym, ◌∙◌, false, ◌++◌, ◌⊎◌, inl, inr, Cmd, ok, fault,
  ◌==◌, ltb, length, take, drop, length-take, length-drop, arith, Bool-cases,
}
use unix_sys_prog.Ftp.System.{Text, System, Peer, recv}
use unix_sys_prog.Ftp.Message.{
  path_max, type_cwd, type_list, type_retr, type_stor, cmd_ok, at_once, recv_loop, recv_msg,
}
use unix_sys_prog.Ftp.Stream.{IsFlowing, at_once-Prompt, recv_prefix, recv_msg-Took}
use unix_sys_prog.Ftp.Server.{recv_path, with_path, cd, dir, ftpget, ftpput, run_message}

module _ {W : Type 0} where
  recv_over :
      (fuel room n : ℕ) (piece bs : Text) (s s1 : Peer W)
      → 0 < length bs
      → 0 < n
      → recv (length bs) s ≡ ok piece s1
      → length piece ≡ n
      → (room < n) ⊎ (recv_loop at_once fuel (room - n) (length bs - n) s1 ≡ fault)
      → recv_loop at_once (suc fuel) room (length bs) s ≡ fault
  unfolding recv_loop
  recv_over fuel room n piece bs s s1 some_len some_n got size next =
      let some_left : (length bs == 0) ≡ false = ground arith in
      let some_got : (n == 0) ≡ false = ground arith in
      rw some_left (
        rw got (
          rw size (
            rw some_got (elim (Bool-cases (ltb room n)) [
              | inl over ↦ rw over refl
              | inr fits ↦ elim next [
                | inl over ↦ absurd (ground arith)
                | inr later ↦ rw fits (rw later refl)
              ]
            ]))))

  recv_loop_overflow :
      (fuel room : ℕ) (bs more : Text) (s : Peer W)
      → IsFlowing s
      → s.inbox ≡ bs ++ more
      → room < length bs
      → length bs < fuel
      → recv_loop at_once fuel room (length bs) s ≡ fault
  recv_loop_overflow zero room bs more s f e over lt = absurd (omega arith)
  recv_loop_overflow (suc fuel) room bs more s f e over lt =
      let (n, some_n, few, got) = recv_prefix s bs more f e (omega arith) in
      let size : length (take n bs) ≡ n = length-take n bs few in
      let left = length-drop n bs few in
      let s1 : Peer W = record s { inbox = drop n bs ++ more; recvs = suc s.recvs } in
      let same : length (drop n bs) ≡ length bs - n = omega (arith, left) in
      recv_over fuel room n (take n bs) bs s s1 (omega arith) some_n got size
        (elim (Bool-cases (ltb room n)) [
          | inl here ↦ inl (ground arith)
          | inr later ↦ inr (
              ap (λ l. recv_loop at_once fuel (room - n) l s1) (sym same)
              ∙ recv_loop_overflow fuel (room - n) (drop n bs) more s1 f refl (ground (arith, left))
                  (omega (arith, left)))
        ])

  recv_path_overflow :
      (bs more : Text) (s : Peer W)
      → IsFlowing s
      → s.inbox ≡ bs ++ more
      → path_max ≤ length bs
      → recv_path (length bs) s ≡ fault
  unfolding recv_path recv_msg
  recv_path_overflow bs more s f e long = elim (Bool-cases (ltb path_max (length bs))) [
    | inl over ↦
        rw
          (recv_loop_overflow (suc (length bs)) path_max bs more s f e (ground arith) (omega arith))
          refl
    | inr exact ↦
        let (k, got_bs) =
          recv_msg-Took at_once path_max bs more s at_once-Prompt f e (ground arith) in
        let full : ltb (length bs) path_max ≡ false = ground arith in rw got_bs (rw full refl)
  ]

-- The types of the messages that carry a path.
abbrev pub IsPathCommand : ℕ → Type 0
IsPathCommand t = (t ≡ type_cwd) ⊎ (t ≡ type_list) ⊎ (t ≡ type_retr) ⊎ (t ≡ type_stor)

module _ {W : Type 0} (sys : System W) where
  with_path_overflow :
      (t : ℕ) (run : Text → Cmd (Peer W) (Unit {0})) (bs more : Text) (s : Peer W)
      → IsFlowing s
      → s.inbox ≡ bs ++ more
      → path_max ≤ length bs
      → with_path (record { type = t; code = cmd_ok; len = length bs }) run s ≡ fault
  unfolding with_path
  with_path_overflow t run bs more s f e long =
      let some_left : (length bs == 0) ≡ false = ground arith in
      rw some_left (rw (recv_path_overflow bs more s f e long) refl)

  -- A message cd, dir, get or put whose path has PATH_MAX characters or more, and arrives, makes the
  -- server write behind the end of an array on its stack, in whatever pieces the path arrives.
  pub long_path_faults :
      (rounds t : ℕ) (path more : Text) (s : Peer W)
      → IsPathCommand t
      → IsFlowing s
      → s.inbox ≡ path ++ more
      → path_max ≤ length path
      → run_message sys rounds (record { type = t; code = cmd_ok; len = length path }) s ≡ fault
  unfolding run_message cd dir ftpget ftpput
  long_path_faults rounds t path more s kind f e long = elim kind [
    | inl is_cwd ↦ rw is_cwd (with_path_overflow type_cwd _ path more s f e long)
    | inr (inl is_list) ↦
        let some_left : (length path == 0) ≡ false = ground arith in
        rw is_list (rw some_left (rw (recv_path_overflow path more s f e long) refl))
    | inr (inr (inl is_retr)) ↦ rw is_retr (with_path_overflow type_retr _ path more s f e long)
    | inr (inr (inr is_stor)) ↦ rw is_stor (with_path_overflow type_stor _ path more s f e long)
  ]
