-- ===== src/Ftp/Stream.antt =====
-- What `recv_msg` and `send_msg` do to the stream, however the bytes arrive.
use unix_sys_prog.Base.{
  ℕ, zero, suc, ◌+◌, ◌-◌, ◌*◌, ◌/◌, ◌%◌, ◌^◌, ◌≤◌, ◌<◌, ◌≡◌, refl, ap, ◌∙◌, Bool, true, false, not,
  ◌||◌, ◌&&◌, [], ◌∷◌, ◌++◌, some, Cmd, Run, ok, ◌==◌, ltb, if◌then◌else◌, length, take, drop,
  take-append, drop-append, take-drop, take-length, length-take, length-drop, arith,
}
use unix_sys_prog.Ftp.System.{Text, Peer, recv, send}
use unix_sys_prog.Ftp.Message.{
  header_size, type_data, cmd_data_last, ftp_message, header_of, send_msg, at_once, select,
  recv_loop, recv_msg, recv_header,
}

-- Every call of `recv` that finds bytes to come gets one of them at least, within the time that the
-- client waits, and every call of `send` succeeds.
pub record Flows (arrive : ℕ → ℕ) (ready send_ok : ℕ → Bool) : Type 0 where
  pub arrive_some : (n : ℕ) → 0 < arrive n
  pub ready_all : (n : ℕ) → ready n ≡ true
  pub send_all : (n : ℕ) → send_ok n ≡ true

abbrev pub IsFlowing : {W : Type 0} → Peer W → Type 0
IsFlowing s = Flows s.arrive s.ready s.send_ok

-- What a call of `send_msg` leaves in `first_data`.
abbrev pub first_after : ℕ → ℕ → Bool → Bool
first_after t c b =
    if not (t == type_data) || (t == type_data && c == cmd_data_last) then true else b

module _ {W : Type 0} where
  -- The bytes up to `more` are read, with the result `v`.
  abbrev pub Took : {A : Type 0} → Peer W → Text → Run (Peer W) A → A → Type 0
  Took s more run v = (k : ℕ) × (run ≡ ok v (record s { inbox = more; recvs = k }))

  abbrev pub Prompt : Cmd (Peer W) Bool → Type 0
  Prompt wait = (s : Peer W) → IsFlowing s → wait s ≡ ok true s

  pub at_once-Prompt : Prompt at_once
  at_once-Prompt s f = refl

  pub select-Prompt : Prompt select
  unfolding select
  select-Prompt s f = rw (f.ready_all s.recvs) refl

  pub recv_prefix :
      (s : Peer W) (bs more : Text)
      → IsFlowing s
      → s.inbox ≡ bs ++ more
      → 0 < length bs
      → (n : ℕ) × (0 < n)
        × (n ≤ length bs)
        × (recv (length bs) s
            ≡ ok (take n bs) (record s { inbox = drop n bs ++ more; recvs = suc s.recvs }))
  unfolding recv
  recv_prefix s bs more f e lt =
      let n : ℕ = if ltb (length bs) (s.arrive s.recvs) then length bs else s.arrive s.recvs in
      let some_n : 0 < n = ground (arith, f.arrive_some s.recvs) in
      let few : n ≤ length bs = ground (arith) in
      (
        n,
        some_n,
        few,
        ap (λ i. ok (take n i) (record s { inbox = drop n i; recvs = suc s.recvs })) e
            ∙ ap (λ b. ok b (record s { inbox = drop n (bs ++ more); recvs = suc s.recvs }))
                (take-append n bs more few)
            ∙ ap (λ i. ok (take n bs) (record s { inbox = i; recvs = suc s.recvs }))
                (drop-append n bs more few),
      )

  -- One round of the loop, with a piece of `n` bytes.
  recv_step :
      (wait : Cmd (Peer W) Bool) (fuel room len n : ℕ) (piece rest : Text) (s s1 s2 : Peer W)
      → 0 < len
      → 0 < n
      → n ≤ room
      → wait s ≡ ok true s
      → recv len s ≡ ok piece s1
      → length piece ≡ n
      → recv_loop wait fuel (room - n) (len - n) s1 ≡ ok (some rest) s2
      → recv_loop wait (suc fuel) room len s ≡ ok (some (piece ++ rest)) s2
  unfolding recv_loop
  recv_step wait fuel room len n piece rest s s1 s2 some_len some_n fit w got size run =
      let some_left : (len == 0) ≡ false = ground arith in
      let some_got : (n == 0) ≡ false = ground arith in
      let fits : ltb room n ≡ false = ground arith in
      rw some_left (rw w (rw got (rw size (rw some_got (rw fits (rw run refl))))))

  recv_loop-Took :
      (wait : Cmd (Peer W) Bool) (fuel room : ℕ) (bs more : Text) (s : Peer W)
      → Prompt wait
      → IsFlowing s
      → s.inbox ≡ bs ++ more
      → length bs ≤ room
      → length bs < fuel
      → Took s more (recv_loop wait fuel room (length bs) s) (some bs)
  unfolding recv_loop
  recv_loop-Took wait zero room bs more s p f e fit lt = absurd (omega arith)
  recv_loop-Took wait (suc fuel) room [] more s p f e fit lt =
      (s.recvs, ap (λ i. ok (some []) (record s { inbox = i })) e)
  recv_loop-Took wait (suc fuel) room (x ∷ xs) more s p f e fit lt =
      let bs : Text = x ∷ xs in
      let (n, some_n, few, got) = recv_prefix s bs more f e (omega arith) in
      let size : length (take n bs) ≡ n = length-take n bs few in
      let left = length-drop n bs few in
      let (k, rest) =
        recv_loop-Took wait fuel (room - n) (drop n bs) more
          (record s { inbox = drop n bs ++ more; recvs = suc s.recvs }) p f refl
          (omega (arith, left)) (omega (arith, left)) in
      let same : length bs - n ≡ length (drop n bs) = omega (arith, left) in
      let s1 = record s { inbox = drop n bs ++ more; recvs = suc s.recvs } in
      let s2 = record s { inbox = more; recvs = k } in
      (
        k,
        recv_step wait fuel room (length bs) n (take n bs) (drop n bs) s s1 s2 (omega arith) some_n
              (omega arith) (p s f) got size
              (ap (λ l. recv_loop wait fuel (room - n) l s1) same ∙ rest)
            ∙ ap (λ b. ok (some b) s2) (take-drop n bs),
      )

  pub recv_msg-Took :
      (wait : Cmd (Peer W) Bool) (room : ℕ) (bs more : Text) (s : Peer W)
      → Prompt wait
      → IsFlowing s
      → s.inbox ≡ bs ++ more
      → length bs ≤ room
      → Took s more (recv_msg wait room (length bs) s) (some bs)
  unfolding recv_msg
  recv_msg-Took wait room bs more s p f e fit =
      recv_loop-Took wait (suc (length bs)) room bs more s p f e fit (omega arith)

  -- The first four bytes of a message, and what is left: its bytes.
  pub recv_header-Took :
      (wait : Cmd (Peer W) Bool) (t c : ℕ) (bs more : Text) (s : Peer W)
      → Prompt wait
      → IsFlowing s
      → s.inbox ≡ ftp_message t c bs ++ more
      → t < 2 ^ 8
      → c < 2 ^ 8
      → length bs < 2 ^ 16
      → Took s
          (bs ++ more)
          (recv_header wait s)
          (some (record { type = t; code = c; len = length bs }))
  unfolding recv_header ftp_message header_of
  recv_header-Took wait t c bs more s p f e lt lc short =
      let len = length bs % 2 ^ 16 in
      let head : Text = (t % 2 ^ 8) ∷ (c % 2 ^ 8) ∷ (len / 2 ^ 8) ∷ (len % 2 ^ 8) ∷ [] in
      let whole : take len bs ≡ bs = take-length len bs (omega arith) in
      let split : s.inbox ≡ head ++ (bs ++ more) = e ∙ ap (λ b. head ++ (b ++ more)) whole in
      let (k, run) = recv_msg-Took wait header_size head (bs ++ more) s p f split (omega arith) in
      let type_same : t % 2 ^ 8 ≡ t = omega arith in
      let code_same : c % 2 ^ 8 ≡ c = omega arith in
      let len_same : len / 2 ^ 8 * 2 ^ 8 + len % 2 ^ 8 ≡ length bs = omega arith in
      (k, rw run (rw type_same (rw code_same (rw len_same refl))))

  pub send_msg_lem :
      (t c : ℕ) (bs : Text) (s : Peer W)
      → IsFlowing s
      → send_msg t c bs s
        ≡ ok true (record s {
          first_data = first_after t c s.first_data;
          outbox = s.outbox ++ ftp_message t c bs;
          sends = suc s.sends;
        })
  unfolding send_msg send
  send_msg_lem t c bs s f = rw (f.send_all s.sends) refl
