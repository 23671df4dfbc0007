-- ===== src/Ftp/System.antt =====
-- One side of a connection of myftp/, and the calls of the operating system that its code relies on.
use unix_sys_prog.Base.{
  ℕ, suc, Bool, true, false, List, ◌++◌, Option, none, some, Cmd, ok, ltb, if◌then◌else◌, take,
  drop,
}

-- A string without its zero, or bytes.
abbrev pub Text : Type 0
Text = List ℕ

-- The values of `errno` that `file_err` tells apart.
pub data Errno : Type 0 where
  eacces enoent other : Errno

-- What a system call answers.
pub data Answer {ℓ} (A : Type ℓ) : Type ℓ where
  got : A → Answer A
  failed : Errno → Answer A

pub record FileStat : Type 0 where
  pub is_dir : Bool
  pub size : ℕ
  pub ctime : ℕ

-- The system calls that the programs make, over the states `W` of the system. `show_stat` is the line
-- that `printf` makes of a file's size, time and name; `opendir` gives the names that `readdir`
-- will give; `read` and `write` move the descriptor's offset.
pub record System (W : Type 0) : Type 0 where
  pub getcwd : W → Answer Text
  pub home : W → Option Text
  pub realpath : Text → W → Answer Text
  pub chdir : Text → W → Answer W
  pub stat : Text → W → Answer FileStat
  pub opendir : Text → W → Answer (List Text)
  pub show_stat : FileStat → Text → Text
  pub open_read : Text → W → Answer (ℕ × W)
  pub open_write : Text → W → Answer (ℕ × W)
  pub fstat : ℕ → W → Answer ℕ
  pub read : ℕ → ℕ → W → Answer (Text × W)
  pub write : ℕ → Text → W → Answer W
  pub close : ℕ → W → W

-- The globals of one side, its end of the stream, and the state of its system.
pub record Peer (W : Type 0) : Type 0 where
  -- what the other side sent and this one did not read yet
  pub inbox : Text
  -- how much of it the n-th call of `recv` finds, and whether `select` finds any in time
  pub arrive : ℕ → ℕ
  pub ready : ℕ → Bool
  pub recvs : ℕ
  -- what was sent, and which calls of `send` succeed
  pub outbox : Text
  pub send_ok : ℕ → Bool
  pub sends : ℕ
  pub first_data : Bool
  pub stop : Bool
  pub sigterm_flag : Bool
  pub errno : Errno
  pub world : W

module _ {W : Type 0} where
  -- `recv`; nothing where it returns 0 or -1.
  unfoldable pub recv : ℕ → Cmd (Peer W) Text
  recv len s =
      let n = if ltb len (s.arrive s.recvs) then len else s.arrive s.recvs in
      ok (take n s.inbox) (record s { inbox = drop n s.inbox; recvs = suc s.recvs })

  unfoldable pub send : Text → Cmd (Peer W) Bool
  send bytes s =
      if s.send_ok s.sends
      then ok true (record s { outbox = s.outbox ++ bytes; sends = suc s.sends })
      else ok false (record s { sends = suc s.sends })

module _ {W A : Type 0} where
  abbrev answer : Answer A → Cmd (Peer W) (Option A)
  answer (got a) s = ok (some a) s
  answer (failed e) s = ok none (record s { errno = e })

  -- A call that reads the system.
  unfoldable pub ask : (W → Answer A) → Cmd (Peer W) (Option A)
  ask f s = answer (f s.world) s

  abbrev moved : Answer (A × W) → Cmd (Peer W) (Option A)
  moved (got r) s = ok (some r.0) (record s { world = r.1 })
  moved (failed e) s = ok none (record s { errno = e })

  -- A call that changes the system.
  unfoldable pub act : (W → Answer (A × W)) → Cmd (Peer W) (Option A)
  act f s = moved (f s.world) s

module _ {W : Type 0} where
  abbrev changed : Answer W → Cmd (Peer W) Bool
  changed (got w) s = ok true (record s { world = w })
  changed (failed e) s = ok false (record s { errno = e })

  unfoldable pub alter : (W → Answer W) → Cmd (Peer W) Bool
  alter f s = changed (f s.world) s
