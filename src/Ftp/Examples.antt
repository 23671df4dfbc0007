-- ===== src/Ftp/Examples.antt =====
-- The theorems on the file transfer at a connection between two small systems.
use unix_sys_prog.Base.{
  ℕ, zero, suc, ◌≡◌, refl, true, false, [], ◌∷◌, ◌++◌, none, inl, ok, fault, length, take, drop,
  arith,
}
use unix_sys_prog.Ftp.System.{Text, enoent, other, got, failed, System, Peer}
use unix_sys_prog.Ftp.Message.{
  ftp_message, type_ok, type_cwd, type_list, type_retr, cmd_ok, cmd_ok_stor,
}
use unix_sys_prog.Ftp.Stream.{IsFlowing}
use unix_sys_prog.Ftp.Blocks.{IsReadable, IsWritable}
use unix_sys_prog.Ftp.Receiving.{last_message}
use unix_sys_prog.Ftp.Server.{client_handler, run_message}
use unix_sys_prog.Ftp.Client
use unix_sys_prog.Ftp.Requests.{IsPath}
use unix_sys_prog.Ftp.GetSides.{serving}
use unix_sys_prog.Ftp.Get.{get_transfers}
use unix_sys_prog.Ftp.Put.{put_transfers}
use unix_sys_prog.Ftp.Refusal.{err_message}
use unix_sys_prog.Ftp.Stale.{failed_dir_stale}
use unix_sys_prog.Ftp.LongPath.{long_path_faults}

-- One file that is read, one byte at a time, and one that is written.
pub record Disk : Type 0 where
  left : Text
  stored : Text

abbrev pub disk : System Disk
disk = record {
  getcwd = λ w. got (b'/' ∷ []);
  home = λ w. none;
  realpath = λ p w. failed enoent;
  chdir = λ p w. failed other;
  stat = λ p w. failed enoent;
  opendir = λ p w. failed enoent;
  show_stat = λ st name. name;
  open_read = λ p w. got (3, w);
  open_write = λ p w. got (4, record w { stored = [] });
  fstat = λ fd w. got (length w.left);
  read = λ fd n w. got (take 1 w.left, record w { left = drop 1 w.left });
  write = λ fd bs w. got (record w { stored = w.stored ++ bs });
  close = λ fd w. w;
}

disk-IsReadable : IsReadable disk 3 (λ w. w.left)
disk-IsReadable = record {
  read_some = λ w some_left.
      (1, record w { left = drop 1 w.left }, omega arith, omega arith, some_left, refl, refl);
}

disk-IsWritable : IsWritable disk 4 (λ w. w.stored)
disk-IsWritable = record { write_all = λ w bs. (record w { stored = w.stored ++ bs }, refl, refl) }

-- Two bytes arrive at a time.
abbrev pub side : Peer Disk
side = record {
  inbox = [];
  arrive = λ n. 2;
  ready = λ n. true;
  recvs = 0;
  outbox = [];
  send_ok = λ n. true;
  sends = 0;
  first_data = true;
  stop = false;
  sigterm_flag = false;
  errno = other;
  world = record { left = b'h' ∷ b'e' ∷ b'y' ∷ []; stored = b'o' ∷ [] };
}

side-IsFlowing : IsFlowing side
side-IsFlowing = record {
  arrive_some = λ n. omega arith;
  ready_all = λ n. refl;
  send_all = λ n. refl;
}

abbrev here : Text
here = b'a' ∷ []

abbrev there : Text
there = b'b' ∷ b'c' ∷ []

here-IsPath : IsPath here
here-IsPath = record { some_char = omega arith; short = omega arith; no_zero = refl }

there-IsPath : IsPath there
there-IsPath = record { some_char = omega arith; short = omega arith; no_zero = refl }

get_transfers_example :
    (sent : Text) × (s' : Peer Disk) × (c' : Peer Disk) × (v : Disk) × (client_handler disk 9 2
        (serving (record side { inbox = ftp_message type_retr cmd_ok here ++ [] }))
      ≡ client_handler disk 9 1 (serving s'))
    × (s'.outbox ≡ [] ++ sent)
    × (s'.inbox ≡ [])
    × (s'.first_data ≡ true)
    × (Client.ftpget disk 9 ((b'g' ∷ []) ∷ here ∷ there ∷ []) (record side { inbox = sent ++ [] })
        ≡ ok tt c')
    × (c'.outbox ≡ [] ++ ftp_message type_retr cmd_ok here)
    × (c'.inbox ≡ [])
    × (c'.world ≡ v)
    × (v.stored ≡ b'h' ∷ b'e' ∷ b'y' ∷ [])
get_transfers_example =
    get_transfers disk disk 9 1 3 4 (λ w. w.left) (λ w. w.stored) (b'g' ∷ []) here there [] [] side
      side side.world (record side.world { stored = [] }) disk-IsReadable disk-IsWritable
      side-IsFlowing side-IsFlowing here-IsPath there-IsPath refl refl refl (omega arith) refl refl
      (omega arith) (omega arith)

put_transfers_example :
    (sent : Text) × (c' : Peer Disk) × (s' : Peer Disk) × (v : Disk) × (Client.ftpput disk 9
        ((b'p' ∷ []) ∷ here ∷ there ∷ [])
        (record side { inbox = ftp_message type_ok cmd_ok_stor [] ++ [] })
      ≡ ok tt c')
    × (c'.outbox ≡ [] ++ sent)
    × (c'.inbox ≡ [])
    × (client_handler disk 9 2 (serving (record side { inbox = sent ++ [] }))
        ≡ client_handler disk 9 1 (serving s'))
    × (s'.outbox ≡ [] ++ ftp_message type_ok cmd_ok_stor [])
    × (s'.inbox ≡ [])
    × (s'.first_data ≡ true)
    × (s'.world ≡ v)
    × (v.stored ≡ b'h' ∷ b'e' ∷ b'y' ∷ [])
put_transfers_example =
    put_transfers disk disk 9 1 3 4 (λ w. w.left) (λ w. w.stored) (b'p' ∷ []) here there [] [] side
      side side.world (record side.world { stored = [] }) disk-IsReadable disk-IsWritable
      side-IsFlowing side-IsFlowing here-IsPath there-IsPath refl refl (omega arith) refl refl
      (omega arith)

failed_dir_stale_example :
    (s' : Peer Disk) × (c' : Peer Disk) × (c'' : Peer Disk) × (client_handler disk 9 2
        (serving (record side { inbox = ftp_message type_list cmd_ok here ++ [] }))
      ≡ client_handler disk 9 1 (serving s'))
    × (s'.outbox ≡ [] ++ (err_message enoent ++ last_message))
    × (Client.dir 9
          ((b'd' ∷ []) ∷ here ∷ [])
          (record side { inbox = err_message enoent ++ (last_message ++ b'!' ∷ []) })
        ≡ ok tt c')
    × (c'.outbox ≡ [] ++ ftp_message type_list cmd_ok here)
    × (c'.inbox ≡ last_message ++ b'!' ∷ [])
    × (Client.pwd c' ≡ ok tt c'')
    × (c''.inbox ≡ b'!' ∷ [])
failed_dir_stale_example =
    failed_dir_stale disk 9 1 b'a' (b'd' ∷ []) [] [] (b'!' ∷ []) enoent side side side-IsFlowing
      side-IsFlowing here-IsPath refl refl

-- As many characters.
abbrev repeat : ℕ → Text
repeat zero = []
repeat (suc n) = b'x' ∷ repeat n

length-repeat : (n : ℕ) → length (repeat n) ≡ n
length-repeat zero = refl
length-repeat (suc n) = omega (arith, length-repeat n)

abbrev long_path : Text
long_path = repeat 4096

long_path_faults_example :
    run_message disk 9
      (record { type = type_cwd; code = cmd_ok; len = length long_path })
      (record side { inbox = long_path ++ [] })
    ≡ fault
long_path_faults_example =
    long_path_faults disk 9 type_cwd long_path [] (record side { inbox = long_path ++ [] })
      (inl refl) side-IsFlowing refl (omega (arith, length-repeat 4096))
