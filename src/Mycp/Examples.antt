-- ===== src/Mycp/Examples.antt =====
-- The copy command on a small system.
use unix_sys_prog.Base.{◌++◌, ◌≡◌, refl, true, [], ◌∷◌, some, ok, inr, length, take, drop, arith}
use unix_sys_prog.Mycp.Copy.{Text, exists, System, mycp, overwrite}
use unix_sys_prog.Mycp.Whole.{AreFiles, mycp-Copied}

-- A file to read and a file to write, which exists.
record Disk : Type 0 where
  left : Text
  stored : Text

abbrev disk : System Disk
disk = record {
  open_read = λ p w. some (3, w);
  open_new = λ p w. exists;
  open_over = λ p w. some (4, record w { stored = [] });
  fstat = λ fd w. some (length w.left);
  read = λ fd w. some (take 1 w.left, record w { left = drop 1 w.left });
  write = λ fd bs w. some (record w { stored = w.stored ++ bs });
  close = λ fd w. w;
}

disk-AreFiles : AreFiles disk 3 4 (λ w. w.left) (λ w. w.stored)
disk-AreFiles = record {
  read_one = λ w some_left. (record w { left = drop 1 w.left }, refl, refl, refl);
  write_all = λ w bs. (record w { stored = w.stored ++ bs }, refl, refl, refl);
}

abbrev start : Disk
start = record { left = b'h' ∷ b'i' ∷ []; stored = b'o' ∷ b'l' ∷ b'd' ∷ [] }

mycp-Copied_example :
    (v : Disk) × (mycp disk 5
        ((b'c' ∷ []) ∷ (b'a' ∷ []) ∷ (b'b' ∷ []) ∷ [])
        (b'?' ∷ b'y' ∷ [])
        start
      ≡ ok true v)
    × (v.stored ≡ b'h' ∷ b'i' ∷ [])
unfolding overwrite
mycp-Copied_example =
    mycp-Copied disk 5 3 4 (λ w. w.left) (λ w. w.stored) (b'c' ∷ []) (b'a' ∷ []) (b'b' ∷ [])
      (b'?' ∷ b'y' ∷ []) start start (record start { stored = [] }) disk-AreFiles refl
      (inr (refl, refl, refl)) refl (omega arith) refl (omega arith)
