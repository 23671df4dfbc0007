-- ===== src/Buffer/Command.antt =====
-- The commands of buffer/command.c. `strtol` is a parameter: the number that it reads, or nothing where
-- it leaves `end_ptr` at the argument. The messages that the commands print are left out; the listings
-- are those of Buffer.Show.
use unix_sys_prog.Base.{
  ℕ, zero, suc, ◌+◌, ◌-◌, ◌^◌, Bool, true, false, ltb, if◌then◌else◌, List, [], ◌∷◌, Option, none,
  some, ok, fault, out_of_fuel, crash, pure, ◌>>=◌, ◌>>◌, ℤ, pos, negsuc,
}
use unix_sys_prog.Args.Strings.{drop_last, same, text_of, read_strings}
use unix_sys_prog.Args.Getargs.{getargs}
use unix_sys_prog.Buffer.Store.{C, hash_size, buf_size}
use unix_sys_prog.Buffer.Lists.{init_buf}
use unix_sys_prog.Buffer.Show.{show_buffer, show_hash, show_free}
use unix_sys_prog.Buffer.Block.{
  Stat, locked, valid, dwr, krdwr, waited, old, setter, set_block_stat, reset_block_stat,
}
use unix_sys_prog.Buffer.Block

abbrev pub Word : Type 0
Word = List ℕ

-- The commands of `cmd_tbl`.
pub data Command : Type 0 where
  help init quit buf hash free_func getblk brelse set reset : Command

unfoldable pub cmd_tbl : Word → Option Command
unfolding same
cmd_tbl w =
    if same w (b'h' ∷ b'e' ∷ b'l' ∷ b'p' ∷ [])
    then some help
    else if same w (b'i' ∷ b'n' ∷ b'i' ∷ b't' ∷ [])
    then some init
    else if same w (b'q' ∷ b'u' ∷ b'i' ∷ b't' ∷ [])
    then some quit
    else if same w (b'b' ∷ b'u' ∷ b'f' ∷ [])
    then some buf
    else if same w (b'h' ∷ b'a' ∷ b's' ∷ b'h' ∷ [])
    then some hash
    else if same w (b'f' ∷ b'r' ∷ b'e' ∷ b'e' ∷ [])
    then some free_func
    else if same w (b'g' ∷ b'e' ∷ b't' ∷ b'b' ∷ b'l' ∷ b'k' ∷ [])
    then some getblk
    else if same w (b'b' ∷ b'r' ∷ b'e' ∷ b'l' ∷ b's' ∷ b'e' ∷ [])
    then some brelse
    else if same w (b's' ∷ b'e' ∷ b't' ∷ [])
    then some set
    else if same w (b'r' ∷ b'e' ∷ b's' ∷ b'e' ∷ b't' ∷ [])
    then some reset
    else none

unfoldable pub stat_tbl : Word → Option Stat
unfolding same
stat_tbl w =
    if same w (b'L' ∷ [])
    then some locked
    else if same w (b'V' ∷ [])
    then some valid
    else if same w (b'D' ∷ [])
    then some dwr
    else if same w (b'K' ∷ [])
    then some krdwr
    else if same w (b'W' ∷ [])
    then some waited
    else if same w (b'O' ∷ [])
    then some old
    else none

-- An argument that is not a number of an `int`, a negative number, or another number.
pub data Parsed : Type 0 where
  malformed negative : Parsed
  number : ℕ → Parsed

abbrev pub int_max : ℕ
int_max = 2 ^ 31 - 1

unfoldable pub parse_int : Option ℤ → Parsed
parse_int none = malformed
parse_int (some (pos n)) = if ltb int_max n then malformed else number n
parse_int (some (negsuc n)) = if ltb int_max n then malformed else negative

-- The program goes on with the next line, or `exit` was called.
pub data Next : Type 0 where
  goes_on exits : Next

-- `exit` ends the program; what would follow is not run.
abbrev pub after_line : Next → C Next → C Next
after_line goes_on later = later
after_line exits later = pure exits

-- What all commands but help, init and quit do first.
abbrev pub guarded : Bool → C Next → C Next
guarded true run = run
guarded false run = pure goes_on

abbrev pub if_initialized : C Next → C Next
if_initialized run c = guarded c.initialized run c

abbrev pub run_free : C Next
run_free = if_initialized (show_free >> pure goes_on)

-- The listing of one entry of a table of `size` entries, by `show`: the check admits the number
-- `size` too.
unfoldable pub show_number : {A : Type 0} → (ℕ → C A) → ℕ → Parsed → C Next → C Next
show_number show size malformed later = later
show_number show size negative later = later
show_number show size (number n) later = if ltb size n then later else show n >> later

-- The listing of all entries: the `left` ones from `i` on.
unfoldable pub show_all : {A : Type 0} → (ℕ → C A) → ℕ → ℕ → C Next
show_all show zero i = pure goes_on
show_all show (suc left) i = show i >> show_all show left (i + 1)

unfoldable pub on_number : (ℕ → C Next) → Parsed → C Next
on_number run malformed = pure goes_on
on_number run negative = pure goes_on
on_number run (number n) = run n

-- The loop of `set` and of `reset` over the names of status bits.
unfoldable pub each_stat : (Stat → C (Unit {0})) → List Word → C Next
each_stat change [] = pure goes_on
each_stat change (w ∷ ws) = elim (stat_tbl w) [
  | none ↦ pure goes_on
  | some s ↦ change s >> each_stat change ws
]

-- `help x` for an unknown x prints `argv[2]`, which `getargs` did not store.
unfoldable pub run_help : List Word → C Next
run_help (w ∷ []) = elim (cmd_tbl w) [ none ↦ crash | some d ↦ pure goes_on ]
run_help _ = pure goes_on

abbrev pub buf_len : ℕ
buf_len = 256

abbrev pub nargs : ℕ
nargs = 16

module _ (strtol : Word → Option ℤ) where
  abbrev pub int_of : Word → Parsed
  int_of w = parse_int (strtol w)

  -- The listings of `buf` and `hash` with arguments, and without.
  unfoldable pub show_numbers : {A : Type 0} → (ℕ → C A) → ℕ → List Word → C Next
  show_numbers show size [] = pure goes_on
  show_numbers show size (w ∷ ws) = show_number show size (int_of w) (show_numbers show size ws)

  unfoldable pub show_entries : {A : Type 0} → (ℕ → C A) → ℕ → List Word → C Next
  show_entries show size [] = show_all show size 0
  show_entries show size (w ∷ ws) = show_numbers show size (w ∷ ws)

  -- A command with a block number and nothing else.
  unfoldable pub on_block : (ℕ → C Next) → List Word → C Next
  on_block run (w ∷ []) = on_number run (int_of w)
  on_block run _ = pure goes_on

  unfoldable pub on_stats : (ℕ → Stat → C (Unit {0})) → List Word → C Next
  on_stats change (w ∷ x ∷ ws) = on_number (λ n. each_stat (change n) (x ∷ ws)) (int_of w)
  on_stats change _ = pure goes_on

  abbrev pub run_buf : List Word → C Next
  run_buf args = if_initialized (show_entries show_buffer buf_size args)

  abbrev pub run_hash : List Word → C Next
  run_hash args = if_initialized (show_entries show_hash hash_size args)

  abbrev pub run_getblk : List Word → C Next
  run_getblk args = if_initialized (on_block (λ n. Block.getblk n >> pure goes_on) args)

  abbrev pub run_brelse : List Word → C Next
  run_brelse args = if_initialized (on_block (λ n. Block.brelse n >> pure goes_on) args)

  abbrev pub run_set : List Word → C Next
  run_set args = if_initialized (on_stats (λ n s. set_block_stat n (setter s)) args)

  abbrev pub run_reset : List Word → C Next
  run_reset args = if_initialized (on_stats (λ n s. reset_block_stat n (setter s)) args)

  -- The functions of `cmd_tbl`, on the arguments behind the command.
  unfoldable pub run_command : Command → List Word → C Next
  run_command help args = run_help args
  run_command init args = init_buf >> pure goes_on
  run_command quit args = pure exits
  run_command buf args = run_buf args
  run_command hash args = run_hash args
  run_command free_func args = run_free
  run_command getblk args = run_getblk args
  run_command brelse args = run_brelse args
  run_command set args = run_set args
  run_command reset args = run_reset args

  -- The end of `parse_command`, on the words of the line.
  unfoldable pub dispatch : List Word → C Next
  dispatch [] = pure goes_on
  dispatch (w ∷ args) = elim (cmd_tbl w) [ none ↦ pure goes_on | some d ↦ run_command d args ]

  -- `parse_command`, on what `fgets` gives: nothing at the end of the input, or a line.
  unfoldable pub parse_command : Option (List ℕ) → C Next
  parse_command none = pure goes_on
  parse_command (some []) = crash
  parse_command (some (c ∷ cs)) = λ s.
      elim (getargs buf_len nargs 0 (text_of (drop_last (c ∷ cs)))) [
        | ok argv t ↦ dispatch (read_strings buf_len t argv) s
        | fault ↦ fault
        | out_of_fuel ↦ out_of_fuel
      ]

  -- The loop of `main`, up to `exit` or to the last of these calls of `fgets`.
  unfoldable pub main_loop : List (Option (List ℕ)) → C Next
  main_loop [] = pure goes_on
  main_loop (line ∷ lines) = do next ← parse_command line; after_line next (main_loop lines)

  unfoldable pub main : List (Option (List ℕ)) → C Next
  main lines = init_buf >> main_loop lines
