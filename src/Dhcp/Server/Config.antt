-- ===== src/Dhcp/Server/Config.antt =====
-- The start of the server: the config file's lines, and what `main` does before its loop. The
-- library's `realpath`, `getenv`, `fopen` with `fgets`, `atoi` and `inet_aton` are parameters; printing
-- is left out. A result `false` is `exit(-1)`.
use unix_sys_prog.Base.{
  ℕ, zero, suc, ◌+◌, ◌-◌, ◌%◌, ◌^◌, Bool, true, false, ◌&&◌, ◌||◌, ◌==◌, ltb, leb, if◌then◌else◌,
  List, [], ◌∷◌, ◌++◌, Option, none, some, ℤ, pos, negsuc, length, Cmd, ok, fault, out_of_fuel,
  crash, pure, get, modify, ◌>>=◌, ◌>>◌, update,
}
use unix_sys_prog.Ring.{Ptr}
use unix_sys_prog.Args.Getargs.{Text, skip_blanks, skip_word}
use unix_sys_prog.Args.Strings.{text_of, read_strings}
use unix_sys_prog.Dhcp.Server.Store.{S, on_pool}
use unix_sys_prog.Dhcp.Server.Lists.{
  initialize_addr_pool, initialize_client_buffer, insert_addr_pool,
}

abbrev pub Word : Type 0
Word = List ℕ

abbrev pub path_max : ℕ
path_max = 4096

abbrev pub addr_pool_size : ℕ
addr_pool_size = 256

-- The size of `lbuf` in `read_config`.
abbrev pub lbuf_size : ℕ
lbuf_size = 1024

-- `getargs` of mydhcpserver.c, with `argc` pointers stored already. It stops at the third.
unfoldable pub getargs : ℕ → ℕ → ℕ → Cmd Text (List ℕ)
getargs zero argc lbuf = λ _. out_of_fuel
getargs (suc fuel) argc lbuf = do
  lbuf ← skip_blanks (suc fuel) lbuf
  t ← get
  if t lbuf == 0 then pure [] else do
    after ← skip_word (suc fuel) lbuf
    t ← get
    if ltb 2 (argc + 1) || (t after == 0) then pure (lbuf ∷ []) else do
      modify (λ t. update t after 0)
      argv ← getargs fuel (argc + 1) (after + 1)
      pure (lbuf ∷ argv)

-- `ttl > n` and `ttl < 1`
abbrev above : ℤ → ℕ → Bool
above (pos k) n = ltb n k
above (negsuc k) n = false

abbrev below_one : ℤ → Bool
below_one (pos k) = ltb k 1
below_one (negsuc k) = true

-- `ttl_max = ttl`, an `int` to a `uint16_t`.
unfoldable pub short_of_int : ℤ → ℕ
short_of_int (pos k) = k % 2 ^ 16
short_of_int (negsuc k) = 2 ^ 16 - 1 - k % 2 ^ 16

-- `&addr_pool[n]`
abbrev pub pool_entry : ℕ → Ptr
pool_entry n = n + 2

-- What the program calls. `inet_aton` gives nothing for a text that is no address, and stores nothing;
-- `fopen` gives what the calls of `fgets` return.
pub record Host : Type 0 where
  pub realpath : Word → Option Word
  pub home : Option Word
  pub fopen : Word → Option (List Word)
  pub atoi : Word → ℤ
  pub inet_aton : Word → Option ℕ

-- A field of an entry after `inet_aton`.
abbrev pub set_field : (Ptr → ℕ) → Ptr → Option ℕ → Ptr → ℕ
set_field f p none = f
set_field f p (some v) = update f p v

module _ (h : Host) where
  -- A line of the file after `getargs`; `n` lines were read before.
  unfoldable pub add_entry : ℕ → Word → Word → S Bool
  add_entry n ip netmask = if leb addr_pool_size n then crash else do
    modify (λ s. record s {
      ip = set_field s.ip (pool_entry n) (h.inet_aton ip);
      netmask = set_field s.netmask (pool_entry n) (h.inet_aton netmask);
    })
    on_pool (insert_addr_pool (pool_entry n))
    pure true

  unfoldable pub config_line : ℕ → List Word → S Bool
  config_line n (ip ∷ netmask ∷ []) = add_entry n ip netmask
  config_line n _ = pure false

  unfoldable pub split_line : ℕ → Word → S Bool
  split_line n line = λ s. elim (getargs lbuf_size 0 0 (text_of line)) [
    | ok argv t ↦ config_line n (read_strings lbuf_size t argv) s
    | fault ↦ fault
    | out_of_fuel ↦ out_of_fuel
  ]

  unfoldable pub read_lines : ℕ → List Word → S Bool
  read_lines n [] = pure true
  read_lines n (line ∷ lines) = do
    good ← split_line n line
    if good then read_lines (n + 1) lines else pure false

  unfoldable pub read_config : Word → S Bool
  read_config path = elim (h.fopen path) [
    | none ↦ pure false
    | some [] ↦ do initialize_addr_pool; read_lines 0 []
    | some (first ∷ lines) ↦
        let ttl = h.atoi first in
        if above ttl 65535 && below_one ttl then pure false else do
          modify (λ s. record s { ttl_max = short_of_int ttl })
          initialize_addr_pool
          read_lines 0 lines
  ]

  unfoldable pub normalize_path : Word → Option Word
  normalize_path [] = h.realpath []
  normalize_path (c ∷ cs) =
      if c == b'~'
      then elim h.home [
        | none ↦ none
        | some home ↦
            if ltb (path_max - 1) (length home + length (c ∷ cs))
            then none
            else h.realpath (home ++ cs)
      ]
      else h.realpath (c ∷ cs)

  -- `main` up to its loop, with the arguments behind the program's name. `fopen` of a null pointer is
  -- a fault.
  unfoldable pub begin : List Word → S Bool
  begin args = do
    modify (λ s. record s { alarm_flag = 0 })
    initialize_client_buffer
    elim args [
      | path ∷ [] ↦ elim (normalize_path path) [ none ↦ crash | some full ↦ read_config full ]
      | _ ↦ pure false
    ]
