-- ===== src/Dhcp/Server/ConfigPool.antt =====
-- The address pool that `read_config` makes of the lines of the config file.
use unix_sys_prog.Base.{
  ℕ, zero, suc, ◌+◌, ◌≤◌, ◌<◌, ◌≡◌, ◌≢◌, inl, inr, refl, true, false, leb, List, [], ◌∷◌, ◌++◌,
  some, update, ok, arith, length, ap, ◌∙◌, All, ◌∈◌, ◌∉◌, update_self, update_other,
}
use unix_sys_prog.Ring.{Ptr, null, IsRing}
use unix_sys_prog.Args.Words.{words, count}
use unix_sys_prog.Args.Strings.{text_of, text_of-Holds, read_strings_lem, Short-below, words-Short}
use unix_sys_prog.Dhcp.Server.Store.{Server, addr_pool_h}
use unix_sys_prog.Dhcp.Server.Config.{
  Word, Host, addr_pool_size, lbuf_size, pool_entry, add_entry, config_line, split_line,
}
use unix_sys_prog.Dhcp.Server.ConfigArgs.{getargs-Stores}
use unix_sys_prog.Dhcp.Server.Relink.{insert_addr_pool-IsRing}

-- `k` entries of `addr_pool`, from the entry `n`.
unfoldable pub entries : ℕ → ℕ → List Ptr
entries n zero = []
entries n (suc k) = pool_entry n ∷ entries (n + 1) k

-- A line of an address and a netmask, as `inet_aton` reads them.
pub record IsConfigLine (h : Host) (line : Word) (ip netmask : ℕ) : Type 0 where
  pub fits : length line < lbuf_size
  pub no_zero : All (λ c. c ≢ 0) line
  pub ip_text : Word
  pub netmask_text : Word
  pub split : words line ≡ ip_text ∷ netmask_text ∷ []
  pub ip_read : h.inet_aton ip_text ≡ some ip
  pub netmask_read : h.inet_aton netmask_text ≡ some netmask

abbrev pub Lines : Host → List Word → List (ℕ × ℕ) → Type 0
Lines h [] [] = Unit
Lines h (l ∷ ls) ((ip, netmask) ∷ es) = IsConfigLine h l ip netmask × Lines h ls es
Lines h _ _ = false ≡ true

-- The entries from `n` on hold these addresses.
abbrev pub Filled : Server → ℕ → List (ℕ × ℕ) → Type 0
Filled s n [] = Unit
Filled s n ((ip, netmask) ∷ es) =
    (s.ip (pool_entry n) ≡ ip) × (s.netmask (pool_entry n) ≡ netmask) × Filled s (n + 1) es

-- Nothing but the pool's links and the entries from `n` on is changed.
pub record KeepsRest (n : ℕ) (s s' : Server) : Type 0 where
  pub clients : s'.clients ≡ s.clients
  pub allocated : s'.allocated ≡ s.allocated
  pub ttl_max : s'.ttl_max ≡ s.ttl_max
  pub alarm_flag : s'.alarm_flag ≡ s.alarm_flag
  pub ip : (a : Ptr) → a < pool_entry n → s'.ip a ≡ s.ip a
  pub netmask : (a : Ptr) → a < pool_entry n → s'.netmask a ≡ s.netmask a

-- `getargs` gives the words of a line with two.
split_line-words :
    (h : Host) (n : ℕ) (line : Word) (s : Server)
    → length line < lbuf_size
    → All (λ c. c ≢ 0) line
    → count (words line) ≤ 2
    → split_line h n line s ≡ config_line h n (words line) s
unfolding split_line
split_line-words h n line s fits no_zero two =
    let held = text_of-Holds line 0 (text_of line) (λ a. ap (text_of line) (omega arith)) no_zero in
    let (argv, t, run, both) =
      getargs-Stores lbuf_size 0 0 line (text_of line) held fits (omega arith) in
    elim (both.0) [
      | inr (many, three) ↦ absurd (omega (arith, many, two))
      | inl (few, each) ↦
          let got =
            read_strings_lem lbuf_size t argv (words line) each
              (Short-below (length line) lbuf_size (words line) fits (words-Short line)) in
          rw (run, split_line) (ap (λ ws. config_line h n ws s) got)
    ]

module _ (h : Host) (n : ℕ) (s : Server) (xs : List Ptr) (ring : IsRing s.pool addr_pool_h xs)
    (below : (a : Ptr) → a ∈ xs → a < pool_entry n) (room : n < addr_pool_size) where
  -- A line is read into the next entry of the array, which goes to the end of the pool.
  pub split_line-entry :
      (line : Word) (ip netmask : ℕ)
      → IsConfigLine h line ip netmask
      → (s' : Server) × (split_line h n line s ≡ ok true s')
        × IsRing s'.pool addr_pool_h (xs ++ pool_entry n ∷ [])
        × (s'.ip (pool_entry n) ≡ ip)
        × (s'.netmask (pool_entry n) ≡ netmask)
        × KeepsRest n s s'
  unfolding config_line add_entry count
  split_line-entry line ip netmask c =
      let new = pool_entry n in
      let out : new ∉ null ∷ addr_pool_h ∷ xs = ground (arith, below new) in
      let (l, run, ring') = insert_addr_pool-IsRing s.pool xs new ring out in
      let s' : Server = record s {
        ip = update s.ip new ip;
        netmask = update s.netmask new netmask;
        pool = l;
      } in
      let some_room : leb addr_pool_size n ≡ false = ground (arith, room) in
      let two : count (words line) ≤ 2 = rw (c.split) (omega arith) in
      let step : config_line h n (words line) s ≡ ok true s' =
        rw (c.split) (rw some_room (rw (c.ip_read) (rw (c.netmask_read) (rw run refl)))) in
      (
        s',
        split_line-words h n line s c.fits c.no_zero two ∙ step,
        ring',
        update_self s.ip new ip,
        update_self s.netmask new netmask,
        record {
          clients = refl;
          allocated = refl;
          ttl_max = refl;
          alarm_flag = refl;
          ip = λ a lt. update_other s.ip new ip a (ground arith);
          netmask = λ a lt. update_other s.netmask new netmask a (ground arith);
        },
      )
