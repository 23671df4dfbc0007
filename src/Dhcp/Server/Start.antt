-- ===== src/Dhcp/Server/Start.antt =====
-- The server before its first round: `main` up to its loop, on a valid config file.
use unix_sys_prog.Base.{
  ℕ, ◌+◌, ◌≤◌, ◌<◌, ◌%◌, ◌^◌, ◌≡◌, inl, inr, refl, true, false, ltb, List, [], ◌∷◌, ◌++◌, some, ok,
  arith, length, ap, sym, ◌∙◌, has, ◌∈◌, pos, Bool-cases, update, has-append, append_nil,
  append_later,
}
use mathlib.Core.Path.{subst}
use unix_sys_prog.Ring.{Ptr, IsRing, Links, write_fp, write_bp}
use unix_sys_prog.Dhcp.Server.Store.{Server, addr_pool_h, client_h}
use unix_sys_prog.Dhcp.Server.Lists.{initialize, initialize_addr_pool, initialize_client_buffer}
use unix_sys_prog.Dhcp.Server.Config.{
  Word, Host, addr_pool_size, pool_entry, short_of_int, read_lines, read_config, normalize_path,
  begin,
}
use unix_sys_prog.Dhcp.Server.ConfigPool.{entries, Lines, Filled, KeepsRest, split_line-entry}
use unix_sys_prog.Dhcp.Server.Timeouts.{InOrder}

KeepsRest-trans :
    {s s1 s2 : Server} → (n : ℕ) → KeepsRest n s s1 → KeepsRest (n + 1) s1 s2 → KeepsRest n s s2
KeepsRest-trans n k l = record {
  clients = l.clients ∙ k.clients;
  allocated = l.allocated ∙ k.allocated;
  ttl_max = l.ttl_max ∙ k.ttl_max;
  alarm_flag = l.alarm_flag ∙ k.alarm_flag;
  ip = λ a lt. l.ip a (omega (arith, lt)) ∙ k.ip a lt;
  netmask = λ a lt. l.netmask a (omega (arith, lt)) ∙ k.netmask a lt;
}

below_next :
    (n : ℕ) (xs : List Ptr)
    → ((a : Ptr) → a ∈ xs → a < pool_entry n)
    → (a : Ptr) → a ∈ xs ++ pool_entry n ∷ []
    → a < pool_entry (n + 1)
below_next n xs below a m = elim (Bool-cases (has a xs)) [
  | inl old ↦ omega (arith, below a old)
  | inr new ↦ ground (arith, has-append a xs (pool_entry n ∷ []))
]

module _ (h : Host) where
  read_lines-entries :
      (lines : List Word) (es : List (ℕ × ℕ)) (n : ℕ) (s : Server) (xs : List Ptr)
      → Lines h lines es
      → n + length es ≤ addr_pool_size
      → IsRing s.pool addr_pool_h xs
      → ((a : Ptr) → a ∈ xs → a < pool_entry n)
      → (s' : Server) × (read_lines h n lines s ≡ ok true s')
        × IsRing s'.pool addr_pool_h (xs ++ entries n (length es))
        × Filled s' n es
        × KeepsRest n s s'
  unfolding read_lines entries
  read_lines-entries [] [] n s xs v room ring below = (
    s,
    refl,
    rw (append_nil xs) ring,
    tt,
    record {
      clients = refl;
      allocated = refl;
      ttl_max = refl;
      alarm_flag = refl;
      ip = λ a lt. refl;
      netmask = λ a lt. refl;
    },
  )
  read_lines-entries [] (e ∷ es) n s xs v room ring below = cc
  read_lines-entries (l ∷ ls) [] n s xs v room ring below = cc
  read_lines-entries (l ∷ ls) ((ip, netmask) ∷ es) n s xs v room ring below =
      let (s1, run1, ring1, ip1, mask1, keep1) =
        split_line-entry h n s xs ring below (omega (arith, room)) l ip netmask v.0 in
      let (s2, run2, ring2, filled, keep2) =
        read_lines-entries ls es (n + 1) s1 (xs ++ pool_entry n ∷ []) v.1 (omega (arith, room))
          ring1 (below_next n xs below) in
      (
        s2,
        rw run1 run2,
        subst (λ ys. IsRing s2.pool addr_pool_h ys)
            (append_later xs (pool_entry n) (entries (n + 1) (length es))) ring2,
        (
          keep2.ip (pool_entry n) (omega arith) ∙ ip1,
          keep2.netmask (pool_entry n) (omega arith) ∙ mask1,
          filled,
        ),
        KeepsRest-trans n keep1 keep2,
      )

-- A sentinel that points to itself.
empty_links : Links → Ptr → Links
empty_links l p = record { fp = update l.fp p p; bp = update l.bp p p }

initialize-IsRing :
    (l : Links) → (initialize 1 l ≡ ok tt (empty_links l 1)) × IsRing (empty_links l 1) 1 []
unfolding initialize write_fp write_bp empty_links
initialize-IsRing l = (refl, record { nodup = (refl, (refl, tt)); link = (refl, refl) })

-- No record is allocated, and every address is free.
nobody-InOrder :
    (s : Server) (ps : List Ptr)
    → IsRing s.clients client_h []
    → IsRing s.pool addr_pool_h ps
    → ((p : Ptr) → s.allocated p ≡ false)
    → InOrder s ps [] ps
nobody-InOrder s ps clients pool unused = (
  record {
    client_ring = clients;
    pool_ring = pool;
    live = unused;
    leased = λ p m. cc;
    alone = λ p r m. cc;
    owned = λ a. ground arith;
  },
  λ p m. cc,
)

after_head : Server → ℕ → Server
after_head s ttl = record s { ttl_max = ttl; pool = empty_links s.pool 1 }

-- A first line whose number fits `ttl_max`.
read_config-lines :
    (h : Host) (full first : Word) (lines : List Word) (ttl : ℕ) (s : Server)
    → h.fopen full ≡ some (first ∷ lines)
    → h.atoi first ≡ pos ttl
    → ttl < 2 ^ 16
    → read_config h full s ≡ read_lines h 0 lines (after_head s ttl)
unfolding read_config short_of_int initialize_addr_pool after_head
read_config-lines h full first lines ttl s file number short =
    let allowed : ltb 65535 ttl ≡ false = ground (arith, short) in
    let exact : ttl % 2 ^ 16 ≡ ttl = omega (arith, short) in
    rw (file, read_config)
      (rw number (rw allowed (rw exact (rw ((initialize-IsRing s.pool).0) refl))))

module _ (h : Host) (s : Server) (unused : (p : Ptr) → s.allocated p ≡ false) (first : Word)
    (lines : List Word) (es : List (ℕ × ℕ)) (ttl : ℕ) (number : h.atoi first ≡ pos ttl)
    (short : ttl < 2 ^ 16) (valid : Lines h lines es) (room : length es ≤ addr_pool_size) where
  read_config-InOrder :
      (full : Word)
      → h.fopen full ≡ some (first ∷ lines)
      → IsRing s.clients client_h []
      → (s' : Server) × (read_config h full s ≡ ok true s')
        × InOrder s' (entries 0 (length es)) [] (entries 0 (length es))
        × Filled s' 0 es
        × (s'.ttl_max ≡ ttl)
        × (s'.alarm_flag ≡ s.alarm_flag)
  unfolding after_head
  read_config-InOrder full file clients =
      let (s', lines_run, pool, filled, keep) =
        read_lines-entries h lines es 0 (after_head s ttl) [] valid (omega (arith, room))
          (initialize-IsRing s.pool).1 (λ a m. cc) in
      (
        s',
        read_config-lines h full first lines ttl s file number short ∙ lines_run,
        nobody-InOrder s' (entries 0 (length es))
            (subst (λ l. IsRing l client_h []) (sym keep.clients) clients) pool
            (λ p. ap (λ f. f p) keep.allocated ∙ unused p),
        filled,
        keep.ttl_max,
        keep.alarm_flag,
      )

with_list : Server → Server
with_list s = record s { alarm_flag = 0; clients = empty_links s.clients 1 }

begin-read_config :
    (h : Host) (path full : Word) (s : Server)
    → normalize_path h path ≡ some full
    → begin h (path ∷ []) s ≡ read_config h full (with_list s)
unfolding begin initialize_client_buffer with_list
begin-read_config h path full s norm = rw ((initialize-IsRing s.clients).0) (rw norm refl)

module _ (h : Host) (s : Server) (unused : (p : Ptr) → s.allocated p ≡ false) (first : Word)
    (lines : List Word) (es : List (ℕ × ℕ)) (ttl : ℕ) (number : h.atoi first ≡ pos ttl)
    (short : ttl < 2 ^ 16) (valid : Lines h lines es) (room : length es ≤ addr_pool_size) where
  -- With a config file of a lease time that fits its type and of addresses with their netmasks, at
  -- most as many as the array has entries, `main` comes to its loop with the server in order,
  -- whatever its links held: no clients, and in the pool the entries of the array in the order of
  -- the file, with the addresses and the netmasks that the file names; the lease time is the
  -- file's, and no tick is due. No record is allocated before, and the argument is the path of the
  -- file.
  pub begin-InOrder :
      (path full : Word)
      → normalize_path h path ≡ some full
      → h.fopen full ≡ some (first ∷ lines)
      → (s' : Server) × (begin h (path ∷ []) s ≡ ok true s')
        × InOrder s' (entries 0 (length es)) [] (entries 0 (length es))
        × Filled s' 0 es
        × (s'.ttl_max ≡ ttl)
        × (s'.alarm_flag ≡ 0)
  unfolding with_list
  begin-InOrder path full norm file =
      let (s', run, ready, filled, lease, no_alarm) =
        read_config-InOrder h (with_list s) unused first lines es ttl number short valid room full
          file (initialize-IsRing s.clients).1 in
      (s', begin-read_config h path full s norm ∙ run, ready, filled, lease, no_alarm)
