-- ===== src/Dhcp/Server/Main.antt =====
-- The server's `main` as a whole: the start, the rounds of its loop up to the one in which a signal
-- sets `stop_flag`, and the release of every client.
use unix_sys_prog.Base.{
  ℕ, zero, suc, ◌+◌, ◌*◌, ◌≤◌, ◌<◌, ◌^◌, ◌≡◌, ◌⊎◌, inl, inr, refl, true, false, Bool, not, ◌==◌,
  List, [], ◌∷◌, ◌∈◌, ◌∉◌, ok, some, arith, length, sym, ◌∙◌, pos, pure, ◌>>=◌, ◌>>◌, if◌then◌else◌,
  length-le_range, Bool-cases,
}
use unix_sys_prog.Ring.{Ptr, null, read_fp}
use unix_sys_prog.Dhcp.Message.{Message, type_discover, get_msg, nothing, arrived, unknown}
use unix_sys_prog.Dhcp.Server.Store.{Server, S, client_h, on_clients}
use unix_sys_prog.Dhcp.Server.Loop.{Input, round, release_all}
use unix_sys_prog.Dhcp.Server.Config.{Word, Host, addr_pool_size, pool_entry, normalize_path, begin}
use unix_sys_prog.Dhcp.Server.ConfigPool.{entries, Lines}
use unix_sys_prog.Dhcp.Server.Start.{begin-InOrder}
use unix_sys_prog.Dhcp.Server.Finish.{release_all-Released}
use unix_sys_prog.Dhcp.Server.Lease.{IsServer}
use unix_sys_prog.Dhcp.Server.Admission.{is_from}
use unix_sys_prog.Dhcp.Server.Timeouts.{InOrder}
use unix_sys_prog.Dhcp.Server.Handle.{IsPolite}
use unix_sys_prog.Dhcp.Server.Quiet.{enough, mul_le}
use unix_sys_prog.Dhcp.Server.Rounds.{IsInput, round-InOrder}

unfoldable pub rounds : ℕ → List Input → S (Unit {0})
rounds fuel [] = pure tt
rounds fuel (i ∷ is) = do round fuel i; rounds fuel is

unfoldable pub main : Host → ℕ → List Word → List Input → S Bool
main h fuel args inputs = do
  good ← begin h args
  if not good
      then pure false
      else do rounds fuel inputs; p ← on_clients (read_fp client_h); release_all fuel p; pure true

-- What a round is given: no datagram; one whose sender is a client that is polite, or nobody known
-- who asks for an address; or one of another length, while `client_ptr` still points to a client. The
-- record that `malloc` would return is not in use. Any number of alarms may have arrived.
abbrev pub IsExpected : Server → Input → Type 0
IsExpected s i =
    ((get_msg i.datagram ≡ nothing)
      ⊎ ((m : Message) × (get_msg i.datagram ≡ arrived m)
          × ((p : Ptr)
              → s.allocated p ≡ true
              → is_from s i.from i.from_port p ≡ true
              → IsPolite s p m)
          × (((p : Ptr) → s.allocated p ≡ true → is_from s i.from i.from_port p ≡ false)
              → m.type ≡ type_discover))
      ⊎ ((get_msg i.datagram ≡ unknown) × (s.allocated s.client_ptr ≡ true)))
    × (s.allocated i.new ≡ false)
    × (i.new ∉ null ∷ client_h ∷ [])

-- Every round is given that, in the state that the rounds before it left.
abbrev pub IsTrace : ℕ → Server → List Input → Type 0
IsTrace fuel s [] = Unit
IsTrace fuel s (i ∷ is) =
    IsExpected s i × ((s' : Server) → round fuel i s ≡ ok tt s' → IsTrace fuel s' is)

enough_le : (a b : ℕ) → a ≤ b → enough a ≤ enough b
enough_le a b le =
    let one : a * (a + 1) ≤ b * (a + 1) = mul_le a b (a + 1) le in
    let two : (a + 1) * b ≤ (b + 1) * b = mul_le (a + 1) (b + 1) b (omega (arith, le)) in
    grind arith

expected-IsInput :
    (s : Server) (all cs ps : List Ptr) (i : Input)
    → IsServer s all cs ps
    → IsExpected s i
    → IsInput s cs i × (i.new ∉ null ∷ client_h ∷ cs)
expected-IsInput s all cs ps i w (given, unused, other) = (
  elim given [
    | inl quiet ↦ inl quiet
    | inr (inr (other, used)) ↦ inr (inr (other, sym (w.live s.client_ptr) ∙ used))
    | inr (inl (m, came, polite, asks)) ↦ inr (
        inl (
          m,
          came,
          (
            λ p mem mine. polite p (w.live p ∙ mem) mine,
            λ nobody. asks (λ p used. nobody p (sym (w.live p) ∙ used)),
          ),
        ))
  ],
  ground (arith, w.live i.new, unused, other),
)

-- The entries of the array that are free are not more than it has.
free-length :
    (s : Server) (k : ℕ) (all cs ps : List Ptr)
    → ((a : Ptr) → a ∈ all → (2 ≤ a) × (a < 2 + k))
    → IsServer s all cs ps
    → length ps ≤ k
free-length s k all cs ps range w =
    length-le_range k 2 ps w.pool_ring.nodup.1.1 (λ a m. range a (w.owned a ∙ ground (arith, m)))

module _ (all : List Ptr) (k : ℕ) (range : (a : Ptr) → a ∈ all → (2 ≤ a) × (a < 2 + k)) (fuel : ℕ)
    (pool : k < fuel) where
  pub rounds-InOrder :
      (inputs : List Input) (n : ℕ) (s : Server) (cs ps : List Ptr)
      → InOrder s all cs ps
      → length cs ≤ n
      → enough (n + length inputs) < fuel
      → IsTrace fuel s inputs
      → (s' : Server) × (cs' : List Ptr) × (ps' : List Ptr) × (rounds fuel inputs s ≡ ok tt s')
        × InOrder s' all cs' ps'
        × (length cs' ≤ n + length inputs)
  unfolding rounds
  rounds-InOrder [] n s cs ps o few f trace = (s, cs, ps, refl, o, omega (arith, few))
  rounds-InOrder (i ∷ is) n s cs ps (w, live) few f (now, later) =
      let (given, out) = expected-IsInput s all cs ps i w now in
      let (_, (s1, cs1, ps1, run1, o1, len1)) =
        round-InOrder fuel i s all cs ps (w, live) given
          (omega (arith, f, enough_le (length cs) (n + length (i ∷ is)) (omega (arith, few))))
          (omega (arith, pool, free-length s k all cs ps range w)) out in
      let (s2, cs2, ps2, run2, o2, len2) =
        rounds-InOrder is (n + 1) s1 cs1 ps1 o1 (omega (arith, len1, few))
          (omega (arith, f, enough_le (n + 1 + length is) (n + length (i ∷ is)) (omega arith)))
          (later s1 run1) in
      (s2, cs2, ps2, rw run1 run2, o2, omega (arith, len2))

entries-range : (n k a : ℕ) → a ∈ entries n k → (pool_entry n ≤ a) × (a < pool_entry n + k)
unfolding entries
entries-range n zero a m = cc
entries-range n (suc k) a m = elim (Bool-cases (a == pool_entry n)) [
  | inl e ↦ ground (arith, e)
  | inr o ↦
      let later : a ∈ entries (n + 1) k = ground (arith, m, o) in
      let (low, high) = entries-range (n + 1) k a later in (omega (arith, low), omega (arith, high))
]

-- The last loop, from the state that the rounds left.
finish :
    (h : Host) (fuel : ℕ) (args : List Word) (inputs : List Input) (s s1 s2 s3 : Server)
    → begin h args s ≡ ok true s1
    → rounds fuel inputs s1 ≡ ok tt s2
    → release_all fuel (s2.clients.fp client_h) s2 ≡ ok tt s3
    → main h fuel args inputs s ≡ ok true s3
unfolding main read_fp
finish h fuel args inputs s s1 s2 s3 one two three = rw one (rw two (rw three refl))

-- The whole program, on a config file as `begin-InOrder` asks for it: from whatever its links held it
-- runs to its end, without a fault, and at the end every address of the file is in the pool and
-- no client record is allocated. Any number of alarms may arrive before each round. Every round is
-- given no datagram, a message (of 12 bytes, with a known type and code) of a client that is polite,
-- a DISCOVER of anybody else, or a datagram of another length while client_ptr still points to a
-- client; the record that malloc would return is not in use; the fuel is above the number of
-- addresses and above what `enough` asks for the number of rounds.
pub main-Released :
    (h : Host) (s : Server)
    → ((p : Ptr) → s.allocated p ≡ false)
    → (first : Word) (lines : List Word) (es : List (ℕ × ℕ)) (ttl : ℕ) → h.atoi first ≡ pos ttl
    → ttl < 2 ^ 16
    → Lines h lines es
    → length es ≤ addr_pool_size
    → (path full : Word) → normalize_path h path ≡ some full
    → h.fopen full ≡ some (first ∷ lines)
    → (fuel : ℕ) (inputs : List Input) → length es < fuel
    → enough (length inputs) < fuel
    → ((s1 : Server) → begin h (path ∷ []) s ≡ ok true s1 → IsTrace fuel s1 inputs)
    → (s' : Server) × (ps : List Ptr) × (main h fuel (path ∷ []) inputs s ≡ ok true s')
      × IsServer s' (entries 0 (length es)) [] ps
main-Released h s unused first lines es ttl number short valid room path full norm file fuel inputs
      pool f trace =
    let (s1, run1, o1, filled, lease, no_alarm) =
      begin-InOrder h s unused first lines es ttl number short valid room path full norm file in
    let (s2, cs, ps, run2, (w, live), few) =
      rounds-InOrder (entries 0 (length es)) (length es) (entries-range 0 (length es)) fuel pool
        inputs 0 s1 [] (entries 0 (length es)) o1 (omega arith)
        (omega (arith, f, enough_le (0 + length inputs) (length inputs) (omega arith)))
        (trace s1 run1) in
    let (s3, ps3, run3, w3) =
      release_all-Released fuel s2 (entries 0 (length es)) cs ps w (omega (arith, few, f)) in
    (s3, ps3, finish h fuel (path ∷ []) inputs s s1 s2 s3 run1 run2 run3, w3)
