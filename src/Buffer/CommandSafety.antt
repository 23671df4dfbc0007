-- ===== src/Buffer/CommandSafety.antt =====
-- The functions behind the commands of buffer/command.c keep the invariant of the cache.
use unix_sys_prog.Base.{
  ℕ, zero, suc, ◌+◌, ◌<◌, ◌≤◌, arith, ◌≡◌, ◌≢◌, ◌⊎◌, inl, inr, refl, Bool, true, false, ◌==◌, ltb,
  List, [], ◌∷◌, Option, none, some, All, ok, Run, pure, ◌>>◌, Bool-cases, ap, ◌∙◌, eq_of_==,
}
use unix_sys_prog.Ring.{Ptr}
use unix_sys_prog.Buffer.Store.{Cache, C}
use unix_sys_prog.Buffer.Lists.{init_buf}
use unix_sys_prog.Buffer.Block.{Stat, locked, setter, set_block_stat, reset_block_stat}
use unix_sys_prog.Buffer.Block
use unix_sys_prog.Buffer.Invariant.{IsCache}
use unix_sys_prog.Buffer.Contract.{getblk_contract}
use unix_sys_prog.Buffer.Init.{init_queues, init_free_buffers, init_buf-IsCache}
use unix_sys_prog.Buffer.Session.{Sound, exec, exec-Sound, set_stat, reset_stat}
use unix_sys_prog.Buffer.Command.{
  Word, cmd_tbl, stat_tbl, Parsed, malformed, negative, number, Next, goes_on, guarded, show_number,
  on_number, each_stat, run_help, show_all,
}

pub table_cases : {A : Type 0} (o : Option A) → (o ≡ none) ⊎ (a : A) × (o ≡ some a)
table_cases none = inl refl
table_cases (some a) = inr (a, refl)

-- The command returned or called `exit`, and the invariant holds of the cache.
abbrev pub SoundNext : Run Cache Next → Type 0
SoundNext run =
    (n : Next) × (c' : Cache) × (q' : ℕ → List Ptr) × (free' : List Ptr) × (run ≡ ok n c')
    × IsCache c' q' free'

-- Arguments with which the commands do not go wrong: `help` knows the command, `buf` and `hash` are
-- not given the number of the entries of their table, and no bit is the lock.
abbrev pub KnownHelp : List Word → Type 0
KnownHelp (w ∷ []) = cmd_tbl w ≢ none
KnownHelp _ = Unit

abbrev pub LeavesLocks : List Word → Type 0
LeavesLocks = All (λ w. stat_tbl w ≢ some locked)

-- Every entry of the table is shown, and nothing changes.
abbrev pub Shows : {A : Type 0} → (ℕ → C A) → ℕ → Cache → Type 0
Shows {A} show size c = (n : ℕ) → n < size → (a : A) × (show n c ≡ ok a c)

pub show_number-later :
    {A : Type 0} (show : ℕ → C A) (size : ℕ) (r : Parsed) (later : C Next) (c : Cache)
    → Shows show size c
    → r ≢ number size
    → show_number show size r later c ≡ later c
unfolding show_number
show_number-later show size malformed later c s h = refl
show_number-later show size negative later c s h = refl
show_number-later show size (number n) later c s h = elim (Bool-cases (n == size)) [
  | inl e ↦ absurd (h (ap number (eq_of_== n size e)))
  | inr m ↦ elim (Bool-cases (ltb size n)) [
    | inl b ↦ rw b refl
    | inr b ↦ let (a, run) = s n (ground (arith, b, m)) in rw b (rw run refl)
  ]
]

pub show_all-goes_on :
    {A : Type 0} (show : ℕ → C A) (size : ℕ) (c : Cache)
    → Shows show size c
    → (left i : ℕ) → i + left ≤ size
    → show_all show left i c ≡ ok goes_on c
unfolding show_all
show_all-goes_on show size c s zero i le = refl
show_all-goes_on show size c s (suc left) i le =
    let (a, run) = s i (omega (arith, le)) in
    rw run (show_all-goes_on show size c s left (i + 1) (omega (arith, le)))

module _ (c : Cache) (q : ℕ → List Ptr) (free : List Ptr) (w : IsCache c q free) where
  pub unchanged : (n : Next) → SoundNext (ok n c)
  unchanged n = (n, c, q, free, refl, w)

  pub guarded-SoundNext :
      (b : Bool) (run : C Next) → SoundNext (run c) → SoundNext (guarded b run c)
  guarded-SoundNext true run s = s
  guarded-SoundNext false run s = unchanged goes_on

  pub on_number-SoundNext :
      (run : ℕ → C Next) (r : Parsed)
      → ((n : ℕ) → SoundNext (run n c))
      → SoundNext (on_number run r c)
  unfolding on_number
  on_number-SoundNext run malformed s = unchanged goes_on
  on_number-SoundNext run negative s = unchanged goes_on
  on_number-SoundNext run (number n) s = s n

  pub Sound-goes_on : (run : C (Unit {0})) → Sound (run c) → SoundNext ((run >> pure goes_on) c)
  Sound-goes_on run (c', q', free', r, w') = (goes_on, c', q', free', rw r refl, w')

  pub getblk-SoundNext : (n : ℕ) → SoundNext ((Block.getblk n >> pure goes_on) c)
  getblk-SoundNext n =
      let (r, c', q', free', run, w', _) = getblk_contract c q free w n in
      (goes_on, c', q', free', rw run refl, w')

  pub run_help-SoundNext : (args : List Word) → KnownHelp args → SoundNext (run_help args c)
  unfolding run_help
  run_help-SoundNext [] h = unchanged goes_on
  run_help-SoundNext (x ∷ []) h = elim (table_cases (cmd_tbl x)) [
    | inl e ↦ absurd (h e)
    | inr (d, e) ↦ rw (e, run_help) (unchanged goes_on)
  ]
  run_help-SoundNext (x ∷ y ∷ ws) h = unchanged goes_on

  pub init-SoundNext : SoundNext ((init_buf >> pure goes_on) c)
  init-SoundNext =
      let (c', run, w') = init_buf-IsCache c in
      (goes_on, c', init_queues, init_free_buffers, rw run refl, w')

-- A change of a status bit, other than the lock, keeps the invariant of every cache.
abbrev pub Keeps : (Stat → C (Unit {0})) → Type 0
Keeps change =
    (s : Stat)
    → s ≢ locked
    → (c : Cache) (q : ℕ → List Ptr) (free : List Ptr) → IsCache c q free
    → Sound (change s c)

pub set_stat-Keeps : (n : ℕ) → Keeps (λ s. set_block_stat n (setter s))
unfolding exec
set_stat-Keeps n s h c q free w = exec-Sound c q free w (set_stat n s) h

pub reset_stat-Keeps : (n : ℕ) → Keeps (λ s. reset_block_stat n (setter s))
unfolding exec
reset_stat-Keeps n s h c q free w = exec-Sound c q free w (reset_stat n s) h

pub each_stat-SoundNext :
    (change : Stat → C (Unit {0})) (args : List Word)
    → Keeps change
    → LeavesLocks args
    → (c : Cache) (q : ℕ → List Ptr) (free : List Ptr) → IsCache c q free
    → SoundNext (each_stat change args c)
unfolding each_stat
each_stat-SoundNext change [] k h c q free w = unchanged c q free w goes_on
each_stat-SoundNext change (x ∷ ws) k h c q free w = elim (table_cases (stat_tbl x)) [
  | inl e ↦ rw (e, each_stat) (unchanged c q free w goes_on)
  | inr (s, e) ↦
      let (c1, q1, free1, run, w1) = k s (λ is_lock. h.0 (e ∙ ap some is_lock)) c q free w in
      let rest = each_stat-SoundNext change ws k h.1 c1 q1 free1 w1 in
      rw (e, each_stat) (rw run rest)
]
