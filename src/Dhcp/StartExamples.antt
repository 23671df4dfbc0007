-- ===== src/Dhcp/StartExamples.antt =====
-- The start and the end of the address server at concrete config lines and clients.
use unix_sys_prog.Base.{
  ℕ, ◌≡◌, ◌-◌, refl, true, false, [], ◌∷◌, arith, none, some, ok, pos, List, Run, Bool, ap, sym,
  ◌∙◌, inl, inr,
}
use unix_sys_prog.Ring.{Ptr}
use unix_sys_prog.Args.Getargs.{Text, is_blank, skip_blanks, skip_word}
use unix_sys_prog.Args.Words.{words, in_front}
use unix_sys_prog.Args.Strings.{text_of}
use unix_sys_prog.Dhcp.Server.Store.{Server, in_use, client_h}
use unix_sys_prog.Dhcp.Server.Config.{Host, getargs, begin, normalize_path}
use unix_sys_prog.Dhcp.Server.ConfigArgs.{Stores, getargs-Stores}
use unix_sys_prog.Dhcp.Server.ConfigPool.{IsConfigLine, Filled, entries}
use unix_sys_prog.Dhcp.Server.Timeouts.{InOrder}
use unix_sys_prog.Dhcp.Server.Start.{begin-InOrder}
use unix_sys_prog.Dhcp.Server.Loop.{release_all, Input}
use unix_sys_prog.Dhcp.Server.Main.{main, IsTrace, main-Released}
use unix_sys_prog.Dhcp.Server.Lease.{IsServer}
use unix_sys_prog.Dhcp.Message.{message, type_discover, get_msg, decode}
use unix_sys_prog.Dhcp.Server.Finish.{Released, release_all-Released}
use unix_sys_prog.Dhcp.Examples.{serving, serving-IsServer}

-- `9 8`: the addresses 0.0.0.9 and 0.0.0.8 in the short form.
abbrev line : List ℕ
line = 57 ∷ 32 ∷ 56 ∷ []

abbrev too_many : List ℕ
too_many = 57 ∷ 32 ∷ 56 ∷ 32 ∷ 55 ∷ 32 ∷ 54 ∷ []

getargs_test : (t : Text) × (getargs 10 0 0 (text_of too_many) ≡ ok (0 ∷ 2 ∷ 4 ∷ []) t)
unfolding getargs skip_blanks is_blank text_of skip_word
getargs_test = (_, refl)

getargs-Stores_example :
    (argv : List ℕ) × (t : Text) × (getargs 10 0 0 (text_of too_many) ≡ ok argv t)
    × Stores 0 0 too_many (text_of too_many) argv t
unfolding text_of
getargs-Stores_example =
    getargs-Stores 10 0 0 too_many (text_of too_many)
      (
        refl,
        ground arith,
        (
          refl,
          ground arith,
          (
            refl,
            ground arith,
            (
              refl,
              ground arith,
              (refl, ground arith, (refl, ground arith, (refl, ground arith, refl))),
            ),
          ),
        ),
      )
      (omega arith) (omega arith)

-- The library for one file, with a lease time and a line.
abbrev library : Host
library = record {
  realpath = λ w. some w;
  home = none;
  fopen = λ path. some ((53 ∷ 10 ∷ []) ∷ line ∷ []);
  atoi = λ w. elim w [ [] ↦ pos 0 | c ∷ cs ↦ pos (c - 48) ];
  inet_aton = λ w. elim w [ [] ↦ none | c ∷ cs ↦ some (c - 48) ];
}

line-IsConfigLine : IsConfigLine library line 9 8
unfolding words in_front is_blank
line-IsConfigLine = record {
  fits = omega arith;
  no_zero = (ground arith, (ground arith, (ground arith, tt)));
  ip_text = 57 ∷ [];
  netmask_text = 56 ∷ [];
  split = refl;
  ip_read = refl;
  netmask_read = refl;
}

abbrev fresh : Server
fresh = record (serving in_use) { allocated = λ _. false; alarm_flag = 3 }

fresh-InOrder :
    (s : Server) × (begin library ((99 ∷ []) ∷ []) fresh ≡ ok true s)
    × InOrder s (entries 0 1) [] (entries 0 1)
    × Filled s 0 ((9, 8) ∷ [])
    × (s.ttl_max ≡ 5)
    × (s.alarm_flag ≡ 0)
unfolding normalize_path
fresh-InOrder =
    begin-InOrder library fresh (λ p. refl) (53 ∷ 10 ∷ []) (line ∷ []) ((9, 8) ∷ []) 5 refl
      (omega arith) (line-IsConfigLine, tt) (omega arith) (99 ∷ []) (99 ∷ []) refl refl

begin-InOrder_example :
    (s : Server) × (begin library ((99 ∷ []) ∷ []) fresh ≡ ok true s)
    × InOrder s (entries 0 1) [] (entries 0 1)
    × Filled s 0 ((9, 8) ∷ [])
    × (s.ttl_max ≡ 5)
    × (s.alarm_flag ≡ 0)
unfolding normalize_path
begin-InOrder_example =
    begin-InOrder library fresh (λ p. refl) (53 ∷ 10 ∷ []) (line ∷ []) ((9, 8) ∷ []) 5 refl
      (omega arith) (line-IsConfigLine, tt) (omega arith) (99 ∷ []) (99 ∷ []) refl refl

release_all-Released_example :
    Released (2 ∷ 3 ∷ []) (release_all 2 ((serving in_use).clients.fp client_h) (serving in_use))
release_all-Released_example =
    release_all-Released 2 (serving in_use) (2 ∷ 3 ∷ []) (2 ∷ []) (3 ∷ []) (serving-IsServer in_use)
      (omega arith)

-- A DISCOVER from a new address.
abbrev newcomer : Input
newcomer = record {
  alarms = 1;
  datagram = some (1 ∷ 0 ∷ 0 ∷ 0 ∷ 0 ∷ 0 ∷ 0 ∷ 0 ∷ 0 ∷ 0 ∷ 0 ∷ 0 ∷ []);
  from = 167772161;
  from_port = 4000;
  new = 5;
}

abbrev allocated_of : Run Server Bool → Ptr → Bool
allocated_of (ok b s) = s.allocated
allocated_of _ = λ p. false

one_round :
    (s : Server) → begin library ((99 ∷ []) ∷ []) fresh ≡ ok true s → IsTrace 9 s (newcomer ∷ [])
unfolding get_msg decode
one_round s run =
    let (s0, run0, (w, live), filled, lease, no_alarm) = fresh-InOrder in
    let unused : s.allocated 5 ≡ false = ap (λ r. allocated_of r 5) (sym run ∙ run0) ∙ w.live 5 in
    (
      (
        inr (
            inl (
              message type_discover 0,
              refl,
              (λ p used mine release. absurd (ground arith)),
              λ nobody. refl,
            )),
        unused,
        refl,
      ),
      λ s' r. tt,
    )

main-Released_example :
    (s' : Server) × (ps : List Ptr) × (main library 9 ((99 ∷ []) ∷ []) (newcomer ∷ []) fresh
      ≡ ok true s')
    × IsServer s' (entries 0 1) [] ps
unfolding normalize_path
main-Released_example =
    main-Released library fresh (λ p. refl) (53 ∷ 10 ∷ []) (line ∷ []) ((9, 8) ∷ []) 5 refl
      (omega arith) (line-IsConfigLine, tt) (omega arith) (99 ∷ []) (99 ∷ []) refl refl 9
      (newcomer ∷ []) (omega arith) (omega arith) one_round
