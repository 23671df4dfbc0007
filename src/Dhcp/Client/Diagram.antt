-- ===== src/Dhcp/Client/Diagram.antt =====
-- The client's states: the diagram that the rounds follow, and how long it waits.
use unix_sys_prog.Base.{
  ◌∷◌, ℕ, zero, suc, ◌≡◌, ◌≢◌, ◌⊎◌, refl, none, some, arith, Bool, ap, if◌then◌else◌, true, false,
}
use mathlib.Core.Path.{◌∙◌, subst}
use mathlib.Core.Option.{some-injective}
use unix_sys_prog.Dhcp.Counter.{pos}
use unix_sys_prog.Dhcp.Message.{
  type_release, Message, Received, nothing, unknown, bad_index, arrived, message_timeout, type_ack,
  code_err_req,
}
use unix_sys_prog.Dhcp.Client.Machine.{
  sigalrm_handler, sighup_handler, sigint_handler, State, Event, unset, init, wait_offer1,
  wait_offer2, wait_ack1, wait_ack2, in_use, wait_ext_ack, term, Client, fsm_func,
}
use unix_sys_prog.Dhcp.Client.Loop.{round, quiet, quiet_for, tick, choose}

infix 40 ◌⟶◌
pub data ◌⟶◌ : State → State → Type 0 where
  offered1 : wait_offer1 ⟶ wait_ack1
  offered2 : wait_offer2 ⟶ wait_ack1
  ask_again : wait_offer1 ⟶ wait_offer2
  request_again : wait_ack1 ⟶ wait_ack2
  granted1 : wait_ack1 ⟶ in_use
  granted2 : wait_ack2 ⟶ in_use
  extend : in_use ⟶ wait_ext_ack
  extended : wait_ext_ack ⟶ in_use
  give_up : {s : State} → s ≢ term → s ≢ init → s ≢ unset → s ⟶ term

ruleset edges =
    (offered1, offered2, ask_again, request_again, granted1, granted2, extend, extended, give_up)

fsm_func-⟶ :
    (st : State) (e : Event) (c : Client)
    → c.stat ≡ st
    → ((fsm_func e c).stat ≡ st) ⊎ (st ⟶ (fsm_func e c).stat)
unfolding fsm_func
fsm_func-⟶ wait_offer1 e c h = grind (arith, edges)
fsm_func-⟶ st e c h = grind (arith, edges)

choose_stat : (r : Received) (c : Client) → (choose r (tick c)).1.stat ≡ c.stat
unfolding choose tick
choose_stat bad_index c = ground arith
choose_stat nothing c = ground arith
choose_stat unknown c = ground arith
choose_stat (arrived m) c = ground arith

step_of :
    (r : Received) (c : Client) {d : Client}
    → some (fsm_func (choose r (tick c)).0 (choose r (tick c)).1) ≡ some d
    → (d.stat ≡ c.stat) ⊎ (c.stat ⟶ d.stat)
step_of r c {d} h =
    let e = choose r (tick c) in
    let same : fsm_func e.0 e.1 ≡ d = some-injective _ _ h in
    subst (λ x. (x.stat ≡ c.stat) ⊎ (c.stat ⟶ x.stat)) same
      (fsm_func-⟶ c.stat e.0 e.1 (choose_stat r c))

-- A round leaves the state as it is or follows an edge of the diagram.
pub round-⟶ :
    (r : Received) (c : Client) {d : Client}
    → round r c ≡ some d
    → (d.stat ≡ c.stat) ⊎ (c.stat ⟶ d.stat)
unfolding round
round-⟶ bad_index c h = cc
round-⟶ nothing c h = step_of nothing c h
round-⟶ unknown c h = step_of unknown c h
round-⟶ (arrived m) c h = step_of (arrived m) c h

-- An address comes into use only by an acknowledgement that is not an error, and it is then the
-- one that the acknowledgement names, for the time that it names.
pub round-in_use :
    (r : Received) (c : Client) {d : Client}
    → round r c ≡ some d
    → c.stat ≢ in_use
    → d.stat ≡ in_use
    → (m : Message) × (r ≡ arrived m)
      × (m.type ≡ type_ack)
      × (m.code ≢ code_err_req)
      × (d.addr ≡ m.ipaddr)
      × (d.netmask ≡ m.netmask)
      × (d.ttl ≡ pos m.ttl)
unfolding round
round-in_use bad_index c h n e = cc
round-in_use nothing c h n e = absurd (ground arith)
round-in_use unknown c h n e = absurd (ground arith)
round-in_use (arrived m) c h n e =
    (m, refl, ground arith, ground arith, ground arith, ground arith, ground arith)

-- The client holds an address for `n` more seconds, and no signal is pending.
pub record IsLeasing (n : ℕ) (c : Client) : Type 0 where
  pub held : (c.stat ≡ in_use) ⊎ (c.stat ≡ wait_ext_ack)
  pub left : c.ttl ≡ pos n
  pub clock : c.tout ≡ pos message_timeout
  pub no_hangup : c.sighup_flag ≡ false
  pub no_interrupt : c.sigint_flag ≡ false
  pub no_alarm : c.alarm_flag ≡ 0
  pub goes_on : c.stop_flag ≡ false

after_quiet : Client → Client
after_quiet c = let e = choose nothing (tick (sigalrm_handler c)) in fsm_func e.0 e.1

quiet-after_quiet : (c : Client) → quiet c ≡ some (after_quiet c)
unfolding quiet after_quiet
quiet-after_quiet c = refl

after_quiet-IsLeasing :
    (n : ℕ) (c : Client) → IsLeasing (suc (suc n)) c → IsLeasing (suc n) (after_quiet c)
unfolding after_quiet choose tick fsm_func
after_quiet-IsLeasing n c w = ground arith

after_quiet_last :
    (c : Client)
    → IsLeasing 1 c
    → ((after_quiet c).stat ≡ term) × ((after_quiet c).stop_flag ≡ true)
unfolding after_quiet choose tick fsm_func
after_quiet_last c w = ground arith

one_more_second :
    (n : ℕ) (c d : Client) (b : Bool)
    → quiet c ≡ some d
    → d.stop_flag ≡ b
    → quiet_for (suc n) c ≡ (if b then some d else quiet_for n d)
unfolding quiet_for
one_more_second n c d b h stop =
    ap
      (λ r. elim r [
        | none ↦ none
        | some e ↦ let later = quiet_for n e in if e.stop_flag then some e else later
      ])
      h
    ∙ ap (λ x. if x then some d else quiet_for n d) stop

-- Without an answer to its requests the client gives its address up, and stops, at the end of the
-- lease time and no later.
pub quiet_for-stop :
    (n : ℕ) (c : Client)
    → IsLeasing (suc n) c
    → (d : Client) × (quiet_for (suc n) c ≡ some d) × (d.stat ≡ term) × (d.stop_flag ≡ true)
quiet_for-stop zero c w =
    let (gone, stop) = after_quiet_last c w in
    let run = one_more_second 0 c (after_quiet c) true (quiet-after_quiet c) stop in
    (after_quiet c, run, gone, stop)
quiet_for-stop (suc n) c w =
    let v = after_quiet-IsLeasing n c w in
    let (d, run, gone, stop) = quiet_for-stop n (after_quiet c) v in
    let first = one_more_second (suc n) c (after_quiet c) false (quiet-after_quiet c) v.goes_on in
    (d, first ∙ run, gone, stop)

-- The round after the handler of a signal ran.
after_signal : Client → Client
after_signal c = let e = choose nothing (tick c) in fsm_func e.0 e.1

-- A client that holds an address and is sent SIGHUP gives it back: it sends a release of its address
-- and nothing else, and stops. SIGINT makes it stop and send nothing.
pub round-signals :
    (n : ℕ) (c : Client)
    → IsLeasing n c
    → ((d : Client) × (round nothing (sighup_handler c) ≡ some d)
        × (d.stat ≡ term)
        × (d.stop_flag ≡ true)
        × (d.sent
            ≡ record { type = type_release; code = 0; ttl = 0; ipaddr = c.addr; netmask = 0 }
              ∷ c.sent))
      × ((d : Client) × (round nothing (sigint_handler c) ≡ some d)
          × (d.stop_flag ≡ true)
          × (d.sent ≡ c.sent))
unfolding round after_signal choose tick fsm_func
round-signals n c w = (
  (after_signal (sighup_handler c), refl, ground arith, ground arith, ground arith),
  (after_signal (sigint_handler c), refl, ground arith, ground arith),
)
