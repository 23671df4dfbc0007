-- ===== src/Dhcp/Client/Loop.antt =====
-- The event loop of the client's `main`: one round for each return of `get_msg`.
use unix_sys_prog.Base.{
  ℕ, zero, suc, ◌-◌, ◌/◌, true, false, ◌&&◌, ◌==◌, if◌then◌else◌, Option, none, some,
}
use unix_sys_prog.Dhcp.Counter.{decrement, expired, at_most, running}
use unix_sys_prog.Dhcp.Message.{Received, nothing, unknown, bad_index, arrived}
use unix_sys_prog.Dhcp.Client.Machine.{
  sigalrm_handler, State, init, wait_offer1, wait_offer2, wait_ack1, wait_ack2, in_use,
  wait_ext_ack, Event, no_event, half_ttl, sighup, timeout, ttl_timeout, unknown_msg, Client,
  change_state, send_discover, get_event, fsm_func,
}

-- What a second does to the counters, by the state.
unfoldable pub count_down : State → Client → Client
count_down in_use c = record c { ttl = decrement c.ttl }
count_down wait_ext_ack c = record c { ttl = decrement c.ttl }
count_down wait_offer1 c = record c { tout = decrement c.tout }
count_down wait_offer2 c = record c { tout = decrement c.tout }
count_down wait_ack1 c = record c { tout = decrement c.tout }
count_down wait_ack2 c = record c { tout = decrement c.tout }
count_down _ c = c

unfoldable pub tick : Client → Client
unfolding count_down decrement
tick c =
    let d = count_down c.stat c in
    if c.alarm_flag == 0 then c else record d { alarm_flag = d.alarm_flag - 1 }

-- The event of a round in which no message came and no signal is pending.
unfoldable pub timer_event : Client → Event
unfolding at_most running expired
timer_event c =
    if at_most c.ttl (c.ttlcounter / 2) && running c.ttl
    then half_ttl
    else if expired c.tout
    then timeout
    else if expired c.ttl
    then ttl_timeout
    else no_event

unfoldable pub choose : Received → Client → Event × Client
unfolding get_event timer_event
choose (arrived m) c = get_event m c
choose unknown c = (unknown_msg, c)
choose bad_index c = (no_event, c)
choose nothing c =
    if c.sighup_flag
    then (sighup, record c { sighup_flag = false })
    else if c.sigint_flag
    then (no_event, record c { stop_flag = true })
    else (timer_event c, c)

-- One round of `while (!stop_flag)`; `none` is the read through an index out of range.
unfoldable pub round : Received → Client → Option Client
unfolding tick choose fsm_func
round bad_index c = none
round r c = let (event, d) = choose r (tick c) in some (fsm_func event d)

-- Before the loop.
unfoldable pub start : Client → Client
unfolding change_state send_discover
start c = send_discover (change_state init c)

-- A second in which no message comes.
unfoldable pub quiet : Client → Option Client
unfolding round
quiet c = round nothing (sigalrm_handler c)

-- A number of such seconds, up to the end of the program.
unfoldable pub quiet_for : ℕ → Client → Option Client
quiet_for zero c = some c
quiet_for (suc n) c = elim (quiet c) [
  | none ↦ none
  | some d ↦ let later = quiet_for n d in if d.stop_flag then some d else later
]
