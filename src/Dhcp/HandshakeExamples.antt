-- ===== src/Dhcp/HandshakeExamples.antt =====
-- A new client and the address server, which has one client and one free address.
use unix_sys_prog.Base.{false, []}
use unix_sys_prog.Dhcp.Counter.{pos}
use unix_sys_prog.Dhcp.Server.Store
use unix_sys_prog.Dhcp.Server.Store.{Server}
use unix_sys_prog.Dhcp.Client.Machine.{Client, unset}

abbrev newborn : Client
newborn = record {
  stat = unset;
  ttlcounter = 0;
  ttl = pos 0;
  tout = pos 0;
  addr = 0;
  netmask = 0;
  stop_flag = false;
  sighup_flag = false;
  sigint_flag = false;
  alarm_flag = 0;
  sent = [];
}
