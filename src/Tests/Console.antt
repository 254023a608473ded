-- ===== src/Tests/Console.antt =====
-- The console program of ConsoleTest on the messages of a socket, and its main.
use watchfirewall.Prelude.{
  ◌≤◌, ◌+◌, ◌*◌, ◌/◌, ◌%◌, ◌≡◌, ap, refl, true, some, none, List, [], ◌∷◌, length, arith,
}
use watchfirewall.Firewall.Request.{Memory}
use watchfirewall.Firewall.Reads.{nth, Stands}
use watchfirewall.Messages.{Origin}
use watchfirewall.Messages.Address.{SockAddress, copied, copied_bytes}
use watchfirewall.Messages.Create.{create_firewall_closing}
use watchfirewall.Messages.Debug.{
  create_sflt_attach, create_sflt_connect_out, create_sflt_data_in, needed_size,
}
use watchfirewall.Wire.{raw_bytes}
use watchfirewall.Console.Fields.{InOrigin}
use watchfirewall.Connection.{
  Calls, number, new_connection, receive_loop, open_connection, close_connection, end_thread,
}
use watchfirewall.Console.Names.{Headers}
use watchfirewall.Console.Events.{Event}
use watchfirewall.Console.Stream.{stream, reports, console, console-reports}
use watchfirewall.Console.Main.Waiting.{Future, Reach-Future}
use watchfirewall.Console.Main.{
  Program, Reach, here, next, opens, wakes_spuriously, waits, leaves, signal, start, opened,
  waiting, returned, thread_ends, Reach-returned,
}

-- The constants as on macOS.
abbrev headers : Headers
headers = record {
  af_unspec = 0;
  af_unix = 1;
  af_inet = 2;
  af_implink = 3;
  af_pup = 4;
  af_chaos = 5;
  af_ns = 6;
  af_iso = 7;
  af_ecma = 8;
  af_datakit = 9;
  af_ccitt = 10;
  af_sna = 11;
  af_decnet = 12;
  af_dli = 13;
  af_lat = 14;
  af_hylink = 15;
  af_appletalk = 16;
  af_route = 17;
  af_link = 18;
  pseudo_af_xtp = 19;
  af_coip = 20;
  af_cnt = 21;
  pseudo_af_rtip = 22;
  af_ipx = 23;
  af_sip = 24;
  pseudo_af_pip = 25;
  af_ndrv = 27;
  af_isdn = 28;
  pseudo_af_key = 29;
  af_inet6 = 30;
  af_natm = 31;
  af_system = 32;
  af_netbios = 33;
  af_ppp = 34;
  pseudo_af_hdrcmplt = 35;
  af_reserved_36 = 36;
  af_max = 40;
  so_broadcast = 32;
  so_oobinline = 256;
  so_debug = 1;
  so_reuseaddr = 4;
  so_reuseport = 512;
  so_keepalive = 8;
  so_dontroute = 16;
  so_linger = 128;
  so_linger_sec = 4224;
  so_sndbuf = 4097;
  so_rcvbuf = 4098;
  so_sndlowat = 4099;
  so_rcvlowat = 4100;
  so_sndtimeo = 4101;
  so_rcvtimeo = 4102;
  so_nosigpipe = 4130;
  so_type = 4104;
  so_error = 4103;
  so_nread = 4128;
  so_nwrite = 4132;
  ntohs = λ v. v % 256 * 256 + v / 256;
  inet_ntop = λ family bytes. bytes;
}

abbrev process : Origin
process = record { pid = 100; uid = 501; so = 0xffff_ff80_0000_1234 }

-- 10.0.0.1, port 80.
abbrev web : SockAddress
web = record {
  len = 16;
  family = 2;
  tail = 0 ∷ 80 ∷ 10 ∷ 0 ∷ 0 ∷ 1 ∷ 0 ∷ 0 ∷ 0 ∷ 0 ∷ 0 ∷ 0 ∷ 0 ∷ 0 ∷ [];
}

process-InOrigin : InOrigin process
process-InOrigin = omega arith

abbrev junk : Memory
junk p = 170

-- What is sent of a socket that connects, gets data, and of an extension that closes.
abbrev messages : List (Memory × Event)
messages =
    (junk, Event.attach process 6)
    ∷ (junk, Event.connect_out process (some web))
    ∷ (junk, Event.data_in process 6 none)
    ∷ (junk, Event.closing)
    ∷ []

abbrev sent_buffer : Memory
sent_buffer = nth (stream messages)

sent_buffer-Stands : Stands sent_buffer 0 (stream messages)
sent_buffer-Stands k l = let same : 0 + k ≡ k = omega arith in ap sent_buffer same

console-reports_example :
    console headers 255 sent_buffer (receive_loop sent_buffer (length (stream messages)) 500 0)
    ≡ some (reports headers messages)
unfolding create_sflt_attach create_sflt_connect_out create_sflt_data_in create_firewall_closing
    raw_bytes copied copied_bytes needed_size
console-reports_example =
    console-reports headers 255 sent_buffer (length (stream messages)) 500 messages (omega arith)
      (
        process-InOrigin,
        (
          (process-InOrigin, ((record { counted = omega arith }, omega arith), omega arith)),
          ((process-InOrigin, (tt, tt)), (tt, tt)),
        ),
      )
      sent_buffer-Stands refl (omega arith)

-- All calls of Open succeed.
abbrev calls : Calls
calls = record {
  socket = number 3;
  ioctl_works = true;
  connect = true;
  attr_init = true;
  thread_starts = true;
}

opened-Reach : Reach start 0 (record start {
  pc = opened;
  connection = (open_connection calls true true new_connection).1;
  threads = 1;
})
unfolding open_connection
opened-Reach = next here (opens calls refl refl)

-- The user closes the connection, and main wakes up spuriously before the thread has ended.
Reach-returned_example :
    let closed = (close_connection true (open_connection calls true true new_connection).1).1 in
    let t : Program = record {
      pc = returned;
      connection = closed;
      user_closed = true;
      threads = 1;
    } in
    (t.user_closed ≡ true) × (t.threads ≤ 1)
unfolding open_connection close_connection
Reach-returned_example =
    let closed = (close_connection true (open_connection calls true true new_connection).1).1 in
    Reach-returned 1
      (record { pc = returned; connection = closed; user_closed = true; threads = 1 })
      (next
        (next (next (next opened-Reach (waits refl)) (signal true (cc))) (wakes_spuriously refl))
        (leaves refl))
      refl

-- The thread ends before main waits.
Reach-Future_example :
    let ended = end_thread (open_connection calls true true new_connection).1 in
    Future (record start { pc = waiting; connection = ended })
unfolding open_connection end_thread
Reach-Future_example =
    let ended = end_thread (open_connection calls true true new_connection).1 in
    Reach-Future 0 (record start { pc = waiting; connection = ended })
      (next (next opened-Reach (thread_ends (omega arith))) (waits refl)) refl
