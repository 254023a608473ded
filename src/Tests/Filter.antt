-- ===== src/Tests/Filter.antt =====
-- The callbacks of the socket filter (Kext/firewall.cpp) at two clients, one application and one cookie.
use watchfirewall.Prelude.{◌≡◌, refl, [], ◌∷◌, true, false, none, arith, ◌==◌, if◌then◌else◌}
use watchfirewall.Kernel.{plain_atomics}
use watchfirewall.Links.{null}
use watchfirewall.Messages.{Message, Origin}
use watchfirewall.Firewall.{kern_success}
use watchfirewall.Firewall.Broadcast.{reached}
use watchfirewall.Filter.{SocketCookie, SockKind, Extension, returns, panics, detach}
use watchfirewall.Filter.Callbacks.{
  listens, data_comes, type_of, call, is_silent, call-reached, call-panics,
}
use watchfirewall.Filter.Detach.{Detached, detach-Detached}
use watchfirewall.Tests.Applications.{one_application}
use watchfirewall.Tests.Cookies.{one_cookie, one_cookie-IsCookies}
use watchfirewall.Tests.Firewall.{two_clients, two_clients-HasClients, kernel}

abbrev process : Origin
process = record { pid = 101; uid = 501; so = 9 }

abbrev tcp : SockKind
tcp = record { domain = 2; type = 1; protocol = 6 }

abbrev idle_cookie : SocketCookie
idle_cookie = record {
  application = 5;
  state = 4;
  socket = 8;
  sock_domain = 2;
  sock_type = 1;
  sock_protocol = 6;
  deferred = record {
    head = null;
    last = null;
    next = λ p. null;
    item = λ p. record {
      packet = null;
      control = null;
      flags = 0;
      direction = false;
      socket_address = none;
    };
  };
  rule = null;
  from = none;
  to = none;
}

abbrev pub one_socket : Extension
one_socket = record {
  firewall = two_clients;
  applications = one_application;
  socket_cookies = one_cookie;
  cookie = λ p. idle_cookie;
  live = λ p. p == 5;
  mbufs = [];
}

call-reached_example :
    (m : Message) × (m.type ≡ type_of (data_comes 5 none))
    × (call kernel true process (λ p. idle_cookie) (data_comes 5 none) two_clients
        ≡ returns (
          kern_success,
          if is_silent two_clients then two_clients else reached kernel m (1 ∷ 2 ∷ []) two_clients,
        ))
call-reached_example =
    call-reached kernel two_clients (1 ∷ 2 ∷ []) two_clients-HasClients (omega arith) process
      (λ p. idle_cookie) (data_comes 5 none) refl

call-panics_example : call kernel false process (λ p. idle_cookie) listens two_clients ≡ panics
call-panics_example =
    call-panics kernel two_clients refl (omega arith) process (λ p. idle_cookie) listens

detach-Detached_example :
    (y : Extension) × (detach plain_atomics kernel true 5 process one_socket ≡ returns y)
    × Detached plain_atomics kernel 5 one_socket y (1 ∷ 2 ∷ []) [] []
detach-Detached_example =
    detach-Detached plain_atomics kernel 5 process one_socket (1 ∷ 2 ∷ []) [] [] [] (omega arith)
      two_clients-HasClients (omega arith) one_cookie-IsCookies
      (record { chain = refl; distinct = tt; ends = refl }) (omega arith)
