-- ===== src/Tests/Lifecycle.antt =====
-- The start and the stop of the extension (Kext/firewall.cpp) with one filter, two clients and one socket.
use watchfirewall.Prelude.{◌≡◌, refl, [], ◌∷◌, true, false, List}
use watchfirewall.Kernel.{plain_atomics}
use watchfirewall.Filter.{returns}
use watchfirewall.Lifecycle.{State, Grants, Protocol, allocated}
use watchfirewall.Lifecycle.Watch.{Stopping, init}
use watchfirewall.Lifecycle.Start.{at_load, all_granted, ComesTo, init-ComesTo}
use watchfirewall.Tests.Firewall.{kernel}
use watchfirewall.Tests.Filter.{one_socket}

-- The kernel control is refused.
abbrev no_control : Grants
no_control = record {
  cookies_lock = true;
  tag_found = true;
  rules_lock = true;
  applications_lock = true;
  routine_lock = true;
  thread_starts = true;
  listens = true;
  filter_fails = λ handle. false;
  clients_lock = true;
  control_fails = true;
}

abbrev protocols : List Protocol
protocols = record { handle = 0xBACAF000; state = false } ∷ []

init-ComesTo_example :
    (s : State) × (init plain_atomics 4 (λ handle. false) no_control (at_load one_socket protocols)
      ≡ returns (all_granted no_control, s))
    × ComesTo no_control (λ handle. false) protocols (all_granted no_control) s
init-ComesTo_example =
    init-ComesTo plain_atomics 3 (λ handle. false) no_control one_socket protocols refl

abbrev running : State
running = record {
  extension = one_socket;
  cookies_lock = allocated;
  rules_lock = allocated;
  applications_lock = allocated;
  routine_lock = allocated;
  thread = true;
  process_listener = true;
  kernel_control = true;
  protocols = protocols;
}

abbrev alone : Stopping
alone = record {
  env = kernel;
  message_fits = true;
  others = λ s. s;
  deregister_fails = false;
  unregister_fails = λ handle. false;
}
