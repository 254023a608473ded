-- ===== src/Tests/Batch.antt =====
-- KcSend (Kext/firewall.cpp) on two requests, as their Init functions make them.
use watchfirewall.Prelude.{◌+◌, ◌≡◌, refl, ap, List, [], ◌∷◌, arith, length}
use watchfirewall.Kernel.{plain_atomics}
use watchfirewall.Messages.Requests.{Request, activate_firewall, delete_rule}
use watchfirewall.Firewall.Request.{Memory}
use watchfirewall.Firewall.Reads.{nth, Stands}
use watchfirewall.Firewall.KcSend.{kc_send}
use watchfirewall.Firewall.Batch.{encode_all, run_all, succeeded, kc_send-run_all}
use watchfirewall.Tests.Firewall.{two_clients, kernel}

abbrev requests : List Request
requests = activate_firewall 7 ∷ delete_rule 8 5 ∷ []

abbrev buffer : Memory
buffer = nth (encode_all requests)

buffer-Stands : Stands buffer 0 (encode_all requests)
buffer-Stands k l = let same : 0 + k ≡ k = omega arith in ap buffer same

kc_send-run_all_example :
    kc_send plain_atomics 1 buffer (λ at. kernel) 3 (length (encode_all requests)) two_clients
    ≡ succeeded (run_all plain_atomics 1 (λ at. kernel) 0 requests two_clients)
kc_send-run_all_example =
    kc_send-run_all plain_atomics 1 (λ at. kernel) buffer 3 requests two_clients refl (omega arith)
      (omega arith, ((omega arith, omega arith), tt)) buffer-Stands (omega arith) (omega arith)
