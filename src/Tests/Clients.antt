-- ===== src/Tests/Clients.antt =====
-- The clients and message queues of Kext/client.cpp at concrete inputs.
use watchfirewall.Prelude.{◌≡◌, ◌↔◌, ◌⊎◌, refl, [], ◌∷◌, true, arith}
use watchfirewall.Prelude.Bits.{bit}
use watchfirewall.Kernel.{plain_atomics}
use watchfirewall.Queue.Contents.{IsQueue, items}
use watchfirewall.Client.{unregister_message_classes, send}
use watchfirewall.Client.Classes.{unregister_message_classes_lem}
use watchfirewall.Client.Receive.{Takes, send-IsQueue}
use watchfirewall.Firewall.Toggle.{activated_message}
use watchfirewall.Tests.Firewall.{idle_client}

unregister_message_classes_lem_example :
    let (gone, c') = unregister_message_classes plain_atomics 2048 idle_client in
    (bit 11 c'.registred_message_clases ≡ 1)
    × ((gone ≡ true) ↔ (bit 11 idle_client.registred_message_clases ≡ 0))
    × (c'.queue ≡ idle_client.queue)
unregister_message_classes_lem_example =
    unregister_message_classes_lem plain_atomics idle_client 11 11 (omega arith) (omega arith)

send-IsQueue_example :
    (Takes idle_client 100 (activated_message 1 5 0)
      × IsQueue (send 100 (activated_message 1 5 0) idle_client).queue (100 ∷ [])
      × (items (send 100 (activated_message 1 5 0) idle_client).queue (100 ∷ [])
          ≡ activated_message 1 5 0 ∷ []))
    ⊎ ((¬ Takes idle_client 100 (activated_message 1 5 0))
        × (send 100 (activated_message 1 5 0) idle_client ≡ idle_client))
send-IsQueue_example =
    send-IsQueue 100 (activated_message 1 5 0) idle_client [] tt
      (record { chain = refl; distinct = tt; ends = refl })
