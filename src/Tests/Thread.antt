-- ===== src/Tests/Thread.antt =====
-- The thread of a client (Kext/client.cpp) that starts, while somebody sends to the client.
use watchfirewall.Prelude.{◌≡◌, ◌≢◌, refl, [], true, false, arith}
use watchfirewall.Kernel.{plain_atomics}
use watchfirewall.Links.{null}
use watchfirewall.Client.Thread.{System, start, Step, appends, here, later}
use watchfirewall.Client.Thread.Channel.{Channel, InOrder}
use watchfirewall.Client.Thread.Simulation.{Represents, Implements, Step-Implements}
use watchfirewall.Client.Thread.Order.{Started, Reach-InOrder, Reach-alive, node_of}
use watchfirewall.Firewall.Toggle.{activated_message}
use watchfirewall.Tests.Firewall.{idle_client}

abbrev created : System
created = record {
  client = idle_client;
  pc = start;
  live = λ p. false;
  accepted = [];
  finished = [];
}

created-Started : Started created
created-Started = record {
  at_start = refl;
  no_head = refl;
  no_last = refl;
  none_accepted = refl;
  none_finished = refl;
}

abbrev sends : (s : System) × Step plain_atomics created s
sends = (_, appends 100 (activated_message 1 5 0) (omega arith) refl)

Reach-InOrder_example : (c : Channel) × Represents sends.0 c × InOrder c
Reach-InOrder_example =
    Reach-InOrder plain_atomics created sends.0 created-Started (later here sends.1)

Reach-alive_example :
    (node_of sends.0.pc ≢ null → sends.0.live (node_of sends.0.pc) ≡ true)
    × (sends.0.client.queue.last ≢ null → sends.0.live sends.0.client.queue.last ≡ true)
Reach-alive_example = Reach-alive plain_atomics created sends.0 created-Started (later here sends.1)

abbrev empty : Channel
empty = record { accepted = []; waiting = []; finished = [] }

created-Represents : Represents created empty
created-Represents = record {
  nodes = [];
  queued = [];
  holds = record {
    flight = refl;
    queue = record { chain = refl; distinct = tt; ends = refl };
    distinct = tt;
    alive = tt;
    waits = refl;
  };
  finished_same = refl;
  accepted_same = refl;
}

Step-Implements_example : Implements empty sends.0
Step-Implements_example =
    Step-Implements {os = plain_atomics} {s = created} {t = sends.0} {c = empty} sends.1
      created-Represents
