-- ===== src/Lifecycle/Stop.antt =====
-- The stop of the extension (Kext/firewall.cpp, Firewall::Free), beside the threads that use it.
use watchfirewall.Prelude.{ℕ, ◌<◌, ◌≡◌, ◌⊎◌, Bool, true, false, List, length}
use watchfirewall.Links.{Ptr}
use watchfirewall.Firewall.Broadcast.{HasClients}
use watchfirewall.Lifecycle.{State, set_firewall}
use watchfirewall.Lifecycle.Watch.{Stopping}
use watchfirewall.Lifecycle.TakeDown.{Closing, Refused}

-- The clients that the closing message goes to, where clients can connect at all.
abbrev pub Reachable : ℕ → State → Type 0
Reachable n s =
    ((s.extension.firewall.lock_clients_queue ≡ false) × (s.kernel_control ≡ false))
    ⊎ ((clients : List Ptr) × HasClients s.extension.firewall clients × (length clients < n))

abbrev pub closed : State → State
closed s = set_firewall (record (s.extension.firewall) { closing = true }) s

-- The rest is intact; with the result true no client can connect any more, and false has its reason.
abbrev Waited : Stopping → (handles : List ℕ) → Bool × State → Type 0
Waited k handles p =
    Closing k.env.fuel handles p.1
    × (p.0 ≡ true
        → (p.1.extension.firewall.lock_clients_queue ≡ false) × (p.1.kernel_control ≡ false))
    × (p.0 ≡ false → Refused k p.1)
