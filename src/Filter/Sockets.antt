-- ===== src/Filter/Sockets.antt =====
-- Attach and then Detach of one socket (Kext/firewall.cpp): what is left of it.
use watchfirewall.Prelude.{ℕ, suc, ◌<◌, ◌≡◌, ◌≢◌, List, ◌∷◌, All}
use watchfirewall.Kernel.{word}
use watchfirewall.Links.{Ptr}
use watchfirewall.Links.Edit.{IsList}
use watchfirewall.Applications.{Applications}
use watchfirewall.Firewall.{Firewall}

-- The applications after a socket of a process came and went: as they were, or with one more, which
-- only the list refers to.
pub data Settled (s : Applications) (pid : ℕ) (apps : List Ptr) (a : Ptr) (t : Applications)
    : Type 0 where
  as_before :
      ((p : Ptr) → t.application p ≡ s.application p)
      → ((p : Ptr) → t.live p ≡ s.live p)
      → t.links ≡ s.links
      → Settled s pid apps a t
  one_more :
      All (λ x. (s.application x).pid ≢ pid) apps
      → t.application a ≡ record { pid = pid; references = 1 }
      → IsList t.links (a ∷ apps)
      → Settled s pid apps a t

-- A count of references that is neither exhausted nor the largest.
abbrev pub Counted : Applications → Ptr → Type 0
Counted s p = (0 < (s.application p).references) × (suc (s.application p).references < word)
