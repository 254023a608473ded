-- ===== src/Console/PortNames.antt =====
-- getPortName of ConsoleTest/portNames.cpp: the names of the ports below 1024.
pub mod From0
pub mod From157
pub mod From374
pub mod From515
pub mod From657
use Prim.Native.String.{String}
use watchfirewall.Prelude.{
  ℕ, ◌≡◌, refl, List, [], ◌∷◌, ◌++◌, true, switch, switch-Chosen, Chosen, increasing,
  increasing-Distinct, labels,
}
use watchfirewall.Console.PortNames.From0.{names_from_0}
use watchfirewall.Console.PortNames.From157.{names_from_157}
use watchfirewall.Console.PortNames.From374.{names_from_374}
use watchfirewall.Console.PortNames.From515.{names_from_515}
use watchfirewall.Console.PortNames.From657.{names_from_657}

-- The cases of the switch.
unfoldable pub port_names : List (ℕ × String)
unfolding names_from_0 names_from_157 names_from_374 names_from_515 names_from_657
port_names =
    names_from_0 ++ (names_from_157 ++ (names_from_374 ++ (names_from_515 ++ names_from_657)))

unfoldable pub get_port_name : ℕ → String
unfolding switch port_names
get_port_name port = switch port_names "" port

increasing-port_names : increasing (labels port_names) ≡ true
unfolding port_names increasing
increasing-port_names = refl

-- The name of a port stands at the one case whose label is the port; where there is no such case, it is empty.
pub get_port_name-Chosen : (port : ℕ) → Chosen port_names "" port (get_port_name port)
unfolding get_port_name
get_port_name-Chosen port =
    switch-Chosen port_names "" port (increasing-Distinct (labels port_names) increasing-port_names)
