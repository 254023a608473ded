-- ===== src/Console.antt =====
-- The console program of ConsoleTest, which prints what the extension sends.
pub mod PortNames
pub mod Names
pub mod Handler
pub mod Fields
pub mod Address
pub mod Events
pub mod Sent
pub mod Report
pub mod Lines
pub mod Prints
pub mod Stream
pub mod Main
