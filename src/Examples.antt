-- ===== src/Examples.antt =====
-- Concrete instances of what the program does not implement, and the theorems at concrete inputs.
pub mod Letters
pub mod Codecs
pub mod Tables
pub mod Escaping
pub mod Memory
pub mod Relay
pub mod Links
