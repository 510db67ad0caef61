-- ===== src/Net.antt =====
-- The network stack of net/: one module for each part of it.
pub mod State
pub mod Clock
pub mod Eth
pub mod Cksum
pub mod Header
pub mod Arp
pub mod Send
pub mod Text
pub mod Printed
pub mod Ping
pub mod Tftp
pub mod Receive
pub mod Loop
pub mod Keeps
pub mod Quick
pub mod Untouched
pub mod Delivery
pub mod Deferral
pub mod Sample
