-- ===== src/Net.antt =====
-- src/myfcp/fcp_net.c: local addresses, the ARP table, the connections of /proc/net, and ping.
pub mod Local
pub mod Arp
pub mod Holder
pub mod Connections
pub mod Ping
mod Examples
