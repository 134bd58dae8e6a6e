-- ===== src/Network.antt =====
-- kernel/network: byte order, checksums, addresses, resources between layers, Ethernet, ARP, IP,
-- ICMP, UDP and TCP.
pub mod Arp
pub mod Bytes
pub mod Checksum
pub mod Ethernet
pub mod Icmp
pub mod Ip
pub mod Ipv4
pub mod Link
pub mod Udp
pub mod Tcp
