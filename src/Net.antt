-- ===== src/Net.antt =====
-- IPv4 addresses and CIDR blocks in text: the part of package net that the program's lookups
-- and keys rest on (src/control_plane/map_manager.go).
pub mod Decimal
pub mod Addr
pub mod Lpm
