-- ===== src/Ofproto.antt =====
-- src/ops-fpa-ofproto.c, part by part: ports by their identifier, the VLANs of a port, hosts and
-- routes, bundles, and the ofprotos themselves.
pub mod Ports
pub mod Vlans
pub mod ArpIndices
pub mod Hosts
pub mod Bundles
pub mod Protos
