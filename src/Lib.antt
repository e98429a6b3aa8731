-- ===== src/Lib.antt =====
-- The switchd plugin for switches with Marvell's FPA library: how the configuration of OpenSwitch
-- (ports, VLANs, bridges with routing, hosts, routes) becomes entries of the switch's flow and
-- group tables, how the addresses that the switch learns are handed to the bridge, and how packets
-- pass between the switch and the TAP interfaces of its ports.
--
-- The parts and their files:
--   Prelude     names of the libraries, Boolean tests, lists over native numbers, bit laws, the
--               numbers of errno.h, and OVS bitmaps with the loop over their set bits.
--   Hmap        the hash maps of Open vSwitch, which are not part of the repository: a parameter, of
--               which an insertion may change the order of all nodes, and nothing else. The ports by
--               number, the hosts and the learned addresses are kept so, each as the list of its nodes
--               in the order in which it is walked; the hash function of the hosts is a parameter
--               beside it, in the record `HostKey` of Ofproto/Hosts. The maps of interfaces, bundles,
--               ofprotos and events are lists with a new node first; that they may grow, which can
--               only exchange nodes, is not modelled (the maps of events have their room reserved).
--   Fpa         the FPA library, which is not part of the repository: a record `Fpa` of its calls and
--               constants over a state `Hw` of the switch, a parameter of every definition that calls
--               it. Fpa/Laws says what the theorems assume of the calls (the tables read as lists);
--               Fpa/Sim is a simulated switch for which the laws are proved, Fpa/Ports the calls on the
--               properties of a port.
--   Os          the calls of the operating system, a parameter too, and `ops_fpa_system` of
--               src/ops-fpa-util.c.
--   Wrap        src/ops-fpa-wrap.c, the logged calls of the library.
--   Route       src/ops-fpa-route.c: L2 and L3 groups and route entries
--               (`ops_fpa_route_add_l2_group` is `add_l2_group`, and so on).
--   Vlan        src/ops-fpa-vlan.c and include/ops-fpa-vlan.h: the identifiers of a port's VLANs
--               (Vlan/Vidx; Vlan/Vidx/Exact as triples), reading them from the switch (`ops_fpa_vlan_fetch`), adding and deleting
--               one, and the internal VLANs. A theorem speaks of `l2_state`, the identifiers for which
--               the tables hold an entry of a port.
--   Routing     src/ops-fpa-routing.c: the four flow entries that make a VLAN routed, the clean-up
--               labels, and disabling (`enable_routing_vlan`, `disable_routing`).
--   Ofproto     src/ops-fpa-ofproto.c: the ports by their number (Ofproto/Ports), the VLANs of a port
--               in `ops_fpa_ofproto_bundle_set` and `ops_fpa_ofproto_set_vlan` (Ofproto/Vlans; Everywhere
--               for all bundles, Flap for a VLAN that goes and comes back), the free list of next-hop
--               indices (Ofproto/ArpIndices), hosts and routes (Ofproto/Hosts), the bundles and
--               `ops_fpa_ofproto_bundle_set` as a whole (Ofproto/Bundles; L2 on a bridge, L3 on a VRF),
--               the list of ofprotos and the commands on learned addresses (Ofproto/Protos).
--   MacLearning src/ops-fpa-mac-learning.c: the table of learned addresses, the two buffers of
--               events, and the steps of the handler thread and the timer.
--   Tap         src/ops-fpa-tap.c: the packet buffers with the 802.1Q tag (Tap/Frame), the maps of
--               interfaces and the commands between the threads (Tap/Maps), what the two listeners do
--               with a packet (Tap/Listeners), and the interfaces themselves (Tap/Interfaces). Tap/Sync
--               has the steps of the main thread and the listeners.
--   Dev         src/ops-fpa-dev.c and include/ops-fpa-dev.h: the device, its lock, and opening and
--               closing it (Dev/Lifetime).
--   Netdev      src/ops-fpa-netdev.c: configuration and state of the ports, the features of a port
--               (Netdev/Features), the addresses (Netdev/Macs), and the four classes with their getters
--               (Netdev/Classes, Netdev/Again).
--   Strings     src/ops-fpa.c: numbers, addresses and masks in text.
--   Calls       what Vlan, Route, Routing and Ofproto ask of the switch, as sequences of calls of the
--               library, and the calls of the bridge on an ofproto in any order (Calls/Reach), with a
--               bundle set after them (Calls/Configured).
--   Tests       runs on the simulated switch, and the theorems at concrete inputs.
--
-- Ofproto calls Vlan, Route, Routing, MacLearning, Strings, Tap and Dev; Netdev calls Tap, and Tap and
-- Dev call each other; Vlan, Route and Routing call the library, in part through Wrap. State is passed
-- explicitly: a function takes the switch and the globals that it uses and returns them beside its
-- status. `none` as a result is a failed assertion or a NULL pointer that is followed.
--
-- Numbers are natural numbers; a C int that is a status, a port or a VLAN is its bit pattern. An
-- `unsigned long` counter wraps around at 2^64, and a shift that C leaves undefined gives a value of
-- the record `Fpa`. The loops that read a table run on fuel, one more than the capacity of the switch,
-- which is enough by the theorem on `vlan_fetch`; the other loops run over a list or an index range.
-- Text is the list of its bytes, and a packet a function from an address in its buffer to a byte.
--
-- Not modelled: log messages, memory, and the threads themselves (a locked section of MacLearning
-- is one step, in Dev and Tap the lock is a part of the state, and whether a listener ends is read
-- off what its control pipe holds when the wait for it begins); the text that the commands of
-- unixctl print; the callbacks of an ofproto that return a constant; the registration of the
-- plugin; spanning tree groups, which the plugin does not implement. Settings come as values, with
-- text only where the plugin itself reads it.
pub mod Calls
pub mod Dev
pub mod Fpa
pub mod Hmap
pub mod MacLearning
pub mod Netdev
pub mod Ofproto
pub mod Os
pub mod Prelude
pub mod Route
pub mod Routing
pub mod Strings
pub mod Tap
pub mod Tests
pub mod Vlan
pub mod Wrap
