-- ===== src/Tests/Configured.antt =====
-- A bundle that is set after VLAN 6 has been enabled.
use switchd_fpa_plugin.Prelude.{◌≡◌, refl, true, some, arith}
use switchd_fpa_plugin.Prelude.Bitmap.{Bitmap, empty, diff, put}
use switchd_fpa_plugin.Vlan.{vlan_add, vlan_del, vlan_fetch}
use switchd_fpa_plugin.Vlan.Vidx.{
  vmap_bits, vidx_vid, vidx_is_egress, vidx_arg, vidx_ingress, vidx_egress,
}
use switchd_fpa_plugin.Netdev.{NetdevClass}
use switchd_fpa_plugin.Ofproto.Vlans.{wanted, apply_vidx, set_vlan, set_vlan_bundles}
use switchd_fpa_plugin.Ofproto.Vlans.Reconfigure.{IsQuiet, all_accepted}
use switchd_fpa_plugin.Ofproto.Bundles.{find_bundle}
use switchd_fpa_plugin.Ofproto.Bundles.Set.{OfprotoState, bundle_set}
use switchd_fpa_plugin.Ofproto.Bundles.Configure.{IsFor}
use switchd_fpa_plugin.Ofproto.Bundles.L2.{Applies}
use switchd_fpa_plugin.Calls.Reach.{with_vlan, Step, Reached}
use switchd_fpa_plugin.Calls.Configured.{Reached-bundle_set}
use switchd_fpa_plugin.Tests.Setting.{F, blank, O, E, key, inet_addr}
use switchd_fpa_plugin.Tests.Switch.{L, G, R, I, in_5, port_3, access_5, enabled_5, nothing_read}
use switchd_fpa_plugin.Tests.Bundles.{settings, bridge}
use switchd_fpa_plugin.Tests.Reach.{I3, bridge-IsSafe, blank-IsSound}

abbrev both : Bitmap
both = put enabled_5 6 true

abbrev with_6 : OfprotoState F O key E inet_addr
with_6 = record bridge { vlans = both }

six_enabled : with_6 ≡ with_vlan F O key E inet_addr 6 true bridge
unfolding set_vlan set_vlan_bundles
six_enabled = refl

path : Reached F O key E inet_addr bridge with_6
path = Reached.later Reached.start (Step.sets_vlan 6 true (omega arith) six_enabled)

new-IsFor : IsFor F O key E inet_addr (find_bundle 1 with_6.bundles) settings with_6.host port_3
unfolding find_bundle
new-IsFor = (NetdevClass.system, refl, refl, refl)

both-IsQuiet : IsQuiet both (vlan_fetch F 0 3 blank) (wanted access_5)
both-IsQuiet a b lt gone cleared other = ground (arith, nothing_read a, gone)

both_accepted :
    all_accepted F 0 3 both
      (wanted access_5)
      (diff (vlan_fetch F 0 3 blank) (wanted access_5))
      vmap_bits
      0
      (record { hw = blank; vmap = empty })
    ≡ true
unfolding all_accepted wanted vlan_fetch vidx_vid vidx_arg vidx_is_egress vidx_ingress vidx_egress
    vlan_add vlan_del apply_vidx
both_accepted = refl

Reached-bundle_set_example :
    Applies F L G R I O key E inet_addr 1 settings port_3 with_6 in_5 0 4 in_5
      (bundle_set F O key E inet_addr 1 (some settings) with_6)
Reached-bundle_set_example =
    Reached-bundle_set F O L G R I I3 key E inet_addr bridge with_6 path bridge-IsSafe blank-IsSound
      1 settings port_3 refl refl refl new-IsFor (omega arith) (omega arith) (omega arith)
      both-IsQuiet both_accepted in_5 0 4 in_5 (omega arith) refl
