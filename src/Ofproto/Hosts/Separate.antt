-- ===== src/Ofproto/Hosts/Separate.antt =====
-- Next-hop indices that are apart from each other, whichever of them are free.
use switchd_fpa_plugin.Ofproto.Hosts.{HostKey}
use switchd_fpa_plugin.Prelude.{ℕ, ◌≡◌, List, some, ◌∷◌, arith, Option-cases, inl, inr, find, subst}
use switchd_fpa_plugin.Fpa.{Fpa}
use switchd_fpa_plugin.Ofproto.Hosts.{HostState, HostEntry, is_host, host_table_find, remove_host}
use switchd_fpa_plugin.Ofproto.Hosts.Indices.{IsSeparate, remove_host-IsSeparate, find-is_host}

module _ (F : Fpa) where
  -- No next-hop index is both free and a host's, and no two hosts share one.
  abbrev pub AreSeparate : HostState F → Type 0
  AreSeparate st = (free : List ℕ) × IsSeparate F free st

  pub unmoved :
      (st new : HostState F)
      → new.arp_indices ≡ st.arp_indices
      → new.host_table ≡ st.host_table
      → AreSeparate st
      → AreSeparate new
  unmoved st new a h (free, sep) =
      (free, record { free_list = rw a sep.free_list; owned = rw (a, h) sep.owned })

  pub remove_host-AreSeparate :
      (key : HostKey) (sid ip : ℕ) (entry : HostEntry) (st : HostState F)
      → host_table_find key ip st.host_table ≡ some entry
      → AreSeparate st
      → AreSeparate (remove_host F key sid entry st)
  unfolding host_table_find
  remove_host-AreSeparate key sid ip entry st found (free, sep) =
      elim (Option-cases (find (is_host key ip) st.host_table)) [
        | inl absent ↦ absurd (ground (arith, found, absent))
        | inr (n, at) ↦
            let same : n.entry ≡ entry = ground (arith, found, at) in
            subst (λ e. AreSeparate (remove_host F key sid e st)) same
              (
                n.entry.arp_index ∷ free,
                remove_host-IsSeparate F key sid ip n free st at
                    (find-is_host F key ip st.host_table n at) sep,
              )
      ]
