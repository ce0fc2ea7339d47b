-- ===== src/Dataplane/Cycles.antt =====
-- What Cycle of CoreEncapWorker, CoreGretermWorker and CoreGtpu2GreWorker does with each packet of a
-- burst (dataplane/src/core/core_encap_worker.cc, core_greterm_worker.cc, core_gtpu2gre_worker.cc),
-- with the tests is_arp_or_innericmp and check_decapability of
-- dataplane/inc/mixi_pgw_data_plane_def.hpp. Its two loops, with and without prefetching, do the same.
pub mod Counted
use mixi_pgw.Prelude.{
  ℕ, ◌+◌, ◌*◌, ◌%◌, Bool, true, false, not, ◌&&◌, ◌||◌, ◌==◌, if◌then◌else◌, Option, none, some,
  List, [], ◌∷◌, htons,
}
use mixi_pgw.Dataplane.Distributor.{ether_type_ipv4, ipproto_udp, gtpu_port}
use mixi_pgw.Dataplane.Mbuf.{Mbuf, Rte, mtod, le16, le32}
use mixi_pgw.Dataplane.Encap.{Drops, Verdict, Modified, sent, freed, queued_and_sent, inc}
use mixi_pgw.Dataplane.Encap.Outer.{Encapper, encap_modify_packet}
use mixi_pgw.Dataplane.Decap.{ipproto_gre, greterm_modify_packet}
use mixi_pgw.Dataplane.Gre.{gtpu2gre_modify_packet}

-- RTE_PTYPE_L2_MASK & packet_type: RTE_PTYPE_L2_ETHER, RTE_PTYPE_L2_ETHER_VLAN, another known type, and
-- RTE_PTYPE_UNKNOWN
pub data L2Type : Type 0 where
  l2_ether l2_ether_vlan l2_known l2_unknown : L2Type

-- PACKET_TYPE of these tests
pub data Route : Type 0 where
  route_pass route_vlan route_encap route_decap : Route

-- ETHER_TYPE_IPv6, ETHER_TYPE_VLAN; the IP protocols TCP, ICMP, OSPF and ICMPv6
abbrev pub ether_type_ipv6 : ℕ
ether_type_ipv6 = 0x86dd

abbrev pub ether_type_vlan : ℕ
ether_type_vlan = 0x8100

-- The header behind an IPv4 header, whose length is in its first octet.
abbrev pub behind_ip : Mbuf → ℕ
behind_ip m = 14 + mtod m 14 % 0x10 * 4

-- ip4->dst_addr & 0x000000ff
abbrev pub is_user_addr : Mbuf → Bool
is_user_addr m = le32 (mtod m) 30 % 0x100 == 0x0a

-- rte_cpu_to_be_16(port)
abbrev pub port_at : Mbuf → ℕ → ℕ
port_at m i = htons (le16 (mtod m) i)

-- eBGP that is not a subscriber's
unfoldable pub is_ebgp : Mbuf → Bool
is_ebgp m =
    (port_at m (behind_ip m + 2) == 179 || port_at m (behind_ip m) == 179) && not (is_user_addr m)

unfoldable pub is_bfd : Mbuf → Bool
is_bfd m = port_at m (behind_ip m + 2) == 3784 && mtod m 22 == 255

unfoldable pub route_ipv4 : Mbuf → Route
route_ipv4 m =
    if mtod m 23 == 6
    then (if is_ebgp m then route_pass else route_encap)
    else if mtod m 23 == ipproto_udp
    then (if is_bfd m then route_pass else route_encap)
    else if mtod m 23 == 89
    then route_pass
    else if mtod m 23 == 1
    then (if is_user_addr m then route_encap else route_pass)
    else route_encap

-- ICMPv6 with the hop limit 255 is the routers' own.
unfoldable pub route_ipv6 : Mbuf → Route
route_ipv6 m = if mtod m 20 == 58 && mtod m 21 == 0xff then route_pass else route_encap

unfoldable pub by_ether_type : Mbuf → Route
by_ether_type m =
    let eth_type = le16 (mtod m) 12 in
    if eth_type == htons ether_type_ipv4
    then route_ipv4 m
    else if eth_type == htons ether_type_ipv6
    then route_ipv6 m
    else if eth_type == htons ether_type_vlan
    then route_vlan
    else route_pass

-- what the type of the second layer decides, else `other`
unfoldable pub by_l2_type : L2Type → Route → Route
by_l2_type l2_ether other = other
by_l2_type l2_ether_vlan other = route_vlan
by_l2_type l2_known other = route_pass
by_l2_type l2_unknown other = other

unfoldable pub is_arp_or_innericmp : L2Type → Mbuf → Route
is_arp_or_innericmp l2 m = by_l2_type l2 (by_ether_type m)

-- check_decapability on IPv4: none is the end of the function without a return. With use_gre the test for
-- UDP has an empty body.
unfoldable pub capsule_route : Bool → Mbuf → Option Route
capsule_route true m =
    if mtod m 23 == ipproto_udp
    then none
    else some (if mtod m 23 == ipproto_gre then route_decap else route_pass)
capsule_route false m = some (
    if mtod m 23 == ipproto_udp && port_at m (behind_ip m + 2) == gtpu_port
    then route_decap
    else route_pass)

unfoldable pub check_decapability : Bool → L2Type → Mbuf → Option Route
unfolding capsule_route
check_decapability use_gre l2_ether_vlan m = some route_vlan
check_decapability use_gre l2_known m = some route_pass
check_decapability use_gre _ m =
    let eth_type = le16 (mtod m) 12 in
    if eth_type == htons ether_type_ipv4
    then capsule_route use_gre m
    else some (if eth_type == htons ether_type_vlan then route_vlan else route_pass)

-- a tagged packet: counted and given back
unfoldable pub drop_vlan : Drops → Mbuf → Modified Drops
unfolding inc
drop_vlan c m = record { mbuf = m; worker = inc m.pkt_len c; verdict = freed }

-- CoreEncapWorker::Cycle on one packet
unfoldable pub encap_one : Rte → L2Type × Mbuf → Encapper → Modified Encapper
unfolding is_arp_or_innericmp drop_vlan encap_modify_packet
encap_one rte (l2, m) w = elim (is_arp_or_innericmp l2 m) [
  | route_pass ↦ record { mbuf = m; worker = w; verdict = sent }
  | route_vlan ↦
      let r = drop_vlan w.counter m in
      record { mbuf = r.mbuf; worker = record w { counter = r.worker }; verdict = r.verdict }
  | _ ↦ encap_modify_packet rte w m
]

-- CoreGtpu2GreWorker::Cycle on one packet
unfoldable pub gtpu2gre_one : ℕ → L2Type × Mbuf → Drops → Modified Drops
unfolding is_arp_or_innericmp drop_vlan gtpu2gre_modify_packet
gtpu2gre_one pgwipv4 (l2, m) c = elim (is_arp_or_innericmp l2 m) [
  | route_pass ↦ record { mbuf = m; worker = c; verdict = sent }
  | route_vlan ↦ drop_vlan c m
  | _ ↦ record { mbuf = gtpu2gre_modify_packet pgwipv4 m; worker = c; verdict = sent }
]

-- CoreGretermWorker::Cycle on one packet
unfoldable pub greterm_one : Bool → Rte → L2Type × Mbuf → Drops → Option (Modified Drops)
unfolding check_decapability drop_vlan greterm_modify_packet
greterm_one use_gre rte (l2, m) c = elim (check_decapability use_gre l2 m) [
  | none ↦ none
  | some route_pass ↦ some (record { mbuf = m; worker = c; verdict = sent })
  | some route_vlan ↦ some (drop_vlan c m)
  | some _ ↦ some (greterm_modify_packet use_gre rte c m)
]

-- The worker after a burst, and what went to SendOrBuffer.
pub record Burst : Type 0 where
  pub worker : Encapper
  pub output : List Mbuf

-- `if (ModifyPacket(input_[n]) == 0) SendOrBuffer(arg, input_[n])`
unfoldable pub collect : Verdict → Mbuf → Burst → Burst
collect sent m b = record b { output = m ∷ b.output }
collect queued_and_sent m b = record b { output = m ∷ b.output }
collect _ m b = b

-- The loops of CoreEncapWorker::Cycle over the packets that came out of the ring
unfoldable pub encap_cycle : Rte → List (L2Type × Mbuf) → Encapper → Burst
unfolding collect
encap_cycle rte [] w = record { worker = w; output = [] }
encap_cycle rte (x ∷ rest) w =
    let r = encap_one rte x w in collect r.verdict r.mbuf (encap_cycle rte rest r.worker)
